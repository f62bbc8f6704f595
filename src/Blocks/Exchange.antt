-- ===== src/Blocks/Exchange.antt =====
-- A block that one grid's owner serialises arrives in another grid.
use university_coursework.Base.{
  ℕ, zero, suc, ◌+◌, ◌*◌, ◌≤◌, ◌<◌, ◌≡◌, refl, sym, ap, ◌∙◌, true, some, List, leb, length, arith,
  inl, get_or, span, write_all, length-span, length-write_all, get_or-span, get_or-write_inside,
  get_or-write_outside, ℕ_discrete,
}
use university_coursework.Lcs.{Cell, Grid, blank}
use university_coursework.Lcs.Fill.{IsValid, index, held, row_apart, grid_cell_lem}
use university_coursework.Blocks.{memcpy, serialize_from}

pub memcpy_lem :
    (dst : List Cell) (to : ℕ) (src : List Cell) (from n : ℕ)
    → from + n ≤ length src
    → to + n ≤ length dst
    → memcpy dst to src from n ≡ some (write_all dst to (span blank src from n))
unfolding memcpy
memcpy_lem dst to src from n hs hd =
    let reads : leb (from + n) (length src) ≡ true = ground arith in
    let writes : leb (to + n) (length dst) ≡ true = ground arith in rw (reads, writes) refl

pub copied :
    (dst : List Cell) (to : ℕ) (src : List Cell) (from n b : ℕ)
    → to + n ≤ length dst
    → b < n
    → get_or (write_all dst to (span blank src from n)) (to + b) blank ≡ get_or src (from + b) blank
copied dst to src from n b hd hb =
    get_or-write_inside dst to (span blank src from n) b blank
      (omega (arith, length-span blank src from n)) (omega (arith, length-span blank src from n))
    ∙ get_or-span blank src from n b hb

kept_before :
    (dst : List Cell) (to : ℕ) (src : List Cell) (from n k : ℕ)
    → k < to
    → get_or (write_all dst to (span blank src from n)) k blank ≡ get_or dst k blank
kept_before dst to src from n k h =
    get_or-write_outside dst to (span blank src from n) k blank (inl h)

pub row_end :
    (g : Grid) (v : IsValid g) (i x w : ℕ)
    → i ≤ g.n
    → x + w ≤ g.m + 1
    → index g i x + w ≤ length g.cells
row_end g v i x w hi hx =
    let next = row_apart (g.m + 1) i (suc g.n) (omega arith) in
    let total : (g.m + 1) * suc g.n ≡ (g.m + 1) * (g.n + 1) =
      ap (λ k. (g.m + 1) * k) (omega arith) in
    omega (arith, v.size)

-- The rows of a block from `i` on, one after the other.
pub record Packed (g : Grid) (y x w i rounds : ℕ) (before out : List Cell) : Type 0 where
  pub size : length out ≡ length before
  pub rows :
      (a b : ℕ)
      → i ≤ a
      → a < i + rounds
      → b < w
      → get_or out (w * a + b) blank ≡ held g (y + a) (x + b)
  pub kept : (k : ℕ) → k < w * i → get_or out k blank ≡ get_or before k blank

pub serialize_from_lem :
    (g : Grid) (y x w i rounds : ℕ) (s : List Cell)
    → IsValid g
    → y + i + rounds ≤ g.n + 1
    → x + w ≤ g.m + 1
    → 0 < w
    → w * (i + rounds) ≤ length s
    → (out : List Cell) × (serialize_from g y x w i rounds s ≡ some out)
      × Packed g y x w i rounds s out
unfolding serialize_from
serialize_from_lem g y x w i zero s v hy hx hw room = (
  s,
  refl,
  record { size = refl; rows = λ a b lo hi hb. absurd (omega arith); kept = λ k h. refl },
)
serialize_from_lem g y x w i (suc rounds) s v hy hx hw room =
    let from = index g (y + i) x in
    let s' = write_all s (w * i) (span blank g.cells from w) in
    let len = length-write_all s (w * i) (span blank g.cells from w) in
    let this_row = row_apart w i (i + 1) (omega arith) in
    let fits : w * (i + 1) ≤ length s =
      omega (arith, row_in w (i + 1) (i + suc rounds) (omega arith)) in
    let (out, run, packed) =
      serialize_from_lem g y x w (i + 1) rounds s' v (omega arith) hx hw
        (omega (arith, len, ap (λ k. w * k) (regroup i rounds))) in
    (
      out,
      rw
          (
            grid_cell_lem g v (y + i) x (omega arith) (omega arith),
            memcpy_lem s (w * i) g.cells from w (row_end g v (y + i) x w (omega arith) hx)
                (omega arith),
          )
          run,
      record {
        size = packed.size ∙ len;
        rows = λ a b lo hi hb. elim (ℕ_discrete a i) [
          | yes here ↦
              let at : w * a ≡ w * i = ap (λ k. w * k) here in
              let line : (g.m + 1) * (y + i) ≡ (g.m + 1) * (y + a) =
                ap (λ k. (g.m + 1) * (y + k)) (sym here) in
              packed.kept (w * a + b) (omega arith)
              ∙ ap (λ k. get_or s' k blank) (omega arith)
              ∙ copied s (w * i) g.cells from w b (omega arith) hb
              ∙ ap (λ k. get_or g.cells k blank) (omega arith)
          | no after ↦ packed.rows a b (omega arith) (omega arith) hb
        ];
        kept = λ k h. packed.kept k (omega arith) ∙ kept_before s (w * i) g.cells from w k h;
      },
    )
  where
    row_in : (w a b : ℕ) → a ≤ b → w * a ≤ w * b
    row_in w a b h = grind arith

    regroup : (i r : ℕ) → i + suc r ≡ i + 1 + r
    regroup i r = omega arith
