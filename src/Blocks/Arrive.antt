-- ===== src/Blocks/Arrive.antt =====
-- `grid_deserialize_block`, and a block's way from one grid to another.
use university_coursework.Base.{
  ℕ, zero, suc, ◌+◌, ◌*◌, ◌≤◌, ◌<◌, ◌≡◌, refl, sym, ap, ◌∙◌, Option, some, List, lt→ltb, length,
  arith, inl, inr, ◌⊎◌, get_or, span, write_all, length-span, length-write_all,
  get_or-write_outside, int_limit, dec_lt, ℕ_discrete,
}
use university_coursework.Lcs.{Cell, Grid, blank}
use university_coursework.Lcs.Fill.{
  IsValid, index, held, with_cells, with_cells-IsValid, row_apart, grid_cell_lem,
}
use university_coursework.Blocks.{
  grid_alloc_block, grid_serialize_block, deserialize_from, grid_deserialize_block,
}
use university_coursework.Blocks.Exchange.{memcpy_lem, copied, row_end, serialize_from_lem}

-- The rows of a block from `i` on are read out of `s`; the other cells of the grid are as before.
pub record Unpacked (g : Grid) (y x w i rounds : ℕ) (s cells : List Cell) : Type 0 where
  pub size : length cells ≡ length g.cells
  pub rows :
      (a b : ℕ)
      → i ≤ a
      → a < i + rounds
      → b < w
      → held (with_cells g cells) (y + a) (x + b) ≡ get_or s (w * a + b) blank
  pub kept :
      (r c : ℕ)
      → c ≤ g.m
      → (r < y + i) ⊎ ((y + i + rounds ≤ r) ⊎ ((c < x) ⊎ (x + w ≤ c)))
      → held (with_cells g cells) r c ≡ held g r c

module _ (g : Grid) (y x w i : ℕ) (s : List Cell) (fits : x + w ≤ g.m + 1) where
  abbrev line : List Cell
  line = write_all g.cells (index g (y + i) x) (span blank s (w * i) w)

  line_kept :
      (r c : ℕ)
      → c ≤ g.m
      → (r < y + i) ⊎ ((y + i < r) ⊎ ((c < x) ⊎ (x + w ≤ c)))
      → held (with_cells g line) r c ≡ held g r c
  line_kept r c hc where_at =
      get_or-write_outside g.cells (index g (y + i) x) (span blank s (w * i) w) (index g r c) blank
        (side where_at)
    where
      over : r < y + i → index g r c < index g (y + i) x
      over h = omega (arith, row_apart (g.m + 1) r (y + i) h)

      under : y + i < r → index g (y + i) x + w ≤ index g r c
      under h = omega (arith, row_apart (g.m + 1) (y + i) r h)

      level : r ≡ y + i → index g r c ≡ index g (y + i) c
      level e = ap (λ k. index g k c) e

      side :
          (r < y + i) ⊎ ((y + i < r) ⊎ ((c < x) ⊎ (x + w ≤ c)))
          → (index g r c < index g (y + i) x)
            ⊎ (index g (y + i) x + length (span blank s (w * i) w) ≤ index g r c)
      side (inl above) = inl (over above)
      side (inr (inl below)) = inr (omega (arith, under below, length-span blank s (w * i) w))
      side (inr (inr beside)) = elim (dec_lt r (y + i)) [
        | yes above ↦ inl (over above)
        | no from ↦ elim (dec_lt (y + i) r) [
          | yes below ↦ inr (omega (arith, under below, length-span blank s (w * i) w))
          | no same ↦ elim beside [
            | inl left ↦ inl (omega (arith, level (omega arith)))
            | inr right ↦ inr (omega (arith, level (omega arith), length-span blank s (w * i) w))
          ]
        ]
      ]

deserialize_from_lem :
    (g : Grid) (y x w i rounds : ℕ) (s : List Cell)
    → IsValid g
    → y + i + rounds ≤ g.n + 1
    → x + w ≤ g.m + 1
    → 0 < w
    → w * (i + rounds) ≤ length s
    → (cells : List Cell) × (deserialize_from s y x w i rounds g ≡ some (with_cells g cells))
      × Unpacked g y x w i rounds s cells
unfolding deserialize_from
deserialize_from_lem g y x w i zero s v hy hx hw room = (
  g.cells,
  refl,
  record { size = refl; rows = λ a b lo hi hb. absurd (omega arith); kept = λ r c hc at. refl },
)
deserialize_from_lem g y x w i (suc rounds) s v hy hx hw room =
    let cells = line g y x w i s hx in
    let len = length-write_all g.cells (index g (y + i) x) (span blank s (w * i) w) in
    let g' = with_cells g cells in
    let this_row = row_apart w i (i + 1) (omega arith) in
    let fits : w * (i + 1) ≤ length s =
      omega (arith, row_in w (i + 1) (i + suc rounds) (omega arith)) in
    let kept_line = line_kept g y x w i s hx in
    let (out, run, unpacked) =
      deserialize_from_lem g' y x w (i + 1) rounds s (with_cells-IsValid g cells v len)
        (omega arith) hx hw (omega (arith, ap (λ k. w * k) (regroup i rounds))) in
    (
      out,
      rw
          (
            grid_cell_lem g v (y + i) x (omega arith) (omega arith),
            memcpy_lem g.cells (index g (y + i) x) s (w * i) w (omega arith)
                (row_end g v (y + i) x w (omega arith) hx),
          )
          run,
      record {
        size = unpacked.size ∙ len;
        rows = λ a b lo hi hb. elim (ℕ_discrete a i) [
          | yes here ↦
              let at : w * a ≡ w * i = ap (λ k. w * k) here in
              let row : (g.m + 1) * (y + i) ≡ (g.m + 1) * (y + a) =
                ap (λ k. (g.m + 1) * (y + k)) (sym here) in
              unpacked.kept (y + a) (x + b) (omega arith) (inl (omega arith))
              ∙ ap (λ k. get_or cells k blank) (omega arith)
              ∙ copied g.cells (index g (y + i) x) s (w * i) w b
                  (row_end g v (y + i) x w (omega arith) hx) hb
              ∙ ap (λ k. get_or s k blank) (omega arith)
          | no after ↦ unpacked.rows a b (omega arith) (omega arith) hb
        ];
        kept = λ r c hc at. unpacked.kept r c hc (later at) ∙ kept_line r c hc (earlier at);
      },
    )
  where
    row_in : (w a b : ℕ) → a ≤ b → w * a ≤ w * b
    row_in w a b h = grind arith

    regroup : (i r : ℕ) → i + suc r ≡ i + 1 + r
    regroup i r = omega arith

    later :
        {r c : ℕ}
        → (r < y + i) ⊎ ((y + i + suc rounds ≤ r) ⊎ ((c < x) ⊎ (x + w ≤ c)))
        → (r < y + (i + 1)) ⊎ ((y + (i + 1) + rounds ≤ r) ⊎ ((c < x) ⊎ (x + w ≤ c)))
    later (inl p) = inl (omega arith)
    later (inr (inl p)) = inr (inl (omega arith))
    later (inr (inr p)) = inr (inr p)

    earlier :
        {r c : ℕ}
        → (r < y + i) ⊎ ((y + i + suc rounds ≤ r) ⊎ ((c < x) ⊎ (x + w ≤ c)))
        → (r < y + i) ⊎ ((y + i < r) ⊎ ((c < x) ⊎ (x + w ≤ c)))
    earlier (inl p) = inl p
    earlier (inr (inl p)) = inr (inl (omega arith))
    earlier (inr (inr p)) = inr (inr p)

-- What arrives: the block's cells are those of the sender's grid, the others are as before.
pub record Arrived (sender g : Grid) (y x h w : ℕ) (cells : List Cell) : Type 0 where
  pub block :
      (a b : ℕ)
      → a < h
      → b < w
      → held (with_cells g cells) (y + a) (x + b) ≡ held sender (y + a) (x + b)
  pub kept :
      (r c : ℕ)
      → c ≤ g.m
      → (r < y) ⊎ ((y + h ≤ r) ⊎ ((c < x) ⊎ (x + w ≤ c)))
      → held (with_cells g cells) r c ≡ held g r c

-- Where two valid grids are of one shape, a block lies within it, and `malloc` gives a block of the
-- size asked for, the sender's `grid_serialize_block` and the receiver's `grid_deserialize_block`
-- return. The receiver's grid then has the sender's cells in the block and its own elsewhere.
pub block_arrives :
    (malloc : ℕ → Option (List Cell)) (sender g : Grid) (y x h w : ℕ)
    → IsValid sender
    → IsValid g
    → sender.m ≡ g.m
    → sender.n ≡ g.n
    → y + h ≤ g.n + 1
    → x + w ≤ g.m + 1
    → 0 < w
    → h * w < int_limit
    → (fresh : List Cell) × (malloc (h * w) ≡ some fresh) × (length fresh ≡ h * w)
    → (s : List Cell) × (cells : List Cell) × (grid_serialize_block malloc sender y x h w ≡ some s)
      × (grid_deserialize_block g s y x h w ≡ some (with_cells g cells))
      × Arrived sender g y x h w cells
unfolding grid_serialize_block grid_alloc_block grid_deserialize_block
block_arrives malloc sender g y x h w vs v wide high hy hx hw small (fresh, given, size) =
    let area : w * (0 + h) ≡ h * w = grind arith in
    let (s, sent, packed) =
      serialize_from_lem sender y x w 0 h fresh vs (omega arith) (omega arith) hw (omega arith) in
    let (cells, got, unpacked) =
      deserialize_from_lem g y x w 0 h s v (omega arith) hx hw (omega (arith, packed.size)) in
    (
      s,
      cells,
      rw (lt→ltb (h * w) int_limit small, given) sent,
      got,
      record {
        block = λ a b ha hb.
            unpacked.rows a b (omega arith) (omega arith) hb
            ∙ packed.rows a b (omega arith) (omega arith) hb;
        kept = λ r c hc at. unpacked.kept r c hc (from_zero at);
      },
    )
  where
    from_zero :
        {r c : ℕ}
        → (r < y) ⊎ ((y + h ≤ r) ⊎ ((c < x) ⊎ (x + w ≤ c)))
        → (r < y + 0) ⊎ ((y + 0 + h ≤ r) ⊎ ((c < x) ⊎ (x + w ≤ c)))
    from_zero (inl p) = inl (omega arith)
    from_zero (inr (inl p)) = inr (inl (omega arith))
    from_zero (inr (inr p)) = inr (inr p)
