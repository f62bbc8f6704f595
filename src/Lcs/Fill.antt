-- ===== src/Lcs/Fill.antt =====
-- `lcs_length_block` of common.c, and the serial loops: the cells they compute.
use university_coursework.Base.{
  ℕ, zero, suc, ◌+◌, ◌*◌, ◌≤◌, ◌<◌, ◌≡◌, refl, ap, ◌∙◌, false, some, List, [], ◌∷◌, length, arith,
  inl, inr, get_or, get_elem?-eq-get_or, set, store_of_lt, length-set, get_or-set_self,
  get_or-set_ne, write_all, lt→ltb, ◌==◌, int_limit,
}
use university_coursework.Lcs.{
  Cell, Grid, blank, char_at, before, grid_cell, cell_at, new_cell, fill_cell, fill_row,
}
use university_coursework.Lcs.Spec.{spec_cell, spec_same, spec_up, spec_left, spec_cases}

-- Two strings of one length and a grid for them whose indices are ints.
pub record IsValid (g : Grid) : Type 0 where
  pub width : g.m ≡ length g.s1
  pub height : g.n ≡ length g.s2
  pub square : g.m ≡ g.n
  pub size : length g.cells ≡ (g.m + 1) * (g.n + 1)
  pub small : (g.m + 1) * (g.n + 1) ≤ int_limit

abbrev pub index : Grid → ℕ → ℕ → ℕ
index g i j = (g.m + 1) * i + j

abbrev pub held : Grid → ℕ → ℕ → Cell
held g i j = get_or g.cells (index g i j) blank

abbrev pub spec : Grid → ℕ → ℕ → Cell
spec g = spec_cell g.s1 g.s2

abbrev pub with_cells : Grid → List Cell → Grid
with_cells g cells = record g { cells = cells }

pub row_apart : (w a b : ℕ) → a < b → w * a + w ≤ w * b
row_apart w a b h = grind arith

index_in : (w h a b : ℕ) → a ≤ h → b < w → w * a + b < w * (h + 1)
index_in w h a b ha hb = omega (arith, row_apart w a (h + 1) (omega arith))

pub with_cells-IsValid :
    (g : Grid) (cells : List Cell)
    → IsValid g
    → length cells ≡ length g.cells
    → IsValid (with_cells g cells)
with_cells-IsValid g cells v e = record {
  width = v.width;
  height = v.height;
  square = v.square;
  size = e ∙ v.size;
  small = v.small;
}

module _ (g : Grid) (v : IsValid g) where
  pub inside : (i j : ℕ) → i ≤ g.n → j ≤ g.m → index g i j < length g.cells
  inside i j hi hj = omega (arith, index_in (g.m + 1) g.n i j hi (omega arith), v.size)

  pub grid_cell_lem : (i j : ℕ) → i ≤ g.n → j ≤ g.m → grid_cell g i j ≡ some (index g i j)
  unfolding grid_cell
  grid_cell_lem i j hi hj =
      rw (lt→ltb (index g i j) int_limit (omega (arith, inside i j hi hj, v.size, v.small))) refl

  pub cell_at_lem : (i j : ℕ) → i ≤ g.n → j ≤ g.m → cell_at g i j ≡ some (held g i j)
  unfolding cell_at
  cell_at_lem i j hi hj =
      rw (grid_cell_lem i j hi hj)
        (get_elem?-eq-get_or g.cells (index g i j) blank (inside i j hi hj))

  pub char_at_lem : (s : List ℕ) (i : ℕ) → i < length s → char_at s i ≡ some (get_or s i 0)
  unfolding char_at
  char_at_lem s i h =
      let apart : (i == length s) ≡ false = ground arith in rw apart (get_elem?-eq-get_or s i 0 h)

  new_cell_lem :
      (i j : ℕ)
      → i < g.n
      → j < g.m
      → held g i j ≡ spec g i j
      → held g i (suc j) ≡ spec g i (suc j)
      → held g (suc i) j ≡ spec g (suc i) j
      → new_cell g (suc i) (suc j) ≡ some (spec g (suc i) (suc j))
  unfolding new_cell before
  new_cell_lem i j hi hj corner above beside =
      rw
        (
          char_at_lem g.s1 i (omega (arith, v.width, v.square)),
          char_at_lem g.s2 j (omega (arith, v.height, v.square)),
          cell_at_lem i j (omega arith) (omega arith),
          cell_at_lem i (suc j) (omega arith) (omega arith),
          cell_at_lem (suc i) j (omega arith) (omega arith),
          corner,
          above,
          beside,
        )
        (elim (spec_cases g.s1 g.s2 i j) [
          | inl same ↦ rw (same, (spec_same g.s1 g.s2 i j same).0) refl
          | inr (inl (differ, higher)) ↦
              rw (differ, higher, (spec_up g.s1 g.s2 i j differ higher).0) refl
          | inr (inr (differ, lower)) ↦
              rw (differ, lower, (spec_left g.s1 g.s2 i j differ lower).0) refl
        ])

  pub fill_cell_lem :
      (i j : ℕ)
      → i < g.n
      → j < g.m
      → held g i j ≡ spec g i j
      → held g i (suc j) ≡ spec g i (suc j)
      → held g (suc i) j ≡ spec g (suc i) j
      → fill_cell g (suc i) (suc j)
        ≡ some (with_cells g (set g.cells (index g (suc i) (suc j)) (spec g (suc i) (suc j))))
  unfolding fill_cell
  fill_cell_lem i j hi hj corner above beside =
      rw
        (
          grid_cell_lem (suc i) (suc j) (omega arith) (omega arith),
          new_cell_lem i j hi hj corner above beside,
          store_of_lt g.cells (index g (suc i) (suc j)) (spec g (suc i) (suc j))
              (inside (suc i) (suc j) (omega arith) (omega arith)),
        )
        refl

-- The cells of a row that a call of `fill_row` is to write.
abbrev pub spec_list : Grid → ℕ → ℕ → ℕ → List Cell
spec_list g i j zero = []
spec_list g i j (suc w) = spec g i j ∷ spec_list g i (suc j) w

pub length-spec_list : (g : Grid) (i j w : ℕ) → length (spec_list g i j w) ≡ w
length-spec_list g i j zero = refl
length-spec_list g i j (suc w) = ap suc (length-spec_list g i (suc j) w)

pub get_or-spec_list :
    (g : Grid) (i j w k : ℕ) → k < w → get_or (spec_list g i j w) k blank ≡ spec g i (j + k)
get_or-spec_list g i j zero k h = absurd (omega arith)
get_or-spec_list g i j (suc w) zero h = ap (spec g i) (omega arith)
get_or-spec_list g i j (suc w) (suc k) h =
    get_or-spec_list g i (suc j) w k (omega arith) ∙ ap (spec g i) (omega arith)

pub fill_row_lem :
    (g : Grid) (i j w : ℕ)
    → IsValid g
    → i < g.n
    → j + w ≤ g.m
    → ((b : ℕ) → j ≤ b → b ≤ j + w → held g i b ≡ spec g i b)
    → held g (suc i) j ≡ spec g (suc i) j
    → fill_row (suc i) (suc j) w g
      ≡ some (
          with_cells g
            (write_all g.cells (index g (suc i) (suc j)) (spec_list g (suc i) (suc j) w)))
unfolding fill_row
fill_row_lem g i j zero v hi hj above beside = refl
fill_row_lem g i j (suc w) v hi hj above beside =
    let here = index g (suc i) (suc j) in
    let cells = set g.cells here (spec g (suc i) (suc j)) in
    let len = length-set g.cells here (spec g (suc i) (suc j)) in
    let g' = with_cells g cells in
    let below = row_apart (g.m + 1) i (suc i) (omega arith) in
    rw
      (fill_cell_lem g v i j hi (omega arith) (above j (omega arith) (omega arith))
        (above (suc j) (omega arith) (omega arith)) beside)
      (ap (λ k. fill_row (suc i) k w g') (omega arith)
        ∙ fill_row_lem g' i (suc j) w (with_cells-IsValid g cells v len) hi (omega arith)
            (λ b lo up.
              get_or-set_ne g.cells here (index g i b) (spec g (suc i) (suc j)) blank (omega arith)
              ∙ above b (omega arith) (omega arith))
            (get_or-set_self g.cells here (spec g (suc i) (suc j)) blank
              (inside g v (suc i) (suc j) (omega arith) (omega arith)))
        ∙ ap (λ k. some (with_cells g (write_all cells k (spec_list g (suc i) (suc (suc j)) w))))
            (omega arith))
