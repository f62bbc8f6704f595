-- ===== src/Lcs/Outside.antt =====
-- Where the strings differ in length, lcs_serial.c reads outside the shorter one.
use university_coursework.Base.{
  ℕ, zero, suc, ◌+◌, ◌≤◌, ◌<◌, ◌≡◌, refl, ap, ◌∙◌, some, none, List, [], ◌∷◌, length, arith, inl,
  inr, ◌⊎◌, Option-cases, get_elem?, ℕ_discrete, false, ◌==◌, store,
}
use university_coursework.Lcs.{
  Cell, Grid, char_at, before, grid_cell, new_cell, fill_cell, fill_row, fill_rows,
  lcs_length_serial,
}
use university_coursework.Lcs.Block.{fresh}

get_elem?-outside : (s : List ℕ) (i : ℕ) → length s ≤ i → get_elem? s i ≡ none
get_elem?-outside [] i h = refl
get_elem?-outside (c ∷ s) zero h = absurd (omega arith)
get_elem?-outside (c ∷ s) (suc i) h = get_elem?-outside s i (omega arith)

char_at-outside : (s : List ℕ) (i : ℕ) → length s < i → char_at s i ≡ none
unfolding char_at
char_at-outside s i h =
    let apart : (i == length s) ≡ false = ground arith in
    rw apart (get_elem?-outside s i (omega arith))

-- A column whose character lies behind the terminator.
cell-outside : (g : Grid) (j : ℕ) → length g.s2 < j → fill_cell g 1 (suc j) ≡ none
unfolding fill_cell new_cell before
cell-outside g j h = rw (char_at-outside g.s2 j h) (elim (Option-cases (grid_cell g 1 (suc j))) [
  | inl nowhere ↦ rw nowhere refl
  | inr (index, e) ↦ rw e (elim (Option-cases (char_at g.s1 0)) [
    | inl gone ↦ rw gone refl
    | inr (c, read) ↦ rw read refl
  ])
])

-- Only the cells of the grid change.
fill_cell_cases :
    (g : Grid) (i j : ℕ)
    → (fill_cell g i j ≡ none)
      ⊎ ((cells : List Cell) × (fill_cell g i j ≡ some (record g { cells = cells })))
unfolding fill_cell
fill_cell_cases g i j = elim (Option-cases (grid_cell g i j)) [
  | inl no_index ↦ inl (rw no_index refl)
  | inr (index, here) ↦ elim (Option-cases (new_cell g i j)) [
    | inl no_cell ↦ inl (rw (here, no_cell) refl)
    | inr (cell, made) ↦ elim (Option-cases (store g.cells index cell)) [
      | inl unstored ↦ inl (rw (here, made, unstored) refl)
      | inr (cells, stored) ↦ inr (cells, rw (here, made, stored) refl)
    ]
  ]
]

row_outside :
    (w j : ℕ) (g : Grid)
    → j ≤ length g.s2 + 1
    → length g.s2 + 1 < j + w
    → fill_row 1 (suc j) w g ≡ none
unfolding fill_row
row_outside zero j g lo hi = absurd (omega arith)
row_outside (suc w) j g lo hi = elim (ℕ_discrete j (length g.s2 + 1)) [
  | yes here ↦ rw (cell-outside g j (omega arith)) refl
  | no earlier ↦ elim (fill_cell_cases g 1 (suc j)) [
    | inl stuck ↦ rw stuck refl
    | inr (cells, run) ↦ rw run (
        ap (λ k. fill_row 1 k w (record g { cells = cells })) (omega arith)
        ∙ row_outside w (j + 1) (record g { cells = cells }) (omega arith) (omega arith))
  ]
]

-- Where the second string has a character and the first has at least two characters more than it,
-- the first row of `lcs_length_serial` reads behind the terminator of the second string.
pub serial_reads_outside :
    (s1 s2 : List ℕ)
    → 0 < length s2
    → length s2 + 2 ≤ length s1
    → lcs_length_serial (fresh s1 s2) ≡ none
unfolding lcs_length_serial fill_rows fresh
serial_reads_outside s1 (c ∷ s2) some_char longer =
    rw (row_outside (length s1) 0 (fresh s1 (c ∷ s2)) (omega arith) (omega arith)) refl
serial_reads_outside s1 [] some_char longer = absurd (omega arith)
