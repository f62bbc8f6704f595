-- ===== src/Lcs/Block.antt =====
-- Whole blocks of the grid: `lcs_length_block` of common.c and `lcs_length_serial` of lcs_serial.c.
use university_coursework.Base.{
  ℕ, zero, suc, ◌+◌, ◌-◌, ◌*◌, ◌≤◌, ◌<◌, ◌≡◌, refl, sym, ap, ◌∙◌, some, List, length, arith, ◌⊎◌,
  inl, inr, get_or, write_all, length-write_all, get_or-write_outside, get_or-write_inside,
  ℕ_discrete, dec_lt, replicate, length-replicate, get_or-replicate, int_limit,
}
use university_coursework.Lcs.{Cell, Grid, blank, fill_rows, lcs_length_block, lcs_length_serial}
use university_coursework.Lcs.Spec.{spec_row, spec_column}
use university_coursework.Lcs.Fill.{
  IsValid, index, held, spec, with_cells, with_cells-IsValid, row_apart, spec_list,
  length-spec_list, get_or-spec_list, fill_row_lem,
}

-- The cells of a grid whose block of `h` rows and `w` columns behind row `i` and column `j` has been
-- filled; the other cells are as in `g`.
pub record Filled (g : Grid) (i j h w : ℕ) (cells : List Cell) : Type 0 where
  pub size : length cells ≡ length g.cells
  pub block :
      (a b : ℕ) → i < a → a ≤ i + h → j < b → b ≤ j + w → held (with_cells g cells) a b ≡ spec g a b
  pub kept :
      (a b : ℕ)
      → b ≤ g.m
      → (a ≤ i) ⊎ ((i + h < a) ⊎ ((b ≤ j) ⊎ (j + w < b)))
      → held (with_cells g cells) a b ≡ held g a b

module _ (g : Grid) (i j w : ℕ) (v : IsValid g) (fits : j + w ≤ g.m) where
  abbrev row : List Cell
  row = write_all g.cells (index g (suc i) (suc j)) (spec_list g (suc i) (suc j) w)

  row_block :
      (b : ℕ) → i < g.n → j < b → b ≤ j + w → held (with_cells g row) (suc i) b ≡ spec g (suc i) b
  row_block b hi lo up =
      let start = index g (suc i) (suc j) in
      let len = length-spec_list g (suc i) (suc j) w in
      let next = row_apart (g.m + 1) (suc i) (suc g.n) (omega arith) in
      let total : (g.m + 1) * suc g.n ≡ (g.m + 1) * (g.n + 1) =
        ap (λ k. (g.m + 1) * k) (omega arith) in
      ap (λ k. get_or row k blank) (omega arith)
      ∙ get_or-write_inside g.cells start (spec_list g (suc i) (suc j) w) (b - suc j) blank
          (omega (arith, v.size)) (omega arith)
      ∙ get_or-spec_list g (suc i) (suc j) w (b - suc j) (omega arith)
      ∙ ap (spec g (suc i)) (omega arith)

  row_kept :
      (a b : ℕ)
      → b ≤ g.m
      → (a ≤ i) ⊎ ((i + 1 < a) ⊎ ((b ≤ j) ⊎ (j + w < b)))
      → held (with_cells g row) a b ≡ held g a b
  row_kept a b hb c =
      let start = index g (suc i) (suc j) in
      let len = length-spec_list g (suc i) (suc j) w in
      get_or-write_outside g.cells start (spec_list g (suc i) (suc j) w) (index g a b) blank
        (side c)
    where
      over : a < suc i → index g a b < index g (suc i) (suc j)
      over h = omega (arith, row_apart (g.m + 1) a (suc i) h)

      under : suc i < a → index g (suc i) (suc j) + w ≤ index g a b
      under h = omega (arith, row_apart (g.m + 1) (suc i) a h)

      level : a ≡ suc i → index g a b ≡ index g (suc i) b
      level e = ap (λ k. index g k b) e

      side :
          (a ≤ i) ⊎ ((i + 1 < a) ⊎ ((b ≤ j) ⊎ (j + w < b)))
          → (index g a b < index g (suc i) (suc j))
            ⊎ (index g (suc i) (suc j) + length (spec_list g (suc i) (suc j) w) ≤ index g a b)
      side (inl above) = inl (over (omega arith))
      side (inr (inl below)) =
          inr (omega (arith, under (omega arith), length-spec_list g (suc i) (suc j) w))
      side (inr (inr c)) = elim (dec_lt a (suc i)) [
        | yes above ↦ inl (over above)
        | no from ↦ elim (dec_lt (suc i) a) [
          | yes below ↦ inr (omega (arith, under below, length-spec_list g (suc i) (suc j) w))
          | no same ↦ elim c [
            | inl before ↦ inl (omega (arith, level (omega arith)))
            | inr after ↦
                inr (omega (arith, level (omega arith), length-spec_list g (suc i) (suc j) w))
          ]
        ]
      ]

pub fill_rows_lem :
    (g : Grid) (i j h w : ℕ)
    → IsValid g
    → i + h ≤ g.n
    → j + w ≤ g.m
    → ((b : ℕ) → j ≤ b → b ≤ j + w → held g i b ≡ spec g i b)
    → ((a : ℕ) → i ≤ a → a ≤ i + h → held g a j ≡ spec g a j)
    → (cells : List Cell) × (fill_rows (suc j) w (suc i) h g ≡ some (with_cells g cells))
      × Filled g i j h w cells
unfolding fill_rows
fill_rows_lem g i j zero w v hi hj above beside = (
  g.cells,
  refl,
  record { size = refl; block = λ a b p q r s. absurd (omega arith); kept = λ a b hb c. refl },
)
fill_rows_lem g i j (suc h) w v hi hj above beside =
    let cells = row g i j w v hj in
    let len = length-write_all g.cells (index g (suc i) (suc j)) (spec_list g (suc i) (suc j) w) in
    let g' = with_cells g cells in
    let kept_row = row_kept g i j w v hj in
    let (out, run, filled) =
      fill_rows_lem g' (suc i) j h w (with_cells-IsValid g cells v len) (omega arith) hj
        (λ b lo up. elim (ℕ_discrete b j) [
          | yes edge ↦
              kept_row (suc i) b (omega arith) (inr (inr (inl (omega arith))))
              ∙ ap (held g (suc i)) edge
              ∙ beside (suc i) (omega arith) (omega arith)
              ∙ ap (spec g (suc i)) (sym edge)
          | no within ↦ row_block g i j w v hj b (omega arith) (omega arith) up
        ])
        (λ a lo up.
          kept_row a j (omega arith) (inr (inr (inl (omega arith))))
          ∙ beside a (omega arith) (omega arith)) in
    (
      out,
      rw
          (fill_row_lem g i j w v (omega arith) hj above
            (beside (suc i) (omega arith) (omega arith)))
          (ap (λ k. fill_rows (suc j) w k h g') (omega arith) ∙ run),
      record {
        size = filled.size ∙ len;
        block = λ a b lo_a up_a lo_b up_b. elim (ℕ_discrete a (suc i)) [
          | yes first ↦
              filled.kept a b (omega arith) (inl (omega arith))
              ∙ ap (λ k. held g' k b) first
              ∙ row_block g i j w v hj b (omega arith) lo_b up_b
              ∙ ap (λ k. spec g k b) (sym first)
          | no later ↦ filled.block a b (omega arith) (omega arith) lo_b up_b
        ];
        kept = λ a b hb c.
            filled.kept a b hb (elim c [
              | inl p ↦ inl (omega arith)
              | inr (inl p) ↦ inr (inl (omega arith))
              | inr (inr p) ↦ inr (inr p)
            ])
            ∙ kept_row a b hb (elim c [
              | inl p ↦ inl p
              | inr (inl p) ↦ inr (inl (omega arith))
              | inr (inr p) ↦ inr (inr p)
            ]);
      },
    )

-- On a valid grid `lcs_length_block` returns for every block that lies within the grid and behind
-- its borders, where the cells just above the block and those just left of it hold what they are
-- meant to hold. Then every cell of the block does too, and the other cells are as before.
pub lcs_length_block_lem :
    (g : Grid) (i j h w : ℕ)
    → IsValid g
    → i + h ≤ g.n
    → j + w ≤ g.m
    → ((b : ℕ) → j ≤ b → b ≤ j + w → held g i b ≡ spec g i b)
    → ((a : ℕ) → i ≤ a → a ≤ i + h → held g a j ≡ spec g a j)
    → (cells : List Cell) × (lcs_length_block g (suc i) (suc j) h w ≡ some (with_cells g cells))
      × Filled g i j h w cells
unfolding lcs_length_block
lcs_length_block_lem g i j h w v hi hj above beside = fill_rows_lem g i j h w v hi hj above beside

-- The grid that `grid_init` makes of two strings.
unfoldable pub fresh : List ℕ → List ℕ → Grid
fresh s1 s2 = record {
  m = length s1;
  n = length s2;
  s1 = s1;
  s2 = s2;
  cells = replicate ((length s1 + 1) * (length s2 + 1)) blank;
}

module _ (s1 s2 : List ℕ) (same : length s1 ≡ length s2)
    (small : (length s1 + 1) * (length s2 + 1) ≤ int_limit) where
  pub fresh-IsValid : IsValid (fresh s1 s2)
  unfolding fresh
  fresh-IsValid = record {
    width = refl;
    height = refl;
    square = same;
    size = length-replicate ((length s1 + 1) * (length s2 + 1)) blank;
    small = small;
  }

  pub fresh_row : (b : ℕ) → held (fresh s1 s2) 0 b ≡ spec (fresh s1 s2) 0 b
  unfolding fresh
  fresh_row b =
      get_or-replicate ((length s1 + 1) * (length s2 + 1)) (index (fresh s1 s2) 0 b) blank
      ∙ sym (spec_row s1 s2 b)

  pub fresh_column : (a : ℕ) → held (fresh s1 s2) a 0 ≡ spec (fresh s1 s2) a 0
  unfolding fresh
  fresh_column a =
      get_or-replicate ((length s1 + 1) * (length s2 + 1)) (index (fresh s1 s2) a 0) blank
      ∙ sym (spec_column s1 s2 a)

  pub serial_fills :
      (cells : List Cell) × (lcs_length_serial (fresh s1 s2)
        ≡ some (with_cells (fresh s1 s2) cells))
      × Filled (fresh s1 s2) 0 0 (length s2) (length s1) cells
  unfolding lcs_length_serial fresh
  serial_fills =
      fill_rows_lem (fresh s1 s2) 0 0 (length s2) (length s1) fresh-IsValid (omega arith)
        (omega arith) (λ b lo up. fresh_row b) (λ a lo up. fresh_column a)
