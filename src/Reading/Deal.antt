-- ===== src/Reading/Deal.antt =====
-- What `matrix_read` gives to each process.
use university_coursework.Base.{
  ℕ, zero, suc, ◌+◌, ◌-◌, ◌*◌, ◌/◌, ◌%◌, ◌≤◌, ◌<◌, ◌≡◌, refl, sym, ap, ◌∙◌, subst, true, false,
  some, List, [], ◌∷◌, ◌++◌, append_assoc, if◌then◌else◌, ltb, leb, ◌==◌, ◌&&◌, length,
  length-append, arith, get_or, replicate, int_limit,
}
use university_coursework.Matrix.{Row, Matrix, word, matrix_init, deref_row, local_rows}
use university_coursework.Matrix.Valid.{
  IsValid, num_rows_lem, matrix_row_local, matrix_init-IsValid, blank_matrix, cut, cut_inside,
}
use university_coursework.Matrix.Wire.{deref_local}
use university_coursework.Double.Exact.{floor_div_lem}
use native.Mathlib.Nat.{div-mul-le_self}
use university_coursework.Reading.{Texts, free_cells, matrix_free, read_stretch, read_partition}
use university_coursework.Reading.Listing.{IsOpen, IsFitting, length-row_values}
use university_coursework.Reading.Rows.{all_values, IsLeft, read_rows_of_listing}

module _ {V : Type 0} (mat : Matrix V) (v : IsValid mat) where
  free_cells_lem :
      (done rest : List (Row V)) (i rounds : ℕ)
      → mat.rows ≡ done ++ rest
      → rounds ≡ length rest
      → i ≡ mat.from_i + length done
      → (freed : ℕ) × (free_cells mat i rounds ≡ some freed)
  unfolding free_cells
  free_cells_lem done [] i zero e n at = (0, refl)
  free_cells_lem done [] i (suc rounds) e n at = absurd (omega arith)
  free_cells_lem done (row ∷ rest) i zero e n at = absurd (omega arith)
  free_cells_lem done (row ∷ rest) i (suc rounds) e n at =
      let (freed, run) =
        free_cells_lem (done ++ (row ∷ [])) rest (i + 1) rounds
          (e ∙ sym (append_assoc done (row ∷ []) rest)) (omega arith)
          (omega (arith, length-append done (row ∷ []))) in
      let found = ap (deref_row mat) at ∙ deref_local mat done rest row v e in
      (if ltb 0 (length row) then freed + 1 else freed, rw (found, run) refl)

  pub matrix_free_lem :
      (cleared : Matrix V) × (freed : ℕ) × (matrix_free mat ≡ some (cleared, freed))
  unfolding matrix_free local_rows deref_row
  matrix_free_lem =
      let (freed, run) =
        free_cells_lem [] mat.rows mat.from_i (mat.to_i + 1 - mat.from_i) refl (sym v.stored)
          (omega arith) in
      (
        record { m = 0; n = 0; from_i = 0; to_i = 0; rows = []; mapped_rows = [] },
        freed + 1,
        rw (run, matrix_row_local mat mat.from_i v (omega (arith, v.ordered))) refl,
      )

-- The last row that `matrix_read` asks `matrix_init` for.
abbrev pub last_row : (p m to_r : ℕ) → ℕ
last_row p m to_r = if to_r == p - 1 then m - 1 else ((to_r + 1) * (m / p) + word - 1) % word

module _ {Line V : Type 0} (texts : Texts Line V) (line_of : ℕ → ℕ → ℕ → Line)
    (prints : (i j val : ℕ)
      → i < int_limit
      → j < int_limit
      → val < int_limit
      → texts.tokens (line_of i j val) ≡ i ∷ j ∷ val ∷ [])
    (p m n : ℕ) where
  -- The stretch of a matrix with the rows `own`, from the row `from_i` on.
  abbrev pub stretch : (from_i : ℕ) → List (Row ℕ) → Matrix V
  stretch from_i own = record (blank_matrix V m n from_i (from_i + length own - 1)) {
    rows = all_values texts line_of prints own;
  }

  length-all_values :
      (rows : List (Row ℕ)) → length (all_values texts line_of prints rows) ≡ length rows
  length-all_values [] = refl
  length-all_values (row ∷ rows) = ap suc (length-all_values rows)

  values_narrow :
      (rows : List (Row ℕ)) (k : ℕ)
      → IsFitting n rows
      → length (get_or (all_values texts line_of prints rows) k []) ≤ n
  values_narrow [] k fit = omega arith
  values_narrow (row ∷ rows) zero (narrow, cols, fit) =
      omega (arith, length-row_values texts line_of row)
  values_narrow (row ∷ rows) (suc k) (narrow, cols, fit) = values_narrow rows k fit

  pub stretch-IsValid :
      (from_i : ℕ) (own : List (Row ℕ))
      → 0 < length own
      → from_i + length own ≤ m
      → m ≤ int_limit
      → IsFitting n own
      → IsValid (stretch from_i own)
  stretch-IsValid from_i own some_row inside bounded fit = record {
    ordered = omega arith;
    inside = omega arith;
    bounded = omega arith;
    stored = omega (arith, length-all_values own);
    narrow = λ k h. values_narrow own k fit;
  }

  pub read_partition_lem :
      (to_r : ℕ) (own others : List (Row ℕ)) (input : List Line)
      → 0 < p
      → p ≤ m
      → m ≤ int_limit
      → n ≤ int_limit
      → 0 < length own
      → m / p ≤ length own
      → length own < 2 * (m / p)
      → last_row p m to_r ≡ to_r * (m / p) + length own - 1
      → to_r * (m / p) + length own + length others ≡ m
      → IsFitting n own
      → IsFitting n others
      → IsLeft texts line_of prints (to_r * (m / p)) (own ++ others) input
      → (rest : List Line) × (read_partition texts p m n false to_r input
          ≡ some (stretch (to_r * (m / p)) own, rest))
        × IsLeft texts line_of prints (to_r * (m / p) + length own) others rest
  unfolding read_partition read_stretch
  read_partition_lem to_r own others input some_process few_processes bounded wide some_row enough
        few last all fit fit' left =
      let from_i = to_r * (m / p) in
      let to_i = from_i + length own - 1 in
      let divided =
        floor_div_lem word m p some_process (omega arith) (omega arith)
          (omega (arith, div-mul-le_self m p, at_least (m / p) p some_process)) in
      let end : cut m to_i ≡ to_i = cut_inside m to_i (omega arith) in
      let (made, _) =
        matrix_init-IsValid {V = V} m n from_i to_i (omega arith) (omega arith) (omega arith) in
      let start =
        ap (matrix_init m n from_i) last
        ∙ made
        ∙ ap (λ k. some (blank_matrix V m n from_i k)) end in
      let count : to_i + 1 - from_i ≡ length own = omega arith in
      let frame : IsOpen m n from_i to_i = record {
        ordered = omega arith;
        inside = omega arith;
        bounded = bounded;
        wide = wide;
        fits =
            subst (λ k. from_i + n * k < word) (sym count)
              (small n from_i (length own) m (omega arith) (product n m wide bounded));
      } in
      let (rest, run, left') =
        read_rows_of_listing texts line_of prints (blank_matrix V m n from_i to_i) own others input
          frame (ap (λ k. replicate k []) count) (omega arith) (omega arith) fit fit' left in
      let num =
        num_rows_lem (stretch from_i own)
          (stretch-IsValid from_i own some_row (omega arith) bounded fit) in
      let tests : (leb (m / p) (to_i + 1 - from_i) && ltb (to_i + 1 - from_i) (2 * (m / p)))
          ≡ true =
        both (m / p) (to_i + 1 - from_i) (2 * (m / p)) (omega arith) (omega arith) in
      (
        rest,
        rw (divided, start, run, num, tests) refl,
        subst (λ k. IsLeft texts line_of prints k others rest) (omega arith) left',
      )
    where
      at_least : (a b : ℕ) → 0 < b → a ≤ a * b
      at_least a b h = grind arith

      product : (n m : ℕ) → n ≤ int_limit → m ≤ int_limit → m + n * m < word
      product n m h k = omega (arith, square n m h k)
        where
          square : (n m : ℕ) → n ≤ int_limit → m ≤ int_limit → n * m ≤ int_limit * int_limit
          square n m h k = grind arith

      small : (n from_i k m : ℕ) → from_i + k ≤ m → m + n * m < word → from_i + n * k < word
      small n from_i k m h b = grind arith

      both : (a b c : ℕ) → a ≤ b → b < c → (leb a b && ltb b c) ≡ true
      both a b c h k = ground arith
