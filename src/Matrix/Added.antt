-- ===== src/Matrix/Added.antt =====
-- What a matrix holds after `matrix_map_row`.
use university_coursework.Base.{
  ℕ, ◌+◌, ◌-◌, ◌≤◌, ◌<◌, ◌≡◌, refl, sym, ap, ◌∙◌, true, false, none, some, [], if◌then◌else◌, ◌==◌,
  length, arith, get_or, ◌⊎◌, inl, inr, Bool-cases, Option-cases, ==_iff,
}
use university_coursework.Matrix.{Row, Matrix, find_mapped, matrix_row, matrix_map_row}
use university_coursework.Matrix.Valid.{
  IsValid, IsLocal, matrix_row_local, matrix_row_mapped, IsLocal-or, find_mapped-append,
}
use university_coursework.Matrix.Mapped.{IsMapped, keep_first, add, add-IsValid, map_absent}

-- The matrix after the call: as before but for the row `k`, which is there now.
pub record IsAfter {V : Type 0} (mat : Matrix V) (k : ℕ) (row : Row V) (mat' : Matrix V)
    : Type 0 where
  pub valid : IsValid mat'
  pub mapped : IsMapped mat'
  pub same_m : mat'.m ≡ mat.m
  pub same_n : mat'.n ≡ mat.n
  pub same_from : mat'.from_i ≡ mat.from_i
  pub same_to : mat'.to_i ≡ mat.to_i
  pub lookup : (i : ℕ) → matrix_row mat' i ≡ keep_first (matrix_row mat) k row i

module _ {V : Type 0} where
  keep_present :
      (mat : Matrix V) (k : ℕ) (row there : Row V) (i : ℕ)
      → matrix_row mat k ≡ some (some there)
      → matrix_row mat i ≡ keep_first (matrix_row mat) k row i
  unfolding keep_first
  keep_present mat k row there i held = elim (Bool-cases (k == i)) [
    | inl same ↦
        let found : matrix_row mat i ≡ some (some there) =
          ap (matrix_row mat) (sym ((==_iff k i).0 same)) ∙ held in
        rw (same, found) refl
    | inr differ ↦ rw differ refl
  ]

  lookup_add :
      (mat : Matrix V) (k : ℕ) (row : Row V) (i : ℕ)
      → IsValid mat
      → (k < mat.from_i) ⊎ (mat.to_i < k)
      → find_mapped mat.mapped_rows k none ≡ none
      → matrix_row (add mat k row) i ≡ keep_first (matrix_row mat) k row i
  unfolding keep_first
  lookup_add mat k row i v outside absent = elim (Bool-cases (k == i)) [
    | inl same ↦
        let at : k ≡ i = (==_iff k i).0 same in
        let nothing : matrix_row mat i ≡ some none =
          ap (matrix_row mat) (sym at) ∙ matrix_row_mapped mat k outside ∙ ap some absent in
        let here : matrix_row (add mat k row) i ≡ some (some row) =
          ap (matrix_row (add mat k row)) (sym at)
          ∙ matrix_row_mapped (add mat k row) k outside
          ∙ ap some (
              find_mapped-append mat.mapped_rows k k row none
              ∙ ap (λ b. if b then some row else find_mapped mat.mapped_rows k none) (itself k)) in
        rw (same, nothing) here
    | inr differ ↦ rw differ (elsewhere (IsLocal-or mat i) differ)
  ]
    where
      itself : (a : ℕ) → (a == a) ≡ true
      itself a = ground arith

      elsewhere :
          IsLocal mat i ⊎ ((i < mat.from_i) ⊎ (mat.to_i < i))
          → (k == i) ≡ false
          → matrix_row (add mat k row) i ≡ matrix_row mat i
      elsewhere (inl own) differ =
          matrix_row_local (add mat k row) i (add-IsValid mat k row v) own
          ∙ sym (matrix_row_local mat i v own)
      elsewhere (inr other) differ =
          matrix_row_mapped (add mat k row) i other
          ∙ ap some (
              find_mapped-append mat.mapped_rows k i row none
              ∙ ap (λ b. if b then some row else find_mapped mat.mapped_rows i none) differ)
          ∙ sym (matrix_row_mapped mat i other)

  stays :
      (mat : Matrix V) (k : ℕ) (row there : Row V)
      → IsValid mat
      → IsMapped mat
      → matrix_row mat k ≡ some (some there)
      → (matrix_map_row mat row k ≡ some mat) × IsAfter mat k row mat
  unfolding matrix_map_row
  stays mat k row there v mapped held = (
    rw held refl,
    record {
      valid = v;
      mapped = mapped;
      same_m = refl;
      same_n = refl;
      same_from = refl;
      same_to = refl;
      lookup = λ i. keep_present mat k row there i held;
    },
  )

  -- On a valid matrix whose mapped rows are foreign and distinct, `matrix_map_row` returns for every row
  -- of the matrix that is not too long. Afterwards the matrix is valid, its mapped rows are foreign
  -- and distinct, and `matrix_row` finds for each index what it found before; for the index of the
  -- call, if it found nothing, the row of the call.
  pub map_row_keeps_first :
      (mat : Matrix V) (k : ℕ) (row : Row V)
      → IsValid mat
      → IsMapped mat
      → k < mat.m
      → length row ≤ mat.n
      → (mat' : Matrix V) × (matrix_map_row mat row k ≡ some mat') × IsAfter mat k row mat'
  map_row_keeps_first mat k row v mapped below narrow = elim (IsLocal-or mat k) [
    | inl own ↦
        let (run, after) =
          stays mat k row (get_or mat.rows (k - mat.from_i) []) v mapped
            (matrix_row_local mat k v own) in
        (mat, run, after)
    | inr outside ↦ elim (Option-cases (find_mapped mat.mapped_rows k none)) [
      | inl absent ↦
          let (run, mapped') = map_absent mat k row v mapped (below, past outside) narrow absent in
          (
            add mat k row,
            run,
            record {
              valid = add-IsValid mat k row v;
              mapped = mapped';
              same_m = refl;
              same_n = refl;
              same_from = refl;
              same_to = refl;
              lookup = λ i. lookup_add mat k row i v outside absent;
            },
          )
      | inr (there, found) ↦
          let (run, after) =
            stays mat k row there v mapped (matrix_row_mapped mat k outside ∙ ap some found) in
          (mat, run, after)
    ]
  ]
    where
      past :
          (k < mat.from_i) ⊎ (mat.to_i < k)
          → (k < mat.from_i) ⊎ (mat.from_i + (mat.to_i + 1 - mat.from_i) ≤ k)
      past (inl b) = inl b
      past (inr b) = inr (omega (arith, v.ordered))
