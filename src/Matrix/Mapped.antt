-- ===== src/Matrix/Mapped.antt =====
-- Mapping rows of other processes into a matrix: `matrix_map_row` of mpi_matrix.c.
use university_coursework.Base.{
  ℕ, suc, ◌+◌, ◌-◌, ◌≤◌, ◌<◌, ◌≡◌, ◌≢◌, refl, sym, ap, ◌∙◌, subst, true, false, Option, none, some,
  List, [], ◌∷◌, ◌++◌, if◌then◌else◌, leb, ◌==◌, ◌&&◌, length, arith, ◌⊎◌, inl, inr, Bool-cases,
}
use university_coursework.Matrix.{Row, MappedRow, Matrix, find_mapped, matrix_map_row}
use university_coursework.Matrix.Valid.{IsValid, num_rows_lem, matrix_row_mapped}
use university_coursework.Matrix.Count.{
  Distinct, Every, Every-append, Distinct-append, length-outside,
}

abbrev pub indices : {V : Type 0} → List (MappedRow V) → List ℕ
indices [] = []
indices (x ∷ mapped) = x.i ∷ indices mapped

-- A row of the matrix that the process does not hold itself.
abbrev pub IsForeign : {V : Type 0} → Matrix V → ℕ → Type 0
IsForeign mat i = (i < mat.m) × ((i < mat.from_i) ⊎ (mat.from_i + (mat.to_i + 1 - mat.from_i) ≤ i))

-- No row is mapped twice, and all are foreign.
pub record IsMapped {V : Type 0} (mat : Matrix V) : Type 0 where
  pub once : Distinct (indices mat.mapped_rows)
  pub foreign : Every (IsForeign mat) (indices mat.mapped_rows)

-- A table in which the first entry for a key stays.
unfoldable pub keep_first :
    {V : Type 0} → (ℕ → Option (Option (Row V))) → ℕ → Row V → ℕ → Option (Option (Row V))
keep_first lookup k row i =
    if k == i
    then elim (lookup i) [
      | none ↦ none
      | some none ↦ some (some row)
      | some (some there) ↦ some (some there)
    ]
    else lookup i

module _ {V : Type 0} where
  indices-append :
      (mapped : List (MappedRow V)) (i : ℕ) (row : Row V)
      → indices (mapped ++ (record { i = i; row = row } ∷ [])) ≡ indices mapped ++ (i ∷ [])
  indices-append [] i row = refl
  indices-append (x ∷ mapped) i row = ap (λ ks. x.i ∷ ks) (indices-append mapped i row)

  length-indices : (mapped : List (MappedRow V)) → length (indices mapped) ≡ length mapped
  length-indices [] = refl
  length-indices (x ∷ mapped) = ap suc (length-indices mapped)

  find_some :
      (mapped : List (MappedRow V)) (k : ℕ) (row : Row V)
      → (found : Row V) × (find_mapped mapped k (some row) ≡ some found)
  unfolding find_mapped
  find_some [] k row = (row, refl)
  find_some (x ∷ mapped) k row = elim (Bool-cases (x.i == k)) [
    | inl same ↦ rw same (find_some mapped k x.row)
    | inr differ ↦ rw differ (find_some mapped k row)
  ]

  absent_of_find :
      (mapped : List (MappedRow V)) (k : ℕ)
      → find_mapped mapped k none ≡ none
      → Every (λ i. Every (λ y. i ≢ y) (k ∷ [])) (indices mapped)
  unfolding find_mapped
  absent_of_find [] k h = tt
  absent_of_find (x ∷ mapped) k h = elim (Bool-cases (x.i == k)) [
    | inl same ↦
        let (found, e) = find_some mapped k x.row in
        let now : find_mapped mapped k (some x.row) ≡ none =
          ap (λ b. find_mapped mapped k (if b then some x.row else none)) (sym same) ∙ h in
        absurd (not_none found (sym now ∙ e))
    | inr differ ↦
        let rest : find_mapped mapped k none ≡ none =
          ap (λ b. find_mapped mapped k (if b then some x.row else none)) (sym differ) ∙ h in
        ((apart x.i k differ, tt), absent_of_find mapped k rest)
  ]
    where
      IsNone : Option (Row V) → Type 0
      IsNone none = Unit
      IsNone (some row) = ⊥

      not_none : (row : Row V) → none ≡ some row → ⊥
      not_none row e = subst IsNone e tt

      apart : (a b : ℕ) → (a == b) ≡ false → a ≢ b
      apart a b h = ground arith

  abbrev pub add : Matrix V → ℕ → Row V → Matrix V
  add mat k row = record mat { mapped_rows = mat.mapped_rows ++ (record { i = k; row = row } ∷ []) }

  add-IsMapped :
      (mat : Matrix V) (k : ℕ) (row : Row V)
      → IsMapped mat
      → IsForeign mat k
      → find_mapped mat.mapped_rows k none ≡ none
      → IsMapped (add mat k row)
  add-IsMapped mat k row mapped at absent = record {
    once = subst Distinct (sym (indices-append mat.mapped_rows k row)) (
        Distinct-append (indices mat.mapped_rows) (k ∷ []) mapped.once (tt, tt)
          (absent_of_find mat.mapped_rows k absent));
    foreign =
        subst (Every (IsForeign mat)) (sym (indices-append mat.mapped_rows k row))
          (Every-append (IsForeign mat) (indices mat.mapped_rows) (k ∷ []) mapped.foreign (at, tt));
  }

  -- There is always room for one more.
  room :
      (mat : Matrix V)
      → IsValid mat
      → IsMapped mat
      → length mat.mapped_rows + (mat.to_i + 1 - mat.from_i) ≤ mat.m
  room mat v mapped = omega (
    arith,
    length-indices mat.mapped_rows,
    length-outside mat.m mat.from_i (mat.to_i + 1 - mat.from_i) (indices mat.mapped_rows)
        (omega (arith, v.ordered, v.inside)) mapped.once mapped.foreign,
  )

  pub add-IsValid : (mat : Matrix V) (k : ℕ) (row : Row V) → IsValid mat → IsValid (add mat k row)
  add-IsValid mat k row v = record {
    ordered = v.ordered;
    inside = v.inside;
    bounded = v.bounded;
    stored = v.stored;
    narrow = v.narrow;
  }

  pub map_absent :
      (mat : Matrix V) (k : ℕ) (row : Row V)
      → IsValid mat
      → IsMapped mat
      → IsForeign mat k
      → length row ≤ mat.n
      → find_mapped mat.mapped_rows k none ≡ none
      → (matrix_map_row mat row k ≡ some (add mat k row)) × IsMapped (add mat k row)
  unfolding matrix_map_row
  map_absent mat k row v mapped at narrow absent =
      let outside : (k < mat.from_i) ⊎ (mat.to_i < k) = elim at.1 [
        | inl b ↦ inl b
        | inr b ↦ inr (omega (arith, v.ordered))
      ] in
      let after = add-IsMapped mat k row mapped at absent in
      let fits =
        tests (length row) mat.n (length (mat.mapped_rows ++ (record { i = k; row = row } ∷ [])))
          (mat.m - (mat.to_i + 1 - mat.from_i)) narrow
          (omega (arith, room (add mat k row) (add-IsValid mat k row v) after)) in
      (rw (matrix_row_mapped mat k outside, absent, num_rows_lem mat v, fits) refl, after)
    where
      tests : (a b c d : ℕ) → a ≤ b → c ≤ d → (leb a b && leb c d) ≡ true
      tests a b c d h k = ground arith
