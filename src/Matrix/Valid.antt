-- ===== src/Matrix/Valid.antt =====
-- The rows that a valid matrix holds itself, and those that are mapped into it.
use university_coursework.Base.{
  ℕ, zero, suc, ◌+◌, ◌-◌, ◌%◌, ◌≤◌, ◌<◌, ◌≡◌, refl, ap, true, false, Option, none, some, List, [],
  ◌∷◌, ◌++◌, if◌then◌else◌, ltb, leb, ◌==◌, ◌&&◌, length, arith, get_or, get_elem?-eq-get_or,
  replicate, length-replicate, ◌⊎◌, inl, inr, dec_le,
}
use university_coursework.Matrix.{
  Cell, Row, MappedRow, Matrix, word, matrix_num_rows, matrix_init, find_mapped, matrix_row,
}

-- The process holds the rows from `from_i` to `to_i`, none of them longer than the matrix is wide.
pub record IsValid {V : Type 0} (mat : Matrix V) : Type 0 where
  pub ordered : mat.from_i ≤ mat.to_i
  pub inside : mat.to_i < mat.m
  pub bounded : mat.m < word
  pub stored : length mat.rows ≡ mat.to_i + 1 - mat.from_i
  pub narrow : (k : ℕ) → k < length mat.rows → length (get_or mat.rows k []) ≤ mat.n

-- The row is one of the process's own.
abbrev pub IsLocal : {V : Type 0} → Matrix V → ℕ → Type 0
IsLocal mat i = (mat.from_i ≤ i) × (i ≤ mat.to_i)

module _ {V : Type 0} (mat : Matrix V) where
  pub num_rows_of :
      mat.from_i ≤ mat.to_i
      → mat.to_i < mat.m
      → mat.m < word
      → matrix_num_rows mat ≡ some (mat.to_i + 1 - mat.from_i)
  unfolding matrix_num_rows
  num_rows_of ordered inside bounded =
      let num : (mat.to_i + word - mat.from_i + 1) % word ≡ mat.to_i + 1 - mat.from_i =
        wraps mat.to_i mat.from_i ordered (omega arith) in
      let fits : leb (mat.to_i + 1 - mat.from_i) mat.m ≡ true =
        small mat.to_i mat.from_i mat.m inside in
      rw (num, fits) refl
    where
      wraps :
          (to from : ℕ) → from ≤ to → to + 1 < word → (to + word - from + 1) % word ≡ to + 1 - from
      wraps to from h b = omega arith

      small : (to from m : ℕ) → to < m → leb (to + 1 - from) m ≡ true
      small to from m h = ground arith

  pub num_rows_lem : IsValid mat → matrix_num_rows mat ≡ some (mat.to_i + 1 - mat.from_i)
  num_rows_lem v = num_rows_of v.ordered v.inside v.bounded

  pub matrix_row_local :
      (i : ℕ)
      → IsValid mat
      → IsLocal mat i
      → matrix_row mat i ≡ some (some (get_or mat.rows (i - mat.from_i) []))
  unfolding matrix_row
  matrix_row_local i v (lo, hi) =
      let below : leb i mat.to_i ≡ true = le_true i mat.to_i hi in
      let above : leb mat.from_i i ≡ true = le_true mat.from_i i lo in
      rw (below, above, get_elem?-eq-get_or mat.rows (i - mat.from_i) [] (omega (arith, v.stored)))
        refl
    where
      le_true : (a b : ℕ) → a ≤ b → leb a b ≡ true
      le_true a b h = ground arith

  pub matrix_row_mapped :
      (i : ℕ)
      → (i < mat.from_i) ⊎ (mat.to_i < i)
      → matrix_row mat i ≡ some (find_mapped mat.mapped_rows i none)
  unfolding matrix_row
  matrix_row_mapped i outside =
      let test : (leb i mat.to_i && leb mat.from_i i) ≡ false = elim outside [
        | inl below ↦ first i mat.to_i mat.from_i below
        | inr above ↦ second i mat.to_i mat.from_i above
      ] in
      rw test refl
    where
      first : (i to from : ℕ) → i < from → (leb i to && leb from i) ≡ false
      first i to from h = ground arith

      second : (i to from : ℕ) → to < i → (leb i to && leb from i) ≡ false
      second i to from h = ground arith

  pub IsLocal-or : (i : ℕ) → IsLocal mat i ⊎ ((i < mat.from_i) ⊎ (mat.to_i < i))
  IsLocal-or i = elim (dec_le mat.from_i i) [
    | yes lo ↦ elim (dec_le i mat.to_i) [
      | yes hi ↦ inl (lo, hi)
      | no above ↦ inr (inr (omega arith))
    ]
    | no below ↦ inr (inl (omega arith))
  ]

pub find_mapped-append :
    {V : Type 0} (mapped : List (MappedRow V)) (i k : ℕ) (row : Row V) (ret : Option (Row V))
    → find_mapped (mapped ++ (record { i = i; row = row } ∷ [])) k ret
      ≡ (if i == k then some row else find_mapped mapped k ret)
unfolding find_mapped
find_mapped-append [] i k row ret = refl
find_mapped-append (x ∷ mapped) i k row ret =
    find_mapped-append mapped i k row (if x.i == k then some x.row else ret)

-- The last row of a stretch, where the matrix may end before it.
pub cut : ℕ → ℕ → ℕ
cut m to_i = if leb m to_i then m - 1 else to_i

pub cut_inside : (m to_i : ℕ) → to_i < m → cut m to_i ≡ to_i
unfolding cut
cut_inside m to_i h = ground arith

cut_bounds :
    (m from_i to_i : ℕ) → from_i ≤ to_i → from_i < m → (from_i ≤ cut m to_i) × (cut m to_i < m)
unfolding cut
cut_bounds m from_i to_i ordered inside = (ground arith, ground arith)

last_lem :
    (m to_i : ℕ)
    → 0 < m
    → m < word
    → (if leb m to_i then (m + word - 1) % word else to_i) ≡ cut m to_i
unfolding cut
last_lem m to_i some_row bounded =
    ap (λ k. if leb m to_i then k else to_i) (wraps m some_row bounded)
  where
    wraps : (m : ℕ) → 0 < m → m < word → (m + word - 1) % word ≡ m - 1
    wraps m h b = omega arith

get_or-empty : (V : Type 0) (n k : ℕ) → length {A = Cell V} (get_or (replicate n []) k []) ≡ 0
get_or-empty V zero k = refl
get_or-empty V (suc n) zero = refl
get_or-empty V (suc n) (suc k) = get_or-empty V n k

-- A matrix of the stretch whose rows are empty.
abbrev pub blank_matrix : (V : Type 0) → (m n from_i to_i : ℕ) → Matrix V
blank_matrix V m n from_i to_i = record {
  m = m;
  n = n;
  from_i = from_i;
  to_i = to_i;
  rows = replicate (to_i + 1 - from_i) [];
  mapped_rows = [];
}

blank-IsValid :
    (V : Type 0) (m n from_i to_i : ℕ)
    → from_i ≤ to_i
    → to_i < m
    → m < word
    → IsValid (blank_matrix V m n from_i to_i)
blank-IsValid V m n from_i to_i low high bounded = record {
  ordered = low;
  inside = high;
  bounded = bounded;
  stored = length-replicate (to_i + 1 - from_i) [];
  narrow = λ k h. omega (arith, get_or-empty V (to_i + 1 - from_i) k);
}

-- For a stretch that begins within the matrix `matrix_init` returns a valid matrix of that stretch,
-- cut off at the last row, whose rows are empty.
pub matrix_init-IsValid :
    {V : Type 0} (m n from_i to_i : ℕ)
    → from_i ≤ to_i
    → from_i < m
    → m < word
    → (matrix_init m n from_i to_i ≡ some (blank_matrix V m n from_i (cut m to_i)))
      × IsValid (blank_matrix V m n from_i (cut m to_i))
unfolding matrix_init
matrix_init-IsValid {V} m n from_i to_i ordered inside bounded =
    let (low, high) = cut_bounds m from_i to_i ordered inside in
    let valid = blank-IsValid V m n from_i (cut m to_i) low high bounded in
    (
      rw
          (
            last_lem m to_i (omega arith) bounded,
            tests from_i (cut m to_i) m low high,
            num_rows_lem (blank_matrix V m n from_i (cut m to_i)) valid,
          )
          refl,
      valid,
    )
  where
    tests : (from last m : ℕ) → from ≤ last → last < m → (leb from last && ltb last m) ≡ true
    tests from last m h k = ground arith
