-- ===== src/Product/Rows.antt =====
-- The rows of a product are the sparse dot products of the matrix's rows.
use university_coursework.Base.{
  ℕ, zero, suc, ◌+◌, ◌-◌, ◌≤◌, ◌≡◌, refl, sym, ap, ◌∙◌, true, some, List, [], ◌∷◌, ◌++◌, map,
  append_assoc, append-nil, leb, ◌&&◌, length, arith, set, store_of_lt, replicate, length-append,
}
use university_coursework.Matrix.{Cell, Row, Matrix, matrix_row, deref_row, local_rows}
use university_coursework.Matrix.Valid.{IsValid, matrix_init-IsValid, blank_matrix, cut, cut_inside}
use university_coursework.Matrix.Wire.{deref_local}
use university_coursework.Product.{
  Values, multiply_row, put_value, multiply_from, matrix_vector_mult,
}

-- The vector has a value for the index.
pub record Provides {V : Type 0} (vec : Matrix V) (x : ℕ → V) (j : ℕ) : Type 0 where
  pub cell : Cell V
  pub more : Row V
  pub found : matrix_row vec j ≡ some (some (cell ∷ more))
  pub value : cell.val ≡ x j

-- It has one for each cell of a row, and of some rows.
abbrev pub ProvidesRow : {V : Type 0} → Matrix V → (ℕ → V) → Row V → Type 0
ProvidesRow vec x [] = Unit
ProvidesRow vec x (cell ∷ row) = Provides vec x cell.j × ProvidesRow vec x row

abbrev pub ProvidesRows : {V : Type 0} → Matrix V → (ℕ → V) → List (Row V) → Type 0
ProvidesRows vec x [] = Unit
ProvidesRows vec x (row ∷ rows) = ProvidesRow vec x row × ProvidesRows vec x rows

module _ {V : Type 0} (values : Values V) where
  -- The sum of the products, from the first cell on.
  pub dot : (ℕ → V) → Row V → V → V
  dot x [] val = val
  dot x (cell ∷ row) val = dot x row (values.plus val (values.times cell.val (x cell.j)))

  -- The rows of the product of some rows with a vector.
  pub dots : (ℕ → V) → List (Row V) → List (Row V)
  dots x rows = map (λ row. record { j = 0; val = dot x row values.nothing } ∷ []) rows

  multiply_row_lem :
      (vec : Matrix V) (x : ℕ → V) (row : Row V) (val : V)
      → ProvidesRow vec x row
      → multiply_row values vec row val ≡ some (dot x row val)
  unfolding multiply_row deref_row dot
  multiply_row_lem vec x [] val h = refl
  multiply_row_lem vec x (cell ∷ row) val (p, h) =
      rw (p.found, p.value)
        (multiply_row_lem vec x row (values.plus val (values.times cell.val (x cell.j))) h)

  set-append :
      (xs : List (Row V)) (y v : Row V) (ys : List (Row V))
      → set (xs ++ (y ∷ ys)) (length xs) v ≡ xs ++ (v ∷ ys)
  set-append [] y v ys = refl
  set-append (x ∷ xs) y v ys = ap (λ zs. x ∷ zs) (set-append xs y v ys)

  length-map : (f : Row V → Row V) (xs : List (Row V)) → length (map f xs) ≡ length xs
  length-map f [] = refl
  length-map f (x ∷ xs) = ap suc (length-map f xs)

  map-append :
      (f : Row V → Row V) (xs : List (Row V)) (y : Row V)
      → map f (xs ++ (y ∷ [])) ≡ map f xs ++ (f y ∷ [])
  map-append f [] y = refl
  map-append f (x ∷ xs) y = ap (λ zs. f x ∷ zs) (map-append f xs y)

  abbrev result_row : (ℕ → V) → Row V → Row V
  result_row x row = record { j = 0; val = dot x row values.nothing } ∷ []

  put_lem :
      (res : Matrix V) (done rest : List (Row V)) (val : V) (i : ℕ)
      → i ≡ res.from_i + length done
      → i ≤ res.to_i
      → res.rows ≡ done ++ ([] ∷ rest)
      → put_value values res i val
        ≡ some (record res { rows = done ++ ((record { j = 0; val = val } ∷ []) ∷ rest) })
  unfolding put_value
  put_lem res done rest val i at inside so_far =
      let tests : (leb i res.to_i && leb res.from_i i) ≡ true =
        both i res.to_i res.from_i inside (omega arith) in
      let where_at : i - res.from_i ≡ length done = omega arith in
      rw
        (
          tests,
          where_at,
          so_far,
          store_of_lt (done ++ ([] ∷ rest)) (length done) (record { j = 0; val = val } ∷ [])
              (omega (arith, length-append done ([] ∷ rest))),
          set-append done [] (record { j = 0; val = val } ∷ []) rest,
        )
        refl
    where
      both : (a b c : ℕ) → a ≤ b → c ≤ a → (leb a b && leb c a) ≡ true
      both a b c h k = ground arith

  multiply_from_lem :
      (mat vec res : Matrix V) (x : ℕ → V) (done rest : List (Row V)) (i rounds : ℕ)
      → IsValid mat
      → mat.rows ≡ done ++ rest
      → rounds ≡ length rest
      → i ≡ mat.from_i + length done
      → ProvidesRows vec x rest
      → res.from_i ≡ mat.from_i
      → res.to_i ≡ mat.to_i
      → res.rows ≡ dots x done ++ replicate (length rest) []
      → multiply_from values mat vec i rounds res ≡ some (record res { rows = dots x mat.rows })
  unfolding multiply_from dots
  multiply_from_lem mat vec res x done [] i zero v e n at h from to so_far =
      ap (λ rows. some (record res { rows = rows }))
        (so_far ∙ append-nil (dots x done) ∙ ap (dots x) (sym (append-nil done) ∙ sym e))
  multiply_from_lem mat vec res x done [] i (suc rounds) v e n at h from to so_far =
      absurd (omega arith)
  multiply_from_lem mat vec res x done (row ∷ rest) i zero v e n at h from to so_far =
      absurd (omega arith)
  multiply_from_lem mat vec res x done (row ∷ rest) i (suc rounds) v e n at (p, h) from to so_far =
      let size = ap length e ∙ length-append done (row ∷ rest) in
      let count = length-map (result_row x) done in
      let next : Matrix V = record res {
        rows = dots x done ++ (result_row x row ∷ replicate (length rest) []);
      } in
      rw
        (
          ap (deref_row mat) at ∙ deref_local mat done rest row v e,
          multiply_row_lem vec x row values.nothing p,
          put_lem res (dots x done) (replicate (length rest) []) (dot x row values.nothing) i
              (omega arith) (omega (arith, v.stored)) so_far,
        )
        (multiply_from_lem mat vec next x (done ++ (row ∷ [])) rest (i + 1) rounds v
          (e ∙ sym (append_assoc done (row ∷ []) rest)) (omega arith)
          (omega (arith, length-append done (row ∷ []))) h from to
          (sym (append_assoc (dots x done) (result_row x row ∷ []) (replicate (length rest) []))
            ∙ ap (λ rows. rows ++ replicate (length rest) [])
                (sym (map-append (result_row x) done row))))

  -- Where the vector, as far as the process holds it, has the value `x j` for the column `j` of each
  -- cell, the product has the rows of the matrix, each with one cell: the sum of the products of the
  -- row's cells with those values.
  pub product_rows :
      (mat vec : Matrix V) (x : ℕ → V)
      → IsValid mat
      → ProvidesRows vec x mat.rows
      → (res : Matrix V) × (matrix_vector_mult values mat vec ≡ some res)
        × (res.from_i ≡ mat.from_i)
        × (res.to_i ≡ mat.to_i)
        × (res.rows ≡ dots x mat.rows)
  unfolding matrix_vector_mult local_rows dots
  product_rows mat vec x v provides =
      let (made, _) =
        matrix_init-IsValid {V = V} mat.m 1 mat.from_i mat.to_i v.ordered
          (omega (arith, v.ordered, v.inside)) v.bounded in
      let last = cut_inside mat.m mat.to_i v.inside in
      let res = blank_matrix V mat.m 1 mat.from_i (cut mat.m mat.to_i) in
      let count : cut mat.m mat.to_i + 1 - mat.from_i ≡ length mat.rows =
        ap (λ k. k + 1 - mat.from_i) (cut_inside mat.m mat.to_i v.inside) ∙ sym v.stored in
      (
        record res { rows = dots x mat.rows },
        rw made (
            multiply_from_lem mat vec res x [] mat.rows mat.from_i (mat.to_i + 1 - mat.from_i) v
              refl (sym v.stored) (omega arith) provides refl last
              (ap (λ k. replicate k []) count)),
        refl,
        last,
        refl,
      )
