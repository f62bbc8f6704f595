-- ===== src/Matrix/Wire.antt =====
-- What `matrix_serialize` writes, `matrix_deserialize` reads.
use university_coursework.Base.{
  ℕ, zero, suc, ◌+◌, ◌-◌, ◌*◌, ◌≤◌, ◌<◌, ◌≡◌, refl, sym, ap, ap₂, ◌∙◌, true, some, List, [], ◌∷◌,
  ◌++◌, map, append_assoc, leb, ◌==◌, length, arith, get_or, get_or-append_end, take, length-append,
}
use university_coursework.Matrix.{
  Row, Matrix, matrix_num_rows, deref_row, local_rows, Chunk, matrix_chunk, row_chunk, cell_chunk,
  total_size, add_sizes, copy_cells, matrix_serialize, read_rows, read_cells, fill_rows,
  matrix_deserialize,
}
use university_coursework.Matrix.Valid.{IsValid, num_rows_lem, matrix_row_local}

module _ {V : Type 0} where
  -- The cells of the rows, one row after the other.
  abbrev cells_of : List (Row V) → List (Chunk V)
  cells_of [] = []
  cells_of (row ∷ rows) = map cell_chunk row ++ cells_of rows

  abbrev heads_of : List (Row V) → List (Chunk V)
  heads_of rows = map (λ row. row_chunk (length row)) rows

  abbrev cells_size : List (Row V) → ℕ
  cells_size [] = 0
  cells_size (row ∷ rows) = length row * 16 + cells_size rows

  pub deref_local :
      (mat : Matrix V) (done rest : List (Row V)) (row : Row V)
      → IsValid mat
      → mat.rows ≡ done ++ (row ∷ rest)
      → deref_row mat (mat.from_i + length done) ≡ some row
  unfolding deref_row
  deref_local mat done rest row v e =
      let size : length mat.rows ≡ length done + suc (length rest) =
        ap length e ∙ length-append done (row ∷ rest) in
      let at : mat.from_i + length done - mat.from_i ≡ length done = omega arith in
      let found : get_or mat.rows (mat.from_i + length done - mat.from_i) [] ≡ row =
        ap₂ (λ rows k. get_or rows k []) e at
        ∙ get_or-append_end done rest (length done) row [] refl in
      rw (matrix_row_local mat (mat.from_i + length done) v (omega (arith, v.stored, size)), found)
        refl

  copy_cells_lem :
      (mat : Matrix V) (done rest : List (Row V)) (rounds i : ℕ)
      → IsValid mat
      → mat.rows ≡ done ++ rest
      → rounds ≡ length rest
      → i ≡ mat.from_i + length done
      → copy_cells mat i rounds ≡ some (cells_of rest)
  unfolding copy_cells
  copy_cells_lem mat done [] zero i v e n at = refl
  copy_cells_lem mat done [] (suc rounds) i v e n at = absurd (omega arith)
  copy_cells_lem mat done (row ∷ rest) zero i v e n at = absurd (omega arith)
  copy_cells_lem mat done (row ∷ rest) (suc rounds) i v e n at =
      let next =
        copy_cells_lem mat (done ++ (row ∷ [])) rest rounds (i + 1) v
          (e ∙ sym (append_assoc done (row ∷ []) rest)) (omega arith)
          (omega (arith, length-append done (row ∷ []))) in
      let here = ap (deref_row mat) at ∙ deref_local mat done rest row v e in rw (here, next) refl

  add_sizes_lem :
      (mat : Matrix V) (done rest : List (Row V)) (rounds i bufsize : ℕ)
      → IsValid mat
      → mat.rows ≡ done ++ rest
      → rounds ≡ length rest
      → i ≡ mat.from_i + length done
      → add_sizes mat i rounds bufsize ≡ some (bufsize + cells_size rest)
  unfolding add_sizes
  add_sizes_lem mat done [] zero i bufsize v e n at = ap some (omega arith)
  add_sizes_lem mat done [] (suc rounds) i bufsize v e n at = absurd (omega arith)
  add_sizes_lem mat done (row ∷ rest) zero i bufsize v e n at = absurd (omega arith)
  add_sizes_lem mat done (row ∷ rest) (suc rounds) i bufsize v e n at =
      let next =
        add_sizes_lem mat (done ++ (row ∷ [])) rest rounds (i + 1) (bufsize + length row * 16) v
          (e ∙ sym (append_assoc done (row ∷ []) rest)) (omega arith)
          (omega (arith, length-append done (row ∷ []))) in
      let here = ap (deref_row mat) at ∙ deref_local mat done rest row v e in
      rw here (next ∙ ap some (omega arith))

  size-append : (xs ys : List (Chunk V)) → total_size (xs ++ ys) ≡ total_size xs + total_size ys
  size-append [] ys = omega arith
  size-append (x ∷ xs) ys = omega (arith, size-append xs ys)

  size-heads : (rows : List (Row V)) → total_size (heads_of rows) ≡ length rows * 16
  size-heads [] = refl
  size-heads (row ∷ rows) = omega (arith, size-heads rows)

  size-row : (row : Row V) → total_size (map cell_chunk row) ≡ length row * 16
  size-row [] = refl
  size-row (cell ∷ row) = omega (arith, size-row row)

  size-cells : (rows : List (Row V)) → total_size (cells_of rows) ≡ cells_size rows
  size-cells [] = refl
  size-cells (row ∷ rows) =
      size-append (map cell_chunk row) (cells_of rows) ∙ ap₂ ◌+◌ (size-row row) (size-cells rows)

  take_all : (rows : List (Row V)) → take (length rows) rows ≡ rows
  take_all [] = refl
  take_all (row ∷ rows) = ap (λ rest. row ∷ rest) (take_all rows)

  read_rows_lem :
      (rows : List (Row V)) (rest : List (Chunk V))
      → read_rows (length rows) (heads_of rows ++ rest) ≡ some (map length rows, rest)
  unfolding read_rows
  read_rows_lem [] rest = refl
  read_rows_lem (row ∷ rows) rest = rw (read_rows_lem rows rest) refl

  read_cells_lem :
      (row : Row V) (rest : List (Chunk V))
      → read_cells (length row) (map cell_chunk row ++ rest) ≡ some (row, rest)
  unfolding read_cells
  read_cells_lem [] rest = refl
  read_cells_lem (cell ∷ row) rest = rw (read_cells_lem row rest) refl

  fill_rows_lem :
      (n : ℕ) (rows : List (Row V))
      → ((k : ℕ) → k < length rows → length (get_or rows k []) ≤ n)
      → fill_rows n (map length rows) (cells_of rows) ≡ some rows
  unfolding fill_rows
  fill_rows_lem n [] narrow = refl
  fill_rows_lem n (row ∷ rows) narrow =
      let fits : leb (length row) n ≡ true = le_true (length row) n (narrow 0 (omega arith)) in
      rw
        (
          fits,
          read_cells_lem row (cells_of rows),
          fill_rows_lem n rows (λ k h. narrow (suc k) (omega arith)),
        )
        refl
    where
      le_true : (a b : ℕ) → a ≤ b → leb a b ≡ true
      le_true a b h = ground arith

  -- What goes over the wire.
  pub written : Matrix V → List (Chunk V)
  written mat =
      matrix_chunk mat.m mat.n mat.from_i mat.to_i ∷ heads_of mat.rows ++ cells_of mat.rows

  pub written_positive : (mat : Matrix V) → 0 < total_size (written mat)
  unfolding written
  written_positive mat = omega arith

  pub serialize_lem :
      (mat : Matrix V)
      → IsValid mat
      → matrix_serialize mat ≡ some (written mat, total_size (written mat))
  unfolding matrix_serialize local_rows written deref_row
  serialize_lem mat v =
      let num : mat.to_i + 1 - mat.from_i ≡ length mat.rows = sym v.stored in
      let size : 56 + length mat.rows * 16 + cells_size mat.rows ≡ total_size (written mat) =
        omega (
          arith,
          size-append (heads_of mat.rows) (cells_of mat.rows),
          size-heads mat.rows,
          size-cells mat.rows,
        ) in
      let fits : leb (length mat.rows) (length mat.rows) ≡ true = le_self (length mat.rows) in
      rw
        (
          num_rows_lem mat v,
          num,
          add_sizes_lem mat [] mat.rows (length mat.rows) mat.from_i (56 + length mat.rows * 16) v
              refl refl (omega arith),
          first,
          copy_cells_lem mat [] mat.rows (length mat.rows) mat.from_i v refl refl (omega arith),
          take_all mat.rows,
          fits,
          size,
          eq_self (total_size (written mat)),
        )
        refl
    where
      le_self : (a : ℕ) → leb a a ≡ true
      le_self a = ground arith

      first : deref_row mat mat.from_i ≡ some (get_or mat.rows (mat.from_i - mat.from_i) [])
      first = rw (matrix_row_local mat mat.from_i v (omega (arith, v.ordered))) refl

      eq_self : (a : ℕ) → (a == a) ≡ true
      eq_self a = ground arith

  pub deserialize_lem :
      (mat : Matrix V)
      → IsValid mat
      → matrix_deserialize (written mat) ≡ some (record mat { mapped_rows = [] })
  unfolding matrix_deserialize written
  deserialize_lem mat v =
      let alone : Matrix V = record mat { rows = []; mapped_rows = [] } in
      let num : matrix_num_rows alone ≡ some (length mat.rows) =
        num_rows_lem mat v ∙ ap some (sym v.stored) in
      rw (num, read_rows_lem mat.rows (cells_of mat.rows), fill_rows_lem mat.n mat.rows v.narrow)
        refl

-- A valid matrix can be serialised, in as many bytes as the code counts; what a process that
-- deserialises the buffer gets is the matrix without the rows that had been mapped into it.
pub serialize_roundtrip :
    {V : Type 0} (mat : Matrix V)
    → IsValid mat
    → (buf : List (Chunk V)) × (matrix_serialize mat ≡ some (buf, total_size buf))
      × (matrix_deserialize buf ≡ some (record mat { mapped_rows = [] }))
serialize_roundtrip mat v = (written mat, serialize_lem mat v, deserialize_lem mat v)
