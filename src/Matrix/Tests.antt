-- ===== src/Matrix/Tests.antt =====
-- A stretch of a matrix, into which a row is mapped.
use university_coursework.Base.{
  ℕ, zero, suc, ◌≤◌, ◌<◌, ◌≡◌, refl, some, List, [], ◌∷◌, length, arith, get_or, inr,
}
use university_coursework.Matrix.{
  Matrix, Chunk, total_size, matrix_map_row, matrix_serialize, matrix_deserialize,
}
use university_coursework.Matrix.Valid.{IsValid}
use university_coursework.Matrix.Wire.{serialize_roundtrip}
use university_coursework.Matrix.Added.{IsAfter, map_row_keeps_first}

abbrev two_rows : Matrix ℕ
two_rows = record {
  m = 5;
  n = 5;
  from_i = 1;
  to_i = 2;
  rows =
      (record { j = 4; val = 7 } ∷ [])
      ∷ (record { j = 0; val = 3 } ∷ record { j = 2; val = 9 } ∷ [])
      ∷ [];
  mapped_rows = record { i = 4; row = record { j = 0; val = 8 } ∷ [] } ∷ [];
}

two_rows-IsValid : IsValid two_rows
two_rows-IsValid = record {
  ordered = omega arith;
  inside = omega arith;
  bounded = omega arith;
  stored = refl;
  narrow = narrow;
}
  where
    narrow : (k : ℕ) → k < 2 → length (get_or two_rows.rows k []) ≤ 5
    narrow zero h = omega arith
    narrow (suc zero) h = omega arith
    narrow (suc (suc k)) h = absurd (omega arith)

serialize_roundtrip_example :
    (buf : List (Chunk ℕ)) × (matrix_serialize two_rows ≡ some (buf, total_size buf))
    × (matrix_deserialize buf ≡ some (record two_rows { mapped_rows = [] }))
serialize_roundtrip_example = serialize_roundtrip two_rows two_rows-IsValid

map_row_keeps_first_example :
    (mat' : Matrix ℕ) × (matrix_map_row two_rows (record { j = 0; val = 6 } ∷ []) 3 ≡ some mat')
    × IsAfter two_rows 3 (record { j = 0; val = 6 } ∷ []) mat'
map_row_keeps_first_example =
    map_row_keeps_first two_rows 3 (record { j = 0; val = 6 } ∷ []) two_rows-IsValid
      (record { once = (tt, tt); foreign = ((omega arith, inr (omega arith)), tt) }) (omega arith)
      (omega arith)
