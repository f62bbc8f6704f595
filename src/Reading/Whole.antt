-- ===== src/Reading/Whole.antt =====
-- `matrix_read` from the file to the processes.
use university_coursework.Base.{ℕ, ◌+◌, ◌<◌, ◌≡◌, some, List, [], ◌∷◌, length, int_limit}
use university_coursework.Matrix.{Row, Chunk, total_size, matrix_deserialize}
use university_coursework.Reading.{Texts}
use university_coursework.Reading.Deal.{stretch}

module _ {Line V : Type 0} (texts : Texts Line V) (line_of : ℕ → ℕ → ℕ → Line)
    (prints : (i j val : ℕ)
      → i < int_limit
      → j < int_limit
      → val < int_limit
      → texts.tokens (line_of i j val) ≡ i ∷ j ∷ val ∷ [])
    (p m n : ℕ) where
  -- Each of the processes has been sent a buffer from which it makes its stretch of the matrix.
  abbrev pub IsGiven : (from_i : ℕ) → List (List (Row ℕ)) → List (List (Chunk V) × ℕ) → Type 0
  IsGiven from_i [] [] = Unit
  IsGiven from_i (own ∷ parts) ((buf, bufsize) ∷ sent) =
      (bufsize ≡ total_size buf)
      × (matrix_deserialize buf ≡ some (stretch texts line_of prints p m n from_i own))
      × IsGiven (from_i + length own) parts sent
  IsGiven from_i [] (_ ∷ _) = ⊥
  IsGiven from_i (_ ∷ _) [] = ⊥
