-- ===== src/Reading/Tests.antt =====
-- Files whose lines are given by their tokens.
use university_coursework.Base.{ℕ, ◌≡◌, false, none, List, [], ◌∷◌, arith}
use university_coursework.Matrix.{Row}
use university_coursework.Reading.{Texts, matrix_read}
use university_coursework.Reading.Slack.{matrix_read_fails}

abbrev plain : Texts (List ℕ) ℕ
plain = record { tokens = λ line. line; number = λ line. 0; value = λ n. n }

abbrev line_of : ℕ → ℕ → ℕ → List ℕ
line_of i j val = i ∷ j ∷ val ∷ []

-- Five rows, one of them empty.
abbrev five_rows : List (Row ℕ)
five_rows =
    (record { j = 1; val = 4 } ∷ record { j = 4; val = 6 } ∷ [])
    ∷ []
    ∷ (record { j = 0; val = 5 } ∷ [])
    ∷ (record { j = 3; val = 2 } ∷ [])
    ∷ (record { j = 2; val = 8 } ∷ [])
    ∷ []

matrix_read_fails_example : matrix_read {V = ℕ} plain 2 3 3 false (line_of 0 0 1 ∷ []) ≡ none
matrix_read_fails_example =
    matrix_read_fails plain 2 3 3 false (omega arith) (omega arith) (omega arith) (omega arith)
      (line_of 0 0 1 ∷ [])
