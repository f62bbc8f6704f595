-- ===== src/Lcs/Tests.antt =====
-- The grid and lcs_serial.c on short strings.
use university_coursework.Base.{
  ℕ, zero, suc, ◌≤◌, ◌≡◌, refl, some, List, none, [], ◌∷◌, length, arith, Option, replicate,
  length-replicate, inl, inr,
}
use university_coursework.CString.Text.{IsFull}
use university_coursework.Lcs.{Cell, blank, lcs_serial, lcs_length_serial, lcs_length_block}
use university_coursework.Lcs.Subsequence.{IsSubsequence}
use university_coursework.Lcs.Fill.{with_cells}
use university_coursework.Lcs.Block.{
  Filled, fresh, fresh-IsValid, fresh_row, fresh_column, lcs_length_block_lem,
}
use university_coursework.Lcs.Serial.{Holds}
use university_coursework.Lcs.Longest.{serial_longest}
use university_coursework.Lcs.Outside.{serial_reads_outside}

abbrev first_word : List ℕ
first_word = 5 ∷ 6 ∷ 7 ∷ []

abbrev second_word : List ℕ
second_word = 6 ∷ 8 ∷ 7 ∷ []

abbrev give_cells : ℕ → Option (List Cell)
give_cells n = some (replicate n blank)

abbrev give_bytes : ℕ → Option (List ℕ)
give_bytes n = some (replicate n 1)

abbrev buffer : List ℕ
buffer = 1 ∷ 1 ∷ 1 ∷ 1 ∷ []

first_word-IsFull : IsFull first_word
first_word-IsFull zero h = λ e. omega arith
first_word-IsFull (suc zero) h = λ e. omega arith
first_word-IsFull (suc (suc zero)) h = λ e. omega arith
first_word-IsFull (suc (suc (suc k))) h = absurd (omega arith)

serial_longest_example :
    (out : List ℕ) × (zs : List ℕ) × (lcs_serial 7 give_cells give_bytes first_word second_word
        buffer
      ≡ some out)
    × Holds out zs
    × IsSubsequence zs first_word
    × IsSubsequence zs second_word
    × (2 ≤ length zs)
serial_longest_example =
    serial_longest 7 give_cells give_bytes first_word second_word buffer (6 ∷ 7 ∷ []) refl
      first_word-IsFull (omega arith) (omega arith) (omega arith) (replicate 16 blank, refl)
      (λ n. (replicate n 1, refl, length-replicate n 1)) (inr (inl (refl, inl (refl, tt))))
      (inl (refl, inr (inl (refl, tt))))

lcs_length_block_lem_example :
    (cells : List Cell) × (lcs_length_block (fresh first_word second_word) 1 1 2 2
      ≡ some (with_cells (fresh first_word second_word) cells))
    × Filled (fresh first_word second_word) 0 0 2 2 cells
unfolding fresh
lcs_length_block_lem_example =
    lcs_length_block_lem (fresh first_word second_word) 0 0 2 2
      (fresh-IsValid first_word second_word refl (omega arith)) (omega arith) (omega arith)
      (λ b lo up. fresh_row first_word second_word refl (omega arith) b)
      (λ a lo up. fresh_column first_word second_word refl (omega arith) a)

serial_reads_outside_example : lcs_length_serial (fresh first_word (6 ∷ [])) ≡ none
serial_reads_outside_example = serial_reads_outside first_word (6 ∷ []) (omega arith) (omega arith)
