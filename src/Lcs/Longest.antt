-- ===== src/Lcs/Longest.antt =====
-- `lcs_serial` of lcs_serial.c from its arguments to the buffer that it leaves.
use university_coursework.Base.{
  ℕ, ◌+◌, ◌*◌, ◌≤◌, ◌<◌, ◌≡◌, some, List, [], ◌∷◌, ◌++◌, length, arith, Option, write_all,
  length-write_all, int_limit,
}
use university_coursework.CString.Reverse.{rev, length-rev, strlen_lem}
use university_coursework.CString.Text.{IsFull, text-IsText, span-text}
use university_coursework.Lcs.{Cell, lcs_serial}
use university_coursework.Lcs.Subsequence.{IsSubsequence}
use university_coursework.Lcs.Block.{fresh, serial_fills}
use university_coursework.Lcs.Serial.{
  Holds, chars, answer_one, answer_two, answer_longest, length-chars, IsSubsequence-IsFull,
  init_lem, back_lem,
}

-- For two strings of one length `n` whose grid is small enough for int indices, a buffer of more than
-- `n` characters, a `malloc` that gives what is asked for, and fuel above `2 * n`, `lcs_serial`
-- returns. Its buffer then holds a string that is a subsequence of both strings, and no common
-- subsequence `ws` is longer.
pub serial_longest :
    (fuel : ℕ) (malloc_cells : ℕ → Option (List Cell)) (malloc : ℕ → Option (List ℕ))
    (s1 s2 res ws : List ℕ)
    → length s1 ≡ length s2
    → IsFull s1
    → (length s1 + 1) * (length s2 + 1) < int_limit
    → length s1 + length s2 < fuel
    → length s1 < length res
    → (block : List Cell) × (malloc_cells ((length s1 + 1) * (length s2 + 1)) ≡ some block)
    → ((n : ℕ) → (block : List ℕ) × (malloc n ≡ some block) × (length block ≡ n))
    → IsSubsequence ws s1
    → IsSubsequence ws s2
    → (out : List ℕ) × (zs : List ℕ) × (lcs_serial fuel malloc_cells malloc s1 s2 res ≡ some out)
      × Holds out zs
      × IsSubsequence zs s1
      × IsSubsequence zs s2
      × (length ws ≤ length zs)
unfolding lcs_serial fresh
serial_longest fuel malloc_cells malloc s1 s2 res ws same full small enough room given gives one
      two =
    let (cells, run, filled) = serial_fills s1 s2 same (omega arith) in
    let found = chars s1 s2 same full in
    let zs = rev found in
    let text = write_all res 0 (found ++ (0 ∷ [])) in
    let fits : length zs < length text = omega (
      arith,
      length-rev found,
      length-chars s1 s2 same full,
      length-write_all res 0 (found ++ (0 ∷ [])),
    ) in
    let zs_full = IsSubsequence-IsFull zs s1 (answer_one s1 s2 same full) full in
    (
      write_all text 0 (zs ++ (0 ∷ [])),
      zs,
      rw (init_lem fuel malloc_cells malloc s1 s2 res same full small enough room given gives, run)
          (back_lem fuel malloc_cells malloc s1 s2 res same full small enough room given gives cells
            filled),
      record {
        measured =
            strlen_lem (write_all text 0 (zs ++ (0 ∷ []))) (length zs)
              (text-IsText text zs fits zs_full);
        read = span-text text zs fits zs_full;
      },
      answer_one s1 s2 same full,
      answer_two s1 s2 same full,
      answer_longest s1 s2 same full ws one two,
    )
