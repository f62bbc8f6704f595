-- ===== src/Lcs/Serial.antt =====
-- `lcs_serial` of lcs_serial.c computes a longest common subsequence.
use university_coursework.Base.{
  ℕ, zero, suc, ◌+◌, ◌*◌, ◌≤◌, ◌<◌, ◌≡◌, refl, sym, ap, ◌∙◌, subst, some, List, [], ◌∷◌, ◌++◌,
  length, arith, inl, inr, Option, set, span, write_all, store_of_lt, length-write_all, int_limit,
  lt→ltb,
}
use university_coursework.CString.{strlen}
use university_coursework.CString.Reverse.{front, rev, rev-rev, length-rev, strrev_lem}
use university_coursework.CString.Text.{
  IsFull, front-IsFull, write_all-end, front-eq-rev, text-IsText, span-text,
}
use university_coursework.Lcs.{Cell, grid_init, lcs_backtrack_serial}
use university_coursework.Lcs.Subsequence.{IsSubsequence, rev-IsSubsequence}
use university_coursework.Lcs.Spec.{trace, length-trace, trace-IsSubsequence, spec_cell-IsBound}
use university_coursework.Lcs.Fill.{with_cells, with_cells-IsValid}
use university_coursework.Lcs.Block.{Filled, fresh, fresh-IsValid}
use university_coursework.Lcs.Backtrack.{IsFilled, backtrack_from_lem}

length-IsSubsequence : (xs ys : List ℕ) → IsSubsequence xs ys → length xs ≤ length ys
length-IsSubsequence [] ys h = omega arith
length-IsSubsequence (x ∷ xs) [] h = absurd h
length-IsSubsequence (x ∷ xs) (y ∷ ys) (inl (e, h)) = omega (arith, length-IsSubsequence xs ys h)
length-IsSubsequence (x ∷ xs) (y ∷ ys) (inr h) = omega (arith, length-IsSubsequence (x ∷ xs) ys h)

pub IsSubsequence-IsFull : (xs ys : List ℕ) → IsSubsequence xs ys → IsFull ys → IsFull xs
IsSubsequence-IsFull [] ys h full k lt = absurd (omega arith)
IsSubsequence-IsFull (x ∷ xs) [] h full k lt = absurd h
IsSubsequence-IsFull (x ∷ xs) (y ∷ ys) (inl (e, h)) full zero lt =
    λ z. full zero (omega arith) (sym e ∙ z)
IsSubsequence-IsFull (x ∷ xs) (y ∷ ys) (inl (e, h)) full (suc k) lt =
    IsSubsequence-IsFull xs ys h (λ j l. full (suc j) (omega arith)) k (omega arith)
IsSubsequence-IsFull (x ∷ xs) (y ∷ ys) (inr h) full k lt =
    IsSubsequence-IsFull (x ∷ xs) ys h (λ j l. full (suc j) (omega arith)) k lt

-- The C string that a buffer holds.
pub record Holds (buffer ws : List ℕ) : Type 0 where
  pub measured : strlen buffer ≡ some (length ws)
  pub read : span 0 buffer 0 (length ws) ≡ ws

module _ (s1 s2 : List ℕ) (same : length s1 ≡ length s2) (full : IsFull s1) where
  abbrev pub chars : List ℕ
  chars = trace s1 s2 (length s2) (length s1)

  chars_one : IsSubsequence chars (rev s1)
  chars_one =
      subst (IsSubsequence chars) (ap (front s1) (sym same) ∙ front-eq-rev s1)
        ((trace-IsSubsequence s1 s2 (length s2) (length s1)).0)

  chars_two : IsSubsequence chars (rev s2)
  chars_two =
      subst (IsSubsequence chars) (ap (front s2) same ∙ front-eq-rev s2)
        ((trace-IsSubsequence s1 s2 (length s2) (length s1)).1)

  pub answer_one : IsSubsequence (rev chars) s1
  answer_one =
      subst (IsSubsequence (rev chars)) (rev-rev s1) (rev-IsSubsequence chars (rev s1) chars_one)

  pub answer_two : IsSubsequence (rev chars) s2
  answer_two =
      subst (IsSubsequence (rev chars)) (rev-rev s2) (rev-IsSubsequence chars (rev s2) chars_two)

  pub answer_longest :
      (ws : List ℕ) → IsSubsequence ws s1 → IsSubsequence ws s2 → length ws ≤ length (rev chars)
  answer_longest ws one two =
      let one_rev : IsSubsequence (rev ws) (front s1 (length s2)) =
        subst (IsSubsequence (rev ws)) (sym (ap (front s1) (sym same) ∙ front-eq-rev s1))
          (rev-IsSubsequence ws s1 one) in
      let two_rev : IsSubsequence (rev ws) (front s2 (length s1)) =
        subst (IsSubsequence (rev ws)) (sym (ap (front s2) same ∙ front-eq-rev s2))
          (rev-IsSubsequence ws s2 two) in
      omega (
        arith,
        spec_cell-IsBound s1 s2 (length s2) (length s1) (rev ws) one_rev two_rev,
        length-trace s1 s2 (length s2) (length s1),
        length-rev ws,
        length-rev chars,
      )

  pub chars-IsFull : IsFull chars
  chars-IsFull =
      IsSubsequence-IsFull chars (front s1 (length s2))
        ((trace-IsSubsequence s1 s2 (length s2) (length s1)).0)
        (front-IsFull s1 (length s2) (omega arith) full)

  pub length-chars : length chars ≤ length s1
  length-chars = omega (arith, length-IsSubsequence chars (rev s1) chars_one, length-rev s1)

-- The run itself, with the buffer it leaves.
module _ (fuel : ℕ) (malloc_cells : ℕ → Option (List Cell)) (malloc : ℕ → Option (List ℕ))
    (s1 s2 res : List ℕ) (same : length s1 ≡ length s2) (full : IsFull s1)
    (small : (length s1 + 1) * (length s2 + 1) < int_limit) (enough : length s1 + length s2 < fuel)
    (room : length s1 < length res)
    (given : (block : List Cell) × (malloc_cells ((length s1 + 1) * (length s2 + 1)) ≡ some block))
    (gives : (n : ℕ) → (block : List ℕ) × (malloc n ≡ some block) × (length block ≡ n)) where
  pub init_lem : grid_init malloc_cells s1 s2 ≡ some (fresh s1 s2)
  unfolding grid_init fresh
  init_lem =
      let (block, made) = given in
      rw (lt→ltb ((length s1 + 1) * (length s2 + 1)) int_limit small, made) refl

  abbrev answer : List ℕ
  answer = chars s1 s2 same full

  ended_lem :
      set (write_all res 0 answer) (0 + length answer) 0 ≡ write_all res 0 (answer ++ (0 ∷ []))
  ended_lem = sym (write_all-end res 0 answer 0)

  pub back_lem :
      (cells : List Cell)
      → Filled (fresh s1 s2) 0 0 (length s2) (length s1) cells
      → lcs_backtrack_serial fuel malloc
          (with_cells (fresh s1 s2) cells)
          (length s2)
          (length s1)
          res
        ≡ some (write_all (write_all res 0 (answer ++ (0 ∷ []))) 0 (rev answer ++ (0 ∷ [])))
  unfolding lcs_backtrack_serial fresh IsFilled
  back_lem cells filled =
      let g = with_cells (fresh s1 s2) cells in
      let v =
        with_cells-IsValid (fresh s1 s2) cells (fresh-IsValid s1 s2 same (omega arith))
          filled.size in
      let size = length-chars s1 s2 same full in
      let (final, run, traced) =
        backtrack_from_lem g v
          (λ a b ha hb.
            filled.block (suc a) (suc b) (omega arith) (omega arith) (omega arith) (omega arith))
          fuel (length s2) (length s1) 0 res (omega arith) (omega arith) (omega arith)
          (omega arith) in
      let (block, got, len) = gives (length answer + 1) in
      let text = write_all res 0 (answer ++ (0 ∷ [])) in
      rw
        (
          run,
          traced.ends,
          traced.wrote,
          store_of_lt (write_all res 0 answer) (0 + length answer) 0
              (omega (arith, length-write_all res 0 answer)),
          ended_lem,
        )
        (strrev_lem malloc block text (length answer) got len
            (text-IsText res answer (omega arith) (chars-IsFull s1 s2 same full))
          ∙ ap (λ zs. some (write_all text 0 (rev zs ++ (0 ∷ []))))
              (span-text res answer (omega arith) (chars-IsFull s1 s2 same full)))
