-- ===== src/Lcs/Spec.antt =====
-- What the grid of two strings is meant to hold, and why its corner is the length of a longest
-- common subsequence.
use university_coursework.Base.{
  ℕ, zero, suc, ◌+◌, ◌≤◌, ◌≡◌, refl, true, false, List, [], ◌∷◌, length, arith, Bool-cases, ◌⊎◌,
  inl, inr, if◌then◌else◌, get_or, leb, ◌==◌, ==_iff,
}
use university_coursework.CString.Reverse.{front}
use university_coursework.Lcs.{Cell, up, left, upleft, blank}
use university_coursework.Lcs.Subsequence.{IsSubsequence, skip-IsSubsequence, rest-IsSubsequence}

module _ (s1 s2 : List ℕ) where
  -- The cell in row `i` and column `j`: a longest common subsequence of the first `i` characters of
  -- the one string and the first `j` of the other has the length `len`.
  pub spec_cell : ℕ → ℕ → Cell
  spec_cell zero j = blank
  spec_cell (suc i) zero = blank
  spec_cell (suc i) (suc j) =
      let corner = spec_cell i j in
      let cell_up = spec_cell i (suc j) in
      let cell_left = spec_cell (suc i) j in
      if get_or s1 i 0 == get_or s2 j 0
      then record { len = corner.len + 1; dir = upleft }
      else (if leb cell_left.len cell_up.len
          then record { len = cell_up.len; dir = up }
          else record { len = cell_left.len; dir = left })

  -- The characters that the way back from row `i` and column `j` collects.
  pub trace : ℕ → ℕ → List ℕ
  trace zero j = []
  trace (suc i) zero = []
  trace (suc i) (suc j) =
      let rest = trace i j in
      let above = trace i (suc j) in
      let beside = trace (suc i) j in
      if get_or s1 i 0 == get_or s2 j 0
      then get_or s1 i 0 ∷ rest
      else (if leb (spec_cell (suc i) j).len (spec_cell i (suc j)).len then above else beside)

  -- The borders.
  pub spec_row : (j : ℕ) → spec_cell zero j ≡ blank
  unfolding spec_cell
  spec_row j = refl

  pub spec_column : (i : ℕ) → spec_cell i zero ≡ blank
  unfolding spec_cell
  spec_column zero = refl
  spec_column (suc i) = refl

  pub trace_row : (j : ℕ) → trace zero j ≡ []
  unfolding trace
  trace_row j = refl

  pub trace_column : (i : ℕ) → trace i zero ≡ []
  unfolding trace
  trace_column zero = refl
  trace_column (suc i) = refl

  -- What the clauses for a cell that is in neither border say.
  pub spec_same :
      (i j : ℕ)
      → (get_or s1 i 0 == get_or s2 j 0) ≡ true
      → (spec_cell (suc i) (suc j) ≡ record { len = (spec_cell i j).len + 1; dir = upleft })
        × (trace (suc i) (suc j) ≡ get_or s1 i 0 ∷ trace i j)
  unfolding spec_cell trace
  spec_same i j e = (rw e refl, rw e refl)

  pub spec_up :
      (i j : ℕ)
      → (get_or s1 i 0 == get_or s2 j 0) ≡ false
      → leb (spec_cell (suc i) j).len (spec_cell i (suc j)).len ≡ true
      → (spec_cell (suc i) (suc j) ≡ record { len = (spec_cell i (suc j)).len; dir = up })
        × (trace (suc i) (suc j) ≡ trace i (suc j))
  unfolding spec_cell trace
  spec_up i j e h = (rw (e, h) refl, rw (e, h) refl)

  pub spec_left :
      (i j : ℕ)
      → (get_or s1 i 0 == get_or s2 j 0) ≡ false
      → leb (spec_cell (suc i) j).len (spec_cell i (suc j)).len ≡ false
      → (spec_cell (suc i) (suc j) ≡ record { len = (spec_cell (suc i) j).len; dir = left })
        × (trace (suc i) (suc j) ≡ trace (suc i) j)
  unfolding spec_cell trace
  spec_left i j e h = (rw (e, h) refl, rw (e, h) refl)

  -- The three ways in which a cell comes about.
  pub spec_cases :
      (i j : ℕ)
      → ((get_or s1 i 0 == get_or s2 j 0) ≡ true)
        ⊎ ((((get_or s1 i 0 == get_or s2 j 0) ≡ false)
              × (leb (spec_cell (suc i) j).len (spec_cell i (suc j)).len ≡ true))
            ⊎ (((get_or s1 i 0 == get_or s2 j 0) ≡ false)
                × (leb (spec_cell (suc i) j).len (spec_cell i (suc j)).len ≡ false)))
  spec_cases i j = elim (Bool-cases (get_or s1 i 0 == get_or s2 j 0)) [
    | inl same ↦ inl same
    | inr differ ↦ elim (Bool-cases (leb (spec_cell (suc i) j).len (spec_cell i (suc j)).len)) [
      | inl higher ↦ inr (inl (differ, higher))
      | inr lower ↦ inr (inr (differ, lower))
    ]
  ]

  pub length-trace : (i j : ℕ) → length (trace i j) ≡ (spec_cell i j).len
  length-trace zero j = rw (spec_row j, trace_row j) refl
  length-trace (suc i) zero = rw (spec_column (suc i), trace_column (suc i)) refl
  length-trace (suc i) (suc j) = elim (spec_cases i j) [
    | inl same ↦
        let (cell, chars) = spec_same i j same in rw (cell, chars) (omega (arith, length-trace i j))
    | inr (inl (differ, higher)) ↦
        let (cell, chars) = spec_up i j differ higher in rw (cell, chars) (length-trace i (suc j))
    | inr (inr (differ, lower)) ↦
        let (cell, chars) = spec_left i j differ lower in rw (cell, chars) (length-trace (suc i) j)
  ]

  pub trace-IsSubsequence :
      (i j : ℕ) → IsSubsequence (trace i j) (front s1 i) × IsSubsequence (trace i j) (front s2 j)
  unfolding front
  trace-IsSubsequence zero j = rw (trace_row j) (tt, tt)
  trace-IsSubsequence (suc i) zero = rw (trace_column (suc i)) (tt, tt)
  trace-IsSubsequence (suc i) (suc j) =
      let a = get_or s1 i 0 in
      let b = get_or s2 j 0 in
      let (corner_one, corner_two) = trace-IsSubsequence i j in
      let (up_one, up_two) = trace-IsSubsequence i (suc j) in
      let (left_one, left_two) = trace-IsSubsequence (suc i) j in
      elim (spec_cases i j) [
        | inl same ↦
            let (_, chars) = spec_same i j same in
            rw chars (inl (refl, corner_one), inl ((==_iff a b).0 same, corner_two))
        | inr (inl (differ, higher)) ↦
            let (_, chars) = spec_up i j differ higher in
            rw chars (skip-IsSubsequence (trace i (suc j)) a (front s1 i) up_one, up_two)
        | inr (inr (differ, lower)) ↦
            let (_, chars) = spec_left i j differ lower in
            rw chars (left_one, skip-IsSubsequence (trace (suc i) j) b (front s2 j) left_two)
      ]

  apart :
      (a b w : ℕ) (ws xs ys : List ℕ) (bound : ℕ)
      → (a == b) ≡ false
      → (IsSubsequence (w ∷ ws) xs → suc (length ws) ≤ bound)
      → (IsSubsequence (w ∷ ws) ys → suc (length ws) ≤ bound)
      → IsSubsequence (w ∷ ws) (a ∷ xs)
      → IsSubsequence (w ∷ ws) (b ∷ ys)
      → suc (length ws) ≤ bound
  apart a b w ws xs ys bound differ above beside (inr one) two = above one
  apart a b w ws xs ys bound differ above beside (inl one) (inr two) = beside two
  apart a b w ws xs ys bound differ above beside (inl (x, one)) (inl (y, two)) = ground arith

  spec_max :
      (i j : ℕ)
      → (get_or s1 i 0 == get_or s2 j 0) ≡ false
      → ((spec_cell i (suc j)).len ≤ (spec_cell (suc i) (suc j)).len)
        × ((spec_cell (suc i) j).len ≤ (spec_cell (suc i) (suc j)).len)
  spec_max i j e = elim (spec_cases i j) [
    | inl same ↦ ground arith
    | inr (inl (differ, higher)) ↦ rw ((spec_up i j differ higher).0) ground arith
    | inr (inr (differ, lower)) ↦ rw ((spec_left i j differ lower).0) ground arith
  ]

  pub spec_cell-IsBound :
      (i j : ℕ) (ws : List ℕ)
      → IsSubsequence ws (front s1 i)
      → IsSubsequence ws (front s2 j)
      → length ws ≤ (spec_cell i j).len
  unfolding front
  spec_cell-IsBound i j [] one two = omega arith
  spec_cell-IsBound zero j (w ∷ ws) one two = absurd one
  spec_cell-IsBound (suc i) zero (w ∷ ws) one two = absurd two
  spec_cell-IsBound (suc i) (suc j) (w ∷ ws) one two =
      let a = get_or s1 i 0 in
      let b = get_or s2 j 0 in
      elim (Bool-cases (a == b)) [
        | inl same ↦ rw ((spec_same i j same).0) (
            omega (
              arith,
              spec_cell-IsBound i j ws (rest-IsSubsequence w ws a (front s1 i) one)
                  (rest-IsSubsequence w ws b (front s2 j) two),
            ))
        | inr differ ↦
            let (above, beside) = spec_max i j differ in
            apart a b w ws (front s1 i) (front s2 j) (spec_cell (suc i) (suc j)).len differ
              (λ h. omega (arith, above, spec_cell-IsBound i (suc j) (w ∷ ws) h two))
              (λ h. omega (arith, beside, spec_cell-IsBound (suc i) j (w ∷ ws) one h)) one two
      ]
