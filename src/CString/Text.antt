-- ===== src/CString/Text.antt =====
-- A buffer into which a text with its terminator is written.
use university_coursework.Base.{
  ℕ, suc, ◌+◌, ◌-◌, ◌≤◌, ◌<◌, ◌≡◌, ◌≢◌, refl, sym, ap, ◌∙◌, List, [], ◌∷◌, ◌++◌, length, arith,
  get_or, set, span, write_all, length-span, length-write_all, get_or-write_inside, get_or-span,
  length-append, get_or-append_left, get_or-append_end, ext-get_or,
}
use university_coursework.CString.Reverse.{
  front, rev, IsText, get_or-front, length-front, rev-front, rev-rev,
}

-- No character is the terminator.
abbrev pub IsFull : List ℕ → Type 0
IsFull ws = (k : ℕ) → k < length ws → get_or ws k 0 ≢ 0

pub front-IsFull : (s : List ℕ) (n : ℕ) → n ≤ length s → IsFull s → IsFull (front s n)
front-IsFull s n h full k lt e =
    full (n - suc k) (omega (arith, length-front s n))
      (sym (get_or-front s n k (omega (arith, length-front s n))) ∙ e)

pub write_all-end :
    (xs : List ℕ) (i : ℕ) (ys : List ℕ) (z : ℕ)
    → write_all xs i (ys ++ (z ∷ [])) ≡ set (write_all xs i ys) (i + length ys) z
write_all-end xs i [] z = ap (λ k. set xs k z) (omega arith)
write_all-end xs i (y ∷ ys) z =
    write_all-end (set xs i y) (suc i) ys z
    ∙ ap (λ k. set (write_all (set xs i y) (suc i) ys) k z) (omega arith)

pub span_all : (s : List ℕ) → span 0 s 0 (length s) ≡ s
span_all s = ext-get_or (span 0 s 0 (length s)) s 0 (length-span 0 s 0 (length s)) λ k lt.
    get_or-span 0 s 0 (length s) k (omega (arith, length-span 0 s 0 (length s)))
    ∙ ap (λ j. get_or s j 0) (omega arith)

pub front-eq-rev : (s : List ℕ) → front s (length s) ≡ rev s
front-eq-rev s = sym (rev-rev (front s (length s))) ∙ ap rev (rev-front s (length s) ∙ span_all s)

module _ (buf ws : List ℕ) (room : length ws < length buf) (full : IsFull ws) where
  abbrev text : List ℕ
  text = write_all buf 0 (ws ++ (0 ∷ []))

  text_at : (k : ℕ) → k ≤ length ws → get_or text k 0 ≡ get_or (ws ++ (0 ∷ [])) k 0
  text_at k h =
      ap (λ j. get_or text j 0) (omega arith)
      ∙ get_or-write_inside buf 0 (ws ++ (0 ∷ [])) k 0 (omega (arith, length-append ws (0 ∷ [])))
          (omega (arith, length-append ws (0 ∷ [])))

  pub text-IsText : IsText text (length ws)
  text-IsText = record {
    inside = omega (arith, length-write_all buf 0 (ws ++ (0 ∷ [])));
    full = λ k lt e.
        full k lt (sym (get_or-append_left ws (0 ∷ []) k 0 lt) ∙ sym (text_at k (omega arith)) ∙ e);
    ended = text_at (length ws) (omega arith) ∙ get_or-append_end ws [] (length ws) 0 0 refl;
  }

  pub span-text : span 0 text 0 (length ws) ≡ ws
  span-text = ext-get_or (span 0 text 0 (length ws)) ws 0 (length-span 0 text 0 (length ws)) λ k lt.
      let within : k < length ws = omega (arith, length-span 0 text 0 (length ws)) in
      get_or-span 0 text 0 (length ws) k within
      ∙ ap (λ j. get_or text j 0) (omega arith)
      ∙ text_at k (omega arith)
      ∙ get_or-append_left ws (0 ∷ []) k 0 within
