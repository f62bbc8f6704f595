-- ===== src/Lcs/Subsequence.antt =====
-- Common subsequences, which lcs_serial.c looks for.
use university_coursework.Base.{ℕ, ◌≡◌, List, [], ◌∷◌, ◌++◌, subst, append-nil, ◌⊎◌, inl, inr}
use university_coursework.CString.Reverse.{rev}

-- `xs` is what is left of `ys` when some of its elements are dropped.
abbrev pub IsSubsequence : List ℕ → List ℕ → Type 0
IsSubsequence [] ys = Unit
IsSubsequence (x ∷ xs) [] = ⊥
IsSubsequence (x ∷ xs) (y ∷ ys) = ((x ≡ y) × IsSubsequence xs ys) ⊎ IsSubsequence (x ∷ xs) ys

pub skip-IsSubsequence :
    (xs : List ℕ) (y : ℕ) (ys : List ℕ) → IsSubsequence xs ys → IsSubsequence xs (y ∷ ys)
skip-IsSubsequence [] y ys h = tt
skip-IsSubsequence (x ∷ xs) y ys h = inr h

tail-IsSubsequence : (x : ℕ) (xs ys : List ℕ) → IsSubsequence (x ∷ xs) ys → IsSubsequence xs ys
tail-IsSubsequence x xs [] h = absurd h
tail-IsSubsequence x xs (y ∷ ys) (inl (e, h)) = skip-IsSubsequence xs y ys h
tail-IsSubsequence x xs (y ∷ ys) (inr h) = skip-IsSubsequence xs y ys (tail-IsSubsequence x xs ys h)

-- Without its first element a subsequence fits behind the first element.
pub rest-IsSubsequence :
    (x : ℕ) (xs : List ℕ) (y : ℕ) (ys : List ℕ)
    → IsSubsequence (x ∷ xs) (y ∷ ys)
    → IsSubsequence xs ys
rest-IsSubsequence x xs y ys (inl (e, h)) = h
rest-IsSubsequence x xs y ys (inr h) = tail-IsSubsequence x xs ys h

pad-IsSubsequence : (ys xs zs : List ℕ) → IsSubsequence xs zs → IsSubsequence xs (ys ++ zs)
pad-IsSubsequence [] xs zs h = h
pad-IsSubsequence (y ∷ ys) xs zs h =
    skip-IsSubsequence xs y (ys ++ zs) (pad-IsSubsequence ys xs zs h)

append-IsSubsequence :
    (xs ys us vs : List ℕ)
    → IsSubsequence xs ys
    → IsSubsequence us vs
    → IsSubsequence (xs ++ us) (ys ++ vs)
append-IsSubsequence [] ys us vs h k = pad-IsSubsequence ys us vs k
append-IsSubsequence (x ∷ xs) [] us vs h k = absurd h
append-IsSubsequence (x ∷ xs) (y ∷ ys) us vs (inl (e, h)) k =
    inl (e, append-IsSubsequence xs ys us vs h k)
append-IsSubsequence (x ∷ xs) (y ∷ ys) us vs (inr h) k =
    inr (append-IsSubsequence (x ∷ xs) ys us vs h k)

pub rev-IsSubsequence : (xs ys : List ℕ) → IsSubsequence xs ys → IsSubsequence (rev xs) (rev ys)
unfolding rev
rev-IsSubsequence [] ys h = tt
rev-IsSubsequence (x ∷ xs) [] h = absurd h
rev-IsSubsequence (x ∷ xs) (y ∷ ys) (inl (e, h)) =
    append-IsSubsequence (rev xs) (rev ys) (x ∷ []) (y ∷ []) (rev-IsSubsequence xs ys h)
      (inl (e, tt))
rev-IsSubsequence (x ∷ xs) (y ∷ ys) (inr h) =
    subst (λ zs. IsSubsequence zs (rev ys ++ (y ∷ []))) (append-nil (rev (x ∷ xs)))
      (append-IsSubsequence (rev (x ∷ xs)) (rev ys) [] (y ∷ []) (rev-IsSubsequence (x ∷ xs) ys h)
        tt)
