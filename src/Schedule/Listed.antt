-- ===== src/Schedule/Listed.antt =====
-- A list of wanted columns, and the search of `comm_schedule_add` for a duplicate.
use university_coursework.Base.{
  ℕ, zero, suc, ◌+◌, ◌≡◌, ◌≢◌, refl, sym, ap, ◌∙◌, Bool, true, false, some, List, [], ◌∷◌, ◌++◌,
  if◌then◌else◌, ◌==◌, length, arith, get_elem?, get_elem?-eq-get_or, take, length-append,
  append_assoc, get_or-append_end, ◌⊎◌, inl, inr, Bool-cases, ==_iff, ℕ_discrete,
}
use university_coursework.Schedule.{is_listed}
use university_coursework.Matrix.Count.{Every}

-- The element stands in the list.
abbrev pub IsListed : ℕ → List ℕ → Type 0
IsListed e [] = ⊥
IsListed e (x ∷ xs) = (x ≡ e) ⊎ IsListed e xs

pub IsListed-dec : (e : ℕ) (xs : List ℕ) → IsListed e xs ⊎ Every (λ x. x ≢ e) xs
IsListed-dec e [] = inr tt
IsListed-dec e (x ∷ xs) = elim (ℕ_discrete x e) [
  | yes same ↦ inl (inl same)
  | no other ↦ elim (IsListed-dec e xs) [
    | inl there ↦ inl (inr there)
    | inr absent ↦ inr (other, absent)
  ]
]

unfoldable pub listed_in : ℕ → List ℕ → Bool
listed_in e [] = false
listed_in e (x ∷ xs) = let later = listed_in e xs in if x == e then true else later

pub is_listed_lem :
    (done rest : List ℕ) (e i rounds : ℕ)
    → i ≡ length done
    → rounds ≡ length rest
    → is_listed (done ++ rest) e i rounds ≡ some (listed_in e rest)
unfolding is_listed listed_in
is_listed_lem done [] e i zero at n = refl
is_listed_lem done [] e i (suc rounds) at n = absurd (omega arith)
is_listed_lem done (x ∷ rest) e i zero at n = absurd (omega arith)
is_listed_lem done (x ∷ rest) e i (suc rounds) at n =
    let next : is_listed (done ++ (x ∷ rest)) e (i + 1) rounds ≡ some (listed_in e rest) =
      ap (λ cols. is_listed cols e (i + 1) rounds) (sym (append_assoc done (x ∷ []) rest))
      ∙ is_listed_lem (done ++ (x ∷ [])) rest e (i + 1) rounds
          (omega (arith, length-append done (x ∷ []))) (omega arith) in
    let here : get_elem? (done ++ (x ∷ rest)) i ≡ some x =
      get_elem?-eq-get_or (done ++ (x ∷ rest)) i 0 (omega (arith, length-append done (x ∷ rest)))
      ∙ ap some (get_or-append_end done rest i x 0 (sym at)) in
    rw (here, next)
      (elim (Bool-cases (x == e)) [ inl same ↦ rw same refl | inr other ↦ rw other refl ])

pub listed_yes : (e : ℕ) (xs : List ℕ) → IsListed e xs → listed_in e xs ≡ true
unfolding listed_in
listed_yes e [] h = absurd h
listed_yes e (x ∷ xs) (inl same) = let test : (x == e) ≡ true = (==_iff x e).1 same in rw test refl
listed_yes e (x ∷ xs) (inr h) = elim (Bool-cases (x == e)) [
  | inl same ↦ rw same refl
  | inr other ↦ rw other (listed_yes e xs h)
]

pub listed_no : (e : ℕ) (xs : List ℕ) → Every (λ x. x ≢ e) xs → listed_in e xs ≡ false
unfolding listed_in
listed_no e [] h = refl
listed_no e (x ∷ xs) (ne, h) =
    let test : (x == e) ≡ false = apart x e ne in rw test (listed_no e xs h)
  where
    apart : (a b : ℕ) → a ≢ b → (a == b) ≡ false
    apart a b ne = ground arith

pub IsListed-append : (e : ℕ) (xs ys : List ℕ) → IsListed e xs → IsListed e (xs ++ ys)
IsListed-append e [] ys h = absurd h
IsListed-append e (x ∷ xs) ys (inl same) = inl same
IsListed-append e (x ∷ xs) ys (inr h) = inr (IsListed-append e xs ys h)

pub IsListed-end : (e : ℕ) (xs : List ℕ) → IsListed e (xs ++ (e ∷ []))
IsListed-end e [] = inl refl
IsListed-end e (x ∷ xs) = inr (IsListed-end e xs)

pub take_all : (xs : List ℕ) → take (length xs) xs ≡ xs
take_all [] = refl
take_all (x ∷ xs) = ap (λ rest. x ∷ rest) (take_all xs)

pub apart-end :
    (e : ℕ) (xs : List ℕ) → Every (λ x. x ≢ e) xs → Every (λ x. Every (λ y. x ≢ y) (e ∷ [])) xs
apart-end e [] h = tt
apart-end e (x ∷ xs) (ne, h) = ((ne, tt), apart-end e xs h)
