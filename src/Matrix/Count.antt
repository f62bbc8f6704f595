-- ===== src/Matrix/Count.antt =====
-- How many indices there can be outside a stretch of a matrix.
use university_coursework.Base.{
  ℕ, zero, suc, ◌+◌, ◌≤◌, ◌<◌, ◌≡◌, ◌≢◌, refl, ap, List, [], ◌∷◌, ◌++◌, length, arith, ◌⊎◌, inl,
  inr, length-append, false, if◌then◌else◌, ◌==◌, Bool-cases, ==_iff,
}

-- Every element has the property.
abbrev pub Every : (ℕ → Type 0) → List ℕ → Type 0
Every P [] = Unit
Every P (x ∷ xs) = P x × Every P xs

abbrev pub Distinct : List ℕ → Type 0
Distinct [] = Unit
Distinct (x ∷ xs) = Every (λ y. x ≢ y) xs × Distinct xs

Every-weaken : (P Q : ℕ → Type 0) → ((x : ℕ) → P x → Q x) → (xs : List ℕ) → Every P xs → Every Q xs
Every-weaken P Q f [] h = tt
Every-weaken P Q f (x ∷ xs) (p, h) = (f x p, Every-weaken P Q f xs h)

pub Every-append : (P : ℕ → Type 0) (xs ys : List ℕ) → Every P xs → Every P ys → Every P (xs ++ ys)
Every-append P [] ys h k = k
Every-append P (x ∷ xs) ys (p, h) k = (p, Every-append P xs ys h k)

pub Distinct-append :
    (xs ys : List ℕ)
    → Distinct xs
    → Distinct ys
    → Every (λ x. Every (λ y. x ≢ y) ys) xs
    → Distinct (xs ++ ys)
Distinct-append [] ys dx dy apart = dy
Distinct-append (x ∷ xs) ys (fresh, dx) dy (away, apart) =
    (Every-append (λ y. x ≢ y) xs ys fresh away, Distinct-append xs ys dx dy apart)

drop_one : ℕ → List ℕ → List ℕ
drop_one n [] = []
drop_one n (x ∷ xs) = if x == n then xs else x ∷ drop_one n xs

Every-drop_one : (P : ℕ → Type 0) (n : ℕ) (xs : List ℕ) → Every P xs → Every P (drop_one n xs)
unfolding drop_one
Every-drop_one P n [] h = tt
Every-drop_one P n (x ∷ xs) (p, h) = elim (Bool-cases (x == n)) [
  | inl same ↦ rw same h
  | inr differ ↦ rw differ (p, Every-drop_one P n xs h)
]

Distinct-drop_one : (n : ℕ) (xs : List ℕ) → Distinct xs → Distinct (drop_one n xs)
unfolding drop_one
Distinct-drop_one n [] d = tt
Distinct-drop_one n (x ∷ xs) (fresh, d) = elim (Bool-cases (x == n)) [
  | inl same ↦ rw same d
  | inr differ ↦ rw differ (Every-drop_one (λ y. x ≢ y) n xs fresh, Distinct-drop_one n xs d)
]

length-drop_one : (n : ℕ) (xs : List ℕ) → length xs ≤ suc (length (drop_one n xs))
unfolding drop_one
length-drop_one n [] = omega arith
length-drop_one n (x ∷ xs) = elim (Bool-cases (x == n)) [
  | inl same ↦ rw same (omega arith)
  | inr differ ↦ rw differ (omega (arith, length-drop_one n xs))
]

-- Distinct numbers below `n + 1`, less `n` itself, are below `n`.
below-drop_one :
    (n : ℕ) (xs : List ℕ)
    → Distinct xs
    → Every (λ x. x < suc n) xs
    → Every (λ x. x < n) (drop_one n xs)
unfolding drop_one
below-drop_one n [] d h = tt
below-drop_one n (x ∷ xs) (fresh, d) (lt, h) = elim (Bool-cases (x == n)) [
  | inl same ↦ rw same (under xs ((==_iff x n).0 same) fresh h)
  | inr differ ↦ rw differ (less x n lt differ, below-drop_one n xs d h)
]
  where
    less : (x n : ℕ) → x < suc n → (x == n) ≡ false → x < n
    less x n lt differ = ground arith

    under :
        (ys : List ℕ)
        → x ≡ n
        → Every (λ y. x ≢ y) ys
        → Every (λ y. y < suc n) ys
        → Every (λ y. y < n) ys
    under [] e f g = tt
    under (y ∷ ys) e (ne, f) (lt, g) = (omega arith, under ys e f g)

-- The pigeonhole principle.
pub length-Distinct : (n : ℕ) (xs : List ℕ) → Distinct xs → Every (λ x. x < n) xs → length xs ≤ n
length-Distinct zero [] d h = omega arith
length-Distinct zero (x ∷ xs) d (lt, h) = absurd (omega arith)
length-Distinct (suc n) xs d h = omega (
  arith,
  length-drop_one n xs,
  length-Distinct n (drop_one n xs) (Distinct-drop_one n xs d) (below-drop_one n xs d h),
)

-- The numbers of a stretch.
stretch : ℕ → ℕ → List ℕ
stretch from zero = []
stretch from (suc n) = from ∷ stretch (suc from) n

length-stretch : (from n : ℕ) → length (stretch from n) ≡ n
unfolding stretch
length-stretch from zero = refl
length-stretch from (suc n) = ap suc (length-stretch (suc from) n)

stretch-bounds : (from n : ℕ) → Every (λ x. (from ≤ x) × (x < from + n)) (stretch from n)
unfolding stretch
stretch-bounds from zero = tt
stretch-bounds from (suc n) = (
  (omega arith, omega arith),
  Every-weaken (λ x. (suc from ≤ x) × (x < suc from + n)) (λ x. (from ≤ x) × (x < from + suc n))
      (λ x b. (omega arith, omega arith)) (stretch (suc from) n) (stretch-bounds (suc from) n),
)

stretch-Distinct : (from n : ℕ) → Distinct (stretch from n)
unfolding stretch
stretch-Distinct from zero = tt
stretch-Distinct from (suc n) = (
  Every-weaken (λ x. (suc from ≤ x) × (x < suc from + n)) (λ y. from ≢ y) (λ x b. λ e. omega arith)
      (stretch (suc from) n) (stretch-bounds (suc from) n),
  stretch-Distinct (suc from) n,
)

-- Distinct numbers below `m` outside a stretch of `n` numbers below `m` leave room for the stretch.
pub length-outside :
    (m from n : ℕ) (xs : List ℕ)
    → from + n ≤ m
    → Distinct xs
    → Every (λ x. (x < m) × ((x < from) ⊎ (from + n ≤ x))) xs
    → length xs + n ≤ m
length-outside m from n xs fits d h = omega (
  arith,
  length-append xs (stretch from n),
  length-stretch from n,
  length-Distinct m (xs ++ stretch from n)
      (Distinct-append xs (stretch from n) d (stretch-Distinct from n) (
        Every-weaken (λ x. (x < m) × ((x < from) ⊎ (from + n ≤ x)))
          (λ x. Every (λ y. x ≢ y) (stretch from n))
          (λ x b.
            Every-weaken (λ y. (from ≤ y) × (y < from + n)) (λ y. x ≢ y) (λ y c. away x y b.1 c)
              (stretch from n) (stretch-bounds from n))
          xs h))
      (Every-append (λ x. x < m) xs (stretch from n)
        (Every-weaken (λ x. (x < m) × ((x < from) ⊎ (from + n ≤ x))) (λ x. x < m) (λ x b. b.0) xs h)
        (Every-weaken (λ y. (from ≤ y) × (y < from + n)) (λ y. y < m) (λ y c. omega arith)
          (stretch from n) (stretch-bounds from n))),
)
  where
    away : (x y : ℕ) → (x < from) ⊎ (from + n ≤ x) → (from ≤ y) × (y < from + n) → x ≢ y
    away x y (inl b) c = λ e. omega arith
    away x y (inr b) c = λ e. omega arith
