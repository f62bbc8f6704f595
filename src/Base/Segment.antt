-- ===== src/Base/Segment.antt =====
-- Stretches of an array: reading one as a list, and writing one.
use Prim.Native.Nat.{ℕ, zero, suc, ◌+◌, ◌-◌, ◌<◌, ◌≤◌}
use mathlib.Core.Path.{◌≡◌, refl, ap, ap₂, sym, ◌∙◌}
use mathlib.Core.Logic.{◌⊎◌, inl, inr}
use mathlib.Core.List.{List, [], ◌∷◌, ◌++◌}
use native.Mathlib.Omega.{arith}
use native.Mathlib.Decide.{dec_lt}
use university_coursework.Base.Lists.{
  length, get_or, set, length-set, get_or-set_self, get_or-set_ne, ext-get_or,
}

-- The `n` elements from index `i` on.
module _ {ℓ} {A : Type ℓ} (d : A) where
  abbrev pub span : List A → ℕ → ℕ → List A
  span xs i zero = []
  span xs i (suc n) = get_or xs i d ∷ span xs (suc i) n

  pub length-span : (xs : List A) (i n : ℕ) → length (span xs i n) ≡ n
  length-span xs i zero = refl
  length-span xs i (suc n) = ap suc (length-span xs (suc i) n)

  pub get_or-span :
      (xs : List A) (i n k : ℕ) → k < n → get_or (span xs i n) k d ≡ get_or xs (i + k) d
  get_or-span xs i zero k h = elim h [ ]
  get_or-span xs i (suc n) zero h = ap (λ j. get_or xs j d) (omega arith)
  get_or-span xs i (suc n) (suc k) h =
      get_or-span xs (suc i) n k (omega arith) ∙ ap (λ j. get_or xs j d) (omega arith)

  pub span-eq :
      (xs ys : List A) (i n : ℕ)
      → ((k : ℕ) → i ≤ k → k < i + n → get_or xs k d ≡ get_or ys k d)
      → span xs i n ≡ span ys i n
  span-eq xs ys i zero h = refl
  span-eq xs ys i (suc n) h =
      ap₂ ◌∷◌ (h i (omega arith) (omega arith))
        (span-eq xs ys (suc i) n (λ k lo hi. h k (omega arith) (omega arith)))

  pub span-append : (xs : List A) (i a b : ℕ) → span xs i (a + b) ≡ span xs i a ++ span xs (i + a) b
  span-append xs i zero b = ap₂ (span xs) (omega arith) (omega arith)
  span-append xs i (suc a) b =
      ap (span xs i) (suc-add a b)
      ∙ ap (λ r. get_or xs i d ∷ r)
          (span-append xs (suc i) a b ∙ ap (λ k. span xs (suc i) a ++ span xs k b) (omega arith))
    where
      suc-add : (a b : ℕ) → suc a + b ≡ suc (a + b)
      suc-add a b = omega arith

-- Writing a list into an array from index `i` on.
module _ {ℓ} {A : Type ℓ} where
  abbrev pub write_all : List A → ℕ → List A → List A
  write_all xs i [] = xs
  write_all xs i (y ∷ ys) = write_all (set xs i y) (suc i) ys

  pub length-write_all :
      (xs : List A) (i : ℕ) (ys : List A) → length (write_all xs i ys) ≡ length xs
  length-write_all xs i [] = refl
  length-write_all xs i (y ∷ ys) = length-write_all (set xs i y) (suc i) ys ∙ length-set xs i y

  pub get_or-write_outside :
      (xs : List A) (i : ℕ) (ys : List A) (k : ℕ) (d : A)
      → (k < i) ⊎ (i + length ys ≤ k)
      → get_or (write_all xs i ys) k d ≡ get_or xs k d
  get_or-write_outside xs i [] k d h = refl
  get_or-write_outside xs i (y ∷ ys) k d h =
      get_or-write_outside (set xs i y) (suc i) ys k d
        (elim h [ inl b ↦ inl (omega arith) | inr b ↦ inr (omega arith) ])
      ∙ get_or-set_ne xs i k y d (elim h [ inl b ↦ omega arith | inr b ↦ omega arith ])

  pub get_or-write_inside :
      (xs : List A) (i : ℕ) (ys : List A) (k : ℕ) (d : A)
      → i + length ys ≤ length xs
      → k < length ys
      → get_or (write_all xs i ys) (i + k) d ≡ get_or ys k d
  get_or-write_inside xs i [] k d h lt = elim lt [ ]
  get_or-write_inside xs i (y ∷ ys) zero d h lt =
      ap (λ j. get_or (write_all (set xs i y) (suc i) ys) j d) (omega arith)
      ∙ get_or-write_outside (set xs i y) (suc i) ys i d (inl (omega arith))
      ∙ get_or-set_self xs i y d (omega arith)
  get_or-write_inside xs i (y ∷ ys) (suc k) d h lt =
      ap (λ j. get_or (write_all (set xs i y) (suc i) ys) j d) (omega arith)
      ∙ get_or-write_inside (set xs i y) (suc i) ys k d (omega (arith, length-set xs i y))
          (omega arith)

  -- What was written is what is read back.
  pub span-write_all :
      (d : A) (xs : List A) (i : ℕ) (ys : List A)
      → i + length ys ≤ length xs
      → span d (write_all xs i ys) i (length ys) ≡ ys
  span-write_all d xs i ys h =
      ext-get_or (span d (write_all xs i ys) i (length ys)) ys d
        (length-span d (write_all xs i ys) i (length ys))
        λ k lt.
          let in_range : k < length ys =
            omega (arith, length-span d (write_all xs i ys) i (length ys)) in
          get_or-span d (write_all xs i ys) i (length ys) k in_range
          ∙ get_or-write_inside xs i ys k d h in_range

  -- A stretch beside the one that was written is as it was.
  pub span-write_outside :
      (d : A) (xs : List A) (i : ℕ) (ys : List A) (j n : ℕ)
      → (j + n ≤ i) ⊎ (i + length ys ≤ j)
      → span d (write_all xs i ys) j n ≡ span d xs j n
  span-write_outside d xs i ys j n h = span-eq d (write_all xs i ys) xs j n λ k lo hi.
      get_or-write_outside xs i ys k d
        (elim h [ inl b ↦ inl (omega arith) | inr b ↦ inr (omega arith) ])

  get_or-write_at :
      (d : A) (xs : List A) (i : ℕ) (zs : List A) (k : ℕ)
      → i + length zs ≤ length xs
      → i ≤ k
      → k < i + length zs
      → get_or (write_all xs i zs) k d ≡ get_or zs (k - i) d
  get_or-write_at d xs i zs k h lo hi =
      ap (λ j. get_or (write_all xs i zs) j d) (omega arith)
      ∙ get_or-write_inside xs i zs (k - i) d h (omega arith)

  -- A write covers an earlier one that lies within it.
  pub write_all-cover :
      (d : A) (xs : List A) (i j : ℕ) (ys zs : List A)
      → i ≤ j
      → j + length ys ≤ i + length zs
      → i + length zs ≤ length xs
      → write_all (write_all xs j ys) i zs ≡ write_all xs i zs
  write_all-cover d xs i j ys zs lo hi fits =
      ext-get_or (write_all us i zs) (write_all xs i zs) d
        (length-write_all us i zs ∙ len ∙ sym (length-write_all xs i zs))
        λ k lt. elim (dec_lt k i) [
          | yes before ↦ outside k (inl before) (inl (omega arith))
          | no after ↦ elim (dec_lt k (i + length zs)) [
            | yes within ↦
                get_or-write_at d us i zs k (omega (arith, len)) (omega arith) within
                ∙ sym (get_or-write_at d xs i zs k fits (omega arith) within)
            | no beyond ↦ outside k (inr (omega arith)) (inr (omega arith))
          ]
        ]
    where
      us : List A
      us = write_all xs j ys

      len : length us ≡ length xs
      len = length-write_all xs j ys

      outside :
          (k : ℕ)
          → (k < i) ⊎ (i + length zs ≤ k)
          → (k < j) ⊎ (j + length ys ≤ k)
          → get_or (write_all us i zs) k d ≡ get_or (write_all xs i zs) k d
      outside k c c' =
          get_or-write_outside us i zs k d c
          ∙ get_or-write_outside xs j ys k d c'
          ∙ sym (get_or-write_outside xs i zs k d c)
