-- ===== src/Sort/Weave.antt =====
-- Merging two lists by a test, without arrays: order and content.
use university_coursework.Base.{
  ◌+◌, ◌≡◌, refl, Bool, true, false, List, [], ◌∷◌, ◌++◌, length, arith, Bool-cases, inl, inr,
}
use mathlib.Core.List.{Perm, perm_middle, append-nil}
use mathlib.Core.List.Perm

-- Every element of a list satisfies `P`.
abbrev pub All {ℓ κ} : {A : Type ℓ} → (A → Type κ) → List A → Type κ
All P [] = Unit
All P (x ∷ xs) = P x × All P xs

-- Each element is related to all that stand behind it.
abbrev pub Sorted {ℓ κ} : {A : Type ℓ} → (A → A → Type κ) → List A → Type κ
Sorted R [] = Unit
Sorted R (x ∷ xs) = All (R x) xs × Sorted R xs

All-weaken {ℓ κ ι} :
    {A : Type ℓ} (P : A → Type κ) (Q : A → Type ι)
    → ((x : A) → P x → Q x)
    → (xs : List A) → All P xs
    → All Q xs
All-weaken P Q f [] h = tt
All-weaken P Q f (x ∷ xs) (p, h) = (f x p, All-weaken P Q f xs h)

-- What a test decides about an order.
pub record Decides {ℓ κ} {A : Type ℓ} (before : A → A → Bool) (R : A → A → Type κ)
    : Type (ℓ ⊔ κ) where
  pub yes_le : (x y : A) → before x y ≡ true → R x y
  pub no_le : (x y : A) → before x y ≡ false → R y x
  pub trans : (x y z : A) → R x y → R y z → R x z

module _ {ℓ} {A : Type ℓ} (before : A → A → Bool) where
  pub weave : List A → List A → List A
  weave [] r = r
  weave (x ∷ l) [] = x ∷ l
  weave (x ∷ l) (y ∷ r) = elim (before x y) [
    | true ↦ x ∷ weave l (y ∷ r)
    | false ↦ y ∷ weave (x ∷ l) r
  ]

  pub weave-nil : (l : List A) → weave l [] ≡ l
  unfolding weave
  weave-nil [] = refl
  weave-nil (x ∷ l) = refl

  pub weave-nil_left : (r : List A) → weave [] r ≡ r
  unfolding weave
  weave-nil_left r = refl

  pub weave_first :
      (x y : A) (l r : List A) → before x y ≡ true → weave (x ∷ l) (y ∷ r) ≡ x ∷ weave l (y ∷ r)
  unfolding weave
  weave_first x y l r e = ground arith

  pub weave_second :
      (x y : A) (l r : List A) → before x y ≡ false → weave (x ∷ l) (y ∷ r) ≡ y ∷ weave (x ∷ l) r
  unfolding weave
  weave_second x y l r e = ground arith

  pub length-weave : (l r : List A) → length (weave l r) ≡ length l + length r
  unfolding weave
  length-weave [] r = omega arith
  length-weave (x ∷ l) [] = omega arith
  length-weave (x ∷ l) (y ∷ r) = ground (arith, length-weave l (y ∷ r), length-weave (x ∷ l) r)

  pub weave-perm : (l r : List A) → Perm (weave l r) (l ++ r)
  weave-perm [] r = rw (weave-nil_left r) (Perm.refl r)
  weave-perm (x ∷ l) [] = rw (weave-nil (x ∷ l), append-nil (x ∷ l)) (Perm.refl (x ∷ l))
  weave-perm (x ∷ l) (y ∷ r) = elim (Bool-cases (before x y)) [
    | inl e ↦ rw (weave_first x y l r e) (Perm.cons x (weave-perm l (y ∷ r)))
    | inr e ↦
        rw (weave_second x y l r e)
          (Perm.trans (Perm.cons y (weave-perm (x ∷ l) r)) (Perm.symm (perm_middle (x ∷ l) r)))
  ]

  pub All-weave {κ} : (P : A → Type κ) (l r : List A) → All P l → All P r → All P (weave l r)
  All-weave P [] r hl hr = rw (weave-nil_left r) hr
  All-weave P (x ∷ l) [] hl hr = rw (weave-nil (x ∷ l)) hl
  All-weave P (x ∷ l) (y ∷ r) (hx, hl) (hy, hr) = elim (Bool-cases (before x y)) [
    | inl e ↦ rw (weave_first x y l r e) (hx, All-weave P l (y ∷ r) hl (hy, hr))
    | inr e ↦ rw (weave_second x y l r e) (hy, All-weave P (x ∷ l) r (hx, hl) hr)
  ]

  -- Merging two ordered lists gives an ordered list.
  pub weave-Sorted {κ} :
      (R : A → A → Type κ)
      → Decides before R
      → (l r : List A) → Sorted R l
      → Sorted R r
      → Sorted R (weave l r)
  weave-Sorted R d [] r sl sr = rw (weave-nil_left r) sr
  weave-Sorted R d (x ∷ l) [] sl sr = rw (weave-nil (x ∷ l)) sl
  weave-Sorted R d (x ∷ l) (y ∷ r) (hx, sl) (hy, sr) = elim (Bool-cases (before x y)) [
    | inl e ↦
        let xy : R x y = d.yes_le x y e in
        rw (weave_first x y l r e) (
          All-weave (R x) l (y ∷ r) hx
              (xy, All-weaken (R y) (R x) (λ z h. d.trans x y z xy h) r hy),
          weave-Sorted R d l (y ∷ r) sl (hy, sr),
        )
    | inr e ↦
        let yx : R y x = d.no_le x y e in
        rw (weave_second x y l r e) (
          All-weave (R y) (x ∷ l) r (yx, All-weaken (R x) (R y) (λ z h. d.trans y x z yx h) l hx)
              hy,
          weave-Sorted R d (x ∷ l) r (hx, sl) sr,
        )
  ]
