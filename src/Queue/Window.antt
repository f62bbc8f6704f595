-- ===== src/Queue/Window.antt =====
-- The cells of an array that a round window covers, as queue.c and mm_public.c address them.
use university_coursework.Base.{
  ℕ, zero, suc, ◌+◌, ◌-◌, ◌%◌, ◌<◌, ◌≡◌, refl, sym, ap, ap₂, ◌∙◌, ◌≢◌, List, [], ◌∷◌, ◌++◌, length,
  get_or, set, get_or-set_ne, arith,
}
use native.Mathlib.Nat.{suc-mod}

-- The `n` items from index `h` on, going round at `cap`.
abbrev pub slots : List ℕ → ℕ → ℕ → ℕ → List ℕ
slots cells cap h zero = []
slots cells cap h (suc n) = get_or cells (h % cap) 0 ∷ slots cells cap (suc h) n

pub length-slots : (cells : List ℕ) (cap h n : ℕ) → length (slots cells cap h n) ≡ n
length-slots cells cap h zero = refl
length-slots cells cap h (suc n) = ap suc (length-slots cells cap (suc h) n)

-- Only the start modulo the capacity matters.
pub slots-mod :
    (cells : List ℕ) (cap h k n : ℕ) → h % cap ≡ k % cap → slots cells cap h n ≡ slots cells cap k n
slots-mod cells cap h k zero e = refl
slots-mod cells cap h k (suc n) e = ap₂ ◌∷◌ (ap (λ i. get_or cells i 0) e) (
    slots-mod cells cap (suc h) (suc k) n
      (suc-mod h cap ∙ ap (λ i. suc i % cap) e ∙ sym (suc-mod k cap)))

pub slots-snoc :
    (cells : List ℕ) (cap h n : ℕ)
    → slots cells cap h (suc n) ≡ slots cells cap h n ++ (get_or cells ((h + n) % cap) 0 ∷ [])
slots-snoc cells cap h zero = ap (λ i. get_or cells (i % cap) 0 ∷ []) (omega arith)
slots-snoc cells cap h (suc n) =
    ap (λ r. get_or cells (h % cap) 0 ∷ r)
      (slots-snoc cells cap (suc h) n
        ∙ ap (λ i. slots cells cap (suc h) n ++ (get_or cells (i % cap) 0 ∷ [])) (omega arith))

pub slots_of_zero : (cells : List ℕ) (cap h : ℕ) {n : ℕ} → n ≡ 0 → slots cells cap h n ≡ []
slots_of_zero cells cap h e = ap (slots cells cap h) e

-- The code tests the size for 0 where `slots` matches on it.
pub slots_uncons :
    (cells : List ℕ) (cap h n : ℕ)
    → n ≢ 0
    → slots cells cap h n ≡ get_or cells (h % cap) 0 ∷ slots cells cap (suc h) (n - 1)
slots_uncons cells cap h zero p = absurd (p refl)
slots_uncons cells cap h (suc n) p = ap (λ k. slots cells cap h (suc k)) (omega arith)

pub slots-append :
    (cells : List ℕ) (cap h a b : ℕ)
    → slots cells cap h (a + b) ≡ slots cells cap h a ++ slots cells cap (h + a) b
slots-append cells cap h zero b = ap₂ (slots cells cap) (omega arith) (omega arith)
slots-append cells cap h (suc a) b =
    ap (slots cells cap h) (suc-add a b)
    ∙ ap (λ r. get_or cells (h % cap) 0 ∷ r)
        (slots-append cells cap (suc h) a b
          ∙ ap (λ k. slots cells cap (suc h) a ++ slots cells cap k b) (omega arith))
  where
    suc-add : (a b : ℕ) → suc a + b ≡ suc (a + b)
    suc-add a b = omega arith

-- A write outside a window leaves it as it is.
pub slots-set_outside :
    (cells : List ℕ) (cap p v h n : ℕ)
    → ((i : ℕ) → i < n → (h + i) % cap ≢ p)
    → slots (set cells p v) cap h n ≡ slots cells cap h n
slots-set_outside cells cap p v h zero away = refl
slots-set_outside cells cap p v h (suc n) away =
    ap₂ ◌∷◌ (get_or-set_ne cells p (h % cap) v 0 here)
      (slots-set_outside cells cap p v (suc h) n later)
  where
    here : p ≢ h % cap
    here e = away 0 (omega arith) (ap (λ i. i % cap) (omega arith) ∙ sym e)

    later : (i : ℕ) → i < n → (suc h + i) % cap ≢ p
    later i lt e = away (suc i) (omega arith) (ap (λ j. j % cap) (omega arith) ∙ e)

-- The item `i` places into a window.
pub get_or-slots :
    (cells : List ℕ) (cap h n i : ℕ)
    → i < n
    → get_or (slots cells cap h n) i 0 ≡ get_or cells ((h + i) % cap) 0
get_or-slots cells cap h zero i lt = elim lt [ ]
get_or-slots cells cap h (suc n) zero lt = ap (λ j. get_or cells (j % cap) 0) (omega arith)
get_or-slots cells cap h (suc n) (suc i) lt =
    get_or-slots cells cap (suc h) n i (omega arith)
    ∙ ap (λ j. get_or cells (j % cap) 0) (omega arith)
