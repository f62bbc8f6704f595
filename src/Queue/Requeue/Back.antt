-- ===== src/Queue/Requeue/Back.antt =====
-- What `queue_requeue` does with an item that it has found: the item goes to the back.
use university_coursework.Base.{
  mod_cases, add-mod_inj, ℕ, zero, suc, subst, ◌+◌, ◌-◌, ◌%◌, ◌≤◌, ◌<◌, ◌≡◌, refl, sym, ap, ◌∙◌,
  ◌≢◌, some, List, [], ◌∷◌, ◌++◌, length, get_or, arith, dec_lt, set, store_of_lt, length-set,
  get_or-set_self, get_or-set_ne, ext-get_or, length-append, get_or-append_left, get_or-append_end,
}
use native.Mathlib.Nat.{mod-lt}
use university_coursework.Queue.{Queue, Pointer, ok, requeue_found, q_pos_before}
use university_coursework.Queue.Window.{get_or-slots, length-slots}
use university_coursework.Queue.Refine.{tail_in}
use university_coursework.Queue.Valid.{IsValid, place, contents, q_pos_before_lem}
use university_coursework.Queue.Requeue.Shift.{source, Shifted, shift_back_lem}

-- A list without the item at an index.
abbrev pub drop_at : ℕ → List Pointer → List Pointer
drop_at i [] = []
drop_at zero (x ∷ xs) = xs
drop_at (suc i) (x ∷ xs) = x ∷ drop_at i xs

pub get_or-drop_at_below :
    (i k : ℕ) (xs : List Pointer) → k < i → get_or (drop_at i xs) k 0 ≡ get_or xs k 0
get_or-drop_at_below i k [] h = refl
get_or-drop_at_below zero k (x ∷ xs) h = elim h [ ]
get_or-drop_at_below (suc i) zero (x ∷ xs) h = refl
get_or-drop_at_below (suc i) (suc k) (x ∷ xs) h = get_or-drop_at_below i k xs (omega arith)

pub get_or-drop_at_above :
    (i k : ℕ) (xs : List Pointer) → i ≤ k → get_or (drop_at i xs) k 0 ≡ get_or xs (suc k) 0
get_or-drop_at_above i k [] h = refl
get_or-drop_at_above zero k (x ∷ xs) h = refl
get_or-drop_at_above (suc i) zero (x ∷ xs) h = elim h [ ]
get_or-drop_at_above (suc i) (suc k) (x ∷ xs) h = get_or-drop_at_above i k xs (omega arith)

pub length-drop_at :
    (i : ℕ) (xs : List Pointer) → i < length xs → length (drop_at i xs) + 1 ≡ length xs
length-drop_at i [] h = elim h [ ]
length-drop_at zero (x ∷ xs) h = omega arith
length-drop_at (suc i) (x ∷ xs) h = omega (arith, length-drop_at i xs (omega arith))

module _ {q : Queue} (v : IsValid q) where
  abbrev last_place : ℕ
  last_place = q.size - 1

  -- Where the new item goes.
  before_tail : 0 < q.size → q_pos_before q q.tail ≡ some (place q last_place)
  before_tail h = q_pos_before_lem q.tail v (tail_in v) ∙ ap some before
    where
      before : (q.capacity + q.tail - 1) % q.capacity ≡ place q last_place
      before = omega (
        arith,
        v.tail_at,
        mod_cases (q.capacity + q.tail - 1) q.capacity (omega (arith, tail_in v)),
        mod_cases (q.head + last_place) q.capacity (omega arith),
        mod_cases (q.head + q.size) q.capacity (omega arith),
      )

  -- The cells when the item `i` places behind the head has gone to the back.
  abbrev at_back : List Pointer → Pointer → Queue
  at_back out x = record q { items = set out (place q last_place) x }

  at_back-IsValid :
      (out : List Pointer) (x : Pointer) → length out ≡ q.capacity → IsValid (at_back out x)
  at_back-IsValid out x e = record {
    positive = v.positive;
    bounded = v.bounded;
    storage = length-set out (place q last_place) x ∙ e;
    head_in = v.head_in;
    size_in = v.size_in;
    tail_at = v.tail_at;
  }

  module _ (x : Pointer) (i : ℕ) (h : i < q.size) (out : List Pointer)
      (e : length out ≡ q.capacity) where
    abbrev promised : List Pointer
    promised = drop_at i (contents q) ++ (x ∷ [])

    length-kept : length (drop_at i (contents q)) ≡ last_place
    length-kept = omega (
      arith,
      length-slots q.items q.capacity q.head q.size,
      length-drop_at i (contents q) (omega (arith, length-slots q.items q.capacity q.head q.size)),
    )

    last_item : get_or (contents (at_back out x)) last_place 0 ≡ get_or promised last_place 0
    last_item =
        get_or-slots (set out (place q last_place) x) q.capacity q.head q.size last_place
          (omega arith)
        ∙ get_or-set_self out (place q last_place) x 0
            (omega (arith, mod-lt (q.head + last_place) v.positive))
        ∙ sym (get_or-append_end (drop_at i (contents q)) [] last_place x 0 length-kept)

    from_kept :
        (k : ℕ)
        → k < last_place
        → get_or q.items (place q (source i (i + (q.size - 1 - i)) k)) 0
          ≡ get_or (drop_at i (contents q)) k 0
    from_kept k lt = elim (dec_lt k i) [
      | yes b ↦
          ap (λ j. get_or q.items (place q j) 0) (stays b)
          ∙ sym (get_or-slots q.items q.capacity q.head q.size k (omega arith))
          ∙ sym (get_or-drop_at_below i k (contents q) b)
      | no b ↦
          ap (λ j. get_or q.items (place q j) 0) (moves b)
          ∙ sym (get_or-slots q.items q.capacity q.head q.size (suc k) (omega arith))
          ∙ sym (get_or-drop_at_above i k (contents q) (omega arith))
    ]
      where
        stays : k < i → source i (i + (q.size - 1 - i)) k ≡ k
        stays b = ground arith

        moves : ¬ (k < i) → source i (i + (q.size - 1 - i)) k ≡ suc k
        moves b = ground arith

    kept_item :
        Shifted q q.items i (i + (q.size - 1 - i)) out
        → (k : ℕ) → k < last_place
        → get_or (contents (at_back out x)) k 0 ≡ get_or promised k 0
    kept_item s k lt =
        get_or-slots (set out (place q last_place) x) q.capacity q.head q.size k (omega arith)
        ∙ get_or-set_ne out (place q last_place) (place q k) x 0 apart
        ∙ s.moved k k_in
        ∙ from_kept k lt
        ∙ sym
            (get_or-append_left (drop_at i (contents q)) (x ∷ []) k 0 (omega (arith, length-kept)))
      where
        k_in : k < q.capacity
        k_in = omega (arith, v.size_in)

        apart : place q last_place ≢ place q k
        apart e' =
            omega
              (arith, add-mod_inj q.head last_place k v.head_in (omega (arith, v.size_in)) k_in e')

    contents-at_back :
        Shifted q q.items i (i + (q.size - 1 - i)) out → contents (at_back out x) ≡ promised
    contents-at_back s =
        ext-get_or (contents (at_back out x)) promised 0 lengths
          (λ k lt. item_at k (omega (arith, len, lt)))
      where
        len : length (contents (at_back out x)) ≡ q.size
        len = length-slots (set out (place q last_place) x) q.capacity q.head q.size

        lengths : length (contents (at_back out x)) ≡ length promised
        lengths =
            omega (arith, len, length-kept, length-append {0} (drop_at i (contents q)) (x ∷ []))

        item_at : (k : ℕ) → k < q.size → get_or (contents (at_back out x)) k 0 ≡ get_or promised k 0
        item_at k lt = elim (dec_lt k last_place) [
          | yes b ↦ kept_item s k b
          | no b ↦
              let here : k ≡ last_place = omega arith in
              subst (λ j. get_or (contents (at_back out x)) j 0 ≡ get_or promised j 0) (sym here)
                last_item
        ]

  -- The item at place `i` leaves its place for the back, and those behind it move up.
  pub requeue_found_lem :
      (x : Pointer) (i : ℕ)
      → i < q.size
      → (q' : Queue) × (requeue_found q x i ≡ some (ok, q'))
        × IsValid q'
        × (contents q' ≡ drop_at i (contents q) ++ (x ∷ []))
        × (q'.capacity ≡ q.capacity)
  unfolding requeue_found
  requeue_found_lem x i h =
      let (out, defined, s) = shift_back_lem v (q.size - 1 - i) i q.items v.storage (omega arith) in
      let e : length out ≡ q.capacity = s.same_length ∙ v.storage in
      let in_range : place q last_place < length out =
        omega (arith, e, mod-lt (q.head + last_place) v.positive) in
      (
        at_back out x,
        rw (defined, before_tail (omega arith), store_of_lt out (place q last_place) x in_range),
        at_back-IsValid out x e,
        contents-at_back x i h out e s,
        refl,
      )
