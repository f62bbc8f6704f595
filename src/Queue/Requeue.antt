-- ===== src/Queue/Requeue.antt =====
-- `queue_requeue` of queue.c moves the oldest occurrence of an item to the back.
mod Shift
mod Back
use university_coursework.Base.{
  mod_cases, add-mod_inj, ℕ, zero, suc, subst, ◌+◌, ◌-◌, ◌%◌, ◌*◌, ◌≤◌, ◌<◌, ◌≡◌, refl, sym, ap,
  ap₂, ◌∙◌, ◌≢◌, ◌⊎◌, inl, inr, some, none, List, [], ◌∷◌, ◌++◌, length, get_or, get_elem?,
  get_elem?-eq-get_or, arith, ℕ_discrete, dec_lt, Bool, true, false, if◌then◌else◌, ◌==◌, ltb, leb,
  ◌&&◌, Bool-cases, Option, ==_iff, set, store, store_of_lt, length-set, get_or-set_self,
  get_or-set_ne, ext-get_or, length-append, get_or-append_left, get_or-append_end, ◌>>=◌,
}
use native.Mathlib.Nat.{mod-lt, mod-eq_of_lt}
use university_coursework.Queue.{
  Queue, Pointer, Status, ok, failed, shift_back, requeue_found, requeue_from, queue_requeue,
  q_pos_before,
}
use university_coursework.Queue.Window.{slots, get_or-slots, length-slots, slots_of_zero}
use university_coursework.Queue.Valid.{IsValid, place, contents, q_pos_lem, q_pos_before_lem}
use Back.{drop_at, requeue_found_lem}

-- The list without its first occurrence of an item, or `none` if there is no occurrence.
unfoldable pub remove_first : Pointer → List Pointer → Option (List Pointer)
remove_first x [] = none
remove_first x (y ∷ ys) =
    if x == y then some ys else elim (remove_first x ys) [ none ↦ none | some r ↦ some (y ∷ r) ]

-- What `queue_requeue` promises.
unfoldable pub move_to_back : Pointer → List Pointer → Status × List Pointer
unfolding remove_first
move_to_back x xs = elim (remove_first x xs) [
  | none ↦ (failed, xs)
  | some ys ↦ (ok, ys ++ (x ∷ []))
]

module _ {q : Queue} (v : IsValid q) where
  abbrev from : ℕ → ℕ → List Pointer
  from i n = slots q.items q.capacity (q.head + i) n

  requeue_zero : (x : Pointer) (i : ℕ) → requeue_from q x zero i ≡ some (failed, q)
  unfolding requeue_from
  requeue_zero x i = refl

  requeue_step :
      (x : Pointer) (rounds i : ℕ)
      → i < q.capacity
      → requeue_from q x (suc rounds) i ≡ (
          if x == get_or q.items (place q i) 0
          then requeue_found q x i
          else requeue_from q x rounds (i + 1))
  unfolding requeue_from
  requeue_step x rounds i lt = ground (
    arith,
    q_pos_lem (q.head + i) v,
    get_elem?-eq-get_or q.items (place q i) 0,
    mod-lt (q.head + i) v.positive,
  )

  -- How the outer loop ends, against the list that it walks.
  abbrev Walk : Pointer → ℕ → ℕ → Type 0
  Walk x rounds i =
      (remove_first x (from i rounds) ≡ none) × (requeue_from q x rounds i ≡ some (failed, q))
      ⊎ ((k : ℕ) × (k < rounds)
          × (remove_first x (from i rounds) ≡ some (drop_at k (from i rounds)))
          × (requeue_from q x rounds i ≡ requeue_found q x (i + k)))

  from-suc : (i n : ℕ) → from i (suc n) ≡ get_or q.items (place q i) 0 ∷ from (i + 1) n
  from-suc i n = ap (λ h. get_or q.items (place q i) 0 ∷ slots q.items q.capacity h n) (omega arith)

  walk : (x : Pointer) (rounds i : ℕ) → i + rounds ≡ q.size → Walk x rounds i
  unfolding remove_first
  walk x zero i e = inl (refl, requeue_zero x i)
  walk x (suc rounds) i e = elim (Bool-cases (x == get_or q.items (place q i) 0)) [
    | inl here ↦ inr (
      0,
      omega arith,
      rw here,
      ground (
        arith,
        requeue_step x rounds i (omega (arith, v.size_in)),
        found_at i (i + 0) (omega arith),
      ),
    )
    | inr away ↦ elim (walk x rounds (i + 1) (omega arith)) [
      | inl (a, b) ↦ inl (
        rw (away, ← again i rounds, a),
        ground (arith, requeue_step x rounds i (omega (arith, v.size_in))),
      )
      | inr (k, lt, a, b) ↦ inr (
        suc k,
        omega arith,
        rw (away, ← again i rounds, a),
        ground (
          arith,
          requeue_step x rounds i (omega (arith, v.size_in)),
          found_at (i + 1 + k) (i + suc k) (omega arith),
        ),
      )
    ]
  ]
    where
      found_at : (j k : ℕ) → j ≡ k → requeue_found q x j ≡ requeue_found q x k
      found_at j k e = ap (requeue_found q x) e

      again : (i n : ℕ) → from (i + 1) n ≡ slots q.items q.capacity (suc (q.head + i)) n
      again i n = ap (λ h. slots q.items q.capacity h n) (omega arith)

  from-contents : from 0 q.size ≡ contents q
  from-contents = ap (λ h. slots q.items q.capacity h q.size) (omega arith)

-- At a valid queue `queue_requeue` is defined. It takes the oldest occurrence of the item from its
-- place and puts it at the back, the others staying in order, and returns 0; without an occurrence
-- it returns -1 and changes nothing. The queue stays valid, at the same capacity.
pub requeue_refines :
    {q : Queue} (x : Pointer)
    → IsValid q
    → (r : Status × Queue) × (queue_requeue q x ≡ some r)
      × ((r.0, contents r.1) ≡ move_to_back x (contents q))
      × IsValid r.1
      × (r.1.capacity ≡ q.capacity)
unfolding queue_requeue move_to_back
requeue_refines {q} x v = elim (walk v x q.size 0 (omega arith)) [
  | inl (a, b) ↦ ((failed, q), b, rw (rw (from-contents v) at a, move_to_back), v, refl)
  | inr (k, lt, a, b) ↦
      let (q', defined, v', moved, cap) = requeue_found_lem v x k lt in
      (
        (ok, q'),
        b ∙ ap (requeue_found q x) (omega arith) ∙ defined,
        rw (moved, rw (from-contents v) at a, move_to_back),
        v',
        cap,
      )
]
