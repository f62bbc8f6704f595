-- ===== src/Queue/Refine.antt =====
-- `queue_init`, `queue_enqueue` and `queue_dequeue` of queue.c implement the queue of `Fifo`.
use university_coursework.Base.{
  add-mod_inj, ℕ, suc, ◌+◌, ◌-◌, ◌%◌, ◌*◌, ◌<◌, ◌≡◌, refl, sym, ap, ap₂, ◌∙◌, ◌≢◌, some, List, [],
  ◌∷◌, ◌++◌, length, get_or, get_elem?-eq-get_or, set, store_of_lt, length-set, get_or-set_self,
  int_limit, arith, ℕ_discrete,
}
use native.Mathlib.Nat.{mod-lt, mod-mod, mod-eq_of_lt, mod-add-mod}
use university_coursework.Queue.{
  Queue, Pointer, Status, ok, failed, null, queue_init, queue_enqueue, queue_dequeue,
}
use university_coursework.Queue.Window.{
  slots, slots_uncons, slots_of_zero, length-slots, slots-mod, slots-snoc, slots-set_outside,
}
use university_coursework.Queue.Valid.{IsValid, contents, q_pos_lem}
use university_coursework.Queue.Fifo.{
  put, take_first, Call, enqueue, dequeue, status, item, promised, run,
}

-- The queue after a successful `queue_enqueue`.
abbrev pub pushed : Queue → Pointer → Queue
pushed q x = record q {
  items = set q.items q.tail x;
  tail = (q.tail + 1) % q.capacity;
  size = q.size + 1;
}

-- The queue after a successful `queue_dequeue`.
abbrev pub popped : Queue → Queue
popped q = record q { head = (q.head + 1) % q.capacity; size = q.size - 1 }

dequeue_empty : (q : Queue) → q.size ≡ 0 → queue_dequeue q ≡ some (null, q)
unfolding queue_dequeue
dequeue_empty q e = ground arith

module _ {q : Queue} (v : IsValid q) where
  pub tail_in : q.tail < q.capacity
  tail_in = omega (arith, v.tail_at, mod-lt (q.head + q.size) v.positive)

  enqueue_full : (x : Pointer) → q.size ≡ q.capacity → queue_enqueue q x ≡ some (failed, q)
  unfolding queue_enqueue
  enqueue_full x e = ground (arith, q_pos_lem (q.tail + 1) v, tail_in)

  enqueue_ok : (x : Pointer) → q.size ≢ q.capacity → queue_enqueue q x ≡ some (ok, pushed q x)
  unfolding queue_enqueue
  enqueue_ok x ne = ground (arith, q_pos_lem (q.tail + 1) v, store_of_lt q.items q.tail x, tail_in)

  dequeue_ok : q.size ≢ 0 → queue_dequeue q ≡ some (get_or q.items q.head 0, popped q)
  unfolding queue_dequeue
  dequeue_ok ne = ground (arith, q_pos_lem (q.head + 1) v, get_elem?-eq-get_or q.items q.head 0)

  pushed-IsValid : (x : Pointer) → q.size ≢ q.capacity → IsValid (pushed q x)
  pushed-IsValid x ne = record {
    positive = v.positive;
    bounded = v.bounded;
    storage = length-set q.items q.tail x ∙ v.storage;
    head_in = v.head_in;
    size_in = omega arith;
    tail_at =
        ap (λ t. (t + 1) % q.capacity) v.tail_at
        ∙ mod-add-mod (q.head + q.size) q.capacity 1
        ∙ ap (λ t. t % q.capacity) (omega arith);
  }

  popped-IsValid : q.size ≢ 0 → IsValid (popped q)
  popped-IsValid ne = record {
    positive = v.positive;
    bounded = v.bounded;
    storage = v.storage;
    head_in = mod-lt (q.head + 1) v.positive;
    size_in = omega arith;
    tail_at =
        v.tail_at
        ∙ ap (λ t. t % q.capacity) (omega arith)
        ∙ sym (mod-add-mod (q.head + 1) q.capacity (q.size - 1));
  }

  contents-pushed :
      (x : Pointer) → q.size ≢ q.capacity → contents (pushed q x) ≡ contents q ++ (x ∷ [])
  contents-pushed x ne =
      ap (slots (set q.items q.tail x) q.capacity q.head) add-one
      ∙ slots-snoc (set q.items q.tail x) q.capacity q.head q.size
      ∙ ap₂ (λ xs y. xs ++ (y ∷ []))
          (slots-set_outside q.items q.capacity q.tail x q.head q.size away)
          (ap (λ i. get_or (set q.items q.tail x) i 0) (sym v.tail_at)
            ∙ get_or-set_self q.items q.tail x 0 (omega (arith, tail_in, v.storage)))
    where
      add-one : q.size + 1 ≡ suc q.size
      add-one = omega arith

      away : (i : ℕ) → i < q.size → (q.head + i) % q.capacity ≢ q.tail
      away i lt e = omega (
        arith,
        add-mod_inj q.head i q.size v.head_in (omega (arith, v.size_in)) (omega (arith, v.size_in))
            (e ∙ v.tail_at),
      )

  contents-popped : q.size ≢ 0 → contents q ≡ get_or q.items q.head 0 ∷ contents (popped q)
  contents-popped ne =
      slots_uncons q.items q.capacity q.head q.size ne
      ∙ ap₂ ◌∷◌ (ap (λ i. get_or q.items i 0) (mod-eq_of_lt v.head_in)) (
          slots-mod q.items q.capacity (suc q.head) ((q.head + 1) % q.capacity) (q.size - 1)
            (ap (λ i. i % q.capacity) (omega arith) ∙ sym (mod-mod (q.head + 1) q.capacity)))

-- At a valid queue `queue_enqueue` is defined, returns the status of the abstract `put`, and
-- leaves a valid queue of the same capacity with the abstract content.
pub enqueue_refines :
    {q : Queue} (x : Pointer)
    → IsValid q
    → (r : Status × Queue) × (queue_enqueue q x ≡ some r)
      × ((r.0, contents r.1) ≡ put q.capacity (contents q) x)
      × IsValid r.1
      × (r.1.capacity ≡ q.capacity)
unfolding put
enqueue_refines {q} x v = elim (ℕ_discrete q.size q.capacity) [
  | yes e ↦ ((failed, q), enqueue_full v x e, ground (arith, len), v, refl)
  | no ne ↦ (
    (ok, pushed q x),
    enqueue_ok v x ne,
    rw (contents-pushed v x ne) (ground (arith, len)),
    pushed-IsValid v x ne,
    refl,
  )
]
  where
    len : length (contents q) ≡ q.size
    len = length-slots q.items q.capacity q.head q.size

-- At a valid queue `queue_dequeue` is defined, returns what the abstract `take_first` returns
-- (NULL if nothing is there), and leaves a valid queue of the same capacity with the rest.
pub dequeue_refines :
    {q : Queue}
    → IsValid q
    → (r : Pointer × Queue) × (queue_dequeue q ≡ some r)
      × ((r.0, contents r.1) ≡ take_first (contents q))
      × IsValid r.1
      × (r.1.capacity ≡ q.capacity)
unfolding take_first
dequeue_refines {q} v = elim (ℕ_discrete q.size 0) [
  | yes e ↦ ((null, q), dequeue_empty q e, rw (slots_of_zero q.items q.capacity q.head e), v, refl)
  | no ne ↦ (
    (get_or q.items q.head 0, popped q),
    dequeue_ok v ne,
    rw (contents-popped v ne),
    popped-IsValid v ne,
    refl,
  )
]

-- Any sequence of calls on a valid queue is defined throughout and gets the replies of the
-- bounded first-in first-out queue that holds the queue's content.
pub run_refines :
    (calls : List Call) {q : Queue}
    → IsValid q
    → run q calls ≡ some (promised q.capacity (contents q) calls)
unfolding run promised
run_refines [] v = refl
run_refines (enqueue x ∷ calls) {q} v =
    let (r, defined, same, v', cap) = enqueue_refines x v in
    rw (defined, run_refines calls v')
      (ap₂ (λ c (p : Status × List Pointer). some (status p.0 ∷ promised c p.1 calls)) cap same)
run_refines (dequeue ∷ calls) {q} v =
    let (r, defined, same, v', cap) = dequeue_refines v in
    rw (defined, run_refines calls v')
      (ap₂ (λ c (p : Pointer × List Pointer). some (item p.0 ∷ promised c p.1 calls)) cap same)

-- A queue that `queue_init` makes from `capacity` cells is valid and empty.
pub init-IsValid :
    (cells : List Pointer) (capacity : ℕ)
    → 0 < capacity
    → 3 * capacity < int_limit
    → length cells ≡ capacity
    → ((queue_init (some cells) capacity).0 ≡ ok)
      × IsValid (queue_init (some cells) capacity).1
      × (contents (queue_init (some cells) capacity).1 ≡ [])
unfolding queue_init
init-IsValid cells capacity p b e = (refl, ground arith, refl)
