-- ===== src/ProdCon/Fifo.antt =====
-- No item is lost, made up or overtaken, whatever the interleaving.
use university_coursework.Base.{
  ℕ, ◌≡◌, refl, sym, ap, ap₂, ◌∙◌, false, Option, none, some, List, [], ◌∷◌, ◌++◌, append_assoc,
  Bool-cases, inl, inr, ◌==◌, length, arith, ◌≤◌, subst, Option-cases,
}
use university_coursework.Queue.{Pointer, Queue, Status, ok, queue_isempty, queue_isfull}
use university_coursework.Queue.Valid.{IsValid, contents}
use university_coursework.Queue.Window.{length-slots}
use university_coursework.Queue.Fifo.{put, take_first}
use university_coursework.Queue.Refine.{enqueue_refines, dequeue_refines}
use university_coursework.ProdCon.{
  Call, produce, consume, finish, Pc, idle, enters, holds, State, move, lock, prodcon_queue_init,
  queue_produce, queue_consume, queue_consume_all, turn_at, turn, Step, calls, runs, Reach, here,
  later,
}

-- A valid ring of the capacity; what went in is what came out, followed by what is there.
pub record IsOrdered (capacity : ℕ) (s : State) : Type 0 where
  pub ring : IsValid s.queue
  pub fixed : s.queue.capacity ≡ capacity
  pub logged : s.produced ≡ s.consumed ++ contents s.queue

length-contents : (q : Queue) → length (contents q) ≡ q.size
length-contents q = length-slots q.items q.capacity q.head q.size

put_lem :
    (q : Queue) (x : Pointer)
    → queue_isfull q ≡ false
    → put q.capacity (contents q) x ≡ (ok, contents q ++ (x ∷ []))
unfolding put queue_isfull
put_lem q x e =
    let room : (length (contents q) == q.capacity) ≡ false = ground (arith, length-contents q) in
    rw room refl

take_lem :
    (q : Queue)
    → queue_isempty q ≡ false
    → (x : Pointer) × (xs : List Pointer) × (contents q ≡ x ∷ xs)
      × (take_first (contents q) ≡ (x, xs))
unfolding queue_isempty take_first
take_lem q e = split (contents q) (length-contents q)
  where
    split :
        (ws : List Pointer)
        → length ws ≡ q.size
        → (x : Pointer) × (xs : List Pointer) × (ws ≡ x ∷ xs) × (take_first ws ≡ (x, xs))
    split [] h = ground arith
    split (x ∷ xs) h = (x, xs, refl, refl)

produce-IsOrdered :
    (capacity : ℕ) (s : State) (t : ℕ) (x : Pointer)
    → IsOrdered capacity s
    → (s' : State) × (queue_produce s t x ≡ some s') × IsOrdered capacity s'
unfolding queue_produce
produce-IsOrdered capacity s t x o = elim (Bool-cases (queue_isfull s.queue)) [
  | inl full ↦ (
    record (move s t (enters (produce x))) { owner = none },
    rw full refl,
    record { ring = o.ring; fixed = o.fixed; logged = o.logged },
  )
  | inr room ↦
      let (r, run, same, ring, cap) = enqueue_refines x o.ring in
      let after : contents r.1 ≡ contents s.queue ++ (x ∷ []) =
        ap (λ (p : Status × List Pointer). p.1) (same ∙ put_lem s.queue x room) in
      (
        record (move s t idle) { owner = none; queue = r.1; produced = s.produced ++ (x ∷ []) },
        rw (room, run) refl,
        record {
          ring = ring;
          fixed = cap ∙ o.fixed;
          logged =
              ap (λ ws. ws ++ (x ∷ [])) o.logged
              ∙ append_assoc s.consumed (contents s.queue) (x ∷ [])
              ∙ ap (λ ws. s.consumed ++ ws) (sym after);
        },
      )
]

consume-IsOrdered :
    (capacity : ℕ) (s : State) (t : ℕ)
    → IsOrdered capacity s
    → (s' : State) × (queue_consume s t ≡ some s') × IsOrdered capacity s'
unfolding queue_consume
consume-IsOrdered capacity s t o = elim (Bool-cases (queue_isempty s.queue)) [
  | inl empty ↦ elim (Bool-cases s.consume_all) [
    | inl last ↦ (
      move s t idle,
      rw (empty, last) refl,
      record { ring = o.ring; fixed = o.fixed; logged = o.logged },
    )
    | inr more ↦ (
      record (move s t (enters consume)) { owner = none },
      rw (empty, more) refl,
      record { ring = o.ring; fixed = o.fixed; logged = o.logged },
    )
  ]
  | inr some_item ↦
      let (r, run, same, ring, cap) = dequeue_refines o.ring in
      let (x, xs, held, taken) = take_lem s.queue some_item in
      let got : r.0 ≡ x = ap (λ (p : Pointer × List Pointer). p.0) (same ∙ taken) in
      let rest : contents r.1 ≡ xs = ap (λ (p : Pointer × List Pointer). p.1) (same ∙ taken) in
      (
        record (move s t idle) { owner = none; queue = r.1; consumed = s.consumed ++ (r.0 ∷ []) },
        rw (some_item, run) refl,
        record {
          ring = ring;
          fixed = cap ∙ o.fixed;
          logged =
              o.logged
              ∙ ap (λ ws. s.consumed ++ ws) held
              ∙ sym (append_assoc s.consumed (x ∷ []) xs)
              ∙ ap₂ (λ c ws. (s.consumed ++ (c ∷ [])) ++ ws) (sym got) (sym rest);
        },
      )
]

-- Taking the mutex leaves the queue and the logs alone.
lock-IsOrdered :
    (capacity : ℕ) (s : State) (t : ℕ) (c : Call)
    → IsOrdered capacity s
    → IsOrdered capacity (lock s t c)
unfolding lock
lock-IsOrdered capacity s t c o = elim (Option-cases s.owner) [
  | inl free ↦ at_free c free
  | inr (u, taken) ↦ at_taken c u taken
]
  where
    at_free : (c : Call) → s.owner ≡ none → IsOrdered capacity (lock s t c)
    at_free (produce x) free =
        rw free (record { ring = o.ring; fixed = o.fixed; logged = o.logged })
    at_free consume free = rw free (record { ring = o.ring; fixed = o.fixed; logged = o.logged })
    at_free finish free = rw free (record { ring = o.ring; fixed = o.fixed; logged = o.logged })

    at_taken : (c : Call) (u : ℕ) → s.owner ≡ some u → IsOrdered capacity (lock s t c)
    at_taken (produce x) u taken =
        rw taken (record { ring = o.ring; fixed = o.fixed; logged = o.logged })
    at_taken consume u taken =
        rw taken (record { ring = o.ring; fixed = o.fixed; logged = o.logged })
    at_taken finish u taken =
        rw taken (record { ring = o.ring; fixed = o.fixed; logged = o.logged })

finish-IsOrdered :
    (capacity : ℕ) (s : State) (t : ℕ)
    → IsOrdered capacity s
    → IsOrdered capacity (queue_consume_all s t)
unfolding queue_consume_all
finish-IsOrdered capacity s t o = elim (Bool-cases (queue_isempty s.queue)) [
  | inl empty ↦ rw empty (record { ring = o.ring; fixed = o.fixed; logged = o.logged })
  | inr more ↦ rw more o
]

-- At an ordered state every turn is defined and leaves an ordered state.
turn_at-IsOrdered :
    (capacity : ℕ) (s : State) (t : ℕ) (p : Pc)
    → IsOrdered capacity s
    → (s' : State) × (turn_at s t p ≡ some s') × IsOrdered capacity s'
unfolding turn_at
turn_at-IsOrdered capacity s t idle o = (s, refl, o)
turn_at-IsOrdered capacity s t (enters c) o = (lock s t c, refl, lock-IsOrdered capacity s t c o)
turn_at-IsOrdered capacity s t (holds (produce x)) o = produce-IsOrdered capacity s t x o
turn_at-IsOrdered capacity s t (holds consume) o = consume-IsOrdered capacity s t o
turn_at-IsOrdered capacity s t (holds finish) o =
    (queue_consume_all s t, refl, finish-IsOrdered capacity s t o)

from_some : State → Option State → State
from_some s none = s
from_some s (some s') = s'

pub some_inj : (s u : State) → some s ≡ some u → s ≡ u
unfolding from_some
some_inj s u e = ap (from_some s) e

Step-IsOrdered :
    (capacity : ℕ) (s s' : State) → Step s s' → IsOrdered capacity s → IsOrdered capacity s'
Step-IsOrdered capacity s _ (calls t c h) o = record {
  ring = o.ring;
  fixed = o.fixed;
  logged = o.logged;
}
Step-IsOrdered capacity s s' (runs t _ run) o =
    let (u, defined, ordered) = turn_at-IsOrdered capacity s t (s.pc t) o in
    subst (IsOrdered capacity) (some_inj u s' (sym defined ∙ run)) ordered

pub Reach-IsOrdered :
    (capacity : ℕ) (s s' : State) → Reach s s' → IsOrdered capacity s → IsOrdered capacity s'
Reach-IsOrdered capacity s _ here o = o
Reach-IsOrdered capacity s s' (later u _ before last) o =
    Step-IsOrdered capacity u s' last (Reach-IsOrdered capacity s u before o)

pub init-IsOrdered :
    (q : Queue) → IsValid q → contents q ≡ [] → IsOrdered q.capacity (prodcon_queue_init q)
unfolding prodcon_queue_init
init-IsOrdered q v empty = record { ring = v; fixed = refl; logged = sym empty }

-- From a valid empty ring of `capacity` cells on, and however the threads' turns fall, the items of
-- the calls of `queue_produce` that have returned are, in their order, the items that
-- `queue_consume` has returned followed by those in the ring, and the ring holds at most `capacity`.
pub produced_in_order :
    (q : Queue) (s : State)
    → IsValid q
    → contents q ≡ []
    → Reach (prodcon_queue_init q) s
    → (s.produced ≡ s.consumed ++ contents s.queue) × (length (contents s.queue) ≤ q.capacity)
produced_in_order q s v empty run =
    let o = Reach-IsOrdered q.capacity (prodcon_queue_init q) s run (init-IsOrdered q v empty) in
    (o.logged, omega (arith, length-contents s.queue, o.ring.size_in, o.fixed))

-- In every state that the threads can reach from a valid empty ring, the turn of every thread is
-- defined: no access outside the ring, no overflow.
pub turns_defined :
    (q : Queue) (s : State) (t : ℕ)
    → IsValid q
    → contents q ≡ []
    → Reach (prodcon_queue_init q) s
    → (s' : State) × (turn s t ≡ some s')
turns_defined q s t v empty run =
    let o = Reach-IsOrdered q.capacity (prodcon_queue_init q) s run (init-IsOrdered q v empty) in
    let (s', defined, _) = turn_at-IsOrdered q.capacity s t (s.pc t) o in (s', defined)
