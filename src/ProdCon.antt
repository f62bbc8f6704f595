-- ===== src/ProdCon.antt =====
-- Operating Systems/Threaded Web Server/queue.c: the producer/consumer queue. Threads call
-- `queue_produce`, `queue_consume` and `queue_consume_all` in any order; a turn is what a thread does
-- between two points at which another thread can act. A thread in `pthread_cond_wait` does not hold
-- the mutex, may wake up at any time, and then has to take the mutex and to test again, which is
-- where a call begins too. A thread that owns the mutex waits for it like any other. The calls of
-- pthread.h do not fail.
pub mod Fifo
pub mod Lock
pub mod Lost
mod Tests
use university_coursework.Base.{
  ℕ, Bool, true, false, Option, none, some, List, [], ◌∷◌, ◌++◌, if◌then◌else◌, ◌==◌, ◌>>=◌, ◌≡◌,
}
use university_coursework.Queue.{
  Pointer, Queue, Status, queue_isempty, queue_isfull, queue_enqueue, queue_dequeue,
}

pub data Call : Type 0 where
  produce : Pointer → Call
  consume finish : Call

-- Outside the functions, before the mutex is taken, or with the mutex.
pub data Pc : Type 0 where
  idle : Pc
  enters holds : Call → Pc

-- `prodcon_queue_t` with its threads. The logs list the items of the calls of `queue_produce` that
-- have returned 0, and the items that `queue_consume` has returned, in order.
pub record State : Type 0 where
  pub queue : Queue
  pub consume_all : Bool
  pub owner : Option ℕ
  pub pc : ℕ → Pc
  pub produced : List Pointer
  pub consumed : List Pointer

abbrev pub move : State → ℕ → Pc → State
move s t p = record s { pc = λ u. if u == t then p else s.pc u }

-- `prodcon_queue_init`, where `queue_init` has made the queue.
unfoldable pub prodcon_queue_init : Queue → State
prodcon_queue_init q = record {
  queue = q;
  consume_all = false;
  owner = none;
  pc = λ t. idle;
  produced = [];
  consumed = [];
}

-- The mutex is taken, if it is free; `queue_consume_all` sets its flag.
unfoldable pub lock : State → ℕ → Call → State
lock s t finish = elim s.owner [
  | none ↦ record (move s t (holds finish)) { owner = some t; consume_all = true }
  | some u ↦ s
]
lock s t (produce x) = elim s.owner [
  | none ↦ record (move s t (holds (produce x))) { owner = some t }
  | some u ↦ s
]
lock s t consume = elim s.owner [
  | none ↦ record (move s t (holds consume)) { owner = some t }
  | some u ↦ s
]

-- The status of `queue_enqueue` is not looked at.
unfoldable pub queue_produce : State → ℕ → Pointer → Option State
queue_produce s t x =
    let put = (do
      (status, q) ← queue_enqueue s.queue x
      some (record (move s t idle) {
        owner = none;
        queue = q;
        produced = s.produced ++ (x ∷ []);
      })) in
    if queue_isfull s.queue
    then some (record (move s t (enters (produce x))) { owner = none })
    else put

-- Where all has been consumed the call returns -1, with the mutex.
unfoldable pub queue_consume : State → ℕ → Option State
queue_consume s t =
    let get = (do
      (item, q) ← queue_dequeue s.queue
      some (record (move s t idle) {
        owner = none;
        queue = q;
        consumed = s.consumed ++ (item ∷ []);
      })) in
    if queue_isempty s.queue
    then (if s.consume_all
        then some (move s t idle)
        else some (record (move s t (enters consume)) { owner = none }))
    else get

-- A round of the loop leaves everything as it is, the mutex included.
unfoldable pub queue_consume_all : State → ℕ → State
queue_consume_all s t = if queue_isempty s.queue then record (move s t idle) { owner = none } else s

-- The turn of a thread that is at a program point.
unfoldable pub turn_at : State → ℕ → Pc → Option State
turn_at s t idle = some s
turn_at s t (enters c) = some (lock s t c)
turn_at s t (holds (produce x)) = queue_produce s t x
turn_at s t (holds consume) = queue_consume s t
turn_at s t (holds finish) = some (queue_consume_all s t)

abbrev pub turn : State → ℕ → Option State
turn s t = turn_at s t (s.pc t)

-- An idle thread calls one of the functions, or a thread has its turn.
pub data Step (s : State) : State → Type 0 where
  calls : (t : ℕ) (c : Call) → s.pc t ≡ idle → Step s (move s t (enters c))
  runs : (t : ℕ) (s' : State) → turn s t ≡ some s' → Step s s'

pub data Reach (s : State) : State → Type 0 where
  here : Reach s s
  later : (u v : State) → Reach s u → Step u v → Reach s v
