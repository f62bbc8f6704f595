-- ===== src/ProdCon/Tests.antt =====
-- The producer/consumer queue with two threads and a ring of two cells.
use university_coursework.Base.{
  ℕ, ◌≡◌, ◌≤◌, refl, true, false, none, some, [], ◌∷◌, ◌++◌, length, arith, store,
}
use university_coursework.Queue.{Queue, queue_isempty, queue_isfull, queue_enqueue, q_pos}
use university_coursework.Queue.Valid.{IsValid, contents}
use university_coursework.ProdCon.{
  produce, consume, finish, enters, holds, idle, State, move, lock, prodcon_queue_init,
  queue_produce, queue_consume, queue_consume_all, turn_at, turn, calls, runs, Reach, here, later,
}
use university_coursework.ProdCon.Fifo.{produced_in_order, turns_defined}
use university_coursework.ProdCon.Lock.{one_inside}
use university_coursework.ProdCon.Lost.{last_consumer_keeps_mutex, consume_all_spins}

abbrev ring : Queue
ring = record { capacity = 2; size = 0; head = 0; tail = 0; items = 0 ∷ 0 ∷ [] }

ring-IsValid : IsValid ring
ring-IsValid = omega arith

abbrev start : State
start = record {
  queue = ring;
  consume_all = false;
  owner = none;
  pc = λ t. idle;
  produced = [];
  consumed = [];
}

-- Thread 1 has produced an item.
abbrev called : State
called = move start 1 (enters (produce 5))

abbrev locked : State
locked = record (move called 1 (holds (produce 5))) { owner = some 1 }

abbrev put_one : State
put_one = record (move locked 1 idle) {
  owner = none;
  queue = record { capacity = 2; size = 1; head = 0; tail = 1; items = 5 ∷ 0 ∷ [] };
  produced = 5 ∷ [];
}

reach_locked : Reach (prodcon_queue_init ring) locked
unfolding prodcon_queue_init turn_at lock
reach_locked =
    later called locked (later start called here (calls 1 (produce 5) refl)) (runs 1 locked refl)

reach_put_one : Reach (prodcon_queue_init ring) put_one
unfolding turn_at queue_produce queue_isfull queue_enqueue q_pos store
reach_put_one = later locked put_one reach_locked (runs 1 put_one refl)

-- Thread 0 then calls `queue_consume_all`.
abbrev all_called : State
all_called = move put_one 0 (enters finish)

abbrev all_inside : State
all_inside = record (move all_called 0 (holds finish)) { owner = some 0; consume_all = true }

reach_all_inside : Reach (prodcon_queue_init ring) all_inside
unfolding turn_at lock
reach_all_inside =
    later all_called all_inside (later put_one all_called reach_put_one (calls 0 finish refl))
      (runs 0 all_inside refl)

-- On the empty ring the call returns, and thread 1 asks for an item.
abbrev end_called : State
end_called = move start 0 (enters finish)

abbrev end_inside : State
end_inside = record (move end_called 0 (holds finish)) { owner = some 0; consume_all = true }

abbrev ended : State
ended = record (move end_inside 0 idle) { owner = none }

abbrev asks : State
asks = move ended 1 (enters consume)

abbrev last_inside : State
last_inside = record (move asks 1 (holds consume)) { owner = some 1 }

reach_last_inside : Reach (prodcon_queue_init ring) last_inside
unfolding prodcon_queue_init turn_at lock queue_consume_all queue_isempty
reach_last_inside =
    later asks last_inside
      (later ended asks
        (later end_inside ended
          (later end_called end_inside (later start end_called here (calls 0 finish refl))
            (runs 0 end_inside refl))
          (runs 0 ended refl))
        (calls 1 consume refl))
      (runs 1 last_inside refl)

last_turn : turn last_inside 1 ≡ some (move last_inside 1 idle)
unfolding turn_at queue_consume queue_isempty
last_turn = refl

ring_empty : queue_isempty ring ≡ true
unfolding queue_isempty
ring_empty = refl

one_held : queue_isempty put_one.queue ≡ false
unfolding queue_isempty
one_held = refl

produced_in_order_example :
    ((5 ∷ []) ≡ [] ++ contents put_one.queue) × (length (contents put_one.queue) ≤ 2)
produced_in_order_example = produced_in_order ring put_one ring-IsValid refl reach_put_one

turns_defined_example : (s' : State) × (turn locked 1 ≡ some s')
turns_defined_example = turns_defined ring locked 1 ring-IsValid refl reach_locked

one_inside_example : ◌≡◌ {A = ℕ} 1 1
one_inside_example = one_inside ring locked 1 1 (produce 5) (produce 5) reach_locked refl refl

last_consumer_keeps_mutex_example : (last_inside.owner ≡ some 1) × (ring ≡ ring)
last_consumer_keeps_mutex_example =
    last_consumer_keeps_mutex ring last_inside (move last_inside 1 idle) (move last_inside 1 idle) 1
      reach_last_inside refl ring_empty refl last_turn here

consume_all_spins_example :
    (all_inside.pc 0 ≡ holds finish)
    × (all_inside.owner ≡ some 0)
    × (all_inside.queue ≡ put_one.queue)
consume_all_spins_example =
    consume_all_spins ring all_inside all_inside 0 reach_all_inside refl one_held here
