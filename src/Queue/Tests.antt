-- ===== src/Queue/Tests.antt =====
-- The queue of queue.c at concrete states.
use university_coursework.Base.{store, ◌≡◌, refl, some, List, [], ◌∷◌, Bool, ◌==◌, arith, inl}
use university_coursework.Queue.{
  Queue, Pointer, Status, ok, queue_enqueue, queue_dequeue, queue_requeue, queue_search,
  requeue_from, requeue_found, shift_back, q_pos, q_pos_before,
}
use university_coursework.Queue.Valid.{IsValid, contents}
use university_coursework.Queue.Fifo.{put, take_first, Call, enqueue, dequeue, promised, run}
use university_coursework.Queue.Refine.{enqueue_refines, dequeue_refines, run_refines}
use university_coursework.Queue.Search.{first_match, search_refines, search_finds_stale}
use university_coursework.Queue.Requeue.{move_to_back, requeue_refines}

-- 8, 9 and 7, round the end of the cells; one of the four is left over.
abbrev three_items : Queue
three_items = record { capacity = 4; size = 3; head = 2; tail = 1; items = 7 ∷ 5 ∷ 8 ∷ 9 ∷ [] }

three_items-IsValid : IsValid three_items
three_items-IsValid = omega arith

-- 8 and 9; the tail has gone round to 0, where a 7 is left over.
abbrev tail_at_zero : Queue
tail_at_zero = record { capacity = 4; size = 2; head = 2; tail = 0; items = 7 ∷ 5 ∷ 8 ∷ 9 ∷ [] }

tail_at_zero-IsValid : IsValid tail_at_zero
tail_at_zero-IsValid = omega arith

abbrev script : List Call
script = enqueue 1 ∷ enqueue 2 ∷ dequeue ∷ dequeue ∷ enqueue 3 ∷ dequeue ∷ []

abbrev is_nine : Pointer → Bool
is_nine x = x == 9

abbrev is_seven : Pointer → Bool
is_seven x = x == 7

requeue_runs :
    queue_requeue three_items 8 ≡ some (ok, record three_items { items = 8 ∷ 5 ∷ 9 ∷ 7 ∷ [] })
unfolding queue_requeue requeue_from requeue_found shift_back q_pos q_pos_before store
requeue_runs = refl

enqueue_refines_example :
    (r : Status × Queue) × (queue_enqueue three_items 6 ≡ some r)
    × ((r.0, contents r.1) ≡ put 4 (8 ∷ 9 ∷ 7 ∷ []) 6)
    × IsValid r.1
    × (r.1.capacity ≡ 4)
enqueue_refines_example = enqueue_refines 6 three_items-IsValid

dequeue_refines_example :
    (r : Pointer × Queue) × (queue_dequeue three_items ≡ some r)
    × ((r.0, contents r.1) ≡ take_first (8 ∷ 9 ∷ 7 ∷ []))
    × IsValid r.1
    × (r.1.capacity ≡ 4)
dequeue_refines_example = dequeue_refines three_items-IsValid

run_refines_example : run three_items script ≡ some (promised 4 (8 ∷ 9 ∷ 7 ∷ []) script)
run_refines_example = run_refines script three_items-IsValid

search_refines_example :
    queue_search three_items is_nine ≡ some (first_match is_nine (8 ∷ 9 ∷ 7 ∷ []))
search_refines_example = search_refines is_nine three_items-IsValid (inl (omega arith))

search_finds_stale_example : queue_search tail_at_zero is_seven ≡ some 7
search_finds_stale_example =
    search_finds_stale is_seven tail_at_zero-IsValid refl (omega arith) (omega arith)
      (refl, (refl, tt)) refl

requeue_refines_example :
    (r : Status × Queue) × (queue_requeue three_items 8 ≡ some r)
    × ((r.0, contents r.1) ≡ move_to_back 8 (8 ∷ 9 ∷ 7 ∷ []))
    × IsValid r.1
    × (r.1.capacity ≡ 4)
requeue_refines_example = requeue_refines 8 three_items-IsValid
