-- ===== src/Queue.antt =====
-- The bounded queue of Operating Systems/Threaded Web Server/queue.c (the same file serves
-- Parallel Computing/HW3): `queue_t` and the unsynchronised operations on it. An operation that
-- changes the queue returns it beside its status; `none` is undefined behaviour of the C code.
pub mod Window
pub mod Valid
pub mod Fifo
pub mod Refine
pub mod Search
pub mod Requeue
mod Tests
use university_coursework.Base.{
  ℕ, zero, suc, ◌+◌, ◌-◌, ◌%◌, Bool, Option, none, some, List, [], if◌then◌else◌, ltb, ◌==◌,
  get_elem?, store, ◌>>=◌, int_limit,
}

-- A `void*`; NULL is 0.
abbrev pub Pointer : Type 0
Pointer = ℕ

abbrev pub null : Pointer
null = 0

-- The 0 and -1 that the functions return.
pub data Status : Type 0 where
  ok failed : Status

pub record Queue : Type 0 where
  pub capacity : ℕ
  pub size : ℕ
  pub head : ℕ
  pub tail : ℕ
  pub items : List Pointer

-- The sum `capacity + i`, which has to fit an `int`, modulo the capacity, which may not be 0.
unfoldable pub wrap : ℕ → ℕ → Option ℕ
wrap capacity sum =
    if capacity == 0 then none else if ltb sum int_limit then some (sum % capacity) else none

unfoldable pub q_pos : Queue → ℕ → Option ℕ
unfolding wrap
q_pos q i = wrap q.capacity (q.capacity + i)

-- `q_pos(q, i - 1)`, where `i - 1` may be -1.
unfoldable pub q_pos_before : Queue → ℕ → Option ℕ
unfolding wrap
q_pos_before q i = wrap q.capacity (q.capacity + i - 1)

-- The first argument is what `malloc` returns: NULL, or the cells with whatever they hold.
unfoldable pub queue_init : Option (List Pointer) → ℕ → Status × Queue
queue_init none capacity =
    (failed, record { capacity = capacity; size = 0; head = 0; tail = 0; items = [] })
queue_init (some cells) capacity =
    (ok, record { capacity = capacity; size = 0; head = 0; tail = 0; items = cells })

unfoldable pub queue_isempty : Queue → Bool
queue_isempty q = q.size == 0

unfoldable pub queue_isfull : Queue → Bool
queue_isfull q = q.size == q.capacity

unfoldable pub queue_enqueue : Queue → Pointer → Option (Status × Queue)
unfolding queue_isfull
queue_enqueue q item = do
  new_tail ← q_pos q (q.tail + 1)
  let full = queue_isfull q
  let put = do
    cells ← store q.items q.tail item
    some (ok, record q { items = cells; tail = new_tail; size = q.size + 1 })
  if full then some (failed, q) else put

-- NULL if the queue is empty.
unfoldable pub queue_dequeue : Queue → Option (Pointer × Queue)
unfolding queue_isempty
queue_dequeue q = if queue_isempty q then some (null, q) else (do
  new_head ← q_pos q (q.head + 1)
  item ← get_elem? q.items q.head
  some (item, record q { head = new_head; size = q.size - 1 }))

-- The inner loop of `queue_requeue`: `rounds` rounds from `j` on, each moving an item back a slot.
unfoldable pub shift_back : Queue → ℕ → ℕ → List Pointer → Option (List Pointer)
shift_back q zero j cells = some cells
shift_back q (suc rounds) j cells = do
  from ← q_pos q (q.head + j + 1)
  to ← q_pos q (q.head + j)
  moved ← get_elem? cells from
  cells' ← store cells to moved
  shift_back q rounds (j + 1) cells'

-- What `queue_requeue` does once it has found the item `i` places behind the head.
unfoldable pub requeue_found : Queue → Pointer → ℕ → Option (Status × Queue)
requeue_found q item i = do
  shifted ← shift_back q (q.size - 1 - i) i q.items
  current_tail ← q_pos_before q q.tail
  cells ← store shifted current_tail item
  some (ok, record q { items = cells })

-- The outer loop, with `rounds` rounds left at index `i`.
unfoldable pub requeue_from : Queue → Pointer → ℕ → ℕ → Option (Status × Queue)
requeue_from q item zero i = some (failed, q)
requeue_from q item (suc rounds) i =
    let later = requeue_from q item rounds (i + 1) in
    do
      pos ← q_pos q (q.head + i)
      here ← get_elem? q.items pos
      if item == here then requeue_found q item i else later

unfoldable pub queue_requeue : Queue → Pointer → Option (Status × Queue)
queue_requeue q item = requeue_from q item q.size 0

-- The loop of `queue_search`; the callback reads the item, and is `none` where that is undefined.
-- `pos == tail - 1` is an equation between C integers, false at tail 0.
unfoldable pub search_from : Queue → (Pointer → Option Bool) → ℕ → ℕ → Option Pointer
search_from q cb zero i = some null
search_from q cb (suc rounds) i =
    let later = search_from q cb rounds (i + 1) in
    do
      pos ← q_pos q (q.head + i)
      item ← get_elem? q.items pos
      accepted ← cb item
      if accepted then some item else if (pos + 1) == q.tail then some null else later

unfoldable pub search_with : Queue → (Pointer → Option Bool) → Option Pointer
unfolding queue_isempty
search_with q cb = if queue_isempty q then some null else search_from q cb q.capacity 0

-- With a callback that is defined at every pointer.
unfoldable pub queue_search : Queue → (Pointer → Bool) → Option Pointer
queue_search q cb = search_with q (λ item. some (cb item))
