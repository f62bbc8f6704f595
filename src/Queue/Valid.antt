-- ===== src/Queue/Valid.antt =====
-- The representation invariant of `queue_t`, and the abstract content of a queue.
use university_coursework.Base.{
  ℕ, ◌+◌, ◌-◌, ◌%◌, ◌*◌, ◌≤◌, ◌<◌, ◌≡◌, ◌∙◌, ap, some, List, length, int_limit, arith,
}
use native.Mathlib.Nat.{add-mod_left}
use university_coursework.Queue.{Queue, Pointer, wrap, q_pos, q_pos_before}
use university_coursework.Queue.Window.{slots}

-- The bound keeps every sum that the code makes an `int`.
pub record IsValid (q : Queue) : Type 0 where
  pub positive : 0 < q.capacity
  pub bounded : 3 * q.capacity < int_limit
  pub storage : length q.items ≡ q.capacity
  pub head_in : q.head < q.capacity
  pub size_in : q.size ≤ q.capacity
  pub tail_at : q.tail ≡ (q.head + q.size) % q.capacity

-- What the queue holds, oldest first.
abbrev pub contents : Queue → List Pointer
contents q = slots q.items q.capacity q.head q.size

-- The cell `i` places behind the head.
abbrev pub place : Queue → ℕ → ℕ
place q i = (q.head + i) % q.capacity

wrap_lem :
    (capacity sum : ℕ) → 0 < capacity → sum < int_limit → wrap capacity sum ≡ some (sum % capacity)
unfolding wrap
wrap_lem capacity sum p h = ground arith

pub q_pos_lem :
    {q : Queue} (i : ℕ) → IsValid q → i < 2 * q.capacity → q_pos q i ≡ some (i % q.capacity)
unfolding q_pos
q_pos_lem {q} i v h =
    wrap_lem q.capacity (q.capacity + i) v.positive (omega arith)
    ∙ ap some (add-mod_left q.capacity i)

pub q_pos_before_lem :
    {q : Queue} (i : ℕ)
    → IsValid q
    → i < q.capacity
    → q_pos_before q i ≡ some ((q.capacity + i - 1) % q.capacity)
unfolding q_pos_before
q_pos_before_lem {q} i v h = wrap_lem q.capacity (q.capacity + i - 1) v.positive (omega arith)
