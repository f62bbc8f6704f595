-- ===== src/ProdCon/Lock.antt =====
-- The mutex of the producer/consumer queue: at most one thread is inside.
use university_coursework.Base.{
  ℕ, ◌≡◌, ◌≢◌, refl, sym, ap, ◌∙◌, false, Option, none, some, Bool-cases, inl, inr, if◌then◌else◌,
  ◌==◌, arith, subst, Option-cases, ==_iff,
}
use university_coursework.Queue.{
  Pointer, Queue, queue_isempty, queue_isfull, queue_enqueue, queue_dequeue,
}
use university_coursework.ProdCon.{
  Call, produce, consume, finish, Pc, idle, enters, holds, State, lock, prodcon_queue_init,
  queue_produce, queue_consume, queue_consume_all, turn_at, calls, runs, Reach, here, later,
}

-- The thread at this point is between `pthread_mutex_lock` and the release of the mutex.
abbrev pub IsInside : Pc → Type 0
IsInside idle = ⊥
IsInside (enters c) = ⊥
IsInside (holds c) = Unit

-- Only the owner of the mutex is inside.
unfoldable pub IsExclusive : State → Type 0
IsExclusive s = (u : ℕ) → IsInside (s.pc u) → s.owner ≡ some u

-- Who is inside after a thread has moved to a point outside.
pub others :
    (s : State) (t v : ℕ) (p : Pc)
    → (IsInside p → ⊥)
    → IsInside (if v == t then p else s.pc v)
    → (v ≢ t) × IsInside (s.pc v)
others s t v p out inside = elim (Bool-cases (v == t)) [
  | inl same ↦ absurd (out (subst (λ b. IsInside (if b then p else s.pc v)) same inside))
  | inr differ ↦ (apart v t differ, subst (λ b. IsInside (if b then p else s.pc v)) differ inside)
]
  where
    apart : (v t : ℕ) → (v == t) ≡ false → v ≢ t
    apart v t differ = ground arith

-- The owner leaves, and nobody else is inside.
pub leaves-IsExclusive :
    (s : State) (t : ℕ) (p : Pc)
    → (IsInside p → ⊥)
    → IsInside (s.pc t)
    → IsExclusive s
    → (v : ℕ) → IsInside (if v == t then p else s.pc v)
    → ⊥
unfolding IsExclusive
leaves-IsExclusive s t p out at only v inside =
    let (apart, was_inside) = others s t v p out inside in
    absurd (apart (owner_eq (only v was_inside) (only t at)))
  where
    owner_or : ℕ → Option ℕ → ℕ
    owner_or d none = d
    owner_or d (some u) = u

    owner_eq : {v u : ℕ} → s.owner ≡ some v → s.owner ≡ some u → v ≡ u
    owner_eq e f = ap (owner_or 0) (sym e ∙ f)

enters-IsExclusive :
    (s : State) (t : ℕ) (c : Call)
    → s.owner ≡ none
    → IsExclusive s
    → (v : ℕ) → IsInside (if v == t then holds c else s.pc v)
    → some t ≡ some v
unfolding IsExclusive
enters-IsExclusive s t c free only v inside = elim (Bool-cases (v == t)) [
  | inl same ↦ ap some (sym ((==_iff v t).0 same))
  | inr differ ↦
      let owned = only v (subst (λ b. IsInside (if b then holds c else s.pc v)) differ inside) in
      absurd (none-some v (sym free ∙ owned))
]
  where
    tag : Option ℕ → Type 0
    tag none = Unit
    tag (some u) = ⊥

    none-some : (u : ℕ) → none ≡ some u → ⊥
    none-some u e = subst tag e tt

lock-IsExclusive : (s : State) (t : ℕ) (c : Call) → IsExclusive s → IsExclusive (lock s t c)
unfolding lock IsExclusive
lock-IsExclusive s t c only = elim (Option-cases s.owner) [
  | inl free ↦ at_free c free (enters-IsExclusive s t c free only)
  | inr (u, taken) ↦ at_taken c u taken
]
  where
    at_free :
        (c : Call)
        → s.owner ≡ none
        → ((v : ℕ) → IsInside (if v == t then holds c else s.pc v) → some t ≡ some v)
        → IsExclusive (lock s t c)
    at_free (produce x) free new = rw free new
    at_free consume free new = rw free new
    at_free finish free new = rw free new

    at_taken : (c : Call) (u : ℕ) → s.owner ≡ some u → IsExclusive (lock s t c)
    at_taken (produce x) u taken = rw taken (λ v inside. sym taken ∙ only v inside)
    at_taken consume u taken = rw taken (λ v inside. sym taken ∙ only v inside)
    at_taken finish u taken = rw taken (λ v inside. sym taken ∙ only v inside)

-- Where a turn is defined, it leaves at most one thread inside.
abbrev After : Option State → Type 0
After none = Unit
After (some s') = IsExclusive s'

produce-IsExclusive :
    (s : State) (t : ℕ) (x : Pointer)
    → s.pc t ≡ holds (produce x)
    → IsExclusive s
    → After (queue_produce s t x)
unfolding queue_produce IsExclusive
produce-IsExclusive s t x at only = elim (Bool-cases (queue_isfull s.queue)) [
  | inl full ↦ rw full (λ v inside. absurd (
      leaves-IsExclusive s t (enters (produce x)) (λ b. b) (subst IsInside (sym at) tt) only v
        inside))
  | inr room ↦ elim (Option-cases (queue_enqueue s.queue x)) [
    | inl undefined ↦ rw (room, undefined) tt
    | inr (r, put) ↦
        rw (room, put)
          (λ v inside.
            absurd
              (leaves-IsExclusive s t idle (λ b. b) (subst IsInside (sym at) tt) only v inside))
  ]
]

consume-IsExclusive :
    (s : State) (t : ℕ) → s.pc t ≡ holds consume → IsExclusive s → After (queue_consume s t)
unfolding queue_consume IsExclusive
consume-IsExclusive s t at only = elim (Bool-cases (queue_isempty s.queue)) [
  | inl empty ↦ elim (Bool-cases s.consume_all) [
    | inl last ↦
        rw (empty, last)
          (λ v inside.
            absurd
              (leaves-IsExclusive s t idle (λ b. b) (subst IsInside (sym at) tt) only v inside))
    | inr more ↦
        rw (empty, more)
          (λ v inside. absurd (
            leaves-IsExclusive s t (enters consume) (λ b. b) (subst IsInside (sym at) tt) only v
              inside))
  ]
  | inr some_item ↦ elim (Option-cases (queue_dequeue s.queue)) [
    | inl undefined ↦ rw (some_item, undefined) tt
    | inr (r, got) ↦
        rw (some_item, got)
          (λ v inside.
            absurd
              (leaves-IsExclusive s t idle (λ b. b) (subst IsInside (sym at) tt) only v inside))
  ]
]

finish-IsExclusive :
    (s : State) (t : ℕ)
    → s.pc t ≡ holds finish
    → IsExclusive s
    → IsExclusive (queue_consume_all s t)
unfolding queue_consume_all IsExclusive
finish-IsExclusive s t at only = elim (Bool-cases (queue_isempty s.queue)) [
  | inl empty ↦ rw empty (λ v inside.
      absurd (leaves-IsExclusive s t idle (λ b. b) (subst IsInside (sym at) tt) only v inside))
  | inr more ↦ rw more only
]

turn-IsExclusive : (s : State) (t : ℕ) (p : Pc) → s.pc t ≡ p → IsExclusive s → After (turn_at s t p)
unfolding turn_at
turn-IsExclusive s t idle at only = only
turn-IsExclusive s t (enters c) at only = lock-IsExclusive s t c only
turn-IsExclusive s t (holds (produce x)) at only = produce-IsExclusive s t x at only
turn-IsExclusive s t (holds consume) at only = consume-IsExclusive s t at only
turn-IsExclusive s t (holds finish) at only = finish-IsExclusive s t at only

pub Reach-IsExclusive : (s s' : State) → Reach s s' → IsExclusive s → IsExclusive s'
unfolding IsExclusive
Reach-IsExclusive s _ here only = only
Reach-IsExclusive s _ (later u _ before (calls t c e)) only =
    λ v inside. Reach-IsExclusive s u before only v ((others u t v (enters c) (λ b. b) inside).1)
Reach-IsExclusive s s' (later u _ before (runs t _ run)) only =
    subst After run (turn-IsExclusive u t (u.pc t) refl (Reach-IsExclusive s u before only))

pub init-IsExclusive : (q : Queue) → IsExclusive (prodcon_queue_init q)
unfolding IsExclusive prodcon_queue_init
init-IsExclusive q u inside = absurd inside

-- However the threads' turns fall, two threads are never inside the functions with the mutex at once.
pub one_inside :
    (q : Queue) (s : State) (t u : ℕ) (c d : Call)
    → Reach (prodcon_queue_init q) s
    → s.pc t ≡ holds c
    → s.pc u ≡ holds d
    → t ≡ u
unfolding IsExclusive
one_inside q s t u c d run at_t at_u =
    let only = Reach-IsExclusive (prodcon_queue_init q) s run (init-IsExclusive q) in
    owner_eq (only t (subst IsInside (sym at_t) tt)) (only u (subst IsInside (sym at_u) tt))
  where
    owner_or : Option ℕ → ℕ
    owner_or none = 0
    owner_or (some v) = v

    owner_eq : s.owner ≡ some t → s.owner ≡ some u → t ≡ u
    owner_eq e f = ap owner_or (sym e ∙ f)
