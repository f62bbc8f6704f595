-- ===== src/ProdCon/Lost.antt =====
-- The two ways in which the mutex of the producer/consumer queue is lost.
use university_coursework.Base.{
  ℕ, ◌≡◌, refl, sym, ap, ◌∙◌, true, false, Option, none, some, Bool-cases, inl, inr, if◌then◌else◌,
  ◌==◌, subst, ==_iff,
}
use university_coursework.Queue.{Queue, queue_isempty}
use university_coursework.ProdCon.{
  produce, consume, finish, Pc, idle, enters, holds, State, move, lock, prodcon_queue_init,
  queue_consume, queue_consume_all, turn_at, turn, Step, calls, runs, Reach, here, later,
}
use university_coursework.ProdCon.Fifo.{some_inj}
use university_coursework.ProdCon.Lock.{
  IsInside, IsExclusive, others, Reach-IsExclusive, init-IsExclusive, leaves-IsExclusive,
}

-- Nobody inside, and an owner for good.
pub IsStuck : ℕ → Queue → State → Type 0
IsStuck t q s = (s.owner ≡ some t) × (s.queue ≡ q) × ((u : ℕ) → IsInside (s.pc u) → ⊥)

turn_at-IsStuck :
    (t : ℕ) (q : Queue) (s : State) (u : ℕ) (p : Pc)
    → s.pc u ≡ p
    → IsStuck t q s
    → turn_at s u p ≡ some s
unfolding turn_at lock IsStuck
turn_at-IsStuck t q s u idle e h = refl
turn_at-IsStuck t q s u (enters (produce x)) e (owned, same, free) = rw owned refl
turn_at-IsStuck t q s u (enters consume) e (owned, same, free) = rw owned refl
turn_at-IsStuck t q s u (enters finish) e (owned, same, free) = rw owned refl
turn_at-IsStuck t q s u (holds c) e (owned, same, free) =
    absurd (free u (subst IsInside (sym e) tt))

Step-IsStuck : (t : ℕ) (q : Queue) (s s' : State) → Step s s' → IsStuck t q s → IsStuck t q s'
unfolding IsStuck
Step-IsStuck t q s _ (calls u c e) (owned, same, free) =
    (owned, same, λ v inside. free v ((others s u v (enters c) (λ x. x) inside).1))
Step-IsStuck t q s s' (runs u _ run) h =
    subst (IsStuck t q) (some_inj s s' (sym (turn_at-IsStuck t q s u (s.pc u) refl h) ∙ run)) h

Reach-IsStuck : (t : ℕ) (q : Queue) (s s' : State) → Reach s s' → IsStuck t q s → IsStuck t q s'
Reach-IsStuck t q s _ here h = h
Reach-IsStuck t q s s' (later u _ before last) h =
    Step-IsStuck t q u s' last (Reach-IsStuck t q s u before h)

-- A thread in the loop of `queue_consume_all`, nobody else inside.
pub IsSpinning : ℕ → Queue → State → Type 0
IsSpinning t q s =
    (s.owner ≡ some t)
    × (s.queue ≡ q)
    × (s.pc t ≡ holds finish)
    × ((u : ℕ) → IsInside (s.pc u) → u ≡ t)

turn_at-IsSpinning :
    (t : ℕ) (q : Queue) (s : State) (u : ℕ) (p : Pc)
    → s.pc u ≡ p
    → queue_isempty q ≡ false
    → IsSpinning t q s
    → turn_at s u p ≡ some s
unfolding turn_at lock IsSpinning queue_consume_all
turn_at-IsSpinning t q s u idle e more h = refl
turn_at-IsSpinning t q s u (enters (produce x)) e more (owned, same, at, alone) = rw owned refl
turn_at-IsSpinning t q s u (enters consume) e more (owned, same, at, alone) = rw owned refl
turn_at-IsSpinning t q s u (enters finish) e more (owned, same, at, alone) = rw owned refl
turn_at-IsSpinning t q s u (holds c) e more (owned, same, at, alone) =
    let itself : u ≡ t = alone u (subst IsInside (sym e) tt) in
    let spins : queue_consume_all s u ≡ s = round (ap queue_isempty same ∙ more) in
    ap (turn_at s u) (sym e ∙ ap s.pc itself ∙ at) ∙ ap some spins
  where
    round : queue_isempty s.queue ≡ false → queue_consume_all s u ≡ s
    round b = rw b refl

Step-IsSpinning :
    (t : ℕ) (q : Queue) (s s' : State)
    → queue_isempty q ≡ false
    → Step s s'
    → IsSpinning t q s
    → IsSpinning t q s'
unfolding IsSpinning
Step-IsSpinning t q s _ more (calls u c e) (owned, same, at, alone) = (
  owned,
  same,
  elim (Bool-cases (t == u)) [
    | inl itself ↦
        absurd (subst IsInside (ap s.pc ((==_iff t u).0 itself) ∙ e) (subst IsInside (sym at) tt))
    | inr other ↦ ap (λ b. if b then enters c else s.pc t) other ∙ at
  ],
  λ v inside. alone v ((others s u v (enters c) (λ x. x) inside).1),
)
Step-IsSpinning t q s s' more (runs u _ run) h =
    subst (IsSpinning t q)
      (some_inj s s' (sym (turn_at-IsSpinning t q s u (s.pc u) refl more h) ∙ run)) h

Reach-IsSpinning :
    (t : ℕ) (q : Queue) (s s' : State)
    → queue_isempty q ≡ false
    → Reach s s'
    → IsSpinning t q s
    → IsSpinning t q s'
Reach-IsSpinning t q s _ more here h = h
Reach-IsSpinning t q s s' more (later u _ before last) h =
    Step-IsSpinning t q u s' more last (Reach-IsSpinning t q s u more before h)

-- A thread in `queue_consume` that finds the ring empty after `queue_consume_all` has set its flag
-- keeps the mutex: whatever the threads do from then on, it stays the owner, and the ring stays as it
-- is.
pub last_consumer_keeps_mutex :
    (q : Queue) (s s' s'' : State) (t : ℕ)
    → Reach (prodcon_queue_init q) s
    → s.pc t ≡ holds consume
    → queue_isempty s.queue ≡ true
    → s.consume_all ≡ true
    → turn s t ≡ some s'
    → Reach s' s''
    → (s''.owner ≡ some t) × (s''.queue ≡ s.queue)
unfolding IsStuck IsExclusive turn_at queue_consume
last_consumer_keeps_mutex q s s' s'' t before at empty last run after =
    let only = Reach-IsExclusive (prodcon_queue_init q) s before (init-IsExclusive q) in
    let inside : IsInside (s.pc t) = subst IsInside (sym at) tt in
    let left : IsStuck t s.queue (move s t idle) =
      (only t inside, refl, leaves-IsExclusive s t idle (λ b. b) inside only) in
    let same : turn s t ≡ some (move s t idle) = ap (turn_at s t) at ∙ gives in
    let (owned, kept, _) =
      Reach-IsStuck t s.queue s' s'' after
        (subst (IsStuck t s.queue) (some_inj (move s t idle) s' (sym same ∙ run)) left) in
    (owned, kept)
  where
    gives : queue_consume s t ≡ some (move s t idle)
    gives = rw (empty, last) refl

-- A thread that enters the loop of `queue_consume_all` while the ring holds an item stays in it:
-- whatever the threads do, it keeps the mutex and the ring keeps its items, so that the loop's test
-- never fails.
pub consume_all_spins :
    (q : Queue) (s s' : State) (t : ℕ)
    → Reach (prodcon_queue_init q) s
    → s.pc t ≡ holds finish
    → queue_isempty s.queue ≡ false
    → Reach s s'
    → (s'.pc t ≡ holds finish) × (s'.owner ≡ some t) × (s'.queue ≡ s.queue)
unfolding IsSpinning IsExclusive
consume_all_spins q s s' t before at more after =
    let only = Reach-IsExclusive (prodcon_queue_init q) s before (init-IsExclusive q) in
    let owned = only t (subst IsInside (sym at) tt) in
    let spins : IsSpinning t s.queue s =
      (owned, refl, at, λ u inside. same_owner u t (only u inside) owned) in
    let (owned', kept, at', _) = Reach-IsSpinning t s.queue s s' more after spins in
    (at', owned', kept)
  where
    owner_or : Option ℕ → ℕ
    owner_or none = 0
    owner_or (some v) = v

    same_owner : (u v : ℕ) → s.owner ≡ some u → s.owner ≡ some v → u ≡ v
    same_owner u v e f = ap owner_or (sym e ∙ f)
