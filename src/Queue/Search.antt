-- ===== src/Queue/Search.antt =====
-- `queue_search` of queue.c: which items it offers to the callback, and what it returns.
use university_coursework.Base.{
  mod_cases, ℕ, zero, suc, ◌+◌, ◌-◌, ◌%◌, ◌≤◌, ◌<◌, ◌≡◌, refl, sym, ap, ap₂, ◌∙◌, ◌≢◌, ◌⊎◌, some,
  List, [], ◌∷◌, ◌++◌, get_or, get_elem?-eq-get_or, arith, ℕ_discrete, Bool, true, false, Option,
  if◌then◌else◌, ◌==◌,
}
use native.Mathlib.Nat.{zero-mod, mod-lt}
use university_coursework.Queue.{Queue, Pointer, null, search_from, search_with, queue_search}
use university_coursework.Queue.Window.{slots, slots-mod, slots-append, slots_of_zero}
use university_coursework.Queue.Valid.{IsValid, contents, q_pos_lem}

-- The first pointer that the callback accepts, or NULL.
unfoldable pub first_match : (Pointer → Bool) → List Pointer → Pointer
first_match cb [] = null
first_match cb (x ∷ xs) = if cb x then x else first_match cb xs

-- The callback refuses every item of a list.
abbrev pub RefusesAll : (Pointer → Bool) → List Pointer → Type 0
RefusesAll cb [] = Unit
RefusesAll cb (x ∷ xs) = (cb x ≡ false) × RefusesAll cb xs

first_match-append :
    (cb : Pointer → Bool) (xs ys : List Pointer)
    → RefusesAll cb xs
    → first_match cb (xs ++ ys) ≡ first_match cb ys
unfolding first_match
first_match-append cb [] ys r = refl
first_match-append cb (x ∷ xs) ys r = ground (arith, first_match-append cb xs ys r.1)

first_match-head :
    (cb : Pointer → Bool) (x : Pointer) (xs : List Pointer)
    → cb x ≡ true
    → first_match cb (x ∷ xs) ≡ x
unfolding first_match
first_match-head cb x xs e = rw e

module _ {q : Queue} (cb : Pointer → Bool) (v : IsValid q) where
  abbrev at : ℕ → ℕ
  at i = (q.head + i) % q.capacity

  abbrev from : ℕ → ℕ → List Pointer
  from i n = slots q.items q.capacity (q.head + i) n

  from-suc : (i n : ℕ) → from i (suc n) ≡ get_or q.items (at i) 0 ∷ from (i + 1) n
  from-suc i n = ap (λ h. get_or q.items (at i) 0 ∷ slots q.items q.capacity h n) (omega arith)

  stops : (i : ℕ) → q.tail ≢ 0 → i + 1 ≡ q.size → at i + 1 ≡ q.tail
  stops i ne e = omega (
    arith,
    v.tail_at,
    mod_cases (q.head + i) q.capacity (omega arith),
    mod_cases (q.head + q.size) q.capacity (omega arith),
  )

  goes_on : (i : ℕ) → i + 1 < q.size → at i + 1 ≢ q.tail
  goes_on i lt = omega (
    arith,
    v.tail_at,
    mod_cases (q.head + i) q.capacity (omega arith),
    mod_cases (q.head + q.size) q.capacity (omega arith),
  )

  -- With the tail at 0 the cells behind the items in the queue begin with cell 0.
  from_stale :
      q.tail ≡ 0
      → (k : ℕ) → q.size + suc k ≡ q.capacity
      → from 0 q.capacity ≡ contents q ++ (get_or q.items 0 0 ∷ slots q.items q.capacity 1 k)
  from_stale t k e =
      ap₂ (slots q.items q.capacity) (omega arith) (sym e)
      ∙ slots-append q.items q.capacity q.head q.size (suc k)
      ∙ ap (λ r. contents q ++ r)
          (slots-mod q.items q.capacity (q.head + q.size) 0 (suc k) start
            ∙ ap (λ i. get_or q.items i 0 ∷ slots q.items q.capacity 1 k) (zero-mod q.capacity))
    where
      start : (q.head + q.size) % q.capacity ≡ 0 % q.capacity
      start = sym v.tail_at ∙ t ∙ sym (zero-mod q.capacity)

  from-contents : from 0 q.size ≡ contents q
  from-contents = ap (λ h. slots q.items q.capacity h q.size) (omega arith)

-- A callback that is defined at the first `limit` cells from the head on, and says there what `cb` says.
abbrev pub Agrees : Queue → (Pointer → Option Bool) → (Pointer → Bool) → ℕ → Type 0
Agrees q act cb limit =
    (k : ℕ)
    → k < limit
    → act (get_or q.items ((q.head + k) % q.capacity) 0)
      ≡ some (cb (get_or q.items ((q.head + k) % q.capacity) 0))

module _ {q : Queue} (cb : Pointer → Bool) (v : IsValid q) (act : Pointer → Option Bool) (limit : ℕ)
    (agrees : Agrees q act cb limit) where
  -- One round of the loop.
  search_step :
      (rounds i : ℕ)
      → i < q.capacity
      → i < limit
      → search_from q act (suc rounds) i ≡ (
          if cb (get_or q.items (at cb v i) 0)
          then some (get_or q.items (at cb v i) 0)
          else if (at cb v i + 1) == q.tail
          then some null
          else search_from q act rounds (i + 1))
  unfolding search_from
  search_step rounds i lt le = ground (
    arith,
    q_pos_lem (q.head + i) v,
    get_elem?-eq-get_or q.items (at cb v i) 0,
    mod-lt (q.head + i) v.positive,
    agrees i le,
  )

  search_zero : (i : ℕ) → search_from q act zero i ≡ some null
  unfolding search_from
  search_zero i = refl

  -- With the tail at 0 no round stops the loop: it goes through all the cells it may.
  scan_all :
      q.tail ≡ 0
      → (rounds i : ℕ) → i + rounds ≤ q.capacity
      → i + rounds ≤ limit
      → search_from q act rounds i ≡ some (first_match cb (from cb v i rounds))
  unfolding first_match
  scan_all e zero i h le = search_zero i
  scan_all e (suc rounds) i h le = ground (
    arith,
    search_step rounds i (omega arith) (omega arith),
    from-suc cb v i rounds,
    scan_all e rounds (i + 1) (omega arith) (omega arith),
  )

  -- With the tail elsewhere the loop stops behind the last item that is in the queue.
  scan_live :
      q.tail ≢ 0
      → (rounds m i : ℕ) → i + suc m ≡ q.size
      → m < rounds
      → q.size ≤ limit
      → search_from q act rounds i ≡ some (first_match cb (from cb v i (suc m)))
  unfolding first_match
  scan_live ne zero m i e h le = elim h [ ]
  scan_live ne (suc rounds) zero i e h le = ground (
    arith,
    search_step rounds i (omega arith) (omega arith),
    from-suc cb v i 0,
    stops cb v i ne (omega arith),
  )
  scan_live ne (suc rounds) (suc m) i e h le = ground (
    arith,
    search_step rounds i (omega arith) (omega arith),
    from-suc cb v i (suc m),
    goes_on cb v i (omega arith),
    scan_live ne rounds m (i + 1) (omega arith) (omega arith) le,
  )

  -- The cells that the loop goes through at a queue that is not empty.
  search_of_tail :
      q.size ≢ 0
      → q.tail ≡ 0
      → q.capacity ≤ limit
      → search_with q act ≡ some (first_match cb (from cb v 0 q.capacity))
  unfolding search_with
  search_of_tail ne e le = ground (arith, scan_all e q.capacity 0 (omega arith) (omega arith))

  search_of_live :
      q.size ≢ 0
      → q.tail ≢ 0
      → q.size ≤ limit
      → search_with q act ≡ some (first_match cb (from cb v 0 q.size))
  unfolding search_with
  search_of_live ne t le = ground (
    arith,
    scan_live t q.capacity (q.size - 1) 0 (omega arith) (omega arith) le,
    ap (from cb v 0) (same_size (q.size - 1) (omega arith)),
  )
    where
      same_size : (m : ℕ) → m + 1 ≡ q.size → suc m ≡ q.size
      same_size m e = omega arith

  search_of_empty : q.size ≡ 0 → search_with q act ≡ some (first_match cb (contents q))
  unfolding search_with first_match
  search_of_empty e = ground (arith, slots_of_zero q.items q.capacity q.head e)

-- The same of a callback that is defined where the queue has items.
pub search_with_refines :
    {q : Queue} (cb : Pointer → Bool) (act : Pointer → Option Bool)
    → IsValid q
    → Agrees q act cb q.size
    → (q.tail ≢ 0) ⊎ (q.size ≡ 0) ⊎ (q.size ≡ q.capacity)
    → search_with q act ≡ some (first_match cb (contents q))
search_with_refines {q} cb act v agrees c = elim (ℕ_discrete q.size 0) [
  | yes e ↦ search_of_empty cb v act q.size agrees e
  | no ne ↦ elim (ℕ_discrete q.tail 0) [
    | yes t ↦
        search_of_tail cb v act q.size agrees ne t (omega arith)
        ∙ ap (λ n. some (first_match cb (from cb v 0 n))) (omega arith)
        ∙ ap (λ xs. some (first_match cb xs)) (from-contents cb v)
    | no nt ↦ rw (← from-contents cb v) (search_of_live cb v act q.size agrees ne nt (omega arith))
  ]
]

-- At a valid queue whose tail is not 0, or that is empty or full, `queue_search` is defined and
-- returns the oldest item in the queue that the callback accepts, or NULL if there is none.
pub search_refines :
    {q : Queue} (cb : Pointer → Bool)
    → IsValid q
    → (q.tail ≢ 0) ⊎ (q.size ≡ 0) ⊎ (q.size ≡ q.capacity)
    → queue_search q cb ≡ some (first_match cb (contents q))
unfolding queue_search
search_refines cb v c = search_with_refines cb (λ item. some (cb item)) v (λ k lt. refl) c

-- At a valid queue whose tail is 0 and that is neither empty nor full, `queue_search` runs on past
-- the items in the queue: where the callback refuses them all and accepts what is left in cell 0,
-- that pointer is the result, though it is not in the queue.
pub search_finds_stale :
    {q : Queue} (cb : Pointer → Bool)
    → IsValid q
    → q.tail ≡ 0
    → q.size ≢ 0
    → q.size < q.capacity
    → RefusesAll cb (contents q)
    → cb (get_or q.items 0 0) ≡ true
    → queue_search q cb ≡ some (get_or q.items 0 0)
unfolding queue_search
search_finds_stale {q} cb v t ne lt refused accepted =
    search_of_tail cb v (λ item. some (cb item)) q.capacity (λ k lt. refl) ne t (omega arith)
    ∙ ap (λ xs. some (first_match cb xs))
        (from_stale cb v t (q.capacity - q.size - 1) (omega arith))
    ∙ ap some (first_match-append cb (contents q) _ refused ∙ first_match-head cb _ _ accepted)
