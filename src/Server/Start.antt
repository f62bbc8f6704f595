-- ===== src/Server/Start.antt =====
-- `create_threads` of server.c.
use university_coursework.Base.{
  ℕ, zero, suc, ◌+◌, false, Option, none, some, List, [], ◌∷◌, ◌++◌, if◌then◌else◌, ltb, ◌>>=◌,
  pos_part, int_limit, Bool, true, ℤ, pos, negsuc,
}
use university_coursework.Server.{Config, is_set}

pub data Role : Type 0 where
  dispatcher worker prefetcher : Role

-- `PREFETCH_THREADS`
abbrev pub prefetch_threads : ℕ
prefetch_threads = 10

-- `== -1`
abbrev pub is_minus_one : ℤ → Bool
is_minus_one (pos n) = false
is_minus_one (negsuc zero) = true
is_minus_one (negsuc (suc n)) = false

-- What is created: each thread with its role and its `thread_id`.
abbrev Created : Type 0
Created = List (Role × ℕ)

-- What a loop does: it is left with the threads created and the next `thread_id`, or with -1 from
-- `create_threads`.
pub data Looped : Type 0 where
  goes_on : Created → ℕ → Looped
  returns_error : Created → Looped

-- A loop that creates threads: `rounds` rounds from `i` on, `count` places in the array.
-- `pthread_create` is the result of that call for a `thread_id`. A write outside the array, and a
-- `thread_id` past the largest `int`, is `none`.
unfoldable pub create_loop :
    (pthread_create : ℕ → ℤ) → Role → (count i rounds thread_id : ℕ) → Created → Option Looped
create_loop pthread_create role count i zero thread_id created = some (goes_on created thread_id)
create_loop pthread_create role count i (suc rounds) thread_id created =
    let grown = created ++ ((role, thread_id) ∷ []) in
    let rest = create_loop pthread_create role count (i + 1) rounds (thread_id + 1) grown in
    if ltb i count
    then (if ltb (thread_id + 1) int_limit
        then (if is_minus_one (pthread_create thread_id)
            then some (returns_error created)
            else rest)
        else none)
    else none

-- The threads created, and the result: 0, or -1 after an error.
abbrev outcome : Looped → Created × ℤ
outcome (goes_on created thread_id) = (created, pos 0)
outcome (returns_error created) = (created, negsuc 0)

-- The next loop, or -1.
after_loop : Looped → (Created → ℕ → Option Looped) → Option Looped
after_loop (goes_on created thread_id) next = next created thread_id
after_loop (returns_error created) next = some (returns_error created)

-- A loop does nothing where the number is negative; `malloc` finds room for the others.
unfoldable pub create_threads : (pthread_create : ℕ → ℤ) → Config → Option (Created × ℤ)
unfolding create_loop after_loop
create_threads pthread_create config = do
  let num_dispatch = pos_part config.num_dispatch
  let num_workers = pos_part config.num_workers
  let num_pref = pos_part config.num_pref
  dispatchers ← create_loop pthread_create dispatcher num_dispatch 0 num_dispatch 0 []
  workers ← after_loop dispatchers (λ created thread_id.
      create_loop pthread_create worker num_workers 0 num_workers thread_id created)
  all ← after_loop workers (λ created thread_id.
      if is_set config.cache_enabled
      then create_loop pthread_create prefetcher num_pref 0 prefetch_threads thread_id created
      else some (goes_on created thread_id))
  some (outcome all)

-- `count` threads with the ids from `thread_id` on.
pub threads : Role → (thread_id count : ℕ) → List (Role × ℕ)
threads role thread_id zero = []
threads role thread_id (suc count) = (role, thread_id) ∷ threads role (thread_id + 1) count

abbrev looped : Created → ℕ → Option Looped
looped created thread_id = some (goes_on created thread_id)
