-- ===== src/Server/Dispatch.antt =====
-- `dispatcher_main` of server.c, and the numbers that its requests get. Several threads run it. A thread's
-- turn is a connection that it accepts, with the number that it takes under the mutex, or the call of
-- `queue_produce`, whose list of items is here without its bound.
use university_coursework.Base.{
  ℕ, ◌+◌, ◌≡◌, Bool, true, false, Option, none, some, List, [], ◌∷◌, ◌++◌, if◌then◌else◌, ltb, ◌==◌,
  int_limit, ◌>>=◌,
}
use university_coursework.Server.{Request}

-- `accept_connection` fails, `get_request` fails, or there is a request.
pub data Connection : Type 0 where
  refused : Connection
  bad_request : (fd : ℕ) → Connection
  requested : (fd : ℕ) (filename : List ℕ) → Connection

-- The counter, the request that a thread has made and not yet passed on, whether a thread has ended, and
-- the requests that were passed on.
pub record Dispatching : Type 0 where
  pub req_num : ℕ
  pub pending : ℕ → Option Request
  pub ended : ℕ → Bool
  pub queued : List Request

-- The counter is an `int`.
unfoldable pub server_stats_incr_req_num : ℕ → Option ℕ
server_stats_incr_req_num req_num = if ltb (req_num + 1) int_limit then some (req_num + 1) else none

unfoldable pub accept_turn : Dispatching → (t : ℕ) → Connection → Option Dispatching
unfolding server_stats_incr_req_num
accept_turn s t refused = some (record s { ended = λ u. if u == t then true else s.ended u })
accept_turn s t (bad_request fd) = some s
accept_turn s t (requested fd filename) = do
  req_num ← server_stats_incr_req_num s.req_num
  let req : Request = record { fd = fd; filename = filename; req_num = req_num }
  some (record s { req_num = req_num; pending = λ u. if u == t then some req else s.pending u })

unfoldable pub produce_turn : Dispatching → (t : ℕ) → Request → Dispatching
produce_turn s t req = record s {
  pending = λ u. if u == t then none else s.pending u;
  queued = s.queued ++ (req ∷ []);
}

abbrev pub dispatch_start : Dispatching
dispatch_start = record { req_num = 0; pending = λ t. none; ended = λ t. false; queued = [] }

pub data Step (s : Dispatching) : Dispatching → Type 0 where
  accepts :
      (t : ℕ) (c : Connection) (s' : Dispatching)
      → s.pending t ≡ none
      → s.ended t ≡ false
      → accept_turn s t c ≡ some s'
      → Step s s'
  produces : (t : ℕ) (req : Request) → s.pending t ≡ some req → Step s (produce_turn s t req)

pub data Reach (s : Dispatching) : Dispatching → Type 0 where
  here : Reach s s
  later : (u v : Dispatching) → Reach s u → Step u v → Reach s v
