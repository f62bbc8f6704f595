-- ===== src/Server/Tests.antt =====
-- A server with one file, and two requests to it.
use university_coursework.Base.{
  ℕ, ◌≡◌, refl, false, none, some, List, [], ◌∷◌, ◌++◌, if◌then◌else◌, ◌==◌, arith, ℤ, pos,
}
use university_coursework.Cache.{Cache}
use university_coursework.Server.{Config, text_plain, html, get_content_type, Disk, Request}
use university_coursework.Server.Answers.{type_of, content_type_lem}
use university_coursework.Server.Numbered.{IsNumbered, Reach-IsNumbered}
use university_coursework.Server.Dispatch.{
  requested, accept_turn, dispatch_start, Dispatching, accepts, produces, here, later, produce_turn,
}

-- a.b.html, and html, which has no dot.
content_type_example :
    (get_content_type ((97 ∷ 46 ∷ 98 ∷ []) ++ (46 ∷ html)) ≡ type_of html)
    × (get_content_type html ≡ text_plain)
content_type_example =
    content_type_lem (97 ∷ 46 ∷ 98 ∷ []) html
      (omega arith, (omega arith, (omega arith, (omega arith, tt))))

-- Each argument is a number, told by its length.
abbrev count : List ℕ → ℤ
count [] = pos 0
count (c ∷ []) = pos 1
count (c ∷ d ∷ rest) = pos 2

-- The cache is asked for in the LRU mode.
abbrev arguments : List (List ℕ)
arguments =
    (1 ∷ []) ∷ (47 ∷ []) ∷ (1 ∷ 1 ∷ []) ∷ (1 ∷ []) ∷ (1 ∷ 1 ∷ []) ∷ (1 ∷ 1 ∷ []) ∷ (1 ∷ 1 ∷ []) ∷ []

abbrev started_config : Config
started_config = record {
  port = pos 1;
  root = 47 ∷ [];
  cache_enabled = pos 0;
  cache_size = pos 2;
  num_dispatch = pos 2;
  num_workers = pos 1;
  num_pref = pos 1;
  qlen = pos 2;
}

abbrev no_pages : Cache
no_pages = record {
  queue = record { capacity = 2; size = 0; head = 0; tail = 0; items = 0 ∷ 0 ∷ [] };
  entries = λ p. none;
  live = λ p. false;
}

-- Every name is that of the one file, which has 40 bytes.
abbrev one_file : Disk
one_file = record { fopen = λ name. some 3; fstat = λ f. some 40; fread_fails = λ f. false }

abbrev page_request : Request
page_request = record { fd = 5; filename = 47 ∷ 97 ∷ []; req_num = 1 }

-- Every call of `pthread_create` returns 0.
abbrev creates : ℕ → ℤ
creates t = pos 0

-- A request that one thread has taken, and then passes on.
abbrev numbered : Dispatching
numbered = record dispatch_start {
  req_num = 1;
  pending = λ u. if u == 0 then some (record { fd = 5; filename = []; req_num = 1 }) else none;
}

accepted : accept_turn dispatch_start 0 (requested 5 []) ≡ some numbered
unfolding accept_turn
accepted = refl

Reach-IsNumbered_example :
    IsNumbered (produce_turn numbered 0 (record { fd = 5; filename = []; req_num = 1 }))
Reach-IsNumbered_example =
    Reach-IsNumbered (produce_turn numbered 0 (record { fd = 5; filename = []; req_num = 1 })) (
      later numbered (produce_turn numbered 0 (record { fd = 5; filename = []; req_num = 1 }))
        (later dispatch_start numbered here
          (accepts 0 (requested 5 []) numbered refl refl accepted))
        (produces 0 (record { fd = 5; filename = []; req_num = 1 }) refl))
