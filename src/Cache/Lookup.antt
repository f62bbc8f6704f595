-- ===== src/Cache/Lookup.antt =====
-- What `get_cache` finds.
use university_coursework.Base.{
  ℕ, ◌≡◌, ◌≢◌, Bool, false, Option, none, some, List, [], ◌∷◌, if◌then◌else◌, ◌⊎◌, ℤ,
}
use university_coursework.Queue.{Pointer, Queue, null}
use university_coursework.Queue.Requeue.{move_to_back}
use university_coursework.Cache.{Entry, Cache, queue_cb, cache_lru, int_is}

-- A block that holds an end mark.
abbrev pub Ends : List ℕ → Type 0
Ends [] = ⊥
Ends (c ∷ cells) = (c ≡ 0) ⊎ Ends cells

-- Every pointer of a list is not NULL, and leads to an entry whose name ends in its block.
abbrev pub AllLead : Cache → List Pointer → Type 0
AllLead cache [] = Unit
AllLead cache (x ∷ xs) =
    ((x ≢ null) × (entry : Entry) × (cache.entries x ≡ some entry) × Ends entry.filename)
    × AllLead cache xs

abbrev accepts : Option Bool → Bool
accepts none = false
accepts (some accepted) = accepted

-- The entry at a pointer has the name.
pub is_named : Cache → (filename : List ℕ) → Pointer → Bool
is_named cache filename item = accepts (queue_cb cache filename item)

-- The order of the pages after a hit.
pub after_hit : (cache_enabled : ℤ) → Pointer → List Pointer → List Pointer
after_hit cache_enabled found xs =
    if int_is cache_enabled cache_lru then (move_to_back found xs).1 else xs
