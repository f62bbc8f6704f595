-- ===== src/Pool/Tests.antt =====
-- The allocator of mm_public.c at concrete states.
use university_coursework.Base.{
  store, ℕ, zero, suc, ◌≡◌, ◌≢◌, refl, some, none, [], ◌∷◌, arith, ◌⊎◌, ◌<◌, ◌+◌,
}
use university_coursework.Pool.{
  Pool, Address, Area, made, null, minus_one, mm_init, mm_get, mm_put, get_from, hand_out, base_of,
}
use university_coursework.Pool.Valid.{IsValid, IsFree, count_free}
use university_coursework.Pool.Get.{get_counts}
use university_coursework.Pool.Put.{Wiped, put_lem, put-get}
use university_coursework.Pool.Ledger.{Reach, fresh, got, AllDisjoint, AllInside, chunks_disjoint}
use university_coursework.Pool.Init.{Allocated, init_fresh, init_misses_null}

-- Two chunks of three bytes; the first is out, and was handed out last.
abbrev half_used : Pool
half_used = record {
  blocks = 1000;
  total_chunks = 2;
  size = 3;
  allocated = 1 ∷ 0 ∷ [];
  last_allocated = some 0;
  bytes = 1 ∷ 2 ∷ 3 ∷ 4 ∷ 5 ∷ 6 ∷ [];
}

half_used-IsValid : IsValid half_used
unfolding base_of
half_used-IsValid = omega arith

abbrev unused : Pool
unused = record half_used { allocated = 0 ∷ 0 ∷ []; last_allocated = none }

unused-IsValid : IsValid unused
unfolding base_of
unused-IsValid = omega arith

unused-IsFree : (s : ℕ) → s < 2 → IsFree unused s
unused-IsFree zero h = refl
unused-IsFree (suc zero) h = refl
unused-IsFree (suc (suc s)) h = absurd (omega arith)

get_runs :
    mm_get half_used
    ≡ some (1003, record half_used { allocated = 1 ∷ 1 ∷ []; last_allocated = some 1 })
unfolding mm_get get_from hand_out store
get_runs = refl

get_unused :
    mm_get unused ≡ some (1000, record unused { allocated = 1 ∷ 0 ∷ []; last_allocated = some 0 })
unfolding mm_get get_from hand_out store
get_unused = refl

one_out : Reach half_used (1000 ∷ [])
one_out = got (fresh unused-IsValid unused-IsFree) get_unused (omega arith)

abbrev area : Area
area = (1000, 1 ∷ 2 ∷ 3 ∷ 4 ∷ 5 ∷ 6 ∷ [])

abbrev flags : Area
flags = (2000, 9 ∷ 9 ∷ [])

allocation : Allocated area flags 2 3
allocation = omega arith

get_counts_example :
    (r : Address × Pool) × (mm_get half_used ≡ some r)
    × IsValid r.1
    × ((count_free half_used ≡ 0) × (r.0 ≡ minus_one) × (r.1 ≡ half_used)
        ⊎ (r.0 ≢ minus_one) × (count_free r.1 + 1 ≡ count_free half_used))
get_counts_example = get_counts half_used-IsValid

put_lem_example :
    (p' : Pool) × (mm_put half_used 1000 ≡ some p')
    × IsValid p'
    × (p'.allocated ≡ 0 ∷ 0 ∷ [])
    × Wiped (1 ∷ 2 ∷ 3 ∷ 4 ∷ 5 ∷ 6 ∷ []) 0 0 3 p'.bytes
    × (p'.last_allocated ≡ some 0)
put_lem_example = put_lem 0 half_used-IsValid (omega arith)

put-get_example :
    (p'' : Pool) × (mm_put
        (record half_used { allocated = 1 ∷ 1 ∷ []; last_allocated = some 1 })
        1003
      ≡ some p'')
    × IsValid p''
    × (p''.allocated ≡ 1 ∷ 0 ∷ [])
    × (count_free p'' ≡ count_free half_used)
    × Wiped (1 ∷ 2 ∷ 3 ∷ 4 ∷ 5 ∷ 6 ∷ []) 3 0 3 p''.bytes
    × (p''.blocks ≡ 1000)
    × (p''.total_chunks ≡ 2)
    × (p''.size ≡ 3)
    × (p''.last_allocated ≡ some 1)
put-get_example = put-get half_used-IsValid get_runs (omega arith)

chunks_disjoint_example : AllDisjoint 3 (1000 ∷ []) × AllInside half_used (1000 ∷ [])
chunks_disjoint_example = chunks_disjoint one_out

init_fresh_example :
    (p : Pool) × (mm_init unused area flags 2 3 ≡ some (made, p))
    × Reach p []
    × (p.total_chunks ≡ 2)
    × (p.size ≡ 3)
init_fresh_example = init_fresh unused area flags 2 3 allocation

init_misses_null_example :
    ((p : Pool) × (mm_init unused (null, []) flags 2 3 ≡ some (made, p)) × (p.blocks ≡ null))
    × (mm_init unused area (null, []) 2 3 ≡ none)
init_misses_null_example = init_misses_null unused area flags 2 3 allocation
