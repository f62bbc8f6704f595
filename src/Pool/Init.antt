-- ===== src/Pool/Init.antt =====
-- `mm_init` of mm_public.c: what it sets up, and what it makes of a failed `malloc`.
use university_coursework.Base.{
  ℕ, zero, suc, ◌+◌, ◌*◌, ◌≤◌, ◌<◌, ◌≡◌, refl, ◌∙◌, some, none, List, [], length, get_or, int_limit,
  arith, get_or_default, store,
}
use university_coursework.Pool.{Pool, Area, made, null, base_of, minus_one, mm_init, memset}
use university_coursework.Pool.Valid.{IsValid}
use university_coursework.Pool.Put.{memset_lem}
use university_coursework.Pool.Ledger.{Reach, fresh}

-- What the two calls of `malloc` have to give, and the bounds on the two sizes.
pub record Allocated (blocks flags : Area) (hm sz : ℕ) : Type 0 where
  pub chunks : 0 < hm
  pub chunk_size : 0 < sz
  pub small : hm * sz < int_limit
  pub few : 2 * hm ≤ int_limit
  pub bytes : length blocks.1 ≡ hm * sz
  pub mapped : blocks.0 + hm * sz < minus_one
  pub cells : length flags.1 ≡ hm
  pub flags_mapped : flags.0 < minus_one

abbrev pool_of : Area → ℕ → ℕ → List ℕ → Pool
pool_of blocks hm sz zeroed = record {
  blocks = blocks.0;
  total_chunks = hm;
  size = sz;
  allocated = zeroed;
  last_allocated = none;
  bytes = blocks.1;
}

pool_of-IsValid :
    (blocks flags : Area) (hm sz : ℕ) (zeroed : List ℕ)
    → Allocated blocks flags hm sz
    → length zeroed ≡ hm
    → IsValid (pool_of blocks hm sz zeroed)
unfolding base_of
pool_of-IsValid blocks flags hm sz zeroed a e = record {
  positive = a.chunks;
  sized = a.chunk_size;
  small = a.small;
  rounds = a.few;
  flags = e;
  area = a.bytes;
  last = omega arith;
  mapped = a.mapped;
}

memset_null : (n : ℕ) → 0 < n → memset [] 0 0 n ≡ none
unfolding memset store
memset_null zero h = elim h [ ]
memset_null (suc n) h = refl

-- Where both calls of `malloc` succeed, `mm_init` returns 1 and a valid pool with every chunk free,
-- whatever the memory held, so that clients may start on it.
pub init_fresh :
    (mm : Pool) (blocks flags : Area) (hm sz : ℕ)
    → Allocated blocks flags hm sz
    → (p : Pool) × (mm_init mm blocks flags hm sz ≡ some (made, p))
      × Reach p []
      × (p.total_chunks ≡ hm)
      × (p.size ≡ sz)
unfolding mm_init
init_fresh mm blocks flags hm sz a =
    let (out, defined, w) = memset_lem flags.1 0 0 hm (omega (arith, a.cells)) in
    let free : (s : ℕ) → s < hm → get_or out s 1 ≡ 0 = λ s lt.
      get_or_default out s 1 0 (omega (arith, w.same_length, a.cells))
      ∙ w.inside s (omega arith) (omega arith) in
    (
      pool_of blocks hm sz out,
      ground (arith, defined),
      fresh (pool_of-IsValid blocks flags hm sz out a (w.same_length ∙ a.cells)) free,
      refl,
      refl,
    )

-- A failed `malloc` returns NULL, which `mm_init` does not look for. If the first call fails, it
-- returns 1 all the same, with NULL for the area; if the second does, it writes through NULL.
pub init_misses_null :
    (mm : Pool) (blocks flags : Area) (hm sz : ℕ)
    → Allocated blocks flags hm sz
    → ((p : Pool) × (mm_init mm (null, []) flags hm sz ≡ some (made, p)) × (p.blocks ≡ null))
      × (mm_init mm blocks (null, []) hm sz ≡ none)
unfolding mm_init
init_misses_null mm blocks flags hm sz a =
    let (out, defined, w) = memset_lem flags.1 0 0 hm (omega (arith, a.cells)) in
    (
      (pool_of (null, []) hm sz out, ground (arith, defined), refl),
      ground (arith, memset_null hm a.chunks),
    )
