-- ===== src/Pool/Ledger.antt =====
-- Clients of mm_public.c: the chunks that are out, over any sequence of `mm_get` and `mm_put`.
use university_coursework.Base.{
  ℕ, ◌+◌, ◌*◌, ◌≤◌, ◌<◌, ◌≡◌, refl, ap, sym, ap₂, ◌∙◌, ◌≢◌, ◌⊎◌, inl, inr, some, List, [], ◌∷◌,
  ◌++◌, get_or, set, arith, get_or-set_self, get_or-set_ne, subst, dec_lt,
}
use mathlib.Core.Option.{some-injective}
use native.Mathlib.Nat.{mod-lt}
use university_coursework.Pool.{Pool, Address, base_of, minus_one, mm_get, mm_put}
use university_coursework.Pool.Valid.{IsValid, probed, IsFree, chunk_at, offset_in}
use university_coursework.Pool.Get.{taken, taken-IsValid, get_next_fit}
use university_coursework.Pool.Put.{put_lem, shape-put}

-- A pool and the chunks that clients hold, from a pool with every chunk free. A client gives back
-- only what it holds.
pub data Reach : Pool → List Address → Type 0 where
  fresh : {p : Pool} → IsValid p → ((s : ℕ) → s < p.total_chunks → IsFree p s) → Reach p []
  got :
      {p p' : Pool} {out : List Address} {c : Address}
      → Reach p out
      → mm_get p ≡ some (c, p')
      → c ≢ minus_one
      → Reach p' (c ∷ out)
  gave :
      {p p' : Pool} {all out : List Address} (c : Address) (before after : List Address)
      → Reach p all
      → all ≡ before ++ (c ∷ after)
      → mm_put p c ≡ some p'
      → out ≡ before ++ after
      → Reach p' out

-- Two chunks of this size share no byte.
abbrev pub Disjoint : ℕ → Address → Address → Type 0
Disjoint size c d = (c + size ≤ d) ⊎ (d + size ≤ c)

abbrev pub DisjointFrom : ℕ → Address → List Address → Type 0
DisjointFrom size c [] = Unit
DisjointFrom size c (d ∷ ds) = Disjoint size c d × DisjointFrom size c ds

abbrev pub AllDisjoint : ℕ → List Address → Type 0
AllDisjoint size [] = Unit
AllDisjoint size (c ∷ cs) = DisjointFrom size c cs × AllDisjoint size cs

-- Each chunk that is out is the chunk of a slot that is marked.
abbrev IsHeld : Pool → Address → Type 0
IsHeld p c = (s : ℕ) × (c ≡ chunk_at p s) × (s < p.total_chunks) × ¬ IsFree p s

abbrev Held : Pool → List Address → Type 0
Held p [] = Unit
Held p (c ∷ cs) = IsHeld p c × Held p cs

-- What is the same in two states of one pool.
record SameShape (p p' : Pool) : Type 0 where
  same_blocks : p'.blocks ≡ p.blocks
  same_total : p'.total_chunks ≡ p.total_chunks
  same_size : p'.size ≡ p.size

slots_apart :
    (p : Pool) (s t : ℕ) → 0 < p.size → s ≢ t → Disjoint p.size (chunk_at p s) (chunk_at p t)
slots_apart p s t z ne = elim (dec_lt s t) [
  | yes lt ↦ inl (omega (arith, offset_in s t p.size lt z))
  | no ge ↦ inr (omega (arith, offset_in t s p.size (omega arith) z))
]

-- A chunk that shares no byte with those that are out leaves them held when its flag changes.
Held-set :
    (p p' : Pool) (s flag : ℕ) (cs : List Address)
    → 0 < p.size
    → SameShape p p'
    → p'.allocated ≡ set p.allocated s flag
    → DisjointFrom p.size (chunk_at p s) cs
    → Held p cs
    → Held p' cs
Held-set p p' s flag [] z same flags d h = tt
Held-set p p' s flag (c ∷ cs) z same flags d ((t, at, lt, busy), h) = (
  (t, at ∙ ap₂ (λ b n. b + t * n) (sym same.same_blocks) (sym same.same_size), omega arith, kept),
  Held-set p p' s flag cs z same flags d.1 h,
)
  where
    apart : s ≢ t
    apart e = omega (arith, d.0, ap (λ i. chunk_at p i) e)

    kept : ¬ IsFree p' t
    kept free = busy (
        sym (get_or-set_ne p.allocated s t flag 1 apart)
        ∙ ap (λ (l : List ℕ). get_or l t 1) (sym flags)
        ∙ free)

free-DisjointFrom :
    (p : Pool) (s : ℕ) (cs : List Address)
    → 0 < p.size
    → IsFree p s
    → Held p cs
    → DisjointFrom p.size (chunk_at p s) cs
free-DisjointFrom p s [] z free h = tt
free-DisjointFrom p s (c ∷ cs) z free ((t, at, lt, busy), h) = (
  subst (Disjoint p.size (chunk_at p s)) (sym at)
      (slots_apart p s t z (λ e. busy (subst (IsFree p) e free))),
  free-DisjointFrom p s cs z free h,
)

Disjoint-sym : (size c d : ℕ) → Disjoint size c d → Disjoint size d c
Disjoint-sym size c d (inl h) = inr h
Disjoint-sym size c d (inr h) = inl h

-- Taking one chunk out of the ledger.
Held-remove :
    (p : Pool) (c : Address) (before after : List Address)
    → Held p (before ++ (c ∷ after))
    → IsHeld p c × Held p (before ++ after)
Held-remove p c [] after (here, h) = (here, h)
Held-remove p c (b ∷ before) after (there, h) =
    let (one, rest) = Held-remove p c before after h in (one, (there, rest))

DisjointFrom-remove :
    (size b c : ℕ) (before after : List Address)
    → DisjointFrom size b (before ++ (c ∷ after))
    → Disjoint size b c × DisjointFrom size b (before ++ after)
DisjointFrom-remove size b c [] after d = d
DisjointFrom-remove size b c (x ∷ before) after (d, ds) =
    let (one, rest) = DisjointFrom-remove size b c before after ds in (one, (d, rest))

AllDisjoint-remove :
    (size c : ℕ) (before after : List Address)
    → AllDisjoint size (before ++ (c ∷ after))
    → DisjointFrom size c (before ++ after) × AllDisjoint size (before ++ after)
AllDisjoint-remove size c [] after d = d
AllDisjoint-remove size c (b ∷ before) after (d, ds) =
    let (bc, rest) = DisjointFrom-remove size b c before after d in
    let (one, others) = AllDisjoint-remove size c before after ds in
    ((Disjoint-sym size b c bc, one), (rest, others))

record Inv (p : Pool) (out : List Address) : Type 0 where
  valid : IsValid p
  held : Held p out
  apart : AllDisjoint p.size out

Inv-got :
    {p p' : Pool} {out : List Address} {c : Address}
    → Inv p out
    → mm_get p ≡ some (c, p')
    → c ≢ minus_one
    → Inv p' (c ∷ out)
Inv-got {p} {p'} {out} {c} inv e ne = elim (get_next_fit inv.valid) [
  | inl (all, fails) ↦ absurd (ne (cc))
  | inr (k, lt, before, free, gets) ↦
      subst (λ (r : Address × Pool). Inv r.1 (r.0 ∷ out)) (some-injective _ _ (sym gets ∙ e))
        (Inv-taken (probed p k) (mod-lt (base_of p.last_allocated + k) inv.valid.positive) free)
]
  where
    marked : (s : ℕ) → s < p.total_chunks → ¬ IsFree (taken p s) s
    marked s lt e =
        omega (arith, e, get_or-set_self p.allocated s 1 1 (omega (arith, inv.valid.flags, lt)))

    Inv-taken : (s : ℕ) → s < p.total_chunks → IsFree p s → Inv (taken p s) (chunk_at p s ∷ out)
    Inv-taken s lt free =
        let away = free-DisjointFrom p s out inv.valid.sized free inv.held in
        record {
          valid = taken-IsValid inv.valid s lt;
          held = (
            (s, refl, lt, λ e. marked s lt e),
            Held-set p (taken p s) s 1 out inv.valid.sized
                (record { same_blocks = refl; same_total = refl; same_size = refl }) refl away
                inv.held,
          );
          apart = (away, inv.apart);
        }

Inv-gave :
    {p p' : Pool} (c : Address) (before after : List Address)
    → Inv p (before ++ (c ∷ after))
    → mm_put p c ≡ some p'
    → Inv p' (before ++ after)
Inv-gave {p} {p'} c before after inv e =
    let ((s, at, lt, busy), rest) = Held-remove p c before after inv.held in
    let (away, apart) = AllDisjoint-remove p.size c before after inv.apart in
    let (p'', defined, v, flags, w, last) = put_lem s inv.valid lt in
    let (same_blocks, same_total, same_size) = shape-put p (chunk_at p s) defined in
    subst (λ r. Inv r (before ++ after))
      (some-injective _ _ (sym defined ∙ ap (mm_put p) (sym at) ∙ e))
      (record {
        valid = v;
        held =
            Held-set p p'' s 0 (before ++ after) inv.valid.sized
              (record { same_blocks = same_blocks; same_total = same_total; same_size = same_size })
              flags (subst (λ d. DisjointFrom p.size d (before ++ after)) at away) rest;
        apart = subst (λ n. AllDisjoint n (before ++ after)) (sym same_size) apart;
      })

-- In every reachable state the invariant holds.
Reach-Inv : {p : Pool} {out : List Address} → Reach p out → Inv p out
Reach-Inv (fresh v all) = record { valid = v; held = tt; apart = tt }
Reach-Inv (got r e ne) = Inv-got (Reach-Inv r) e ne
Reach-Inv (gave {p = p} c before after r split e rest) =
    subst (Inv _) (sym rest) (Inv-gave c before after (subst (Inv p) split (Reach-Inv r)) e)

-- A chunk that lies in the area of a pool.
abbrev pub AllInside : Pool → List Address → Type 0
AllInside p [] = Unit
AllInside p (c ∷ cs) =
    (p.blocks ≤ c) × (c + p.size ≤ p.blocks + p.total_chunks * p.size) × AllInside p cs

Held-AllInside : (p : Pool) (cs : List Address) → 0 < p.size → Held p cs → AllInside p cs
Held-AllInside p [] z h = tt
Held-AllInside p (c ∷ cs) z ((s, at, lt, busy), h) =
    let fits = offset_in s p.total_chunks p.size lt z in
    (omega arith, omega arith, Held-AllInside p cs z h)

-- Over any sequence of calls of `mm_get` and `mm_put`, from a valid pool with every chunk free, in
-- which clients give back only what they hold, the chunks that are out share no byte, and each lies
-- in the area.
pub chunks_disjoint :
    {p : Pool} {out : List Address} → Reach p out → AllDisjoint p.size out × AllInside p out
chunks_disjoint {p} {out} r =
    let inv = Reach-Inv r in (inv.apart, Held-AllInside p out inv.valid.sized inv.held)
