-- ===== src/Pool/Get.antt =====
-- `mm_get` of mm_public.c: next-fit search, and what it fails on.
use university_coursework.Base.{
  ℕ, zero, suc, ◌+◌, ◌≤◌, ◌<◌, ◌≡◌, refl, sym, ◌∙◌, ◌≢◌, ◌⊎◌, inl, inr, some, get_or, set, arith,
  ℕ_discrete, if◌then◌else◌, ◌==◌, Bool-cases, length-set, store_of_lt, get_elem?-eq-get_or, subst,
}
use native.Mathlib.Nat.{mod-lt}
use university_coursework.Pool.{Pool, Address, base_of, minus_one, mm_get, get_from, hand_out}
use university_coursework.Pool.Valid.{
  IsValid, probed, IsFree, chunk_at, count_free, slot_at_lem, offset_in, round_of,
  count_zero-set_one, count_zero_none,
}

-- The pool after `mm_get` has handed out a slot.
abbrev pub taken : Pool → ℕ → Pool
taken p s = record p { allocated = set p.allocated s 1; last_allocated = some s }

module _ {p : Pool} (v : IsValid p) where
  pub taken-IsValid : (s : ℕ) → s < p.total_chunks → IsValid (taken p s)
  unfolding base_of
  taken-IsValid s lt = record {
    positive = v.positive;
    sized = v.sized;
    small = v.small;
    rounds = v.rounds;
    flags = length-set p.allocated s 1 ∙ v.flags;
    area = v.area;
    last = omega arith;
    mapped = v.mapped;
  }

  hand_out_lem : (s : ℕ) → s < p.total_chunks → hand_out p s ≡ some (chunk_at p s, taken p s)
  unfolding hand_out
  hand_out_lem s lt = ground (
    arith,
    store_of_lt p.allocated s 1,
    v.flags,
    offset_in s p.total_chunks p.size lt v.sized,
    v.small,
  )

  get_step :
      (rounds k : ℕ)
      → k < p.total_chunks
      → get_from p (base_of p.last_allocated) (suc rounds) k ≡ (
          if get_or p.allocated (probed p k) 1 == 0
          then hand_out p (probed p k)
          else get_from p (base_of p.last_allocated) rounds (k + 1))
  unfolding get_from
  get_step rounds k lt = ground (
    arith,
    slot_at_lem (base_of p.last_allocated) k p.total_chunks v.last lt v.rounds,
    get_elem?-eq-get_or p.allocated (probed p k) 1,
    mod-lt (base_of p.last_allocated + k) v.positive,
    v.flags,
  )

  get_zero : (k : ℕ) → get_from p (base_of p.last_allocated) zero k ≡ some (minus_one, p)
  unfolding get_from
  get_zero k = refl

  -- How the loop ends when it starts in round `k`.
  abbrev Search : ℕ → ℕ → Type 0
  Search rounds k =
      ((j : ℕ) → k ≤ j → j < k + rounds → ¬ IsFree p (probed p j))
        × (get_from p (base_of p.last_allocated) rounds k ≡ some (minus_one, p))
      ⊎ ((m : ℕ) × (k ≤ m)
          × (m < k + rounds)
          × ((j : ℕ) → k ≤ j → j < m → ¬ IsFree p (probed p j))
          × IsFree p (probed p m)
          × (get_from p (base_of p.last_allocated) rounds k ≡ hand_out p (probed p m)))

  widen :
      (k stop : ℕ)
      → ¬ IsFree p (probed p k)
      → ((j : ℕ) → k + 1 ≤ j → j < stop → ¬ IsFree p (probed p j))
      → (j : ℕ) → k ≤ j
      → j < stop
      → ¬ IsFree p (probed p j)
  widen k stop here later j lo hi = elim (ℕ_discrete j k) [
    | yes e ↦ subst (λ i. ¬ IsFree p (probed p i)) (sym e) here
    | no ne ↦ later j (omega arith) hi
  ]

  search : (rounds k : ℕ) → k + rounds ≤ p.total_chunks → Search rounds k
  search zero k h = inl (λ j lo hi. absurd (omega arith), get_zero k)
  search (suc rounds) k h = elim (Bool-cases (get_or p.allocated (probed p k) 1 == 0)) [
    | inl free ↦ inr (
      k,
      omega arith,
      omega arith,
      λ j lo hi. absurd (omega arith),
      ground arith,
      ground (arith, get_step rounds k (omega arith)),
    )
    | inr busy ↦ elim (search rounds (k + 1) (omega arith)) [
      | inl (all, e) ↦ inl (
        widen k (k + suc rounds) (ground arith) (λ j lo hi. all j lo (omega arith)),
        ground (arith, get_step rounds k (omega arith)),
      )
      | inr (m, lo, hi, before, free, e) ↦ inr (
        m,
        omega arith,
        omega arith,
        widen k m (ground arith) before,
        free,
        ground (arith, get_step rounds k (omega arith)),
      )
    ]
  ]

pub get_next_fit :
    {p : Pool}
    → IsValid p
    → (((s : ℕ) → s < p.total_chunks → ¬ IsFree p s) × (mm_get p ≡ some (minus_one, p)))
      ⊎ ((k : ℕ) × (k < p.total_chunks)
          × ((j : ℕ) → j < k → ¬ IsFree p (probed p j))
          × IsFree p (probed p k)
          × (mm_get p ≡ some (chunk_at p (probed p k), taken p (probed p k))))
unfolding mm_get
get_next_fit {p} v = elim (search v p.total_chunks 0 (omega arith)) [
  | inl (all, e) ↦ inl (λ s lt. none_free all s lt, e)
  | inr (k, lo, hi, before, free, e) ↦ inr (
    k,
    omega arith,
    λ j lt. before j (omega arith) lt,
    free,
    e ∙ hand_out_lem v (probed p k) (mod-lt (base_of p.last_allocated + k) v.positive),
  )
]
  where
    none_free :
        ((j : ℕ) → 0 ≤ j → j < 0 + p.total_chunks → ¬ IsFree p (probed p j))
        → (s : ℕ) → s < p.total_chunks
        → ¬ IsFree p s
    none_free all s lt =
        let (k, k_in, e) = round_of p s v lt in
        subst (λ i. ¬ IsFree p i) e (all k (omega arith) (omega arith))

-- At a valid pool `mm_get` fails exactly when no chunk is free; otherwise it returns an address
-- other than -1 and the number of free chunks falls by one. The pool stays valid.
pub get_counts :
    {p : Pool}
    → IsValid p
    → (r : Address × Pool) × (mm_get p ≡ some r)
      × IsValid r.1
      × ((count_free p ≡ 0) × (r.0 ≡ minus_one) × (r.1 ≡ p)
          ⊎ (r.0 ≢ minus_one) × (count_free r.1 + 1 ≡ count_free p))
get_counts {p} v = elim (get_next_fit v) [
  | inl (all, e) ↦ (
    (minus_one, p),
    e,
    v,
    inl (count_zero_none p.allocated (λ i lt. all i (omega (arith, v.flags))), refl, refl),
  )
  | inr (k, lt, before, free, e) ↦
      let s_in : probed p k < p.total_chunks = mod-lt (base_of p.last_allocated + k) v.positive in
      (
        (chunk_at p (probed p k), taken p (probed p k)),
        e,
        taken-IsValid v (probed p k) s_in,
        inr (
          omega (arith, v.mapped, offset_in (probed p k) p.total_chunks p.size s_in v.sized),
          count_zero-set_one p.allocated (probed p k) free,
        ),
      )
]
