-- ===== src/Pool/Valid.antt =====
-- The representation invariant of `mm_t`, and the number of its free chunks.
use university_coursework.Base.{
  ℕ, zero, suc, ◌+◌, ◌-◌, ◌%◌, ◌*◌, ◌≤◌, ◌<◌, ◌≡◌, refl, ◌≢◌, some, List, [], ◌∷◌, length, get_or,
  set, int_limit, arith, if◌then◌else◌, ◌==◌, mod_cases, dec_le, inl, inr, ◌⊎◌,
}
use university_coursework.Pool.{Pool, Address, slot_at, base_of, minus_one}

-- The area lies in the address space, and the numbers that the code makes fit an `int`.
pub record IsValid (p : Pool) : Type 0 where
  pub positive : 0 < p.total_chunks
  pub sized : 0 < p.size
  pub small : p.total_chunks * p.size < int_limit
  pub rounds : 2 * p.total_chunks ≤ int_limit
  pub flags : length p.allocated ≡ p.total_chunks
  pub area : length p.bytes ≡ p.total_chunks * p.size
  pub last : base_of p.last_allocated ≤ p.total_chunks
  pub mapped : p.blocks + p.total_chunks * p.size < minus_one

-- The slot that the search of `mm_get` looks at in round `k`.
abbrev pub probed : Pool → ℕ → ℕ
probed p k = (base_of p.last_allocated + k) % p.total_chunks

abbrev pub IsFree : Pool → ℕ → Type 0
IsFree p s = get_or p.allocated s 1 ≡ 0

-- The address of a slot's chunk.
abbrev pub chunk_at : Pool → ℕ → Address
chunk_at p s = p.blocks + s * p.size

unfoldable pub count_zero : List ℕ → ℕ
count_zero [] = 0
count_zero (x ∷ xs) = if x == 0 then suc (count_zero xs) else count_zero xs

abbrev pub count_free : Pool → ℕ
count_free p = count_zero p.allocated

pub slot_at_lem :
    (base i total : ℕ)
    → base ≤ total
    → i < total
    → 2 * total ≤ int_limit
    → slot_at (base + i) total ≡ some ((base + i) % total)
unfolding slot_at
slot_at_lem base i total b h r = ground arith

-- A slot's offset stays below the size of the area.
pub offset_in : (s total size : ℕ) → s < total → 0 < size → s * size + size ≤ total * size
offset_in s total size h z = grind arith

-- Every slot is probed in some round.
pub round_of :
    (p : Pool) (s : ℕ)
    → IsValid p
    → s < p.total_chunks
    → (k : ℕ) × (k < p.total_chunks) × (probed p k ≡ s)
round_of p s v h = elim (dec_le (base_of p.last_allocated) s) [
  | yes after ↦ (
    s - base_of p.last_allocated,
    omega arith,
    at (s - base_of p.last_allocated) (inl (omega arith)),
  )
  | no before ↦ (
    s + p.total_chunks - base_of p.last_allocated,
    omega (arith, v.last),
    at (s + p.total_chunks - base_of p.last_allocated) (inr (omega (arith, v.last))),
  )
]
  where
    at :
        (k : ℕ)
        → (base_of p.last_allocated + k ≡ s) ⊎ (base_of p.last_allocated + k ≡ s + p.total_chunks)
        → probed p k ≡ s
    at k e =
        omega (arith, mod_cases (base_of p.last_allocated + k) p.total_chunks (omega (arith, e, h)))

pub count_zero-set_one :
    (xs : List ℕ) (i : ℕ) → get_or xs i 1 ≡ 0 → count_zero (set xs i 1) + 1 ≡ count_zero xs
unfolding count_zero
count_zero-set_one [] i h = absurd (omega arith)
count_zero-set_one (x ∷ xs) zero h = ground arith
count_zero-set_one (x ∷ xs) (suc i) h = ground (arith, count_zero-set_one xs i h)

pub count_zero-set_zero :
    (xs : List ℕ) (i : ℕ)
    → i < length xs
    → get_or xs i 1 ≢ 0
    → count_zero (set xs i 0) ≡ count_zero xs + 1
unfolding count_zero
count_zero-set_zero [] i lt h = elim lt [ ]
count_zero-set_zero (x ∷ xs) zero lt h = ground arith
count_zero-set_zero (x ∷ xs) (suc i) lt h = ground (arith, count_zero-set_zero xs i (omega arith) h)

pub count_zero_none :
    (xs : List ℕ) → ((i : ℕ) → i < length xs → get_or xs i 1 ≢ 0) → count_zero xs ≡ 0
unfolding count_zero
count_zero_none [] h = refl
count_zero_none (x ∷ xs) h =
    ground (arith, h 0 (omega arith), count_zero_none xs (λ i lt. h (suc i) (omega arith)))
