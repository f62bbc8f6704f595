-- ===== src/Pool/Put.antt =====
-- `mm_put` of mm_public.c: which flag it clears, and what it wipes.
use university_coursework.Base.{
  ℕ, zero, suc, ◌+◌, ◌-◌, ◌%◌, ◌*◌, ◌^◌, ◌≤◌, ◌<◌, ◌≡◌, refl, ap, sym, ◌∙◌, ◌≢◌, ◌⊎◌, inl, inr,
  some, List, [], ◌∷◌, length, get_or, set, arith, length-set, store_of_lt, get_or-set_self,
  get_or-set_ne, subst, ℕ_discrete,
}
use mathlib.Core.Option.{some-injective}
use native.Mathlib.Nat.{mod-lt, mul-div_cancel}
use university_coursework.Pool.{
  Pool, Address, base_of, minus_one, mm_get, mm_put, memset, chunk_index,
}
use university_coursework.Pool.Valid.{
  IsValid, probed, IsFree, chunk_at, count_free, offset_in, count_zero,
}
use university_coursework.Pool.Get.{taken, taken-IsValid, get_next_fit}

-- What `memset` leaves: `v` in the range, and the rest as it was.
pub record Wiped (cells : List ℕ) (i v n : ℕ) (out : List ℕ) : Type 0 where
  pub same_length : length out ≡ length cells
  pub inside : (k : ℕ) → i ≤ k → k < i + n → get_or out k 0 ≡ v
  pub outside : (k : ℕ) → (k < i) ⊎ (i + n ≤ k) → get_or out k 0 ≡ get_or cells k 0

pub memset_lem :
    (cells : List ℕ) (i v n : ℕ)
    → i + n ≤ length cells
    → (out : List ℕ) × (memset cells i v n ≡ some out) × Wiped cells i v n out
unfolding memset
memset_lem cells i v zero h = (
  cells,
  refl,
  record { same_length = refl; inside = λ k lo hi. absurd (omega arith); outside = λ k c. refl },
)
memset_lem cells i v (suc n) h =
    let len : length (set cells i v) ≡ length cells = length-set cells i v in
    let (out, defined, w) = memset_lem (set cells i v) (i + 1) v n (omega arith) in
    (
      out,
      rw (store_of_lt cells i v (omega arith)) defined,
      record {
        same_length = w.same_length ∙ len;
        inside = λ k lo hi. elim (ℕ_discrete k i) [
          | yes e ↦
              subst (λ j. get_or out j 0 ≡ v) (sym e)
                (w.outside i (inl (omega arith)) ∙ get_or-set_self cells i v 0 (omega arith))
          | no ne ↦ w.inside k (omega arith) (omega arith)
        ];
        outside = λ k c.
            w.outside k (elim c [ inl b ↦ inl (omega arith) | inr b ↦ inr (omega arith) ])
            ∙ get_or-set_ne cells i k v 0 (elim c [ inl b ↦ omega arith | inr b ↦ omega arith ]);
      },
    )

module _ {p : Pool} (v : IsValid p) (s : ℕ) (lt : s < p.total_chunks) where
  -- The pointers are cut to 32 bits before they are subtracted; the difference is less than that.
  chunk_index_lem : chunk_index p (chunk_at p s) ≡ some s
  unfolding chunk_index
  chunk_index_lem = ground (arith, v.sized, difference, mul-div_cancel s v.sized)
    where
      difference : ((chunk_at p s) % 2 ^ 32 + 2 ^ 32 - p.blocks % 2 ^ 32) % 2 ^ 32 ≡ s * p.size
      difference = omega (arith, offset_in s p.total_chunks p.size lt v.sized, v.small)

-- `mm_put` of the chunk of any slot of a valid pool is defined. It clears the flag of that slot and
-- no other, fills that chunk with 0 and no other byte, and the pool stays valid.
pub put_lem :
    {p : Pool} (s : ℕ)
    → IsValid p
    → s < p.total_chunks
    → (p' : Pool) × (mm_put p (chunk_at p s) ≡ some p')
      × IsValid p'
      × (p'.allocated ≡ set p.allocated s 0)
      × Wiped p.bytes (s * p.size) 0 p.size p'.bytes
      × (p'.last_allocated ≡ p.last_allocated)
unfolding mm_put
put_lem {p} s v lt =
    let fits : s * p.size + p.size ≤ length p.bytes =
      omega (arith, offset_in s p.total_chunks p.size lt v.sized, v.area) in
    let (out, defined, w) = memset_lem p.bytes (s * p.size) 0 p.size fits in
    (
      record p { allocated = set p.allocated s 0; bytes = out },
      ground (
        arith,
        chunk_index_lem v s lt,
        store_of_lt p.allocated s 0,
        v.flags,
        offset s,
        ap (λ i. memset p.bytes i 0 p.size) (offset s),
        defined,
      ),
      record {
        positive = v.positive;
        sized = v.sized;
        small = v.small;
        rounds = v.rounds;
        flags = length-set p.allocated s 0 ∙ v.flags;
        area = w.same_length ∙ v.area;
        last = v.last;
        mapped = v.mapped;
      },
      refl,
      w,
      refl,
    )
  where
    offset : (t : ℕ) → chunk_at p t - p.blocks ≡ t * p.size
    offset t = omega arith

-- `mm_put` leaves the area and its division into chunks alone.
pub shape-put :
    (p : Pool) (c : Address) {p' : Pool}
    → mm_put p c ≡ some p'
    → (p'.blocks ≡ p.blocks) × (p'.total_chunks ≡ p.total_chunks) × (p'.size ≡ p.size)
unfolding mm_put
shape-put p c e = ground arith

-- A cell that is written and written back is as before.
set_back : (xs : List ℕ) (i v : ℕ) → get_or xs i 1 ≡ 0 → set (set xs i v) i 0 ≡ xs
set_back [] i v e = refl
set_back (x ∷ xs) zero v e = ap (λ y. y ∷ xs) (sym e)
set_back (x ∷ xs) (suc i) v e = ap (λ ys. x ∷ ys) (set_back xs i v e)

-- What `mm_put` does to the outcome of a successful `mm_get`.
abbrev Undone : Pool → Address × Pool → Type 0
Undone p (chunk, p') =
    (p'' : Pool) × (mm_put p' chunk ≡ some p'')
    × IsValid p''
    × (p''.allocated ≡ p.allocated)
    × (count_free p'' ≡ count_free p)
    × Wiped p.bytes (chunk - p.blocks) 0 p.size p''.bytes
    × (p''.blocks ≡ p.blocks)
    × (p''.total_chunks ≡ p.total_chunks)
    × (p''.size ≡ p.size)
    × (p''.last_allocated ≡ p'.last_allocated)

put-taken :
    {p : Pool}
    → IsValid p
    → (s : ℕ) → s < p.total_chunks
    → IsFree p s
    → Undone p (chunk_at p s, taken p s)
put-taken {p} v s lt free =
    let (p'', defined, v', flags, w, last) = put_lem s (taken-IsValid v s lt) lt in
    let back : p''.allocated ≡ p.allocated = flags ∙ set_back p.allocated s 1 free in
    let start : s * p.size ≡ chunk_at p s - p.blocks = omega arith in
    let (at, chunks, each) = shape-put (taken p s) (chunk_at p s) defined in
    (
      p'',
      defined,
      v',
      back,
      ap count_zero back,
      subst (λ i. Wiped p.bytes i 0 p.size p''.bytes) start w,
      at,
      chunks,
      each,
      last,
    )

-- Where `mm_get` of a valid pool has returned a chunk, giving the chunk back at once is defined, and
-- undoes `mm_get`: the slots in use and the number of free chunks, the place of the area, the number of
-- its chunks and their size are as before, and so are the bytes outside the chunk, while the chunk is
-- filled with 0. The next search starts where `mm_get` left it, and the pool is valid.
pub put-get :
    {p p' : Pool} {chunk : Address}
    → IsValid p
    → mm_get p ≡ some (chunk, p')
    → chunk ≢ minus_one
    → (p'' : Pool) × (mm_put p' chunk ≡ some p'')
      × IsValid p''
      × (p''.allocated ≡ p.allocated)
      × (count_free p'' ≡ count_free p)
      × Wiped p.bytes (chunk - p.blocks) 0 p.size p''.bytes
      × (p''.blocks ≡ p.blocks)
      × (p''.total_chunks ≡ p.total_chunks)
      × (p''.size ≡ p.size)
      × (p''.last_allocated ≡ p'.last_allocated)
put-get {p} {p'} {chunk} v e ne = elim (get_next_fit v) [
  | inl (all, fails) ↦ absurd (ne (cc))
  | inr (k, lt, before, free, gets) ↦
      let same : (chunk_at p (probed p k), taken p (probed p k)) ≡ (chunk, p') =
        some-injective _ _ (sym gets ∙ e) in
      subst (Undone p) same
        (put-taken v (probed p k) (mod-lt (base_of p.last_allocated + k) v.positive) free)
]
