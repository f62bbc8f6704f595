-- ===== src/Pool.antt =====
-- The chunk allocator of Operating Systems/Memory Pool/mm_public.c: `mm_t` and its operations, with
-- the memory behind `blocks`. `none` is undefined behaviour of the C code.
pub mod Valid
pub mod Get
pub mod Put
pub mod Ledger
pub mod Init
mod Tests
use university_coursework.Base.{
  ℕ, zero, suc, ◌+◌, ◌-◌, ◌*◌, ◌/◌, ◌%◌, ◌^◌, Bool, Option, none, some, List, [], ◌∷◌,
  if◌then◌else◌, ltb, leb, ◌==◌, ◌&&◌, get_elem?, store, replicate, length, ◌>>=◌, int_limit,
}

abbrev pub Address : Type 0
Address = ℕ

-- `(void*)-1`, which `mm_get` returns where no chunk is free, and the NULL of `malloc`.
abbrev pub minus_one : Address
minus_one = 2 ^ 64 - 1

abbrev pub null : Address
null = 0

abbrev pub free_block : ℕ
free_block = 0

-- `mm_t`. `bytes` is the memory at `blocks`; `last_allocated` is `none` for -1.
pub record Pool : Type 0 where
  pub blocks : Address
  pub total_chunks : ℕ
  pub size : ℕ
  pub allocated : List ℕ
  pub last_allocated : Option ℕ
  pub bytes : List ℕ

-- A product of two ints.
unfoldable pub int_mul : ℕ → ℕ → Option ℕ
int_mul a b = if ltb (a * b) int_limit then some (a * b) else none

-- `memset` on an array: `n` cells from `i` on, of which each has to be there.
unfoldable pub memset : List ℕ → ℕ → ℕ → ℕ → Option (List ℕ)
memset cells i v zero = some cells
memset cells i v (suc n) = do cells' ← store cells i v; memset cells' (i + 1) v n

-- What a call of `malloc` gives: an address, NULL if there is no memory, and the cells there.
abbrev pub Area : Type 0
Area = Address × List ℕ

-- The -1 and 1 that `mm_init` returns.
pub data Outcome : Type 0 where
  failed made : Outcome

-- The two areas are what the two calls of `malloc` return. Both addresses are compared with -1, so
-- it is `memset` that meets a NULL.
unfoldable pub mm_init : Pool → Area → Area → ℕ → ℕ → Option (Outcome × Pool)
unfolding int_mul memset
mm_init mm (blocks, bytes) (flags, cells) hm sz = do
  area ← int_mul hm sz
  let no_flags = record mm {
    blocks = blocks;
    total_chunks = hm;
    size = sz;
    allocated = [];
    bytes = [];
  }
  let fill = do
    zeroed ← memset cells 0 0 hm
    some (
      made,
      record {
        blocks = blocks;
        total_chunks = hm;
        size = sz;
        allocated = zeroed;
        last_allocated = none;
        bytes = bytes;
      },
    )
  if blocks == minus_one
      then some (failed, record mm { blocks = blocks; bytes = [] })
      else if flags == minus_one
      then some (failed, no_flags)
      else fill

-- `last_allocated + 1`
unfoldable pub base_of : Option ℕ → ℕ
base_of none = 0
base_of (some last) = last + 1

-- What `mm_get` does at a free slot.
unfoldable pub hand_out : Pool → ℕ → Option (Address × Pool)
unfolding int_mul
hand_out mm slot = do
  flags ← store mm.allocated slot 1
  offset ← int_mul slot mm.size
  some (mm.blocks + offset, record mm { allocated = flags; last_allocated = some slot })

-- The sum of two ints, modulo a third.
unfoldable pub slot_at : ℕ → ℕ → Option ℕ
slot_at sum total =
    if total == 0 then none else if ltb sum int_limit then some (sum % total) else none

-- The loop of `mm_get`, with `rounds` rounds left at index `i`.
unfoldable pub get_from : Pool → ℕ → ℕ → ℕ → Option (Address × Pool)
unfolding slot_at
get_from mm base zero i = some (minus_one, mm)
get_from mm base (suc rounds) i =
    let later = get_from mm base rounds (i + 1) in
    do
      slot ← slot_at (base + i) mm.total_chunks
      flag ← get_elem? mm.allocated slot
      if flag == free_block then hand_out mm slot else later

unfoldable pub mm_get : Pool → Option (Address × Pool)
unfolding base_of
mm_get mm = get_from mm (base_of mm.last_allocated) mm.total_chunks 0

-- `((unsigned int)chunk - (unsigned int)MM->blocks) / MM->size`
unfoldable pub chunk_index : Pool → Address → Option ℕ
chunk_index mm chunk =
    if mm.size == 0
    then none
    else some ((chunk % 2 ^ 32 + 2 ^ 32 - mm.blocks % 2 ^ 32) % 2 ^ 32 / mm.size)

unfoldable pub mm_put : Pool → Address → Option Pool
unfolding chunk_index memset
mm_put mm chunk = do
  index ← chunk_index mm chunk
  flags ← store mm.allocated index 0
  let wipe = do
    cleared ← memset mm.bytes (chunk - mm.blocks) free_block mm.size
    some (record mm { allocated = flags; bytes = cleared })
  if ltb chunk mm.blocks then none else wipe

-- Both areas are freed and every field is 0, also `last_allocated`.
unfoldable pub mm_release : Pool → Pool
mm_release mm = record {
  blocks = null;
  total_chunks = 0;
  size = 0;
  allocated = [];
  last_allocated = some 0;
  bytes = [];
}
