-- ===== src/Cache.antt =====
-- Operating Systems/Threaded Web Server/cache.c: the page cache, over the ring of
-- queue.c. The calls of pthread.h do not fail, and another thread has its turn before or after the
-- call. `none` is undefined behaviour, or fuel that has run out.

pub mod Evict
pub mod Lookup
mod Tests
use university_coursework.Base.{
  ℕ, zero, suc, Bool, true, false, Option, none, some, List, [], ◌∷◌, ◌++◌, if◌then◌else◌, ◌==◌,
  ◌>>=◌, take, ℤ, pos, negsuc,
}
use university_coursework.Queue.{
  Pointer, Queue, Status, ok, failed, queue_enqueue, queue_dequeue, queue_requeue, search_with,
  null,
}

-- `cache_entry_t`; the name is the cells of its block, the page is a pointer, and the time stamp is
-- never set.
pub record Entry : Type 0 where
  pub filename : List ℕ
  pub filedata : Pointer
  pub file_size : ℤ

-- The ring, the entries that its pointers lead to, and which pointers are those of blocks that
-- `free` may be given: returned by `malloc`, and not freed yet.
pub record Cache : Type 0 where
  pub queue : Queue
  pub entries : Pointer → Option Entry
  pub live : Pointer → Bool

abbrev pub max_request : ℕ
max_request = 1024

-- `queue_write` and `queue_read`, between `pthread_rwlock_wrlock` and the unlock.
unfoldable pub queue_write : Queue → Pointer → Option (Status × Queue)
queue_write q item = queue_enqueue q item

unfoldable pub queue_read : Queue → Option (Pointer × Queue)
queue_read q = queue_dequeue q

-- `free` of a page takes NULL, or a block that is live.
abbrev pub can_free : Cache → Pointer → Bool
can_free cache page = if page == null then true else cache.live page

-- The page, the name and the entry are freed; the block of the name is that of the entry alone.
unfoldable pub free_entry : Cache → Pointer → Option Cache
free_entry cache cached = do
  entry ← cache.entries cached
  if can_free cache entry.filedata
      then some (record cache {
        entries = λ p. if p == cached then none else cache.entries p;
        live = λ p. if p == entry.filedata then false else cache.live p;
      })
      else none

-- The loop that makes room for the entry.
unfoldable pub write_entry : (fuel : ℕ) → Cache → Pointer → Option Cache
write_entry zero cache entry = none
write_entry (suc fuel) cache entry = do
  (status, q) ← queue_write cache.queue entry
  elim status [
    | ok ↦ some (record cache { queue = q })
    | failed ↦ (do
      (cached, q') ← queue_read q
      smaller ← free_entry (record cache { queue = q' }) cached
      write_entry fuel smaller entry)
  ]

-- `strncpy` of a text without its end mark: `n` cells, 0 behind a text that is shorter, and no 0 where
-- the text has `n` characters or more.
pub strncpy : (text : List ℕ) → (n : ℕ) → List ℕ
strncpy text zero = []
strncpy [] (suc n) = 0 ∷ strncpy [] n
strncpy (c ∷ text) (suc n) = c ∷ strncpy text n

-- `entry` is the pointer that `malloc` returns for the entry, which the code does not compare with
-- NULL; `malloc` finds room for the name.
unfoldable pub put_cache :
    (fuel : ℕ)
    → Cache
    → (entry : Pointer) → (filename : List ℕ) → (data_at : Pointer) → (size : ℤ) → Option Cache
put_cache fuel cache entry filename data_at size =
    let made : Entry = record {
      filename = strncpy filename max_request;
      filedata = data_at;
      file_size = size;
    } in
    let written =
      write_entry fuel
        (record cache { entries = λ p. if p == entry then some made else cache.entries p }) entry in
    if entry == null then none else written

-- `strcmp(…) == 0`, on strings without their end mark.
abbrev pub same_text : List ℕ → List ℕ → Bool
same_text [] [] = true
same_text (c ∷ text) (d ∷ other) = let rest = same_text text other in if c == d then rest else false
same_text _ _ = false

-- `strcmp(…) == 0` on the cells of a block and a text without its end mark; `none` where it reads
-- past the block.
abbrev pub same_name : (cells text : List ℕ) → Option Bool
same_name [] text = none
same_name (c ∷ cells) [] = some (c == 0)
same_name (c ∷ cells) (d ∷ text) =
    let rest = same_name cells text in
    if c == d then (if c == 0 then some true else rest) else some false

-- The callback; `none` where the pointer leads to no entry, or the name is read past its block.
unfoldable pub queue_cb : Cache → (filename : List ℕ) → Pointer → Option Bool
queue_cb cache filename item = do entry ← cache.entries item; same_name entry.filename filename

-- `queue_rewrite` and `rwlock_queue_search`, between the call that takes the lock and the unlock.
unfoldable pub queue_rewrite : Queue → Pointer → Option (Status × Queue)
queue_rewrite q item = queue_requeue q item

unfoldable pub rwlock_queue_search : Queue → (Pointer → Option Bool) → Option Pointer
rwlock_queue_search q cb = search_with q cb

-- An `int` is a small number.
abbrev pub int_is : ℤ → ℕ → Bool
int_is (pos a) b = a == b
int_is (negsuc a) b = false

abbrev pub cache_oldest : ℕ
cache_oldest = 1

abbrev pub cache_lru : ℕ
cache_lru = 2

-- The size that is returned after `queue_rewrite`.
abbrev requeued_size : Status → ℤ → ℤ
requeued_size ok file_size = file_size
requeued_size failed file_size = negsuc 0

-- The page if `*buf` is set, the size that is returned, and the cache.
unfoldable pub get_cache :
    (cache_enabled : ℤ) → Cache → (filename : List ℕ) → Option (Option Pointer × ℤ × Cache)
unfolding queue_rewrite rwlock_queue_search
get_cache cache_enabled cache filename = do
  found ← rwlock_queue_search cache.queue (queue_cb cache filename)
  let hit = do
    entry ← cache.entries found
    let requeue = do
      (status, q) ← queue_rewrite cache.queue found
      some (some entry.filedata, requeued_size status entry.file_size, record cache { queue = q })
    if int_is cache_enabled cache_lru
        then requeue
        else some (some entry.filedata, entry.file_size, cache)
  if found == null then some (none, negsuc 0, cache) else hit
