-- ===== src/Cache/Evict.antt =====
-- `put_cache` makes room by dropping the oldest page, and then holds the new one.
use university_coursework.Base.{
  ℕ, suc, ◌≡◌, ◌≢◌, ◌<◌, refl, sym, ap, ◌∙◌, true, false, none, some, List, [], ◌∷◌, ◌++◌,
  if◌then◌else◌, ◌==◌, drop, length, arith, get_or, ℕ_discrete, ℤ,
}
use university_coursework.Queue.{Pointer, Status, ok, failed, null, queue_enqueue}
use university_coursework.Queue.Valid.{IsValid, contents}
use university_coursework.Queue.Fifo.{put, take_first}
use university_coursework.Queue.Refine.{enqueue_refines, dequeue_refines}
use university_coursework.Cache.{
  Entry, Cache, max_request, queue_write, queue_read, can_free, free_entry, strncpy, write_entry,
  put_cache,
}

-- A bounded list that forgets its oldest element for a new one.
pub remember : ℕ → List Pointer → Pointer → List Pointer
remember capacity xs p = if length xs == capacity then drop 1 xs ++ (p ∷ []) else xs ++ (p ∷ [])

-- What a call leaves: the ring with the new entry last, and the entry where its pointer leads.
pub record Cached (before : Cache) (p : Pointer) (made : Entry) (after : Cache) : Type 0 where
  pub valid : IsValid after.queue
  pub order : contents after.queue ≡ remember before.queue.capacity (contents before.queue) p
  pub stored : after.entries p ≡ some made

put_full :
    (capacity : ℕ) (xs : List Pointer) (x : Pointer)
    → length xs ≡ capacity
    → put capacity xs x ≡ (failed, xs)
unfolding put
put_full capacity xs x e = let full : (length xs == capacity) ≡ true = ground arith in rw full refl

put_room :
    (capacity : ℕ) (xs : List Pointer) (x : Pointer)
    → length xs ≢ capacity
    → put capacity xs x ≡ (ok, xs ++ (x ∷ []))
unfolding put
put_room capacity xs x e = let room : (length xs == capacity) ≡ false = ground arith in rw room refl

remember_full :
    (capacity : ℕ) (xs : List Pointer) (x : Pointer)
    → length xs ≡ capacity
    → remember capacity xs x ≡ drop 1 xs ++ (x ∷ [])
unfolding remember
remember_full capacity xs x e =
    let full : (length xs == capacity) ≡ true = ground arith in rw full refl

remember_room :
    (capacity : ℕ) (xs : List Pointer) (x : Pointer)
    → length xs ≢ capacity
    → remember capacity xs x ≡ xs ++ (x ∷ [])
unfolding remember
remember_room capacity xs x e =
    let room : (length xs == capacity) ≡ false = ground arith in rw room refl

take_some : (xs : List Pointer) → 0 < length xs → take_first xs ≡ (get_or xs 0 null, drop 1 xs)
unfolding take_first
take_some [] h = absurd (omega arith)
take_some (x ∷ xs) h = refl

write_room :
    (fuel : ℕ) (cache : Cache) (p : Pointer) (made : Entry)
    → IsValid cache.queue
    → length (contents cache.queue) ≢ cache.queue.capacity
    → cache.entries p ≡ some made
    → (after : Cache) × (write_entry (suc fuel) cache p ≡ some after)
      × IsValid after.queue
      × (contents after.queue ≡ contents cache.queue ++ (p ∷ []))
      × (after.entries p ≡ some made)
unfolding write_entry queue_write
write_room fuel cache p made v room here =
    let (r, run, same, valid, cap) = enqueue_refines p v in
    let fits = same ∙ put_room cache.queue.capacity (contents cache.queue) p room in
    let runs : queue_enqueue cache.queue p ≡ some (ok, r.1) =
      run ∙ ap (λ s. some (s, r.1)) (ap (λ (w : Status × List Pointer). w.0) fits) in
    let held : contents r.1 ≡ contents cache.queue ++ (p ∷ []) =
      ap (λ (w : Status × List Pointer). w.1) fits in
    (record cache { queue = r.1 }, rw runs refl, valid, held, here)

shorter : (xs : List Pointer) (n : ℕ) → length xs ≡ n → 0 < n → length (drop 1 xs) ≢ n
shorter [] n e h = absurd (omega arith)
shorter (x ∷ xs) n e h = λ d. omega arith

write_full :
    (fuel : ℕ) (cache : Cache) (p : Pointer) (made old : Entry)
    → IsValid cache.queue
    → length (contents cache.queue) ≡ cache.queue.capacity
    → cache.entries p ≡ some made
    → cache.entries (get_or (contents cache.queue) 0 null) ≡ some old
    → can_free cache old.filedata ≡ true
    → get_or (contents cache.queue) 0 null ≢ p
    → (after : Cache) × (write_entry (suc (suc fuel)) cache p ≡ some after)
      × IsValid after.queue
      × (contents after.queue ≡ drop 1 (contents cache.queue) ++ (p ∷ []))
      × (after.entries p ≡ some made)
unfolding write_entry queue_write queue_read free_entry
write_full fuel cache p made old v full here oldest page fresh =
    let (r, run, same, valid, cap) = enqueue_refines p v in
    let fits = same ∙ put_full cache.queue.capacity (contents cache.queue) p full in
    let runs : queue_enqueue cache.queue p ≡ some (failed, r.1) =
      run ∙ ap (λ s. some (s, r.1)) (ap (λ (w : Status × List Pointer). w.0) fits) in
    let held : contents r.1 ≡ contents cache.queue = ap (λ (w : Status × List Pointer). w.1) fits in
    let (t, got, same_t, valid_t, cap_t) = dequeue_refines valid in
    let taken =
      same_t ∙ ap take_first held ∙ take_some (contents cache.queue) (omega (arith, v.positive)) in
    let first : t.0 ≡ get_or (contents cache.queue) 0 null =
      ap (λ (w : Pointer × List Pointer). w.0) taken in
    let rest : contents t.1 ≡ drop 1 (contents cache.queue) =
      ap (λ (w : Pointer × List Pointer). w.1) taken in
    let smaller : Cache = record cache {
      queue = t.1;
      entries = λ q. if q == t.0 then none else cache.entries q;
      live = λ q. if q == old.filedata then false else cache.live q;
    } in
    let room : length (contents smaller.queue) ≢ smaller.queue.capacity = λ e.
      shorter (contents cache.queue) cache.queue.capacity full v.positive
        (ap length (sym rest) ∙ e ∙ cap_t ∙ cap) in
    let kept : smaller.entries p ≡ some made = other t.0 (λ e. fresh (sym first ∙ sym e)) in
    let (after, run_after, valid_after, order, stored) =
      write_room fuel smaller p made valid_t room kept in
    (
      after,
      rw (runs, got, ap cache.entries first ∙ oldest, page) run_after,
      valid_after,
      order ∙ ap (λ ws. ws ++ (p ∷ [])) rest,
      stored,
    )
  where
    apart : (a b : ℕ) → a ≢ b → (a == b) ≡ false
    apart a b h = ground arith

    other : (q : Pointer) → p ≢ q → (if p == q then none else cache.entries p) ≡ some made
    other q h = rw (apart p q h) here

-- Where the ring is valid, `malloc` has given a pointer for the new entry that is not NULL nor that of
-- the oldest entry, and, if the ring is full, its oldest pointer leads to an entry whose page `free`
-- may be given, `put_cache` returns with fuel 2 or more. The ring then holds what it held, without the
-- oldest entry if it was full, and the new entry last; the new entry's pointer leads to the page with
-- the `MAX_REQUEST` cells that `strncpy` makes of its name.
pub put_cache_remembers :
    (fuel : ℕ) (cache : Cache) (p : Pointer) (filename : List ℕ) (data_at : Pointer) (size : ℤ)
    (old : Entry)
    → IsValid cache.queue
    → (length (contents cache.queue) ≡ cache.queue.capacity
        → (cache.entries (get_or (contents cache.queue) 0 null) ≡ some old)
          × (can_free cache old.filedata ≡ true))
    → p ≢ null
    → get_or (contents cache.queue) 0 null ≢ p
    → (after : Cache) × (put_cache (suc (suc fuel)) cache p filename data_at size ≡ some after)
      × Cached cache p
          (record { filename = strncpy filename max_request; filedata = data_at; file_size = size })
          after
unfolding put_cache
put_cache_remembers fuel cache p filename data_at size old v oldest there_is fresh =
    elim (ℕ_discrete (length (contents cache.queue)) cache.queue.capacity) [
      | yes full ↦
          let (after, run, valid, order, stored) =
            write_full fuel added p made old v full here
              (there (get_or (contents cache.queue) 0 null) fresh ∙ (oldest full).0) (oldest full).1
              fresh in
          (
            after,
            rw (apart p null there_is) run,
            record {
              valid = valid;
              order =
                  order ∙ sym (remember_full cache.queue.capacity (contents cache.queue) p full);
              stored = stored;
            },
          )
      | no room ↦
          let (after, run, valid, order, stored) = write_room (suc fuel) added p made v room here in
          (
            after,
            rw (apart p null there_is) run,
            record {
              valid = valid;
              order =
                  order ∙ sym (remember_room cache.queue.capacity (contents cache.queue) p room);
              stored = stored;
            },
          )
    ]
  where
    made : Entry
    made = record { filename = strncpy filename max_request; filedata = data_at; file_size = size }

    added : Cache
    added = record cache { entries = λ q. if q == p then some made else cache.entries q }

    itself : (a : ℕ) → (a == a) ≡ true
    itself a = ground arith

    apart : (a b : ℕ) → a ≢ b → (a == b) ≡ false
    apart a b h = ground arith

    here : added.entries p ≡ some made
    here = ap (λ b. if b then some made else cache.entries p) (itself p)

    there : (q : Pointer) → q ≢ p → added.entries q ≡ cache.entries q
    there q h = ap (λ b. if b then some made else cache.entries q) (apart q p h)
