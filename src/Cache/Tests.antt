-- ===== src/Cache/Tests.antt =====
-- A full cache of two pages.
use university_coursework.Base.{◌≡◌, refl, some, [], ◌∷◌, arith, pos, ◌==◌}
use university_coursework.Queue.Valid.{IsValid}
use university_coursework.Queue.{Queue}
use university_coursework.Cache.{Entry, Cache, put_cache, strncpy, max_request}
use university_coursework.Cache.Evict.{Cached, put_cache_remembers}

abbrev page : Entry
page = record { filename = 7 ∷ 0 ∷ []; filedata = 90; file_size = pos 12 }

abbrev two_pages : Cache
two_pages = record {
  queue = record { capacity = 2; size = 2; head = 1; tail = 1; items = 20 ∷ 10 ∷ [] };
  entries = λ p. some page;
  live = λ p. p == 90;
}

two_pages-IsValid : IsValid (two_pages.queue)
two_pages-IsValid = omega arith

put_cache_remembers_example :
    (after : Cache) × (put_cache 2 two_pages 30 (8 ∷ 9 ∷ []) 91 (pos 5) ≡ some after)
    × Cached two_pages 30
        (record { filename = strncpy (8 ∷ 9 ∷ []) max_request; filedata = 91; file_size = pos 5 })
        after
put_cache_remembers_example =
    put_cache_remembers 0 two_pages 30 (8 ∷ 9 ∷ []) 91 (pos 5) page two_pages-IsValid
      (λ full. (refl, refl)) (λ e. omega arith) (λ e. omega arith)
