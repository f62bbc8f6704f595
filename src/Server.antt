-- ===== src/Server.antt =====
-- Operating Systems/Threaded Web Server/server.c: the configuration, and what the threads do with a
-- request. The socket functions, the log and the calls of pthread.h are not modelled: a connection is
-- given, and what is sent and written is an effect. `none` is undefined behaviour.
pub mod Answers
pub mod Start
pub mod Dispatch
pub mod Numbered
mod Tests
use university_coursework.Base.{
  ℕ, zero, suc, ◌+◌, ◌-◌, ◌%◌, ◌^◌, Bool, true, false, Option, none, some, List, [], ◌∷◌, ◌++◌,
  if◌then◌else◌, ltb, ◌==◌, ◌&&◌, ◌||◌, not, length, int_limit, ◌>>=◌, ℤ, pos, negsuc,
}
use university_coursework.Queue.{Pointer}
use university_coursework.Cache.{
  Cache, same_text, int_is, cache_oldest, cache_lru, put_cache, get_cache,
}

-- `server_config_t`; the numbers are `int`.
pub record Config : Type 0 where
  pub port : ℤ
  pub root : List ℕ
  pub cache_enabled : ℤ
  pub cache_size : ℤ
  pub num_dispatch : ℤ
  pub num_workers : ℤ
  pub num_pref : ℤ
  pub qlen : ℤ

-- The arguments of `main`, behind the name of the program, and `atoi`.
unfoldable pub main_config : (atoi : List ℕ → ℤ) → (args : List (List ℕ)) → Option Config
main_config atoi (port ∷ path ∷ num_dispatch ∷ num_workers ∷ qlen ∷ caching ∷ cache_entries ∷ []) =
    let config : Config = record {
      port = atoi port;
      root = path;
      cache_enabled = atoi caching;
      cache_size = atoi cache_entries;
      num_dispatch = atoi num_dispatch;
      num_workers = atoi num_workers;
      num_pref = pos 1;
      qlen = atoi qlen;
    } in
    if not (int_is config.cache_enabled cache_oldest) || not (int_is config.cache_enabled cache_lru)
    then some (record config { cache_enabled = pos 0 })
    else some config
main_config atoi _ = none

pub data ContentType : Type 0 where
  text_plain text_html image_jpeg image_gif : ContentType

-- `strrchr(filename, '.')`
unfoldable pub last_dot : List ℕ → Option (List ℕ)
last_dot [] = none
last_dot (c ∷ rest) = elim (last_dot rest) [
  | none ↦ if c == 46 then some (c ∷ rest) else none
  | some ext ↦ some ext
]

abbrev pub html : List ℕ
html = 104 ∷ 116 ∷ 109 ∷ 108 ∷ []

abbrev pub jpg : List ℕ
jpg = 106 ∷ 112 ∷ 103 ∷ []

abbrev pub gif : List ℕ
gif = 103 ∷ 105 ∷ 102 ∷ []

unfoldable pub get_content_type : List ℕ → ContentType
unfolding last_dot
get_content_type filename = elim (last_dot filename) [
  | none ↦ text_plain
  | some ext ↦
      if same_text ext (46 ∷ html)
      then text_html
      else (if same_text ext (46 ∷ jpg)
          then image_jpeg
          else (if same_text ext (46 ∷ gif) then image_gif else text_plain))
]

-- The file system: `fopen`, the size of a file if `fstat` tells it, and whether `fread` returns -1.
pub record Disk : Type 0 where
  pub fopen : List ℕ → Option ℕ
  pub fstat : ℕ → Option ℕ
  pub fread_fails : ℕ → Bool

-- The conversion of a `size_t` to `int`.
abbrev pub int_of : ℕ → ℤ
int_of size =
    let low = size % 2 ^ 32 in if ltb low int_limit then pos low else negsuc (2 ^ 32 - 1 - low)

-- The name begins behind its first character, so there has to be one.
unfoldable pub get_file_data : Disk → List ℕ → Option ℤ
get_file_data disk [] = none
get_file_data disk (slash ∷ name) = elim (disk.fopen name) [
  | none ↦ some (negsuc 0)
  | some f ↦ elim (disk.fstat f) [
    | none ↦ some (negsuc 0)
    | some size ↦ if disk.fread_fails f then some (negsuc 0) else some (int_of size)
  ]
]

-- `request_t`
pub record Request : Type 0 where
  pub fd : ℕ
  pub filename : List ℕ
  pub req_num : ℕ

-- What a worker does to the outside, and with the request at the end.
pub data Effect : Type 0 where
  logged : (thread_id req_num fd : ℕ) (cache_hit : Bool) (filename : List ℕ) (bytes : ℤ) → Effect
  error_sent : (fd : ℕ) → Effect
  result_sent : (fd : ℕ) (type : ContentType) (buf : Option Pointer) (size : ℤ) → Effect
  prefetched : Request → Effect
  freed : Request → (buf : Option Pointer) → Effect

-- An `int` that is -1, and one that is not 0.
abbrev pub is_error : ℤ → Bool
is_error (pos n) = false
is_error (negsuc n) = n == 0

abbrev pub is_set : ℤ → Bool
is_set n = not (int_is n 0)

module _ (config : Config) (thread_id : ℕ) where
  -- The result is sent and logged, and the request is passed on or freed.
  unfoldable pub send_result :
      (cache_hit : Bool) → Request → (buf : Option Pointer) → (size : ℤ) → List Effect
  unfolding get_content_type
  send_result cache_hit req buf size =
      logged thread_id req.req_num req.fd cache_hit req.filename size
      ∷ result_sent req.fd (get_content_type req.filename) buf size
      ∷ (if is_set config.cache_enabled then prefetched req else freed req buf)
      ∷ []

  -- A round of `worker_main` for the request that it has taken; `data_at` and `entry` are what `malloc`
  -- returns for the file's data and for a cache entry.
  unfoldable pub worker_main :
      (fuel : ℕ) → Disk → (data_at entry : Pointer) → Request → Cache → Option (Cache × List Effect)
  unfolding send_result get_file_data
  worker_main fuel disk data_at entry req cache =
      let lookup = get_cache config.cache_enabled cache req.filename in
      do
        (buf, size, looked) ←
            (if is_set config.cache_enabled then lookup else some (none, negsuc 0, cache))
        let read = do
          size' ← get_file_data disk req.filename
          let put = put_cache fuel looked entry req.filename data_at size'
          let answer = do
            kept ← (if is_set config.cache_enabled then put else some looked)
            some (kept, send_result false req (some data_at) size')
          if is_error size'
              then some (
                looked,
                logged thread_id req.req_num req.fd false req.filename (pos 404)
                    ∷ error_sent req.fd
                    ∷ [],
              )
              else answer
        if is_error size then read else some (looked, send_result true req buf size)

-- `pref_main`, for the request that it has taken; `nextguess` is what the library of the same name
-- returns, if it has a guess. `data_at` is what `data` holds after `get_file_data`, which sets it only where it
-- gets as far as the size.
unfoldable pub pref_main :
    (fuel : ℕ)
    → Config
    → Disk
    → (nextguess : List ℕ → Option (List ℕ)) → (data_at entry : Pointer) → Request
    → Cache
    → Option Cache
unfolding get_file_data
pref_main fuel config disk nextguess data_at entry req cache = elim (nextguess req.filename) [
  | none ↦ some cache
  | some guess ↦ (do
    (buf, size, looked) ← get_cache config.cache_enabled cache guess
    let fill = do size' ← get_file_data disk guess; put_cache fuel looked entry guess data_at size'
    if is_error size then fill else some looked)
]
