-- ===== src/Server/Answers.antt =====
-- What a client of the server gets.
use university_coursework.Base.{
  ℕ, ◌≡◌, ◌≢◌, refl, false, Option, none, some, List, [], ◌∷◌, ◌++◌, if◌then◌else◌, ◌==◌, arith, ℤ,
  pos,
}
use university_coursework.Queue.{Pointer}
use university_coursework.Cache.{Cache, same_text}
use university_coursework.Server.{
  Config, ContentType, text_plain, text_html, image_jpeg, image_gif, last_dot, html, jpg, gif,
  get_content_type, Request, Effect, logged, error_sent, result_sent, freed, is_error,
}

-- The text has no dot.
abbrev pub HasNoDot : List ℕ → Type 0
HasNoDot [] = Unit
HasNoDot (c ∷ rest) = (c ≢ 46) × HasNoDot rest

-- The type for an extension.
pub type_of : List ℕ → ContentType
type_of ext =
    if same_text ext html
    then text_html
    else (if same_text ext jpg
        then image_jpeg
        else (if same_text ext gif then image_gif else text_plain))

last_dot_missing : (text : List ℕ) → HasNoDot text → last_dot text ≡ none
unfolding last_dot
last_dot_missing [] h = refl
last_dot_missing (c ∷ rest) (other, h) =
    let not_dot : (c == 46) ≡ false = apart c 46 other in rw (last_dot_missing rest h, not_dot) refl
  where
    apart : (a b : ℕ) → a ≢ b → (a == b) ≡ false
    apart a b h = ground arith

last_dot-append :
    (stem ext : List ℕ) → HasNoDot ext → last_dot (stem ++ (46 ∷ ext)) ≡ some (46 ∷ ext)
unfolding last_dot
last_dot-append [] ext h = rw (last_dot_missing ext h) refl
last_dot-append (c ∷ stem) ext h = rw (last_dot-append stem ext h) refl

-- For a name that ends in a dot and an extension, in which there is no dot, the content type is that of the
-- extension: `text/html` for `html`, `image/jpeg` for `jpg`, `image/gif` for `gif`, and `text/plain` for
-- any other. For a name without a dot it is `text/plain`.
pub content_type_lem :
    (stem ext : List ℕ)
    → HasNoDot ext
    → (get_content_type (stem ++ (46 ∷ ext)) ≡ type_of ext) × (get_content_type ext ≡ text_plain)
unfolding get_content_type type_of
content_type_lem stem ext h = (
  rw (get_content_type, last_dot-append stem ext h) refl,
  rw (get_content_type, last_dot_missing ext h) refl,
)

-- The cache is off, if there is a configuration.
abbrev IsOff : Option Config → Type 0
IsOff none = Unit
IsOff (some config) = config.cache_enabled ≡ pos 0

-- The answer to a request, by the size that `get_file_data` gives.
pub answer : (thread_id : ℕ) → Request → (data_at : Pointer) → (size : ℤ) → List Effect
answer thread_id req data_at size =
    if is_error size
    then logged thread_id req.req_num req.fd false req.filename (pos 404) ∷ error_sent req.fd ∷ []
    else logged thread_id req.req_num req.fd false req.filename size
      ∷ result_sent req.fd (get_content_type req.filename) (some data_at) size
      ∷ freed req (some data_at)
      ∷ []
