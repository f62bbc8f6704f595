-- ===== src/CString.antt =====
-- Parallel Computing/HW3/common.c: `strrev`, with the functions of string.h that it calls, on
-- strings that end in a 0. `none` is an access outside an array.
pub mod Reverse
pub mod Text
use university_coursework.Base.{
  ℕ, zero, suc, ◌+◌, Option, none, some, List, if◌then◌else◌, ◌==◌, length, get_elem?, store, ◌>>=◌,
}

-- The index of the first 0 from `i` on; `rounds` cells are left.
unfoldable pub strlen_from : List ℕ → ℕ → ℕ → Option ℕ
strlen_from string i zero = none
strlen_from string i (suc rounds) =
    let later = strlen_from string (i + 1) rounds in
    do c ← get_elem? string i; if c == 0 then some i else later

unfoldable pub strlen : List ℕ → Option ℕ
strlen string = strlen_from string 0 (length string)

-- The copy ends behind the first 0.
unfoldable pub strcpy_from : (src dst : List ℕ) (i rounds : ℕ) → Option (List ℕ)
strcpy_from src dst i zero = none
strcpy_from src dst i (suc rounds) = do
  c ← get_elem? src i
  dst' ← store dst i c
  if c == 0 then some dst' else strcpy_from src dst' (i + 1) rounds

unfoldable pub strcpy : (dst src : List ℕ) → Option (List ℕ)
strcpy dst src = strcpy_from src dst 0 (length src)

-- The loop of `strrev` with `i + 1` as its second argument, so that it ends below index 0.
unfoldable pub reverse_into : List ℕ → ℕ → ℕ → List ℕ → Option (List ℕ)
reverse_into string zero j result = some result
reverse_into string (suc i) j result = do
  c ← get_elem? string i
  result' ← store result j c
  reverse_into string i (j + 1) result'

-- `malloc` gives the cells of the block, `none` for NULL, from which `strcpy` would read.
unfoldable pub strrev : (malloc : ℕ → Option (List ℕ)) → List ℕ → Option (List ℕ)
strrev malloc string = do
  length ← strlen string
  block ← malloc (length + 1)
  ended ← store block length 0
  result ← reverse_into string length 0 ended
  strcpy string result
