-- ===== src/Sort.antt =====
-- Parallel Computing/HW2/serial_sort.c: `merge`, which the merge threads call, and the merge sort
-- that each sort thread runs. `none` is an access outside an array, or fuel that has run out.
pub mod Weave
pub mod Merge
pub mod Halves
pub mod Mergesort
mod Tests
use university_coursework.Base.{
  ℕ, zero, suc, ◌+◌, ◌-◌, ◌/◌, Bool, Option, none, some, List, if◌then◌else◌, ltb, ◌==◌, ◌&&◌, ◌||◌,
  get_elem?, store, ◌>>=◌, ℤ, ltb_ℤ, to_ulong,
}

-- `while( cur < n ) { out[curout] = b[cur]; cur++; curout++; }` with `rounds` rounds left.
unfoldable pub copy_rest : List ℤ → ℕ → ℕ → ℕ → List ℤ → Option (List ℤ)
copy_rest b cur zero curout out = some out
copy_rest b cur (suc rounds) curout out = do
  x ← get_elem? b cur
  out' ← store out curout x
  copy_rest b (cur + 1) rounds (curout + 1) out'

-- The loops of `merge`, with `ra` of the first array's elements left from `cura` on, and `rb` of
-- the second's from `curb` on.
unfoldable pub merge_from : (a b : List ℤ) (cura ra curb rb curout : ℕ) → List ℤ → Option (List ℤ)
merge_from a b cura zero curb rb curout out = copy_rest b curb rb curout out
merge_from a b cura (suc ra) curb zero curout out = copy_rest a cura (suc ra) curout out
merge_from a b cura (suc ra) curb (suc rb) curout out = do
  x ← get_elem? a cura
  y ← get_elem? b curb
  if ltb_ℤ x y
      then (store out curout x >>= λ out'.
          merge_from a b (cura + 1) ra curb (suc rb) (curout + 1) out')
      else (store out curout y >>= λ out'.
          merge_from a b cura (suc ra) (curb + 1) rb (curout + 1) out')

unfoldable pub merge : List ℤ → List ℤ → ℕ → List ℤ → Option (List ℤ)
merge a b n out = merge_from a b 0 n 0 n 0 out

-- `min` takes and returns `unsigned long`.
unfoldable pub min : ℕ → ℕ → ℕ
min x y = if ltb y x then y else x

-- `min(input[l], input[r]) == input[l]`, in which each `int` is converted to `unsigned long`.
unfoldable pub goes_first : ℤ → ℤ → Bool
unfolding min
goes_first x y = min (to_ulong x) (to_ulong y) == to_ulong x

-- The loop of `merge_helper` that fills the scratch array, with `rounds` rounds left at index `i`.
unfoldable pub fill_scratch :
    (input : List ℤ) (middle right l r i rounds : ℕ) → List ℤ → Option (List ℤ)
unfolding goes_first
fill_scratch input middle right l r i zero scratch = some scratch
fill_scratch input middle right l r i (suc rounds) scratch =
    let take_left = (do
      x ← get_elem? input l
      scratch' ← store scratch i x
      fill_scratch input middle right (l + 1) r (i + 1) rounds scratch') in
    let take_right = (do
      y ← get_elem? input r
      scratch' ← store scratch i y
      fill_scratch input middle right l (r + 1) (i + 1) rounds scratch') in
    let compare_heads = (do
      x ← get_elem? input l
      y ← get_elem? input r
      if goes_first x y then take_left else take_right) in
    if ltb l middle then (if r == right then take_left else compare_heads) else take_right

-- `for(i = left; i < right; i++) input[i] = scratch[i - left]`.
unfoldable pub copy_back : (scratch : List ℤ) (left i rounds : ℕ) → List ℤ → Option (List ℤ)
copy_back scratch left i zero input = some input
copy_back scratch left i (suc rounds) input = do
  x ← get_elem? scratch (i - left)
  input' ← store input i x
  copy_back scratch left (i + 1) rounds input'

-- The input and the scratch array after the call. The calls have `left ≤ right`.
unfoldable pub merge_helper :
    (fuel : ℕ) (input : List ℤ) (left right : ℕ) (scratch : List ℤ) → Option (List ℤ × List ℤ)
unfolding fill_scratch copy_back
merge_helper zero input left right scratch = none
merge_helper (suc fuel) input left right scratch =
    let length = right - left in
    let midpoint_distance = length / 2 in
    let sort_both = (do
      (half_sorted, scratch_a) ← merge_helper fuel input left (left + midpoint_distance) scratch
      (both_sorted, scratch_b) ←
          merge_helper fuel half_sorted (left + midpoint_distance) right scratch_a
      scratch_c ←
          fill_scratch both_sorted (left + midpoint_distance) right left (left + midpoint_distance)
            0 length scratch_b
      merged ← copy_back scratch_c left left length both_sorted
      some (merged, scratch_c)) in
    if right == left + 1 then some (input, scratch) else sort_both

-- The scratch array is what `malloc` returns, `none` for NULL; the result is that of the C code.
unfoldable pub mergesort :
    (fuel : ℕ) (input : List ℤ) (size : ℕ) → Option (List ℤ) → Option (ℕ × List ℤ)
mergesort fuel input size none = some (0, input)
mergesort fuel input size (some scratch) = do
  (sorted, used) ← merge_helper fuel input 0 size scratch
  some (1, sorted)
