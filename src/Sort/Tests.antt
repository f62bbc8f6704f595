-- ===== src/Sort/Tests.antt =====
-- The merge sort of serial_sort.c on concrete arrays.
use university_coursework.Base.{
  ◌≡◌, refl, some, none, List, [], ◌∷◌, ◌++◌, arith, length, ℤ, pos, negsuc, write_all, ◌≤ℤ◌, store,
}
use mathlib.Core.List.{Perm}
use university_coursework.Sort.{merge, merge_from, copy_rest, mergesort, merge_helper}
use university_coursework.Sort.Weave.{Sorted}
use university_coursework.Sort.Merge.{part, merge_merges}
use university_coursework.Sort.Halves.{◌≤u◌}
use university_coursework.Sort.Mergesort.{mergesort_sorts, empty_never_returns, negative_goes_last}

abbrev ascending : List ℤ
ascending = negsuc 1 ∷ pos 4 ∷ []

abbrev above : List ℤ
above = pos 2 ∷ pos 7 ∷ []

abbrev blank : List ℤ
blank = pos 0 ∷ pos 0 ∷ pos 0 ∷ pos 0 ∷ []

abbrev mixed : List ℤ
mixed = pos 5 ∷ pos 2 ∷ pos 9 ∷ []

merge_run : merge ascending above 2 blank ≡ some (negsuc 1 ∷ pos 2 ∷ pos 4 ∷ pos 7 ∷ [])
unfolding merge merge_from store copy_rest
merge_run = refl

mergesort_run : mergesort 3 mixed 3 (some blank) ≡ some (1, pos 2 ∷ pos 5 ∷ pos 9 ∷ [])
unfolding mergesort merge_helper store
mergesort_run = refl

merge_merges_example :
    (zs : List ℤ) × (merge ascending above 2 blank ≡ some (write_all blank 0 zs))
    × (length zs ≡ 4)
    × Perm zs (part ascending 0 2 ++ part above 0 2)
    × Sorted ◌≤ℤ◌ zs
merge_merges_example =
    merge_merges ascending above 2 blank (omega arith) (omega arith) (omega arith)
      ((omega arith, tt), (tt, tt)) ((omega arith, tt), (tt, tt))

mergesort_sorts_example :
    (zs : List ℤ) × (mergesort 3 mixed 3 (some blank) ≡ some (1, write_all mixed 0 zs))
    × (length zs ≡ 3)
    × Perm zs (part mixed 0 3)
    × Sorted ◌≤u◌ zs
mergesort_sorts_example =
    mergesort_sorts 3 mixed 3 blank (omega arith) (omega arith) (omega arith) (omega arith)

empty_never_returns_example : merge_helper 9 mixed 1 1 blank ≡ none
empty_never_returns_example = empty_never_returns 9 mixed 1 blank

negative_goes_last_example :
    mergesort 2 (negsuc 0 ∷ pos 1 ∷ []) 2 (some (pos 0 ∷ pos 0 ∷ []))
    ≡ some (1, pos 1 ∷ negsuc 0 ∷ [])
negative_goes_last_example = negative_goes_last 0 1 0 (pos 0) (pos 0) (omega arith) (omega arith)
