-- ===== src/Sort/Mergesort.antt =====
-- `merge_helper` and `mergesort` of serial_sort.c sort, by the order that the code compares with.
use university_coursework.Base.{
  ℕ, zero, suc, ◌+◌, ◌-◌, ◌/◌, ◌≤◌, ◌<◌, ◌^◌, ◌≡◌, refl, sym, ap, ap₂, ◌∙◌, true, false, some, none,
  List, [], ◌∷◌, ◌++◌, length, arith, ◌>>=◌, store, inl, inr, get_or, set-get_or, ℤ, pos, negsuc,
  write_all, length-write_all, span-write_all, span-write_outside, span-append, write_all-cover,
  ℕ_discrete, subst, ◌==◌,
}
use mathlib.Core.List.{Perm}
use mathlib.Core.List.Perm
use university_coursework.Sort.{goes_first, min, fill_scratch, copy_back, merge_helper, mergesort}
use university_coursework.Sort.Merge.{part}
use university_coursework.Sort.Halves.{◌≤u◌, goes_first-Decides, fill_scratch_lem, copy_back_lem}
use university_coursework.Sort.Weave.{Sorted, weave, weave-perm, weave-Sorted, length-weave}

-- What a call of `merge_helper` on `n` ints from `left` on leaves.
pub record Sorts (input : List ℤ) (left n : ℕ) (zs : List ℤ) : Type 0 where
  pub size : length zs ≡ n
  pub same : Perm zs (part input left n)
  pub order : Sorted ◌≤u◌ zs

-- The call's outcome: the input with the stretch sorted, and some scratch array of the same length.
abbrev pub Outcome : ℕ → List ℤ → ℕ → ℕ → List ℤ → Type 0
Outcome fuel input left n scratch =
    (zs : List ℤ) × (used : List ℤ) × (merge_helper fuel input left (left + n) scratch
      ≡ some (write_all input left zs, used))
    × (length used ≡ length scratch)
    × Sorts input left n zs

==-refl : (n : ℕ) → (n == n) ≡ true
==-refl n = ground arith

one_int :
    (fuel : ℕ) (input : List ℤ) (left : ℕ) (scratch : List ℤ)
    → Outcome (suc fuel) input left 1 scratch
unfolding merge_helper
one_int fuel input left scratch =
    let x = get_or input left (pos 0) in
    (
      x ∷ [],
      scratch,
      rw (==-refl (left + 1), set-get_or input left (pos 0)) refl,
      refl,
      record { size = refl; same = Perm.refl (x ∷ []); order = (tt, tt) },
    )

-- The halves are sorted one after the other and merged.
module _ (fuel : ℕ) (input : List ℤ) (left n : ℕ) (scratch : List ℤ) (many : 1 < n)
    (fits : left + n ≤ length input) (room : n ≤ length scratch) where
  abbrev m : ℕ
  m = n / 2

  abbrev k : ℕ
  k = n - n / 2

  split_step :
      (in_one in_two s_one s_two s_three out : List ℤ)
      → merge_helper fuel input left (left + m) scratch ≡ some (in_one, s_one)
      → merge_helper fuel in_one (left + m) (left + m + k) s_one ≡ some (in_two, s_two)
      → fill_scratch in_two (left + m) (left + n) left (left + m) 0 n s_two ≡ some s_three
      → copy_back s_three left left n in_two ≡ some out
      → merge_helper (suc fuel) input left (left + n) scratch ≡ some (out, s_three)
  unfolding merge_helper
  split_step in_one in_two s_one s_two s_three out e_one e_two e_three e_four =
      let apart : (left + n == left + 1) ≡ false = ground arith in
      let size : left + n - left ≡ n = omega arith in
      let rest : left + m + k ≡ left + n = omega arith in
      rw (apart, size, e_one, sym rest, e_two, rest, e_three, e_four) refl

  -- After both calls the halves hold what the calls left there, and the second half was as it had
  -- been when the second call began.
  halves_kept :
      (z_one z_two : List ℤ)
      → length z_one ≡ m
      → length z_two ≡ k
      → (part (write_all (write_all input left z_one) (left + m) z_two) left m ≡ z_one)
        × (part (write_all (write_all input left z_one) (left + m) z_two) (left + m) k ≡ z_two)
        × (part (write_all input left z_one) (left + m) k ≡ part input (left + m) k)
  halves_kept z_one z_two e_one e_two =
      let in_one = write_all input left z_one in
      let len_one = length-write_all input left z_one in
      (
        span-write_outside (pos 0) in_one (left + m) z_two left m (inl (omega arith))
            ∙ ap (part in_one left) (sym e_one)
            ∙ span-write_all (pos 0) input left z_one (omega arith),
        ap (part (write_all in_one (left + m) z_two) (left + m)) (sym e_two)
            ∙ span-write_all (pos 0) in_one (left + m) z_two (omega arith),
        span-write_outside (pos 0) input left z_one (left + m) k (inr (omega arith)),
      )

  merged_same :
      (z_one z_two : List ℤ)
      → Perm z_one (part input left m)
      → Perm z_two (part input (left + m) k)
      → Perm (weave goes_first z_one z_two) (part input left n)
  merged_same z_one z_two p_one p_two =
      let joined : part input left n ≡ part input left m ++ part input (left + m) k =
        ap (part input left) (omega arith) ∙ span-append (pos 0) input left m k in
      rw joined (Perm.trans (weave-perm goes_first z_one z_two) (Perm.append p_one p_two))

  fill_both :
      (z_one z_two s_two : List ℤ)
      → length z_one ≡ m
      → length z_two ≡ k
      → length s_two ≡ length scratch
      → fill_scratch
          (write_all (write_all input left z_one) (left + m) z_two)
          (left + m)
          (left + n)
          left
          (left + m)
          0
          n
          s_two
        ≡ some (write_all s_two 0 (weave goes_first z_one z_two))
  fill_both z_one z_two s_two e_one e_two e_s =
      let in_one = write_all input left z_one in
      let in_two = write_all in_one (left + m) z_two in
      let (kept_one, kept_two, _) = halves_kept z_one z_two e_one e_two in
      fill_scratch_lem in_two (left + m) (left + n)
        (omega (arith, length-write_all in_one (left + m) z_two, length-write_all input left z_one))
        (omega arith) left m (left + m) k 0 n s_two refl (omega arith) (omega arith) (omega arith)
      ∙ ap₂ (λ l r. some (write_all s_two 0 (weave goes_first l r))) kept_one kept_two

  copy_both :
      (z_one z_two zs s_two : List ℤ)
      → length z_one ≡ m
      → length z_two ≡ k
      → length zs ≡ n
      → length s_two ≡ length scratch
      → copy_back
          (write_all s_two 0 zs)
          left
          left
          n
          (write_all (write_all input left z_one) (left + m) z_two)
        ≡ some (write_all input left zs)
  copy_both z_one z_two zs s_two e_one e_two e_zs e_s =
      let in_one = write_all input left z_one in
      let in_two = write_all in_one (left + m) z_two in
      let len_one = length-write_all input left z_one in
      ap (λ i. copy_back (write_all s_two 0 zs) left i n in_two) (omega arith)
      ∙ copy_back_lem (write_all s_two 0 zs) left 0 n in_two
          (omega (arith, length-write_all s_two 0 zs))
          (omega
            (arith, length-write_all in_one (left + m) z_two, length-write_all input left z_one))
      ∙ ap₂ (λ i ws. some (write_all in_two i ws)) (omega arith)
          (ap (part (write_all s_two 0 zs) 0) (sym e_zs)
            ∙ span-write_all (pos 0) s_two 0 zs (omega arith))
      ∙ ap some (
          write_all-cover (pos 0) in_one left (left + m) z_two zs (omega arith) (omega arith)
            (omega arith)
          ∙ write_all-cover (pos 0) input left left z_one zs (omega arith) (omega arith)
              (omega arith))

  join :
      (z_one s_one z_two s_two : List ℤ)
      → merge_helper fuel input left (left + m) scratch ≡ some (write_all input left z_one, s_one)
      → merge_helper fuel (write_all input left z_one) (left + m) (left + m + k) s_one
        ≡ some (write_all (write_all input left z_one) (left + m) z_two, s_two)
      → length s_two ≡ length scratch
      → Sorts input left m z_one
      → Sorts (write_all input left z_one) (left + m) k z_two
      → Outcome (suc fuel) input left n scratch
  join z_one s_one z_two s_two run_one run_two len_s first second =
      let in_one = write_all input left z_one in
      let zs = weave goes_first z_one z_two in
      let size : length zs ≡ n =
        omega (arith, length-weave goes_first z_one z_two, first.size, second.size) in
      let (_, _, untouched) = halves_kept z_one z_two first.size second.size in
      let same_two : Perm z_two (part input (left + m) k) =
        subst (Perm z_two) untouched second.same in
      (
        zs,
        write_all s_two 0 zs,
        split_step in_one (write_all in_one (left + m) z_two) s_one s_two (write_all s_two 0 zs)
            (write_all input left zs) run_one run_two
            (fill_both z_one z_two s_two first.size second.size len_s)
            (copy_both z_one z_two zs s_two first.size second.size size len_s),
        length-write_all s_two 0 zs ∙ len_s,
        record {
          size = size;
          same = merged_same z_one z_two first.same same_two;
          order =
              weave-Sorted goes_first ◌≤u◌ goes_first-Decides z_one z_two first.order second.order;
        },
      )

-- The call sorts every stretch of at least one int, where `fuel` is at least its length.
pub merge_helper_lem :
    (fuel : ℕ) (input : List ℤ) (left n : ℕ) (scratch : List ℤ)
    → 0 < n
    → n ≤ fuel
    → left + n ≤ length input
    → n ≤ length scratch
    → Outcome fuel input left n scratch
merge_helper_lem zero input left n scratch some_int enough fits room = absurd (omega arith)
merge_helper_lem (suc fuel) input left n scratch some_int enough fits room = elim (ℕ_discrete n 1) [
  | yes one ↦
      subst (λ j. Outcome (suc fuel) input left j scratch) (sym one)
        (one_int fuel input left scratch)
  | no more ↦
      let (z_one, s_one, run_one, len_one, sorts_one) =
        merge_helper_lem fuel input left (n / 2) scratch (omega arith) (omega arith) (omega arith)
          (omega arith) in
      let (z_two, s_two, run_two, len_two, sorts_two) =
        merge_helper_lem fuel (write_all input left z_one) (left + n / 2) (n - n / 2) s_one
          (omega arith) (omega arith) (omega (arith, length-write_all input left z_one))
          (omega arith) in
      join fuel input left n scratch (omega arith) fits room z_one s_one z_two s_two run_one run_two
        (len_two ∙ len_one) sorts_one sorts_two
]

-- Where `malloc` gives a scratch array of `size` ints and the input holds at least `size` ints,
-- `mergesort` of at least one int returns 1, with fuel `size` or more. The input then starts with
-- the same ints, each as often as before, in ascending order of their conversions to
-- `unsigned long`, and is as before from index `size` on.
pub mergesort_sorts :
    (fuel : ℕ) (input : List ℤ) (size : ℕ) (scratch : List ℤ)
    → 0 < size
    → size ≤ fuel
    → size ≤ length input
    → size ≤ length scratch
    → (zs : List ℤ) × (mergesort fuel input size (some scratch) ≡ some (1, write_all input 0 zs))
      × (length zs ≡ size)
      × Perm zs (part input 0 size)
      × Sorted ◌≤u◌ zs
unfolding mergesort
mergesort_sorts fuel input size scratch some_int enough fits room =
    let (zs, used, run, _, sorts) =
      merge_helper_lem fuel input 0 size scratch some_int enough (omega arith) room in
    let start : size ≡ 0 + size = omega arith in
    (
      zs,
      ap (λ j. merge_helper fuel input 0 j scratch >>= λ out. some (1, out.0)) start ∙ rw run refl,
      sorts.size,
      sorts.same,
      sorts.order,
    )

-- `merge_helper` on an empty stretch returns with no amount of fuel.
pub empty_never_returns :
    (fuel : ℕ) (input : List ℤ) (left : ℕ) (scratch : List ℤ)
    → merge_helper fuel input left left scratch ≡ none
unfolding merge_helper
empty_never_returns zero input left scratch = refl
empty_never_returns (suc fuel) input left scratch =
    let apart : (left == left + 1) ≡ false = ground arith in
    let empty : left - left ≡ 0 = omega arith in
    let start : left + 0 ≡ left = omega arith in
    rw (apart, empty, start, empty_never_returns fuel input left scratch) refl

negative_not_first : (a b : ℕ) → a < 2 ^ 31 → b < 2 ^ 31 → goes_first (negsuc a) (pos b) ≡ false
unfolding goes_first min
negative_not_first a b ha hb = ground arith

-- An `int` below zero that stands before one that is not is out of order for the code: of the two,
-- `mergesort` leaves the negative one last.
pub negative_goes_last :
    (a b fuel : ℕ) (s t : ℤ)
    → a < 2 ^ 31
    → b < 2 ^ 31
    → mergesort (suc (suc fuel)) (negsuc a ∷ pos b ∷ []) 2 (some (s ∷ t ∷ []))
      ≡ some (1, pos b ∷ negsuc a ∷ [])
unfolding mergesort merge_helper fill_scratch copy_back store
negative_goes_last a b fuel s t ha hb = rw (negative_not_first a b ha hb) refl
