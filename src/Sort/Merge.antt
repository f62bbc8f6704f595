-- ===== src/Sort/Merge.antt =====
-- `merge` of serial_sort.c fills the output with the two inputs merged.
use university_coursework.Base.{
  ℕ, zero, suc, ◌+◌, ◌*◌, ◌≤◌, ◌≡◌, refl, ap₂, ◌∙◌, some, List, ◌++◌, length, arith, Bool-cases,
  inl, inr, get_or, get_elem?-eq-get_or, set, store_of_lt, length-set, ℤ, pos, ltb_ℤ, ◌≤ℤ◌, span,
  write_all, length-span,
}
use mathlib.Core.List.{Perm}
use university_coursework.Sort.{copy_rest, merge_from, merge}
use university_coursework.Sort.Weave.{
  Sorted, Decides, weave, weave-nil, weave-nil_left, weave_first, weave_second, weave-perm,
  weave-Sorted, length-weave,
}

-- The stretch of an array of ints.
abbrev pub part : List ℤ → ℕ → ℕ → List ℤ
part = span (pos 0)

pub ltb_ℤ-Decides : Decides ltb_ℤ ◌≤ℤ◌
ltb_ℤ-Decides = record {
  yes_le = λ x y e. ground arith;
  no_le = λ x y e. ground arith;
  trans = λ x y z a b. omega arith;
}

copy_rest_lem :
    (b : List ℤ) (cur rounds curout : ℕ) (out : List ℤ)
    → cur + rounds ≤ length b
    → curout + rounds ≤ length out
    → copy_rest b cur rounds curout out ≡ some (write_all out curout (part b cur rounds))
unfolding copy_rest
copy_rest_lem b cur zero curout out hb ho = refl
copy_rest_lem b cur (suc rounds) curout out hb ho =
    let x = get_or b cur (pos 0) in
    rw (get_elem?-eq-get_or b cur (pos 0) (omega arith), store_of_lt out curout x (omega arith))
      (copy_rest_lem b (cur + 1) rounds (curout + 1) (set out curout x) (omega arith)
          (omega (arith, length-set out curout x))
        ∙ ap₂ (λ i j. some (write_all (set out curout x) i (part b j rounds))) (omega arith)
            (omega arith))

merge_from_lem :
    (a b : List ℤ) (cura ra curb rb curout : ℕ) (out : List ℤ)
    → cura + ra ≤ length a
    → curb + rb ≤ length b
    → curout + ra + rb ≤ length out
    → merge_from a b cura ra curb rb curout out
      ≡ some (write_all out curout (weave ltb_ℤ (part a cura ra) (part b curb rb)))
unfolding merge_from
merge_from_lem a b cura zero curb rb curout out ha hb ho =
    rw (weave-nil_left ltb_ℤ (part b curb rb)) (copy_rest_lem b curb rb curout out hb (omega arith))
merge_from_lem a b cura (suc ra) curb zero curout out ha hb ho =
    rw (weave-nil ltb_ℤ (part a cura (suc ra)))
      (copy_rest_lem a cura (suc ra) curout out ha (omega arith))
merge_from_lem a b cura (suc ra) curb (suc rb) curout out ha hb ho =
    let x = get_or a cura (pos 0) in
    let y = get_or b curb (pos 0) in
    rw
      (
        get_elem?-eq-get_or a cura (pos 0) (omega arith),
        get_elem?-eq-get_or b curb (pos 0) (omega arith),
      )
      (elim (Bool-cases (ltb_ℤ x y)) [
        | inl e ↦
            rw
              (
                e,
                store_of_lt out curout x (omega arith),
                weave_first ltb_ℤ x y (part a (suc cura) ra) (part b (suc curb) rb) e,
              )
              (merge_from_lem a b (cura + 1) ra curb (suc rb) (curout + 1) (set out curout x)
                  (omega arith) hb (omega (arith, length-set out curout x))
                ∙ ap₂
                    (λ i j. some (
                      write_all (set out curout x) i
                        (weave ltb_ℤ (part a j ra) (part b curb (suc rb)))))
                    (omega arith) (omega arith))
        | inr e ↦
            rw
              (
                e,
                store_of_lt out curout y (omega arith),
                weave_second ltb_ℤ x y (part a (suc cura) ra) (part b (suc curb) rb) e,
              )
              (merge_from_lem a b cura (suc ra) (curb + 1) rb (curout + 1) (set out curout y) ha
                  (omega arith) (omega (arith, length-set out curout y))
                ∙ ap₂
                    (λ i j. some (
                      write_all (set out curout y) i
                        (weave ltb_ℤ (part a cura (suc ra)) (part b j rb))))
                    (omega arith) (omega arith))
      ])

-- `merge` is defined where both inputs hold `n` ints, each ascending, and the output has room for
-- all of them. The output then starts with the ints of the two inputs in ascending order, each as
-- often as there, and is otherwise as before.
pub merge_merges :
    (a b : List ℤ) (n : ℕ) (out : List ℤ)
    → n ≤ length a
    → n ≤ length b
    → 2 * n ≤ length out
    → Sorted ◌≤ℤ◌ (part a 0 n)
    → Sorted ◌≤ℤ◌ (part b 0 n)
    → (zs : List ℤ) × (merge a b n out ≡ some (write_all out 0 zs))
      × (length zs ≡ 2 * n)
      × Perm zs (part a 0 n ++ part b 0 n)
      × Sorted ◌≤ℤ◌ zs
unfolding merge
merge_merges a b n out ha hb ho sa sb = (
  weave ltb_ℤ (part a 0 n) (part b 0 n),
  merge_from_lem a b 0 n 0 n 0 out (omega arith) (omega arith) (omega arith),
  omega (
    arith,
    length-weave ltb_ℤ (part a 0 n) (part b 0 n),
    length-span (pos 0) a 0 n,
    length-span (pos 0) b 0 n,
  ),
  weave-perm ltb_ℤ (part a 0 n) (part b 0 n),
  weave-Sorted ltb_ℤ ◌≤ℤ◌ ltb_ℤ-Decides (part a 0 n) (part b 0 n) sa sb,
)
