-- ===== src/Sort/Halves.antt =====
-- The two loops of `merge_helper`: merging the sorted halves into the scratch array, and copying
-- them back.
use university_coursework.Base.{
  ℕ, zero, suc, ◌+◌, ◌-◌, ◌≤◌, ◌<◌, ◌≡◌, refl, ap, ap₂, ◌∙◌, true, false, some, List, [], length,
  arith, Bool-cases, inl, inr, if◌then◌else◌, get_or, get_elem?-eq-get_or, set, store_of_lt,
  length-set, ℤ, pos, to_ulong, write_all, lt→ltb, ltb, ◌==◌,
}
use university_coursework.Sort.{goes_first, fill_scratch, copy_back}
use university_coursework.Sort.Merge.{part}
use university_coursework.Sort.Weave.{
  Decides, weave, weave-nil, weave-nil_left, weave_first, weave_second,
}

-- The order of the ints converted to `unsigned long`.
infix 50 ◌≤u◌
abbrev pub ◌≤u◌ : ℤ → ℤ → Type 0
x ≤u y = to_ulong x ≤ to_ulong y

pub goes_first-Decides : Decides goes_first ◌≤u◌
unfolding goes_first
goes_first-Decides = record {
  yes_le = λ x y e. goes_le (to_ulong x) (to_ulong y) e;
  no_le = λ x y e. stays_le (to_ulong x) (to_ulong y) e;
  trans = λ x y z a b. omega arith;
}
  where
    goes_le : (m n : ℕ) → ((if ltb n m then n else m) == m) ≡ true → m ≤ n
    goes_le m n e = ground arith

    stays_le : (m n : ℕ) → ((if ltb n m then n else m) == m) ≡ false → n ≤ m
    stays_le m n e = ground arith

module _ (input : List ℤ) (middle right : ℕ) (bound : right ≤ length input)
    (lo : middle ≤ right) where
  abbrev item : ℕ → ℤ
  item i = get_or input i (pos 0)

  abbrev next : ℕ → ℕ → ℕ → ℕ → List ℤ
  next l la r rb = weave goes_first (part input l la) (part input r rb)

  in_left : (l : ℕ) → l < middle → ltb l middle ≡ true
  in_left l h = lt→ltb l middle h

  not_left : (l : ℕ) → middle ≤ l → ltb l middle ≡ false
  not_left l h = ground arith

  at_end : (r : ℕ) → r ≡ right → (r == right) ≡ true
  at_end r h = ground arith

  before_end : (r : ℕ) → r < right → (r == right) ≡ false
  before_end r h = ground arith

  pub fill_scratch_lem :
      (l la r rb i rounds : ℕ) (scratch : List ℤ)
      → l + la ≡ middle
      → r + rb ≡ right
      → rounds ≡ la + rb
      → i + rounds ≤ length scratch
      → fill_scratch input middle right l r i rounds scratch
        ≡ some (write_all scratch i (next l la r rb))
  unfolding fill_scratch
  fill_scratch_lem l zero r zero i zero scratch el er e h = rw (weave-nil_left goes_first []) refl
  fill_scratch_lem l zero r zero i (suc rounds) scratch el er e h = absurd (omega arith)
  fill_scratch_lem l zero r (suc rb) i zero scratch el er e h = absurd (omega arith)
  fill_scratch_lem l (suc la) r rb i zero scratch el er e h = absurd (omega arith)
  fill_scratch_lem l zero r (suc rb) i (suc rounds) scratch el er e h =
      rw
        (
          not_left l (omega arith),
          get_elem?-eq-get_or input r (pos 0) (omega arith),
          store_of_lt scratch i (item r) (omega arith),
          weave-nil_left goes_first (part input r (suc rb)),
        )
        (fill_scratch_lem l zero (r + 1) rb (i + 1) rounds (set scratch i (item r)) el (omega arith)
            (omega arith) (omega (arith, length-set scratch i (item r)))
          ∙ ap (λ ws. some (write_all (set scratch i (item r)) (i + 1) ws))
              (weave-nil_left goes_first (part input (r + 1) rb))
          ∙ ap₂ (λ j k. some (write_all (set scratch i (item r)) j (part input k rb))) (omega arith)
              (omega arith))
  fill_scratch_lem l (suc la) r zero i (suc rounds) scratch el er e h =
      rw
        (
          in_left l (omega arith),
          at_end r (omega arith),
          get_elem?-eq-get_or input l (pos 0) (omega arith),
          store_of_lt scratch i (item l) (omega arith),
          weave-nil goes_first (part input l (suc la)),
        )
        (fill_scratch_lem (l + 1) la r zero (i + 1) rounds (set scratch i (item l)) (omega arith) er
            (omega arith) (omega (arith, length-set scratch i (item l)))
          ∙ ap (λ ws. some (write_all (set scratch i (item l)) (i + 1) ws))
              (weave-nil goes_first (part input (l + 1) la))
          ∙ ap₂ (λ j k. some (write_all (set scratch i (item l)) j (part input k la))) (omega arith)
              (omega arith))
  fill_scratch_lem l (suc la) r (suc rb) i (suc rounds) scratch el er e h =
      rw
        (
          in_left l (omega arith),
          before_end r (omega arith),
          get_elem?-eq-get_or input l (pos 0) (omega arith),
          get_elem?-eq-get_or input r (pos 0) (omega arith),
        )
        (elim (Bool-cases (goes_first (item l) (item r))) [
          | inl first ↦
              rw
                (
                  first,
                  store_of_lt scratch i (item l) (omega arith),
                  weave_first goes_first (item l) (item r) (part input (suc l) la)
                      (part input (suc r) rb) first,
                )
                (fill_scratch_lem (l + 1) la r (suc rb) (i + 1) rounds (set scratch i (item l))
                    (omega arith) er (omega arith) (omega (arith, length-set scratch i (item l)))
                  ∙ ap₂ (λ j k. some (write_all (set scratch i (item l)) j (next k la r (suc rb))))
                      (omega arith) (omega arith))
          | inr second ↦
              rw
                (
                  second,
                  store_of_lt scratch i (item r) (omega arith),
                  weave_second goes_first (item l) (item r) (part input (suc l) la)
                      (part input (suc r) rb) second,
                )
                (fill_scratch_lem l (suc la) (r + 1) rb (i + 1) rounds (set scratch i (item r)) el
                    (omega arith) (omega arith) (omega (arith, length-set scratch i (item r)))
                  ∙ ap₂ (λ j k. some (write_all (set scratch i (item r)) j (next l (suc la) k rb)))
                      (omega arith) (omega arith))
        ])

pub copy_back_lem :
    (scratch : List ℤ) (left k rounds : ℕ) (input : List ℤ)
    → k + rounds ≤ length scratch
    → left + k + rounds ≤ length input
    → copy_back scratch left (left + k) rounds input
      ≡ some (write_all input (left + k) (part scratch k rounds))
unfolding copy_back
copy_back_lem scratch left k zero input hs hi = refl
copy_back_lem scratch left k (suc rounds) input hs hi =
    let x = get_or scratch k (pos 0) in
    let at : left + k - left ≡ k = omega arith in
    rw
      (
        at,
        get_elem?-eq-get_or scratch k (pos 0) (omega arith),
        store_of_lt input (left + k) x (omega arith),
      )
      (ap (λ i. copy_back scratch left i rounds (set input (left + k) x)) (omega arith)
        ∙ copy_back_lem scratch left (k + 1) rounds (set input (left + k) x) (omega arith)
            (omega (arith, length-set input (left + k) x))
        ∙ ap₂ (λ i j. some (write_all (set input (left + k) x) i (part scratch j rounds)))
            (omega arith) (omega arith))
