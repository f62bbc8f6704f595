-- ===== src/Exchange/Shares.antt =====
-- The rows that each process has, and the schedules that all of them build.
use native.Mathlib.Nat.{div-mul-le_self, lt-div-mul-add, le-div_iff_mul-le}
use university_coursework.Base.{
  ℕ, zero, suc, ◌+◌, ◌-◌, ◌*◌, ◌/◌, ◌≤◌, ◌<◌, ◌≡◌, ◌≢◌, refl, sym, subst, Bool, true, false, some,
  if◌then◌else◌, leb, ◌==◌, arith, ◌⊎◌, inl, inr, Bool-cases, ==_iff, ℕ_discrete,
}
use university_coursework.Matrix.{Matrix}
use university_coursework.Matrix.Valid.{IsValid}
use university_coursework.Schedule.{Schedule, rank_limit, comm_schedule_init}
use university_coursework.Schedule.Add.{IsCounted, init-IsCounted}
use university_coursework.Schedule.Owner.{owner}
use university_coursework.Schedule.Build.{IsAsked, IsNarrowAll, IsServedRows, build_schedule_lem}
use university_coursework.Double.{double_limit}
use university_coursework.Exchange.{update, build_all}

-- The stretch that `matrix_read` gives to a process.
abbrev pub share_from : (p m r : ℕ) → ℕ
share_from p m r = r * (m / p)

abbrev pub share_to : (p m r : ℕ) → ℕ
share_to p m r = if r == p - 1 then m - 1 else (r + 1) * (m / p) - 1

-- A process's part of a matrix with `m` rows.
pub record IsShare {V : Type 0} (p m r : ℕ) (mat : Matrix V) : Type 0 where
  pub valid : IsValid mat
  pub same_m : mat.m ≡ m
  pub same_from : mat.from_i ≡ share_from p m r
  pub same_to : mat.to_i ≡ share_to p m r

-- The process that is asked for a row has it.
pub owner_has_row :
    (p m e : ℕ)
    → 0 < p
    → p ≤ m
    → e < m
    → (owner p (m / p) e < p)
      × (share_from p m (owner p (m / p) e) ≤ e)
      × (e ≤ share_to p m (owner p (m / p) e))
owner_has_row p m e some_process enough inside =
    let size : 0 < m / p =
      (le-div_iff_mul-le {k = p} {x = 1} {y = m} (omega arith)).1 (omega arith) in
    let low : e / (m / p) * (m / p) ≤ e = div-mul-le_self e (m / p) in
    let high : e < e / (m / p) * (m / p) + m / p = lt-div-mul-add {a = e} {b = m / p} size in
    pick (e / (m / p)) (m / p) size low high (Bool-cases (leb p (e / (m / p))))
  where
    capped : (p q s : ℕ) → leb p q ≡ true → (p - 1) * s ≤ q * s
    capped p q s h = mono (p - 1) q s (ground arith)
      where
        mono : (a b s : ℕ) → a ≤ b → a * s ≤ b * s
        mono a b s h = grind arith

    self : (a : ℕ) → (a == a) ≡ true
    self a = ground arith

    one_more : (a b : ℕ) → (a + 1) * b ≡ a * b + b
    one_more a b = grind arith

    before : (p q : ℕ) → 0 < p → leb p q ≡ true → p - 1 < p
    before p q h k = omega arith

    under : (p q : ℕ) → leb p q ≡ false → q < p
    under p q h = ground arith

    upto :
        (q s : ℕ) → e < m → e < q * s + s → (b : Bool) → e ≤ (if b then m - 1 else (q + 1) * s - 1)
    upto q s h k true = omega arith
    upto q s h k false = omega (arith, one_more q s)

    pick :
        (q s : ℕ)
        → 0 < s
        → q * s ≤ e
        → e < q * s + s
        → (leb p q ≡ true) ⊎ (leb p q ≡ false)
        → ((if leb p q then p - 1 else q) < p)
          × ((if leb p q then p - 1 else q) * s ≤ e)
          × (e ≤ (
              if (if leb p q then p - 1 else q) == p - 1
              then m - 1
              else ((if leb p q then p - 1 else q) + 1) * s - 1))
    pick q s size low high (inl past) = rw past (
      before p q some_process past,
      omega (arith, capped p q s past),
      rw (self (p - 1)) (omega arith),
    )
    pick q s size low high (inr short) =
        rw short (under p q short, low, upto q s inside high (q == p - 1))

pub update_self : {A : Type 0} (f : ℕ → A) (r : ℕ) (a : A) → update f r a r ≡ a
unfolding update
update_self f r a = let same : (r == r) ≡ true = (==_iff r r).1 refl in rw same refl

pub update_other : {A : Type 0} (f : ℕ → A) (r : ℕ) (a : A) (k : ℕ) → k ≢ r → update f r a k ≡ f k
unfolding update
update_other f r a k other = elim (Bool-cases (k == r)) [
  | inl same ↦ absurd (other ((==_iff k r).0 same))
  | inr differ ↦ rw differ refl
]

module _ {V : Type 0} where
  -- The schedule of a process lists what it needs.
  pub record IsPlan (p r : ℕ) (mat : Matrix V) (schedule : Schedule) : Type 0 where
    pub counted : IsCounted (IsAsked p mat) p r schedule
    pub served : IsServedRows p mat schedule mat.rows

  pub build_all_lem :
      (p m : ℕ) (mats : ℕ → Matrix V) (count : ℕ)
      → p * p < rank_limit
      → p ≤ m
      → m < double_limit
      → count ≤ p
      → ((r : ℕ) → r < p → IsShare p m r (mats r))
      → ((r : ℕ) → r < p → IsNarrowAll m (mats r).rows)
      → (schedules : ℕ → Schedule) × (build_all p mats count ≡ some schedules)
        × ((r : ℕ) → r < count → IsPlan p r (mats r) (schedules r))
  unfolding build_all
  build_all_lem p m mats zero few enough exact upto shares narrow =
      ((λ (r : ℕ). comm_schedule_init p), refl, λ r h. absurd (omega arith))
  build_all_lem p m mats (suc r) few enough exact upto shares narrow =
      let (schedules, run, plans) =
        build_all_lem p m mats r few enough exact (omega arith) shares narrow in
      let share = shares r (omega arith) in
      let (after, build, counted, served) =
        build_schedule_lem p r (omega arith) few (mats r) (omega (arith, share.same_m))
          (omega (arith, share.same_m)) (comm_schedule_init p) share.valid
          (subst (λ k. IsNarrowAll k (mats r).rows) (sym share.same_m) (narrow r (omega arith)))
          (init-IsCounted (IsAsked p (mats r)) p r (omega arith) few) in
      (
        update schedules r after,
        rw (run, build) refl,
        λ k h. elim (ℕ_discrete k r) [
          | yes same ↦
              subst (λ j. IsPlan p j (mats j) (update schedules r after j)) (sym same)
                (subst (IsPlan p r (mats r)) (sym (update_self schedules r after))
                  (record { counted = counted; served = served }))
          | no other ↦
              subst (IsPlan p k (mats k)) (sym (update_other schedules r after k other))
                (plans k (omega arith))
        ],
      )
