-- ===== src/Schedule/Owner.antt =====
-- The process that is asked for a row, and that the division of doubles finds it.
use native.Mathlib.Nat.{div-mul-le_self, lt-div-mul-add, le-div_iff_mul-le}
use university_coursework.Base.{
  ℕ, ◌+◌, ◌-◌, ◌*◌, ◌/◌, ◌≤◌, ◌<◌, ◌≡◌, refl, subst, some, if◌then◌else◌, leb, arith, dec_lt, ◌^◌,
}
use university_coursework.Double.{double_limit}
use university_coursework.Double.Exact.{floor_div_lem}
use university_coursework.Schedule.{rank_limit, source_rank}

-- The process that `matrix_read` gives the row, where all get `size` rows and the last one the rest.
abbrev pub owner : (p size j : ℕ) → ℕ
owner p size j = if leb p (j / size) then p - 1 else j / size

pub owner_lt : (p size j : ℕ) → 0 < p → owner p size j < p
owner_lt p size j h = pick p (j / size) h
  where
    pick : (p q : ℕ) → 0 < p → (if leb p q then p - 1 else q) < p
    pick p q h = ground arith

pub source_rank_lem :
    (p size j : ℕ)
    → 0 < size
    → size < double_limit
    → j < double_limit
    → j / size < rank_limit
    → source_rank p size j ≡ some (owner p size j)
unfolding source_rank
source_rank_lem p size j h small small' rank =
    rw (floor_div_lem rank_limit j size h small' small rank) refl

-- With few processes, the quotient of a column is a rank.
pub quotient_lt :
    (p m j : ℕ) → p * p < rank_limit → 0 < p → p ≤ m → j < m → j / (m / p) < rank_limit
quotient_lt p m j few some_process enough inside =
    let size : 0 < m / p =
      (le-div_iff_mul-le {k = p} {x = 1} {y = m} some_process).1 (omega arith) in
    let low : j / (m / p) * (m / p) ≤ j = div-mul-le_self j (m / p) in
    let high : m < m / p * p + p = lt-div-mul-add {a = m} {b = p} some_process in
    let twice = short (j / (m / p)) (m / p) p size (omega (arith, turned (m / p) p)) in
    omega (arith, root p few)
  where
    turned : (a b : ℕ) → a * b ≡ b * a
    turned a b = grind arith

    root : (a : ℕ) → a * a < rank_limit → a < 2 ^ 16
    root a h = elim (dec_lt a (2 ^ 16)) [
      | yes small ↦ small
      | no large ↦ absurd (omega (arith, square a (omega arith)))
    ]
      where
        square : (a : ℕ) → 2 ^ 16 ≤ a → 2 ^ 16 * 2 ^ 16 ≤ a * a
        square a h = grind arith

    part : (s p : ℕ) → 0 < s → p ≤ p * s
    part s p h = grind arith

    more : (q s p : ℕ) → 2 * p ≤ q → 2 * (p * s) ≤ q * s
    more q s p h = subst (λ k. k ≤ q * s) (twice_of p s) (scaled (2 * p) q s h)
      where
        twice_of : (p s : ℕ) → 2 * p * s ≡ 2 * (p * s)
        twice_of p s = grind arith

        scaled : (a b s : ℕ) → a ≤ b → a * s ≤ b * s
        scaled a b s h = grind arith

    short : (q s p : ℕ) → 0 < s → q * s < p * s + p → q < 2 * p
    short q s p h k = elim (dec_lt q (2 * p)) [
      | yes small ↦ small
      | no large ↦ absurd (omega (arith, part s p h, more q s p (omega arith)))
    ]

pub quotient_le : (m p : ℕ) → 0 < p → m / p ≤ m
quotient_le m p h = omega (arith, div-mul-le_self m p, at_least (m / p) p h)
  where
    at_least : (a b : ℕ) → 0 < b → a ≤ a * b
    at_least a b h = grind arith
