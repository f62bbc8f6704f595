-- ===== src/Double.antt =====
-- `floor((double)a / (double)b)` on unsigned integers of 64 bits, as Parallel
-- Computing/HW5/mpi_matrix.c has it: numbers of binary64, rounded to the nearest, ties to even.
pub mod Exact
mod Tests
use university_coursework.Base.{
  ℕ, zero, suc, ◌+◌, ◌-◌, ◌*◌, ◌/◌, ◌%◌, ◌^◌, Option, none, some, if◌then◌else◌, ltb, leb, ◌==◌,
  ◌&&◌, ◌||◌,
}

-- Below this, every integer is a double.
abbrev pub double_limit : ℕ
double_limit = 2 ^ 53

-- The distance of the doubles at `n`, from the distance `u` on. Twelve rounds are enough below 2 ^ 65.
unfoldable pub ulp_from : (rounds u n : ℕ) → ℕ
ulp_from zero u n = u
ulp_from (suc rounds) u n =
    let wider = ulp_from rounds (2 * u) n in if ltb n (u * double_limit) then u else wider

unfoldable pub ulp : ℕ → ℕ
unfolding ulp_from
ulp n = ulp_from 12 1 n

-- The integer that is nearest to `x / d`, the even one of two.
unfoldable pub half_even : (x d : ℕ) → ℕ
half_even x d =
    if ltb (2 * (x % d)) d || (2 * (x % d) == d && x / d % 2 == 0) then x / d else x / d + 1

unfoldable pub to_double : ℕ → ℕ
unfolding ulp half_even
to_double n = half_even n (ulp n) * ulp n

-- The largest power of two that is at most `n`, from the power `u` on.
unfoldable pub power_below : (rounds u n : ℕ) → ℕ
power_below zero u n = u
power_below (suc rounds) u n =
    let larger = power_below rounds (2 * u) n in if leb (2 * u) n then larger else u

-- The quotient of two doubles that are integers, rounded, and then its floor. Below 2 ^ 52 the doubles
-- have a fraction, and the rounding reaches the next integer only from half of their distance; from
-- 2 ^ 52 on the doubles are integers.
unfoldable pub floor_quotient : (x y : ℕ) → ℕ
unfolding power_below half_even ulp
floor_quotient x y =
    let q = x / y in
    let reaches = leb (((q + 1) * y - x) * double_limit) (y * power_below 52 1 q) in
    let below = (if q == 0 then 0 else if reaches then q + 1 else q) in
    let above = half_even x (y * ulp q) * ulp q in if ltb q (2 ^ 52) then below else above

-- The conversion to an unsigned integer below `limit`; `none` where the quotient is not one.
unfoldable pub floor_div : (limit a b : ℕ) → Option ℕ
unfolding to_double floor_quotient
floor_div limit a b =
    let q = floor_quotient (to_double a) (to_double b) in
    if b == 0 then none else if ltb q limit then some q else none
