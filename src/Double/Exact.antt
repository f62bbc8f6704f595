-- ===== src/Double/Exact.antt =====
-- Below 2 ^ 53 the division of doubles has the floor of the exact quotient.
use native.Mathlib.Nat.{div-mul-le_self, lt-div-mul-add}
use university_coursework.Base.{
  ℕ, zero, suc, ◌+◌, ◌-◌, ◌*◌, ◌/◌, ◌^◌, ◌≤◌, ◌<◌, ◌≡◌, refl, ap, ap₂, ◌∙◌, some, ltb, leb, ◌==◌,
  true, false, arith, Bool-cases, inl, inr,
}
use university_coursework.Double.{
  double_limit, ulp_from, ulp, half_even, to_double, power_below, floor_quotient, floor_div,
}

pub ulp_lem : (n : ℕ) → n < double_limit → ulp n ≡ 1
unfolding ulp ulp_from
ulp_lem n h = let small : ltb n (1 * double_limit) ≡ true = ground arith in rw small refl

half_even_one : (n : ℕ) → half_even n 1 ≡ n
unfolding half_even
half_even_one n = ground arith

pub to_double_lem : (n : ℕ) → n < double_limit → to_double n ≡ n
unfolding to_double
to_double_lem n h = rw (ulp_lem n h, half_even_one n) (omega arith)

power_below_le : (rounds u n : ℕ) → u ≤ n → power_below rounds u n ≤ n
unfolding power_below
power_below_le zero u n h = h
power_below_le (suc rounds) u n h = elim (Bool-cases (leb (2 * u) n)) [
  | inl more ↦ rw more (power_below_le rounds (2 * u) n (ground arith))
  | inr done ↦ rw done h
]

-- The exact quotient is too far from the next integer.
falls_short :
    (x y q t : ℕ)
    → q * y ≤ x
    → x < q * y + y
    → x < double_limit
    → t ≤ q
    → leb (((q + 1) * y - x) * double_limit) (y * t) ≡ false
falls_short x y q t low high small under =
    let gap : 1 ≤ (q + 1) * y - x = omega (arith, next q y) in
    let part : y * t ≤ q * y = scaled y t q under in
    above (((q + 1) * y - x) * double_limit) (y * t) (omega arith)
  where
    next : (q y : ℕ) → (q + 1) * y ≡ q * y + y
    next q y = grind arith

    scaled : (y t q : ℕ) → t ≤ q → y * t ≤ q * y
    scaled y t q h = grind arith

    above : (a b : ℕ) → b < a → leb a b ≡ false
    above a b h = ground arith

floor_quotient_lem : (x y : ℕ) → 0 < y → x < double_limit → floor_quotient x y ≡ x / y
unfolding floor_quotient
floor_quotient_lem x y positive small =
    let low : x / y * y ≤ x = div-mul-le_self x y in
    let high : x < x / y * y + y = lt-div-mul-add {a = x} {b = y} positive in
    elim (Bool-cases (ltb (x / y) (2 ^ 52))) [
      | inl fraction ↦ elim (Bool-cases (x / y == 0)) [
        | inl none_whole ↦ rw (fraction, none_whole) (zero_of (x / y) none_whole)
        | inr whole ↦
            let far =
              falls_short x y (x / y) (power_below 52 1 (x / y)) low high small
                (power_below_le 52 1 (x / y) (one_of (x / y) whole)) in
            rw (fraction, whole, far) refl
      ]
      | inr whole ↦
          let one : y ≡ 1 = unit (x / y) y positive (large (x / y) whole) (omega arith) in
          let same : x / y ≡ x = ap (λ d. x / d) one ∙ omega arith in
          let distance : ulp (x / y) ≡ 1 = ap ulp same ∙ ulp_lem x small in
          rw (whole, distance)
            (omega (arith, ap (λ d. half_even x (d * 1)) one ∙ half_even_one x, same))
    ]
  where
    zero_of : (q : ℕ) → (q == 0) ≡ true → 0 ≡ q
    zero_of q h = ground arith

    one_of : (q : ℕ) → (q == 0) ≡ false → 1 ≤ q
    one_of q h = ground arith

    large : (q : ℕ) → ltb q (2 ^ 52) ≡ false → 2 ^ 52 ≤ q
    large q h = ground arith

    double : (q y : ℕ) → 2 ≤ y → q * 2 ≤ q * y
    double q y h = grind arith

    unit : (q y : ℕ) → 0 < y → 2 ^ 52 ≤ q → q * y < double_limit → y ≡ 1
    unit q zero h k l = absurd (omega arith)
    unit q (suc zero) h k l = refl
    unit q (suc (suc y)) h k l = absurd (omega (arith, double q (suc (suc y)) (omega arith)))

pub floor_div_lem :
    (limit a b : ℕ)
    → 0 < b
    → a < double_limit
    → b < double_limit
    → a / b < limit
    → floor_div limit a b ≡ some (a / b)
unfolding floor_div
floor_div_lem limit a b positive small small' fits =
    let quotient : floor_quotient (to_double a) (to_double b) ≡ a / b =
      ap₂ floor_quotient (to_double_lem a small) (to_double_lem b small')
      ∙ floor_quotient_lem a b positive small in
    let some_divisor : (b == 0) ≡ false = nonzero b positive in
    let inside : ltb (a / b) limit ≡ true = below (a / b) limit fits in
    rw (quotient, some_divisor, inside) refl
  where
    nonzero : (b : ℕ) → 0 < b → (b == 0) ≡ false
    nonzero b h = ground arith

    below : (a b : ℕ) → a < b → ltb a b ≡ true
    below a b h = ground arith
