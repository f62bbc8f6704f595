-- ===== src/Double/Tests.antt =====
-- Divisions of doubles that are and are not exact.
use university_coursework.Base.{◌≡◌, refl, some, none, ◌+◌, ◌^◌}
use university_coursework.Double.{
  ulp_from, ulp, half_even, to_double, power_below, floor_quotient, floor_div,
}

exact : floor_div (2 ^ 64) 7 2 ≡ some 3
unfolding floor_div to_double floor_quotient ulp ulp_from half_even power_below
exact = refl

-- At 2 ^ 53 + 3, half of 2 ^ 54 + 8 less one, the double is the next one.
rounded : floor_div (2 ^ 32) (2 ^ 53 + 3) (2 ^ 53 + 4) ≡ some 1
unfolding floor_div to_double floor_quotient ulp ulp_from half_even power_below
rounded = refl

too_large : floor_div (2 ^ 64) 0xffff_ffff_ffff_ffff 1 ≡ none
unfolding floor_div to_double floor_quotient ulp ulp_from half_even power_below
too_large = refl
