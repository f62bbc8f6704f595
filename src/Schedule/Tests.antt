-- ===== src/Schedule/Tests.antt =====
-- The first of two processes with a matrix of four rows asks for what it lacks.
use university_coursework.Base.{
  ℕ, zero, suc, ◌≤◌, ◌<◌, ◌≡◌, refl, some, [], ◌∷◌, length, arith, get_or,
}
use university_coursework.Matrix.{Matrix}
use university_coursework.Matrix.Valid.{IsValid}
use university_coursework.Schedule.{Schedule, comm_schedule_init, matrix_sync_build_schedule}
use university_coursework.Schedule.Add.{IsCounted, init-IsCounted}
use university_coursework.Schedule.Build.{IsAsked, IsServedRows, build_schedule_lem}

abbrev first_half : Matrix ℕ
first_half = record {
  m = 4;
  n = 4;
  from_i = 0;
  to_i = 1;
  rows =
      (record { j = 3; val = 7 } ∷ record { j = 1; val = 2 } ∷ [])
      ∷ (record { j = 3; val = 9 } ∷ [])
      ∷ [];
  mapped_rows = [];
}

first_half-IsValid : IsValid first_half
first_half-IsValid = record {
  ordered = omega arith;
  inside = omega arith;
  bounded = omega arith;
  stored = refl;
  narrow = narrow;
}
  where
    narrow : (k : ℕ) → k < 2 → length (get_or first_half.rows k []) ≤ 4
    narrow zero h = omega arith
    narrow (suc zero) h = omega arith
    narrow (suc (suc k)) h = absurd (omega arith)

build_schedule_example :
    (after : Schedule) × (matrix_sync_build_schedule 2 0 first_half (comm_schedule_init 2)
      ≡ some after)
    × IsCounted (IsAsked 2 first_half) 2 0 after
    × IsServedRows 2 first_half after first_half.rows
build_schedule_example =
    build_schedule_lem 2 0 (omega arith) (omega arith) first_half (omega arith) (omega arith)
      (comm_schedule_init 2) first_half-IsValid
      ((omega arith, (omega arith, tt)), ((omega arith, tt), tt))
      (init-IsCounted (IsAsked 2 first_half) 2 0 (omega arith) (omega arith))
