-- ===== src/Exchange/Tests.antt =====
-- Two processes multiply a matrix of four rows with a vector.
use university_coursework.Base.{
  ℕ, zero, suc, ◌+◌, ◌*◌, ◌≤◌, ◌<◌, ◌≡◌, refl, ap, ◌∙◌, none, some, List, [], ◌∷◌, length, arith,
  get_elem?, get_or, inl, inr, ℕ_discrete, false, store,
}
use university_coursework.Matrix.{
  Cell, Row, Matrix, find_mapped, matrix_row, deref_row, local_rows, matrix_init, matrix_num_rows,
  word,
}
use university_coursework.Matrix.Valid.{
  IsValid, IsLocal, IsLocal-or, matrix_row_local, matrix_row_mapped,
}
use university_coursework.Product.{Values, matrix_vector_mult}
use university_coursework.Product.Rows.{Provides, dots}
use university_coursework.Schedule.Build.{IsNarrowAll}
use university_coursework.Exchange.{Mpi, update, build_all, comm_schedule_sendrecv}
use university_coursework.Exchange.Vector.{IsGood}
use university_coursework.Exchange.Shares.{share_from, share_to, IsShare}
use university_coursework.Exchange.Owned.{source_rank_has_row}
use university_coursework.Schedule.{
  Schedule, source_rank, comm_schedule_init, comm_schedule_add, is_listed, add_cells, add_rows,
  matrix_sync_build_schedule,
}
use university_coursework.Double.{
  floor_div, to_double, floor_quotient, ulp, ulp_from, half_even, power_below,
}
use university_coursework.Reading.{
  Texts, entry_of, parse_line, store_cell, read_line, matrix_read_rows, read_stretch,
  read_partition,
}
use university_coursework.Exchange.Answer.{distributed_product}

abbrev direct : Mpi ℕ
direct = record {
  allgather = λ p buffers starts r. buffers r;
  send_offsets = λ xs. xs;
  send_values = λ xs. xs;
}

abbrev numbers : Values ℕ
numbers = record { nothing = 0; plus = λ a b. a + b; times = λ a b. a * b }

abbrev x_values : ℕ → ℕ
x_values i = i + 1

abbrev cell_with : ℕ → ℕ → Cell ℕ
cell_with j val = record { j = j; val = val }

abbrev part_of : ℕ → Row ℕ → Row ℕ → Matrix ℕ
part_of from_i first second = record {
  m = 4;
  n = 4;
  from_i = from_i;
  to_i = from_i + 1;
  rows = first ∷ second ∷ [];
  mapped_rows = [];
}

abbrev example_mats : ℕ → Matrix ℕ
example_mats zero = part_of 0 (cell_with 0 2 ∷ cell_with 3 1 ∷ []) (cell_with 2 5 ∷ [])
example_mats (suc r) = part_of 2 (cell_with 1 3 ∷ []) (cell_with 3 1 ∷ cell_with 1 2 ∷ [])

abbrev vec_from : ℕ → Matrix ℕ
vec_from from_i = record {
  m = 4;
  n = 1;
  from_i = from_i;
  to_i = from_i + 1;
  rows = (cell_with 0 (from_i + 1) ∷ []) ∷ (cell_with 0 (from_i + 2) ∷ []) ∷ [];
  mapped_rows = [];
}

abbrev example_vecs : ℕ → Matrix ℕ
example_vecs zero = vec_from 0
example_vecs (suc r) = vec_from 2

part-IsValid :
    (from_i : ℕ) (first second : Row ℕ)
    → from_i ≤ 2
    → length first ≤ 4
    → length second ≤ 4
    → IsValid (part_of from_i first second)
part-IsValid from_i first second h k l = record {
  ordered = omega arith;
  inside = omega arith;
  bounded = omega arith;
  stored = omega arith;
  narrow = narrow;
}
  where
    narrow : (i : ℕ) → i < 2 → length (get_or (part_of from_i first second).rows i []) ≤ 4
    narrow zero h = k
    narrow (suc zero) h = l
    narrow (suc (suc i)) h = absurd (omega arith)

mats-IsShare : (r : ℕ) → r < 2 → IsShare 2 4 r (example_mats r)
mats-IsShare zero h = record {
  valid =
      part-IsValid 0 (cell_with 0 2 ∷ cell_with 3 1 ∷ []) (cell_with 2 5 ∷ []) (omega arith)
        (omega arith) (omega arith);
  same_m = refl;
  same_from = refl;
  same_to = refl;
}
mats-IsShare (suc zero) h = record {
  valid =
      part-IsValid 2 (cell_with 1 3 ∷ []) (cell_with 3 1 ∷ cell_with 1 2 ∷ []) (omega arith)
        (omega arith) (omega arith);
  same_m = refl;
  same_from = refl;
  same_to = refl;
}
mats-IsShare (suc (suc r)) h = absurd (omega arith)

mats_narrow : (r : ℕ) → r < 2 → IsNarrowAll 4 (example_mats r).rows
mats_narrow zero h = ((omega arith, (omega arith, tt)), ((omega arith, tt), tt))
mats_narrow (suc zero) h = ((omega arith, tt), ((omega arith, (omega arith, tt)), tt))
mats_narrow (suc (suc r)) h = absurd (omega arith)

mats_wide : (r : ℕ) → r < 2 → 4 ≤ (example_mats r).n
mats_wide zero h = omega arith
mats_wide (suc r) h = omega arith

vec-IsValid : (from_i : ℕ) → from_i ≤ 2 → IsValid (vec_from from_i)
vec-IsValid from_i h = record {
  ordered = omega arith;
  inside = omega arith;
  bounded = omega arith;
  stored = omega arith;
  narrow = narrow;
}
  where
    narrow : (k : ℕ) → k < 2 → length (get_or (vec_from from_i).rows k []) ≤ 1
    narrow zero h = omega arith
    narrow (suc zero) h = omega arith
    narrow (suc (suc k)) h = absurd (omega arith)

nothing_mapped : (i : ℕ) → some (find_mapped {V = ℕ} [] i none) ≡ some none
unfolding find_mapped
nothing_mapped i = refl

vec-IsGood : (from_i : ℕ) → from_i ≤ 2 → IsGood x_values 4 from_i (from_i + 1) (vec_from from_i)
vec-IsGood from_i small = record {
  valid = vec-IsValid from_i small;
  mapped = record { once = tt; foreign = tt };
  same_m = refl;
  same_from = refl;
  same_to = refl;
  wide = omega arith;
  right = λ i. elim (IsLocal-or (vec_from from_i) i) [
    | inl own ↦ inr (held i own)
    | inr other ↦ inl (matrix_row_mapped (vec_from from_i) i other ∙ nothing_mapped i)
  ];
}
  where
    held : (i : ℕ) → IsLocal (vec_from from_i) i → Provides (vec_from from_i) x_values i
    held i own =
        let row = matrix_row_local (vec_from from_i) i (vec-IsValid from_i small) own in
        elim (ℕ_discrete i from_i) [
          | yes same ↦ record {
            cell = cell_with 0 (from_i + 1);
            more = [];
            found =
                row
                ∙ ap (λ k. some (some (get_or (vec_from from_i).rows k []))) {y = 0} (omega arith);
            value = omega arith;
          }
          | no other ↦ record {
            cell = cell_with 0 (from_i + 2);
            more = [];
            found =
                row
                ∙ ap (λ k. some (some (get_or (vec_from from_i).rows k []))) {y = 1}
                    (omega (arith, own.0, own.1));
            value = omega (arith, own.0, own.1);
          }
        ]

vecs-IsGood :
    (r : ℕ) → r < 2 → IsGood x_values 4 (share_from 2 4 r) (share_to 2 4 r) (example_vecs r)
vecs-IsGood zero h = vec-IsGood 0 (omega arith)
vecs-IsGood (suc zero) h = vec-IsGood 2 (omega arith)
vecs-IsGood (suc (suc r)) h = absurd (omega arith)

-- The first process wants the rows 3 and 2 of the other, which wants its row 1.
abbrev first_plan : Schedule
first_plan = record { comm_map = 0 ∷ 2 ∷ 0 ∷ 0 ∷ []; recv_cols = [] ∷ (3 ∷ 2 ∷ []) ∷ [] }

abbrev second_plan : Schedule
second_plan = record { comm_map = 0 ∷ 0 ∷ 1 ∷ 0 ∷ []; recv_cols = (1 ∷ []) ∷ [] ∷ [] }

abbrev plans : ℕ → Schedule
plans = update (update (λ r. comm_schedule_init 2) 0 first_plan) 1 second_plan

plans_built : build_all 2 example_mats 2 ≡ some plans
unfolding build_all matrix_sync_build_schedule add_rows add_cells comm_schedule_add is_listed
    source_rank local_rows deref_row matrix_row find_mapped store comm_schedule_init update
    floor_div to_double floor_quotient ulp ulp_from half_even power_below
plans_built = refl

abbrev all_counts : List ℕ
all_counts = 0 ∷ 2 ∷ 1 ∷ 0 ∷ []

abbrev synced_plans : ℕ → Schedule
synced_plans zero = record first_plan { comm_map = all_counts }
synced_plans (suc r) = record second_plan { comm_map = all_counts }

same_lists : (r : ℕ) → r < 2 → (synced_plans r).recv_cols ≡ (plans r).recv_cols
unfolding update
same_lists zero h = refl
same_lists (suc zero) h = refl
same_lists (suc (suc r)) h = absurd (omega arith)

by_rank :
    (r s : ℕ)
    → r < 2
    → s < 2
    → get_elem? all_counts (r * 2 + s) ≡ get_elem? (plans r).comm_map (r * 2 + s)
unfolding update
by_rank zero zero hr hs = refl
by_rank zero (suc zero) hr hs = refl
by_rank zero (suc (suc s)) hr hs = absurd (omega arith)
by_rank (suc zero) zero hr hs = refl
by_rank (suc zero) (suc zero) hr hs = refl
by_rank (suc zero) (suc (suc s)) hr hs = absurd (omega arith)
by_rank (suc (suc r)) s hr hs = absurd (omega arith)

all_counted :
    (k r s : ℕ)
    → k < 2
    → r < 2
    → s < 2
    → get_elem? (synced_plans k).comm_map (r * 2 + s) ≡ get_elem? (plans r).comm_map (r * 2 + s)
all_counted k r s hk hr hs = ap (λ map. get_elem? map (r * 2 + s)) (held k) ∙ by_rank r s hr hs
  where
    held : (k : ℕ) → (synced_plans k).comm_map ≡ all_counts
    held zero = refl
    held (suc k) = refl

distributed_product_example :
    (vecs' : ℕ → Matrix ℕ) × (res : Matrix ℕ) × (comm_schedule_sendrecv direct 2 example_mats
        synced_plans example_vecs
      ≡ some vecs')
    × (matrix_vector_mult numbers (example_mats 0) (vecs' 0) ≡ some res)
    × (res.rows ≡ dots numbers x_values (example_mats 0).rows)
distributed_product_example =
    distributed_product numbers direct x_values 2 4 example_mats example_vecs plans synced_plans
      (λ xs. refl) (λ xs. refl) (omega arith) (omega arith) (omega arith) (omega arith) mats-IsShare
      mats_wide mats_narrow vecs-IsGood plans_built same_lists all_counted 0 (omega arith)

-- A file whose first line belongs to the second of two processes, which has the rows from 2 to 4 of 5.
abbrev plain : Texts (List ℕ) ℕ
plain = record { tokens = λ line. line; number = λ line. 0; value = λ n. n }

abbrev second_part : Matrix ℕ
second_part = record {
  m = 5;
  n = 5;
  from_i = 2;
  to_i = 4;
  rows = (cell_with 0 7 ∷ []) ∷ [] ∷ [] ∷ [];
  mapped_rows = [];
}

second_read : read_partition plain 2 5 5 false 1 ((2 ∷ 0 ∷ 7 ∷ []) ∷ []) ≡ some (second_part, [])
unfolding read_partition read_stretch matrix_init matrix_num_rows matrix_read_rows read_line
    parse_line store_cell store entry_of floor_div to_double floor_quotient ulp ulp_from half_even
    power_below
second_read = refl

size_is_two : floor_div word 5 2 ≡ some 2
unfolding floor_div to_double floor_quotient ulp ulp_from half_even power_below
size_is_two = refl

asks_second : source_rank 2 2 4 ≡ some 1
unfolding source_rank floor_div to_double floor_quotient ulp ulp_from half_even power_below
asks_second = refl

source_rank_has_row_example : (1 < 2) × IsLocal second_part 4
source_rank_has_row_example =
    source_rank_has_row plain 2 5 5 1 4 2 false ((2 ∷ 0 ∷ 7 ∷ []) ∷ []) [] second_part (omega arith)
      (omega arith) (omega arith) (omega arith) (omega arith) size_is_two asks_second second_read
