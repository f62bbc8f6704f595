-- ===== src/Schedule.antt =====
-- Parallel Computing/HW5/mpi_matrix.c: which rows of the vector a process asks the others for. `p` is
-- the number of processes and `r` the rank of this one, as MPI gives them; ranks are 32-bit. `none` is
-- a failed assert or an access outside an array.
pub mod Listed
pub mod Add
pub mod Owner
pub mod Build
mod Tests
use university_coursework.Base.{
  ℕ, zero, suc, ◌+◌, ◌-◌, ◌*◌, ◌/◌, ◌%◌, ◌^◌, Bool, true, false, Option, none, some, List, [], ◌∷◌,
  ◌++◌, if◌then◌else◌, ltb, leb, ◌==◌, ◌&&◌, ◌||◌, length, get_elem?, take, store, replicate, ◌>>=◌,
}
use university_coursework.Matrix.{Cell, Row, Matrix, deref_row, local_rows, word}
use university_coursework.Double.{floor_div}

-- `comm_map` counts, for each pair of processes, the rows that the first wants from the second, and
-- `recv_cols` lists those that this process wants, by the process that has them.
pub record Schedule : Type 0 where
  pub comm_map : List ℕ
  pub recv_cols : List (List ℕ)

abbrev pub rank_limit : ℕ
rank_limit = 2 ^ 32

unfoldable pub comm_schedule_init : (p : ℕ) → Schedule
comm_schedule_init p = record {
  comm_map = replicate (p * p % rank_limit) 0;
  recv_cols = replicate p [];
}

-- The loop that avoids duplicates.
unfoldable pub is_listed : List ℕ → ℕ → (i rounds : ℕ) → Option Bool
is_listed cols element i zero = some false
is_listed cols element i (suc rounds) =
    let later = is_listed cols element (i + 1) rounds in
    do el ← get_elem? cols i; if el == element then some true else later

unfoldable pub comm_schedule_add : (p r : ℕ) → Schedule → (src_r element : ℕ) → Option Schedule
unfolding is_listed
comm_schedule_add p r schedule src_r element =
    let idx = (r * p + src_r) % rank_limit in
    let add = (do
      num_elems ← get_elem? schedule.comm_map idx
      cols ← get_elem? schedule.recv_cols src_r
      listed ← is_listed cols element 0 num_elems
      let append = do
        recv_cols ← store schedule.recv_cols src_r (take num_elems cols ++ (element ∷ []))
        comm_map ← store schedule.comm_map idx (num_elems + 1)
        some (record { comm_map = comm_map; recv_cols = recv_cols })
      if listed then some schedule else append) in
    if ltb src_r p && ltb idx (p * p % rank_limit) then add else none

-- `floor( (double)j / (double)partition_size )` as a rank, cut to the last one.
unfoldable pub source_rank : (p partition_size j : ℕ) → Option ℕ
unfolding floor_div
source_rank p partition_size j = do
  src_r ← floor_div rank_limit j partition_size
  some (if leb p src_r then p - 1 else src_r)

module _ {V : Type 0} where
  -- The inner loop, with the cells of the row that are left.
  unfoldable pub add_cells :
      (p r partition_size : ℕ) → Matrix V → Row V → Schedule → Option Schedule
  unfolding source_rank
  add_cells p r partition_size mat [] schedule = some schedule
  add_cells p r partition_size mat (cell ∷ row) schedule = do
    let ask = do
      src_r ← source_rank p partition_size cell.j
      comm_schedule_add p r schedule src_r cell.j
    schedule' ← (if ltb cell.j mat.from_i || ltb mat.to_i cell.j then ask else some schedule)
    add_cells p r partition_size mat row schedule'

  -- The outer loop, with `rounds` rounds left at row `i`.
  unfoldable pub add_rows :
      (p r partition_size : ℕ) → Matrix V → (i rounds : ℕ) → Schedule → Option Schedule
  add_rows p r partition_size mat i zero schedule = some schedule
  add_rows p r partition_size mat i (suc rounds) schedule = do
    row ← deref_row mat i
    schedule' ← add_cells p r partition_size mat row schedule
    add_rows p r partition_size mat (i + 1) rounds schedule'

  unfoldable pub matrix_sync_build_schedule : (p r : ℕ) → Matrix V → Schedule → Option Schedule
  unfolding local_rows
  matrix_sync_build_schedule p r mat schedule = do
    partition_size ← floor_div word mat.m p
    add_rows p r partition_size mat mat.from_i (local_rows mat) schedule
