-- ===== src/Exchange.antt =====
-- Parallel Computing/HW5/mpi_matrix.c: `matrix_sync_mult_rows`, by which all processes get the rows of
-- the vector that they need. The processes' matrices and schedules are functions of the rank. All processes
-- go through the same pairs in the same order, so a pair's exchange is one step; a process that is in
-- neither role does nothing at it. `none` is a failed assert, an access outside an array, or a pair of
-- which the two processes expect different numbers of cells.
pub mod Vector
pub mod Shares
pub mod Synced
pub mod Rounds
pub mod Whole
pub mod Answer
pub mod Owned
mod Tests
use university_coursework.Base.{
  ℕ, zero, suc, ◌+◌, ◌-◌, ◌*◌, ◌/◌, ◌%◌, Bool, true, false, Option, none, some, List, [], ◌∷◌,
  if◌then◌else◌, ltb, leb, ◌==◌, ◌&&◌, not, length, get_elem?, take, drop, ◌>>=◌,
}
use university_coursework.Matrix.{Cell, Row, Matrix, deref_row, matrix_map_row}
use university_coursework.Product.{first_cell}
use university_coursework.Schedule.{
  Schedule, rank_limit, comm_schedule_init, matrix_sync_build_schedule,
}

-- What MPI does. `allgather p buffers starts r` is what `MPI_Allgather` leaves in the receive buffer of the
-- process `r`, where each process gives as its send buffer the `p` cells of its receive buffer from its
-- start on. MPI forbids buffers that overlap, and says nothing of the result. The others are what arrives
-- of what one process sends to another.
pub record Mpi (V : Type 0) : Type 0 where
  pub allgather : (p : ℕ) → (buffers : ℕ → List ℕ) → (starts : ℕ → ℕ) → (r : ℕ) → List ℕ
  pub send_offsets : List ℕ → List ℕ
  pub send_values : List V → List V

-- A function of the rank, changed at one rank.
unfoldable pub update {ℓ} : {A : Type ℓ} → (ℕ → A) → ℕ → A → ℕ → A
update f r a k = if k == r then a else f k

module _ {V : Type 0} where
  -- The loop of the process that sends, with the columns that are left.
  unfoldable pub collect_values : Matrix V → List ℕ → Option (List V)
  unfolding first_cell
  collect_values vec [] = some []
  collect_values vec (col ∷ cols) = do
    send_row ← deref_row vec col
    cell ← first_cell send_row
    cell_values ← collect_values vec cols
    some (cell.val ∷ cell_values)

  -- The loop of the process that receives, with the columns and the values that are left; `n` is the
  -- width of the matrix.
  unfoldable pub map_values : (n : ℕ) → List ℕ → List V → Matrix V → Option (Matrix V)
  map_values n [] [] vec = some vec
  map_values n (element ∷ cols) (val ∷ vals) vec =
      let mapped = (do
        vec' ← matrix_map_row vec (record { j = 0; val = val } ∷ []) element
        map_values n cols vals vec') in
      if leb element n then mapped else none
  map_values n _ _ vec = none

module _ {V : Type 0} where
  -- The schedules of the first processes.
  unfoldable pub build_all : (p : ℕ) (mats : ℕ → Matrix V) (count : ℕ) → Option (ℕ → Schedule)
  build_all p mats zero = some (λ r. comm_schedule_init p)
  build_all p mats (suc r) = do
    schedules ← build_all p mats r
    schedule ← matrix_sync_build_schedule p r (mats r) (comm_schedule_init p)
    some (update schedules r schedule)

module _ {V : Type 0} (mpi : Mpi V) (p : ℕ) where
  unfoldable pub comm_schedule_sync : (ℕ → Schedule) → ℕ → Schedule
  comm_schedule_sync schedules r = record (schedules r) {
    comm_map = mpi.allgather p (λ s. (schedules s).comm_map) (λ s. s * p % rank_limit) r;
  }

  -- A round of the loop.
  unfoldable pub comm_round :
      (mats : ℕ → Matrix V) (schedules : ℕ → Schedule) (comm_id : ℕ)
      → (ℕ → Matrix V)
      → Option (ℕ → Matrix V)
  unfolding collect_values map_values
  comm_round mats schedules comm_id vecs =
      let send_r = comm_id % p in
      let recv_r = comm_id / p in
      do
        num_cells ← get_elem? (schedules recv_r).comm_map comm_id
        served ← get_elem? (schedules send_r).comm_map comm_id
        let exchange = do
          cols ← get_elem? (schedules recv_r).recv_cols send_r
          cell_values ← collect_values (vecs send_r) (mpi.send_offsets (take num_cells cols))
          vec ←
              map_values (mats recv_r).n (take num_cells cols) (mpi.send_values cell_values)
                (vecs recv_r)
          if leb num_cells (length cols) then some (update vecs recv_r vec) else none
        if num_cells == served
            then (if num_cells == 0
                then some vecs
                else (if not (send_r == recv_r) && ltb recv_r p then exchange else none))
            else none

  unfoldable pub comm_rounds :
      (mats : ℕ → Matrix V) (schedules : ℕ → Schedule) (comm_id rounds : ℕ)
      → (ℕ → Matrix V)
      → Option (ℕ → Matrix V)
  unfolding comm_round
  comm_rounds mats schedules comm_id zero vecs = some vecs
  comm_rounds mats schedules comm_id (suc rounds) vecs = do
    vecs' ← comm_round mats schedules comm_id vecs
    comm_rounds mats schedules (comm_id + 1) rounds vecs'

  unfoldable pub comm_schedule_sendrecv :
      (mats : ℕ → Matrix V) (schedules : ℕ → Schedule) → (ℕ → Matrix V) → Option (ℕ → Matrix V)
  unfolding comm_rounds
  comm_schedule_sendrecv mats schedules vecs =
      comm_rounds mats schedules 0 (p * p % rank_limit) vecs

  unfoldable pub matrix_sync_mult_rows :
      (mats : ℕ → Matrix V) → (ℕ → Matrix V) → Option (ℕ → Matrix V)
  unfolding build_all comm_schedule_sync comm_schedule_sendrecv
  matrix_sync_mult_rows mats vecs = do
    schedules ← build_all p mats p
    comm_schedule_sendrecv mats (comm_schedule_sync schedules) vecs
