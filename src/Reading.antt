-- ===== src/Reading.antt =====
-- Parallel Computing/HW5/mpi_matrix.c: `matrix_read`, by which the first process reads a file and gives
-- each process its rows. `none` is a failed assert, an exit with an error, the use of a value that was
-- never set, or an access outside an array.
pub mod Listing
pub mod Rows
pub mod Deal
pub mod Pieces
pub mod Whole
pub mod Same
pub mod Slack
mod Tests
use university_coursework.Base.{
  ℕ, zero, suc, ◌+◌, ◌-◌, ◌*◌, ◌/◌, ◌%◌, ◌^◌, Bool, true, false, Option, none, some, List, [], ◌∷◌,
  ◌++◌, if◌then◌else◌, ltb, leb, ◌==◌, ◌&&◌, ◌||◌, length, get_elem?, store, ◌>>=◌, ℤ, pos, negsuc,
  to_ulong, to_int32, map,
}
use university_coursework.Double.{floor_div}
use university_coursework.Matrix.{
  Cell, Row, Matrix, Chunk, word, matrix_num_rows, matrix_init, deref_row, local_rows,
  matrix_serialize,
}

-- The C library's part. A line is what `fgets` leaves in the buffer of 50 characters. `strtok_r` cuts it
-- into tokens, which `atoi` reads; `atoi` reads a line that is one number; an `offset_t` is converted to
-- a `value_t`. A result of `atoi` is an `int`, given by its 32 bits.
pub record Texts (Line V : Type 0) : Type 0 where
  pub tokens : Line → List ℕ
  pub number : Line → ℕ
  pub value : ℕ → V

-- `i`, `j` and `cell_val`, which the third token sets.
pub record Entry : Type 0 where
  pub i : ℕ
  pub j : ℕ
  pub cell_val : Option ℕ

-- A negative `double` has no value as an `offset_t`.
abbrev pub offset_of : ℤ → Option ℕ
offset_of (pos n) = some n
offset_of (negsuc n) = none

-- The inner `none` is the line that has fewer than two tokens.
unfoldable pub entry_of : List ℤ → Option (Option Entry)
entry_of [] = some none
entry_of (i ∷ []) = offset_of i >>= λ row. some none
entry_of (i ∷ j ∷ []) = do
  row ← offset_of i
  col ← offset_of j
  some (some (record { i = row; j = col; cell_val = none }))
entry_of (i ∷ j ∷ val ∷ more) = do
  row ← offset_of i
  col ← offset_of j
  cell_val ← offset_of val
  some (some (record { i = row; j = col; cell_val = some cell_val }))

-- How a round of the loop ends: with a break, with a break after the line was put back, or with a cell
-- in the matrix.
pub data Round (V : Type 0) : Type 0 where
  broken : Round V
  put_back : Round V
  stored : Matrix V → Round V

module _ {Line V : Type 0} (texts : Texts Line V) where
  unfoldable pub parse_line :
      (is_vec : Bool) → Matrix V → (line_num : ℕ) → Line → Option (Option Entry)
  unfolding entry_of
  parse_line true mat line_num line = some (
      some (record {
        i = (mat.from_i + line_num) % word;
        j = 0;
        cell_val = some (to_ulong (to_int32 (texts.number line)));
      }))
  parse_line false mat line_num line = do
    entry ← entry_of (map to_int32 (texts.tokens line))
    elim entry [
      | none ↦ some none
      | some e ↦ if leb mat.n e.j || leb mat.m e.i then none else some (some e)
    ]

  -- The rest of the round: the cell goes to the end of its row.
  unfoldable pub store_cell : Matrix V → (line_num : ℕ) → Entry → Option (Matrix V)
  store_cell mat line_num entry = do
    row ← get_elem? mat.rows (entry.i - mat.from_i)
    cell_val ← entry.cell_val
    rows ←
        store mat.rows (entry.i - mat.from_i)
          (row ++ (record { j = entry.j; val = texts.value cell_val } ∷ []))
    num_rows ← matrix_num_rows mat
    if leb (length row + 1) mat.n && leb (line_num + 1) ((mat.from_i + mat.n * num_rows) % word)
        then some (record mat { rows = rows })
        else none

  unfoldable pub read_line : (is_vec : Bool) → Matrix V → (line_num : ℕ) → Line → Option (Round V)
  unfolding parse_line store_cell
  read_line is_vec mat line_num line = do
    parsed ← parse_line is_vec mat line_num line
    elim parsed [
      | none ↦ some broken
      | some entry ↦
          let into = store_cell mat line_num entry >>= λ mat'. some (stored mat') in
          if ltb mat.to_i entry.i
          then some put_back
          else (if leb mat.from_i entry.i then into else none)
    ]

  -- `input` is what `fgets` leaves in the buffer, for each round until `feof`. The result is the matrix
  -- and the input that is left.
  unfoldable pub matrix_read_rows :
      (is_vec : Bool)
      → Matrix V
      → (line_num : ℕ) → (input : List Line) → Option (Matrix V × List Line)
  unfolding read_line
  matrix_read_rows is_vec mat line_num [] = some (mat, [])
  matrix_read_rows is_vec mat line_num (line ∷ input) = do
    ended ← read_line is_vec mat line_num line
    elim ended [
      | broken ↦ some (mat, input)
      | put_back ↦ some (mat, line ∷ input)
      | stored mat' ↦ matrix_read_rows is_vec mat' (line_num + 1) input
    ]

module _ {V : Type 0} where
  -- The loop that frees the cells, with `rounds` rounds left at row `i`, and counts them.
  unfoldable pub free_cells : Matrix V → (i rounds : ℕ) → Option ℕ
  free_cells mat i zero = some 0
  free_cells mat i (suc rounds) = do
    row ← deref_row mat i
    freed ← free_cells mat (i + 1) rounds
    some (if ltb 0 (length row) then freed + 1 else freed)

  -- The number of the blocks freed, and the matrix with zeros.
  unfoldable pub matrix_free : Matrix V → Option (Matrix V × ℕ)
  unfolding local_rows
  matrix_free mat = do
    freed ← free_cells mat mat.from_i (local_rows mat)
    first ← deref_row mat mat.from_i
    some (record { m = 0; n = 0; from_i = 0; to_i = 0; rows = []; mapped_rows = [] }, freed + 1)

-- What the first process has done: its own partition, and the buffers it has sent, with their sizes, to
-- the processes from 1 on.
pub record Dealt (V : Type 0) : Type 0 where
  pub root_mat : Option (Matrix V)
  pub sent : List (List (Chunk V) × ℕ)

module _ {Line V : Type 0} (texts : Texts Line V) (p m n : ℕ) (is_vec : Bool) where
  -- The partition of `to_r` for a `partition_size`: the last process gets the slack.
  unfoldable pub read_stretch :
      (partition_size to_r : ℕ) → List Line → Option (Matrix V × List Line)
  read_stretch partition_size to_r input =
      let from_i = to_r * partition_size in
      let to_i = if to_r == p - 1 then m - 1 else ((to_r + 1) * partition_size + word - 1) % word in
      do
        mat ← matrix_init m n from_i to_i
        (mat', rest) ← matrix_read_rows texts is_vec mat 0 input
        num_rows ← matrix_num_rows mat'
        if leb partition_size num_rows && ltb num_rows (2 * partition_size)
            then some (mat', rest)
            else none

  unfoldable pub read_partition : (to_r : ℕ) → List Line → Option (Matrix V × List Line)
  unfolding read_stretch
  read_partition to_r input = do
    partition_size ← floor_div word m p
    read_stretch partition_size to_r input

  unfoldable pub deal : (to_r rounds : ℕ) → List Line → Dealt V → Option (Dealt V)
  unfolding read_partition
  deal to_r zero input dealt = some dealt
  deal to_r (suc rounds) input dealt = do
    (mat, rest) ← read_partition to_r input
    let send = do
      (buf, bufsize) ← matrix_serialize mat
      (cleared, freed) ← matrix_free mat
      if ltb 0 bufsize
          then some (record dealt { sent = dealt.sent ++ ((buf, bufsize) ∷ []) })
          else none
    dealt' ← (if to_r == 0 then some (record dealt { root_mat = some mat }) else send)
    deal (to_r + 1) rounds rest dealt'

  -- The first process's part.
  unfoldable pub matrix_read : List Line → Option (Dealt V)
  unfolding deal
  matrix_read input = deal 0 p input (record { root_mat = none; sent = [] })
