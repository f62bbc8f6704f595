-- ===== src/Blocks.antt =====
-- Parallel Computing/HW3/common.c: the blocks of cells that the processes of lcs_mpi.c send to each
-- other. `none` is an access outside an array, or an index that is not an int.
pub mod Exchange
pub mod Arrive
mod Tests
use university_coursework.Base.{
  ℕ, zero, suc, ◌+◌, ◌*◌, Option, none, some, List, if◌then◌else◌, leb, ltb, ◌&&◌, length, span,
  write_all, ◌>>=◌, int_limit,
}
use university_coursework.Lcs.{Cell, Grid, blank, grid_cell}

-- `memcpy` of `n` cells, from index `from` of `src` to index `to` of `dst`.
unfoldable pub memcpy :
    (dst : List Cell) (to : ℕ) (src : List Cell) (from n : ℕ) → Option (List Cell)
memcpy dst to src from n =
    if leb (from + n) (length src) && leb (to + n) (length dst)
    then some (write_all dst to (span blank src from n))
    else none

-- `malloc` gives the cells of the block, `none` for NULL.
unfoldable pub grid_alloc_block : (malloc : ℕ → Option (List Cell)) → (h w : ℕ) → Option (List Cell)
grid_alloc_block malloc h w = if ltb (h * w) int_limit then malloc (h * w) else none

-- The loop of `grid_serialize_block`, with `rounds` rounds left at row `i` of the block.
unfoldable pub serialize_from : Grid → (y x w i rounds : ℕ) → List Cell → Option (List Cell)
serialize_from grid y x w i zero serialized = some serialized
serialize_from grid y x w i (suc rounds) serialized = do
  cell ← grid_cell grid (y + i) x
  serialized' ← memcpy serialized (w * i) grid.cells cell w
  serialize_from grid y x w (i + 1) rounds serialized'

unfoldable pub grid_serialize_block :
    (malloc : ℕ → Option (List Cell)) → Grid → (y x h w : ℕ) → Option (List Cell)
grid_serialize_block malloc grid y x h w = do
  serialized ← grid_alloc_block malloc h w
  serialize_from grid y x w 0 h serialized

-- The loop of `grid_deserialize_block`.
unfoldable pub deserialize_from : List Cell → (y x w i rounds : ℕ) → Grid → Option Grid
deserialize_from serialized y x w i zero grid = some grid
deserialize_from serialized y x w i (suc rounds) grid = do
  cell ← grid_cell grid (y + i) x
  cells ← memcpy grid.cells cell serialized (w * i) w
  deserialize_from serialized y x w (i + 1) rounds (record grid { cells = cells })

unfoldable pub grid_deserialize_block : Grid → List Cell → (y x h w : ℕ) → Option Grid
grid_deserialize_block grid serialized y x h w = deserialize_from serialized y x w 0 h grid
