-- ===== src/Lcs.antt =====
-- Parallel Computing/HW3: the grid of common.c and the longest common subsequence of lcs_serial.c.
pub mod Subsequence
pub mod Spec
pub mod Fill
pub mod Block
pub mod Backtrack
pub mod Serial
pub mod Longest
pub mod Outside
mod Tests
use university_coursework.Base.{
  ℕ, zero, suc, ◌+◌, ◌-◌, ◌*◌, Bool, Option, none, some, List, if◌then◌else◌, ltb, leb, ◌==◌, ◌&&◌,
  length, get_elem?, store, replicate, ◌>>=◌, int_limit,
}
use university_coursework.CString.{strrev}

-- The source calls the first constructor `none`.
pub data Dir : Type 0 where
  nowhere up left upleft : Dir

pub record Cell : Type 0 where
  pub len : ℕ
  pub dir : Dir

-- The strings without their terminators.
pub record Grid : Type 0 where
  pub m : ℕ
  pub n : ℕ
  pub s1 : List ℕ
  pub s2 : List ℕ
  pub cells : List Cell

-- `memset` to 0 makes this of a cell.
abbrev pub blank : Cell
blank = record { len = 0; dir = nowhere }

-- `s[i]`; the terminator of a string may be read.
unfoldable pub char_at : List ℕ → ℕ → Option ℕ
char_at s i = if i == length s then some 0 else get_elem? s i

-- `i - 1` as an index.
unfoldable pub before : ℕ → Option ℕ
before zero = none
before (suc i) = some i

-- `malloc` gives the cells of the block, `none` for NULL, to which `memset` would write.
unfoldable pub grid_init : (malloc : ℕ → Option (List Cell)) → List ℕ → List ℕ → Option Grid
grid_init malloc s1 s2 =
    let size = (length s1 + 1) * (length s2 + 1) in
    do
      count ← (if ltb size int_limit then some size else none)
      block ← malloc count
      some
          (record { m = length s1; n = length s2; s1 = s1; s2 = s2; cells = replicate count blank })

-- The index of the cell whose address `grid_cell` returns.
unfoldable pub grid_cell : Grid → ℕ → ℕ → Option ℕ
grid_cell grid i j =
    let index = (grid.m + 1) * i + j in if ltb index int_limit then some index else none

-- The cell that the pointer which `grid_cell` returns leads to.
unfoldable pub cell_at : Grid → ℕ → ℕ → Option Cell
unfolding grid_cell
cell_at grid i j = grid_cell grid i j >>= get_elem? grid.cells

-- The cell that the body of the two loops computes for row `i` and column `j`.
unfoldable pub new_cell : Grid → ℕ → ℕ → Option Cell
unfolding char_at before
new_cell grid i j = do
  i' ← before i
  j' ← before j
  a ← char_at grid.s1 i'
  b ← char_at grid.s2 j'
  let diagonal = do
    corner ← cell_at grid i' j'
    some (record { len = corner.len + 1; dir = upleft })
  let straight = do
    cell_up ← cell_at grid i' j
    cell_left ← cell_at grid i j'
    if leb cell_left.len cell_up.len
        then some (record { len = cell_up.len; dir = up })
        else some (record { len = cell_left.len; dir = left })
  if a == b then diagonal else straight

unfoldable pub fill_cell : Grid → ℕ → ℕ → Option Grid
fill_cell grid i j = do
  index ← grid_cell grid i j
  cell ← new_cell grid i j
  cells ← store grid.cells index cell
  some (record grid { cells = cells })

-- The inner loop, with `rounds` rounds left at column `j`.
unfoldable pub fill_row : ℕ → ℕ → ℕ → Grid → Option Grid
fill_row i j zero grid = some grid
fill_row i j (suc rounds) grid = fill_cell grid i j >>= fill_row i (j + 1) rounds

-- The outer loop, with `rounds` rounds left at row `i`.
unfoldable pub fill_rows : (x w i rounds : ℕ) → Grid → Option Grid
fill_rows x w i zero grid = some grid
fill_rows x w i (suc rounds) grid = fill_row i x w grid >>= fill_rows x w (i + 1) rounds

unfoldable pub lcs_length_block : Grid → (y x h w : ℕ) → Option Grid
lcs_length_block grid y x h w = fill_rows x w y h grid

-- The loops have the body of those of `lcs_length_block`.
unfoldable pub lcs_length_serial : Grid → Option Grid
lcs_length_serial grid = fill_rows 1 grid.m 1 grid.n grid

pub record BacktrackState : Type 0 where
  pub i : ℕ
  pub j : ℕ
  pub pos : ℕ
  pub res : List ℕ

-- The loop's body. A cell without a direction leaves the state as it is.
unfoldable pub backtrack_step : Grid → BacktrackState → Option BacktrackState
unfolding char_at
backtrack_step grid state = do
  cell ← cell_at grid state.i state.j
  let take_char = do
    c ← char_at grid.s1 (state.i - 1)
    res ← store state.res state.pos c
    some (record { i = state.i - 1; j = state.j - 1; pos = state.pos + 1; res = res })
  elim cell.dir [
    | upleft ↦ take_char
    | up ↦ some (record state { i = state.i - 1 })
    | left ↦ some (record state { j = state.j - 1 })
    | nowhere ↦ some state
  ]

unfoldable pub backtrack_from :
    (fuel : ℕ) → Grid → (min_i min_j : ℕ) → BacktrackState → Option BacktrackState
backtrack_from zero grid min_i min_j state = none
backtrack_from (suc fuel) grid min_i min_j state =
    let go_on = backtrack_step grid state >>= backtrack_from fuel grid min_i min_j in
    if ltb min_i state.i && ltb min_j state.j then go_on else some state

unfoldable pub lcs_backtrack_block :
    (fuel : ℕ) → Grid → BacktrackState → (min_i min_j : ℕ) → Option BacktrackState
lcs_backtrack_block fuel grid state min_i min_j = do
  final ← backtrack_from fuel grid min_i min_j state
  res ← store final.res final.pos 0
  some (record final { res = res })

-- The loop has the body of that of `lcs_backtrack_block`; the result is the buffer.
unfoldable pub lcs_backtrack_serial :
    (fuel : ℕ) → (malloc : ℕ → Option (List ℕ)) → Grid → (i j : ℕ) → List ℕ → Option (List ℕ)
lcs_backtrack_serial fuel malloc grid i j res = do
  final ← backtrack_from fuel grid 0 0 (record { i = i; j = j; pos = 0; res = res })
  ended ← store final.res final.pos 0
  strrev malloc ended

unfoldable pub lcs_serial :
    (fuel : ℕ)
    → (malloc_cells : ℕ → Option (List Cell)) → (malloc : ℕ → Option (List ℕ))
    → (s1 s2 res : List ℕ) → Option (List ℕ)
lcs_serial fuel malloc_cells malloc s1 s2 res = do
  grid ← grid_init malloc_cells s1 s2
  filled ← lcs_length_serial grid
  lcs_backtrack_serial fuel malloc filled filled.n filled.m res
