-- ===== src/Product.antt =====
-- Parallel Computing/HW5/mpi_matrix.c: `matrix_vector_mult`. The sums and the products of doubles are
-- parameters.
pub mod Rows
use university_coursework.Base.{
  ℕ, zero, suc, ◌+◌, ◌-◌, Option, none, some, List, [], ◌∷◌, if◌then◌else◌, leb, ◌&&◌, store, ◌>>=◌,
}
use university_coursework.Matrix.{Cell, Row, Matrix, matrix_init, deref_row, local_rows}

-- The arithmetic of `value_t`.
pub record Values (V : Type 0) : Type 0 where
  pub nothing : V
  pub plus : V → V → V
  pub times : V → V → V

-- `xrow->cells` has to have a first cell.
unfoldable pub first_cell : {V : Type 0} → Row V → Option (Cell V)
first_cell [] = none
first_cell (cell ∷ row) = some cell

module _ {V : Type 0} (values : Values V) where
  -- The inner loop, with the cells of the row that are left.
  unfoldable pub multiply_row : Matrix V → Row V → V → Option V
  unfolding first_cell
  multiply_row vec [] val = some val
  multiply_row vec (acell ∷ arow) val = do
    xrow ← deref_row vec acell.j
    xcell ← first_cell xrow
    multiply_row vec arow (values.plus val (values.times acell.val xcell.val))

  -- `matrix_row( res, i )` is one of the rows that the result holds itself.
  unfoldable pub put_value : Matrix V → ℕ → V → Option (Matrix V)
  put_value res i val =
      let put = (do
        rows ← store res.rows (i - res.from_i) (record { j = 0; val = val } ∷ [])
        some (record res { rows = rows })) in
      if leb i res.to_i && leb res.from_i i then put else none

  -- The outer loop, with `rounds` rounds left at row `i`.
  unfoldable pub multiply_from : Matrix V → Matrix V → (i rounds : ℕ) → Matrix V → Option (Matrix V)
  unfolding multiply_row put_value
  multiply_from mat vec i zero res = some res
  multiply_from mat vec i (suc rounds) res = do
    arow ← deref_row mat i
    val ← multiply_row vec arow values.nothing
    res' ← put_value res i val
    multiply_from mat vec (i + 1) rounds res'

  unfoldable pub matrix_vector_mult : Matrix V → Matrix V → Option (Matrix V)
  unfolding local_rows
  matrix_vector_mult mat vec = do
    res ← matrix_init mat.m 1 mat.from_i mat.to_i
    multiply_from mat vec mat.from_i (local_rows mat) res
