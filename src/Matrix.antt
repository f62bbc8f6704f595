-- ===== src/Matrix.antt =====
-- Parallel Computing/HW5/mpi_matrix.c: the sparse matrix of which each process holds a stretch of
-- rows, and rows of other processes that have been mapped into it. `none` is a failed assert, a null
-- pointer that is read, or an access outside an array. A failed allocation ends the process and is
-- left out. A value is a double, of which the code only asks for sums and products.
pub mod Valid
pub mod Wire
pub mod Count
pub mod Mapped
pub mod Added
mod Tests
use university_coursework.Base.{
  ℕ, zero, suc, ◌+◌, ◌-◌, ◌*◌, ◌%◌, ◌^◌, Bool, Option, none, some, List, [], ◌∷◌, ◌++◌, map,
  if◌then◌else◌, ltb, leb, ◌==◌, ◌&&◌, length, get_elem?, take, replicate, ◌>>=◌,
}

pub record Cell (V : Type 0) : Type 0 where
  pub j : ℕ
  pub val : V

-- `num_cells` is the list's length.
abbrev pub Row : Type 0 → Type 0
Row V = List (Cell V)

pub record MappedRow (V : Type 0) : Type 0 where
  pub i : ℕ
  pub row : Row V

pub record Matrix (V : Type 0) : Type 0 where
  pub m : ℕ
  pub n : ℕ
  pub from_i : ℕ
  pub to_i : ℕ
  pub rows : List (Row V)
  pub mapped_rows : List (MappedRow V)

-- `offset_t` is an `unsigned long`.
abbrev pub word : ℕ
word = 2 ^ 64

module _ {V : Type 0} where
  unfoldable pub matrix_num_rows : Matrix V → Option ℕ
  matrix_num_rows mat =
      let num_rows = (mat.to_i + word - mat.from_i + 1) % word in
      if leb num_rows mat.m then some num_rows else none

  -- `to_i` is cut to the last row; the rows are empty.
  unfoldable pub matrix_init : (m n from_i to_i : ℕ) → Option (Matrix V)
  unfolding matrix_num_rows
  matrix_init m n from_i to_i =
      let last = if leb m to_i then (m + word - 1) % word else to_i in
      let mat : Matrix V = record {
        m = m;
        n = n;
        from_i = from_i;
        to_i = last;
        rows = [];
        mapped_rows = [];
      } in
      let filled = (do
        num_rows ← matrix_num_rows mat
        some (record mat { rows = replicate num_rows [] })) in
      if leb from_i last && ltb last m then filled else none

  -- The loop over the mapped rows runs to its end, so the last one counts.
  unfoldable pub find_mapped : List (MappedRow V) → ℕ → Option (Row V) → Option (Row V)
  find_mapped [] i ret = ret
  find_mapped (mapped ∷ rest) i ret =
      find_mapped rest i (if mapped.i == i then some mapped.row else ret)

  -- The inner `none` is a NULL that is returned.
  unfoldable pub matrix_row : Matrix V → ℕ → Option (Option (Row V))
  unfolding find_mapped
  matrix_row mat i =
      if leb i mat.to_i && leb mat.from_i i
      then (get_elem? mat.rows (i - mat.from_i) >>= λ row. some (some row))
      else some (find_mapped mat.mapped_rows i none)

  -- The row's cells are read through the pointer.
  unfoldable pub deref_row : Matrix V → ℕ → Option (Row V)
  deref_row mat i = matrix_row mat i >>= λ ret. ret

  unfoldable pub matrix_map_row : Matrix V → Row V → ℕ → Option (Matrix V)
  matrix_map_row mat row i =
      let mapped = record mat {
        mapped_rows = mat.mapped_rows ++ (record { i = i; row = row } ∷ []);
      } in
      let map_it = (do
        num_rows ← matrix_num_rows mat
        if leb (length row) mat.n && leb (length mapped.mapped_rows) (mat.m - num_rows)
            then some mapped
            else none) in
      matrix_row mat i >>= λ there. elim there [ some present ↦ some mat | none ↦ map_it ]

  -- The number of rounds of `for( i = mat->from_i; i <= mat->to_i; i++ )`.
  unfoldable pub local_rows : Matrix V → ℕ
  local_rows mat = mat.to_i + 1 - mat.from_i

-- What `memcpy` puts into the buffer: a `matrix_t`, a `matrix_row_t`, a `cell_t`. The pointers in the
-- first two mean nothing to the receiver.
pub data Chunk (V : Type 0) : Type 0 where
  matrix_chunk : (m n from_i to_i : ℕ) → Chunk V
  row_chunk : (num_cells : ℕ) → Chunk V
  cell_chunk : Cell V → Chunk V

abbrev pub sizeof : {V : Type 0} → Chunk V → ℕ
sizeof (matrix_chunk m n from_i to_i) = 56
sizeof (row_chunk num_cells) = 16
sizeof (cell_chunk cell) = 16

abbrev pub total_size : {V : Type 0} → List (Chunk V) → ℕ
total_size [] = 0
total_size (chunk ∷ chunks) = sizeof chunk + total_size chunks

module _ {V : Type 0} where
  -- The loop that adds up the sizes of the rows' cells, from row `i` on.
  unfoldable pub add_sizes : Matrix V → (i rounds bufsize : ℕ) → Option ℕ
  add_sizes mat i zero bufsize = some bufsize
  add_sizes mat i (suc rounds) bufsize = do
    row ← deref_row mat i
    add_sizes mat (i + 1) rounds (bufsize + length row * 16)

  -- The loop that copies the rows' cells, from row `i` on.
  unfoldable pub copy_cells : Matrix V → (i rounds : ℕ) → Option (List (Chunk V))
  copy_cells mat i zero = some []
  copy_cells mat i (suc rounds) = do
    row ← deref_row mat i
    rest ← copy_cells mat (i + 1) rounds
    some (map cell_chunk row ++ rest)

  -- The buffer and its size in bytes.
  unfoldable pub matrix_serialize : Matrix V → Option (List (Chunk V) × ℕ)
  unfolding matrix_num_rows local_rows
  matrix_serialize mat = do
    num_rows ← matrix_num_rows mat
    bufsize ← add_sizes mat mat.from_i (local_rows mat) (56 + num_rows * 16)
    first ← deref_row mat mat.from_i
    cells ← copy_cells mat mat.from_i (local_rows mat)
    let rows = map (λ row. row_chunk (length row)) (take num_rows mat.rows)
    let buf = matrix_chunk mat.m mat.n mat.from_i mat.to_i ∷ rows ++ cells
    if leb num_rows (length mat.rows) && total_size buf == bufsize
        then some (buf, bufsize)
        else none

  unfoldable pub read_rows : ℕ → List (Chunk V) → Option (List ℕ × List (Chunk V))
  read_rows zero buf = some ([], buf)
  read_rows (suc n) (row_chunk num_cells ∷ buf) = do
    (counts, rest) ← read_rows n buf
    some (num_cells ∷ counts, rest)
  read_rows (suc n) _ = none

  unfoldable pub read_cells : ℕ → List (Chunk V) → Option (Row V × List (Chunk V))
  read_cells zero buf = some ([], buf)
  read_cells (suc n) (cell_chunk cell ∷ buf) = do
    (row, rest) ← read_cells n buf
    some (cell ∷ row, rest)
  read_cells (suc n) _ = none

  -- The loop over the rows, with the counts of the rows that are left.
  unfoldable pub fill_rows : (n : ℕ) → List ℕ → List (Chunk V) → Option (List (Row V))
  fill_rows n [] buf = some []
  fill_rows n (num_cells ∷ counts) buf =
      let filled = (do
        (row, rest) ← read_cells num_cells buf
        rows ← fill_rows n counts rest
        some (row ∷ rows)) in
      if leb num_cells n then filled else none

  unfoldable pub matrix_deserialize : List (Chunk V) → Option (Matrix V)
  unfolding matrix_num_rows
  matrix_deserialize (matrix_chunk m n from_i to_i ∷ buf) =
      let mat : Matrix V = record {
        m = m;
        n = n;
        from_i = from_i;
        to_i = to_i;
        rows = [];
        mapped_rows = [];
      } in
      do
        num_rows ← matrix_num_rows mat
        (counts, cells) ← read_rows num_rows buf
        rows ← fill_rows n counts cells
        some (record mat { rows = rows })
  matrix_deserialize _ = none
