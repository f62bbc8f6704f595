-- ===== src/Reading/Listing.antt =====
-- A file that lists the cells of a matrix row by row, and what `matrix_read_rows` takes from it.
use university_coursework.Base.{
  ℕ, suc, ◌+◌, ◌-◌, ◌*◌, ◌%◌, ◌≤◌, ◌<◌, ◌≡◌, refl, ap, ◌∙◌, true, false, some, List, [], ◌∷◌, ◌++◌,
  ltb, leb, ◌&&◌, ◌||◌, length, length-append, arith, get_elem?, get_elem?-eq-get_or,
  get_or-append_end, set, store_of_lt, ◌⊎◌, int_limit, to_int32-pos,
}
use university_coursework.Matrix.{Row, Matrix, word, matrix_num_rows}
use university_coursework.Matrix.Valid.{num_rows_of}
use university_coursework.Reading.{
  Texts, entry_of, put_back, stored, parse_line, store_cell, read_line,
}

-- The numbers of a matrix into which rows are read.
pub record IsOpen (m n from_i to_i : ℕ) : Type 0 where
  pub ordered : from_i ≤ to_i
  pub inside : to_i < m
  pub bounded : m ≤ int_limit
  pub wide : n ≤ int_limit
  pub fits : from_i + n * (to_i + 1 - from_i) < word

-- The columns are columns of a matrix with `n` of them, and the values are an `int`'s.
abbrev pub IsWithin : ℕ → Row ℕ → Type 0
IsWithin n [] = Unit
IsWithin n (cell ∷ row) = (cell.j < n) × (cell.val < int_limit) × IsWithin n row

-- The rows are not longer than the matrix is wide either.
abbrev pub IsFitting : ℕ → List (Row ℕ) → Type 0
IsFitting n [] = Unit
IsFitting n (row ∷ rows) = (length row ≤ n) × IsWithin n row × IsFitting n rows

abbrev pub total_cells : List (Row ℕ) → ℕ
total_cells [] = 0
total_cells (row ∷ rows) = length row + total_cells rows

module _ {Line V : Type 0} (texts : Texts Line V) (line_of : ℕ → ℕ → ℕ → Line) where
  -- A row as the matrix holds it.
  abbrev pub row_values : Row ℕ → Row V
  row_values [] = []
  row_values (cell ∷ row) = record { j = cell.j; val = texts.value cell.val } ∷ row_values row

  -- The lines of the row `i`, and of the rows from `i` on.
  abbrev pub row_lines : ℕ → Row ℕ → List Line
  row_lines i [] = []
  row_lines i (cell ∷ row) = line_of i cell.j cell.val ∷ row_lines i row

  abbrev pub listing : ℕ → List (Row ℕ) → List Line
  listing i [] = []
  listing i (row ∷ rows) = row_lines i row ++ listing (i + 1) rows

  -- The file ends at its last line, or after it there is a buffer with less than two tokens, as `fgets`
  -- leaves it at the end of the file.
  abbrev pub IsEnd : List Line → Type 0
  IsEnd [] = Unit
  IsEnd (line ∷ []) =
      (texts.tokens line ≡ []) ⊎ ((k : ℕ) × (texts.tokens line ≡ k ∷ []) × (k < int_limit))
  IsEnd (line ∷ more ∷ rest) = ⊥

  pub length-row_values : (row : Row ℕ) → length (row_values row) ≡ length row
  length-row_values [] = refl
  length-row_values (cell ∷ row) = ap suc (length-row_values row)

  set_row :
      (done : List (Row V)) (part row : Row V) (blank : List (Row V))
      → set (done ++ (part ∷ blank)) (length done) row ≡ done ++ (row ∷ blank)
  set_row [] part row blank = refl
  set_row (r ∷ done) part row blank = ap (λ rows. r ∷ rows) (set_row done part row blank)

  module _
      (prints : (i j val : ℕ)
        → i < int_limit
        → j < int_limit
        → val < int_limit
        → texts.tokens (line_of i j val) ≡ i ∷ j ∷ val ∷ []) where
    parse_lem :
        (mat : Matrix V) (line_num i j val : ℕ)
        → i < mat.m
        → j < mat.n
        → mat.m ≤ int_limit
        → mat.n ≤ int_limit
        → val < int_limit
        → parse_line texts false mat line_num (line_of i j val)
          ≡ some (some (record { i = i; j = j; cell_val = some val }))
    unfolding parse_line entry_of
    parse_lem mat line_num i j val hi hj printed wide hv =
        let test : (leb mat.n j || leb mat.m i) ≡ false = within j mat.n i mat.m hj hi in
        rw
          (
            prints i j val (omega arith) (omega arith) hv,
            to_int32-pos i (omega arith),
            to_int32-pos j (omega arith),
            to_int32-pos val hv,
            test,
          )
          refl
      where
        within : (a b c d : ℕ) → a < b → c < d → (leb b a || leb d c) ≡ false
        within a b c d h k = ground arith

    store_cell_lem :
        (mat : Matrix V) (done blank : List (Row V)) (part : Row V) (line_num i j val : ℕ)
        → IsOpen mat.m mat.n mat.from_i mat.to_i
        → mat.rows ≡ done ++ (part ∷ blank)
        → i ≡ mat.from_i + length done
        → length part < mat.n
        → line_num < mat.n * (mat.to_i + 1 - mat.from_i)
        → store_cell texts mat line_num (record { i = i; j = j; cell_val = some val })
          ≡ some (record mat {
            rows = done ++ ((part ++ (record { j = j; val = texts.value val } ∷ [])) ∷ blank);
          })
    unfolding store_cell
    store_cell_lem mat done blank part line_num i j val frame so_far at room few =
        let size = length-append done (part ∷ blank) in
        let where_at : i - mat.from_i ≡ length done = omega arith in
        let row : get_elem? (done ++ (part ∷ blank)) (length done) ≡ some part =
          get_elem?-eq-get_or (done ++ (part ∷ blank)) (length done) [] (omega arith)
          ∙ ap some (get_or-append_end done blank (length done) part [] refl) in
        let limit : (mat.from_i + mat.n * (mat.to_i + 1 - mat.from_i)) % word
            ≡ mat.from_i + mat.n * (mat.to_i + 1 - mat.from_i) =
          wraps (mat.from_i + mat.n * (mat.to_i + 1 - mat.from_i)) frame.fits in
        let tests : (leb (length part + 1) mat.n
              && leb (line_num + 1) (mat.from_i + mat.n * (mat.to_i + 1 - mat.from_i)))
            ≡ true =
          both (length part) mat.n line_num mat.from_i (mat.n * (mat.to_i + 1 - mat.from_i)) room
            few in
        let held : Matrix V = record mat { rows = done ++ (part ∷ blank) } in
        let num : matrix_num_rows held ≡ some (mat.to_i + 1 - mat.from_i) =
          num_rows_of held frame.ordered frame.inside (omega (arith, frame.bounded)) in
        rw
          (
            where_at,
            so_far,
            row,
            store_of_lt (done ++ (part ∷ blank)) (length done)
                (part ++ (record { j = j; val = texts.value val } ∷ [])) (omega arith),
            num,
            limit,
            tests,
            set_row done part (part ++ (record { j = j; val = texts.value val } ∷ [])) blank,
          )
          refl
      where
        wraps : (a : ℕ) → a < word → a % word ≡ a
        wraps a h = omega arith

        both : (a b c d e : ℕ) → a < b → c < e → (leb (a + 1) b && leb (c + 1) (d + e)) ≡ true
        both a b c d e h k = ground arith

    pub read_line_stored :
        (mat : Matrix V) (done blank : List (Row V)) (part : Row V) (line_num i j val : ℕ)
        → IsOpen mat.m mat.n mat.from_i mat.to_i
        → mat.rows ≡ done ++ (part ∷ blank)
        → i ≡ mat.from_i + length done
        → i ≤ mat.to_i
        → j < mat.n
        → val < int_limit
        → length part < mat.n
        → line_num < mat.n * (mat.to_i + 1 - mat.from_i)
        → read_line texts false mat line_num (line_of i j val)
          ≡ some (
              stored (record mat {
                rows = done ++ ((part ++ (record { j = j; val = texts.value val } ∷ [])) ∷ blank);
              }))
    unfolding read_line
    read_line_stored mat done blank part line_num i j val frame so_far at below hj hv room few =
        let before : ltb mat.to_i i ≡ false = not_after i mat.to_i below in
        let after : leb mat.from_i i ≡ true = from_on mat.from_i i (omega arith) in
        rw
          (
            parse_lem mat line_num i j val (omega (arith, frame.inside)) hj frame.bounded frame.wide
                hv,
            store_cell_lem mat done blank part line_num i j val frame so_far at room few,
            before,
            after,
          )
          refl
      where
        not_after : (a b : ℕ) → a ≤ b → ltb b a ≡ false
        not_after a b h = ground arith

        from_on : (a b : ℕ) → a ≤ b → leb a b ≡ true
        from_on a b h = ground arith

    pub read_line_put_back :
        (mat : Matrix V) (line_num i j val : ℕ)
        → mat.to_i < i
        → i < mat.m
        → j < mat.n
        → mat.m ≤ int_limit
        → mat.n ≤ int_limit
        → val < int_limit
        → read_line texts false mat line_num (line_of i j val) ≡ some put_back
    unfolding read_line
    read_line_put_back mat line_num i j val h hi hj printed wide hv =
        let after : ltb mat.to_i i ≡ true = past mat.to_i i h in
        rw (parse_lem mat line_num i j val hi hj printed wide hv, after) refl
      where
        past : (a b : ℕ) → a < b → ltb a b ≡ true
        past a b h = ground arith
