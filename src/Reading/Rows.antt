-- ===== src/Reading/Rows.antt =====
-- `matrix_read_rows` on the listing of a matrix.
use university_coursework.Base.{
  ℕ, suc, ◌+◌, ◌-◌, ◌*◌, ◌≤◌, ◌<◌, ◌≡◌, refl, sym, ap, ap₂, ◌∙◌, subst, false, none, some, List, [],
  ◌∷◌, ◌++◌, append_assoc, append-nil, length, length-append, arith, replicate, ◌⊎◌, int_limit,
  to_int32, to_int32-pos, map, inl, inr,
}
use university_coursework.Matrix.{Row, Matrix}
use university_coursework.Reading.{Texts, entry_of, parse_line, read_line, matrix_read_rows}
use university_coursework.Reading.Listing.{
  IsOpen, IsWithin, IsFitting, total_cells, row_values, row_lines, listing, IsEnd, read_line_stored,
  read_line_put_back,
}

module _ {Line V : Type 0} (texts : Texts Line V) (line_of : ℕ → ℕ → ℕ → Line)
    (prints : (i j val : ℕ)
      → i < int_limit
      → j < int_limit
      → val < int_limit
      → texts.tokens (line_of i j val) ≡ i ∷ j ∷ val ∷ []) where
  cells_lem :
      (mat : Matrix V) (done blank : List (Row V)) (part : Row V) (cells : Row ℕ) (rest : List Line)
      (line_num i : ℕ)
      → IsOpen mat.m mat.n mat.from_i mat.to_i
      → mat.rows ≡ done ++ (part ∷ blank)
      → i ≡ mat.from_i + length done
      → i ≤ mat.to_i
      → IsWithin mat.n cells
      → length part + length cells ≤ mat.n
      → line_num + length cells ≤ mat.n * (mat.to_i + 1 - mat.from_i)
      → matrix_read_rows texts false mat line_num (row_lines texts line_of i cells ++ rest)
        ≡ matrix_read_rows texts false
            (record mat { rows = done ++ ((part ++ row_values texts line_of cells) ∷ blank) })
            (line_num + length cells)
            rest
  unfolding matrix_read_rows
  cells_lem mat done blank part [] rest line_num i frame so_far at below cols room few =
      ap₂ (λ rows k. matrix_read_rows texts false (record mat { rows = rows }) k rest)
        (so_far ∙ ap (λ row. done ++ (row ∷ blank)) (sym (append-nil part))) (omega arith)
  cells_lem mat done blank part (cell ∷ cells) rest line_num i frame so_far at below (hj, hv, cols)
        room few =
      let new : Row V = record { j = cell.j; val = texts.value cell.val } ∷ [] in
      let next : Matrix V = record mat { rows = done ++ ((part ++ new) ∷ blank) } in
      rw
        (read_line_stored texts line_of prints mat done blank part line_num i cell.j cell.val frame
          so_far at below hj hv (omega arith) (omega arith))
        (cells_lem next done blank (part ++ new) cells rest (line_num + 1) i frame refl at below
            cols (omega (arith, length-append part new)) (omega arith)
          ∙ ap₂
              (λ row k.
                matrix_read_rows texts false (record mat { rows = done ++ (row ∷ blank) }) k rest)
              (append_assoc part new (row_values texts line_of cells)) (omega arith))

  -- The rows of a matrix, as it holds them.
  abbrev pub all_values : List (Row ℕ) → List (Row V)
  all_values [] = []
  all_values (row ∷ rows) = row_values texts line_of row ∷ all_values rows

  rows_lem :
      (mat : Matrix V) (done : List (Row V)) (rows : List (Row ℕ)) (rest : List Line)
      (line_num i : ℕ)
      → IsOpen mat.m mat.n mat.from_i mat.to_i
      → mat.rows ≡ done ++ replicate (length rows) []
      → i ≡ mat.from_i + length done
      → i + length rows ≡ mat.to_i + 1
      → IsFitting mat.n rows
      → line_num ≤ mat.n * length done
      → matrix_read_rows texts false mat line_num (listing texts line_of i rows ++ rest)
        ≡ matrix_read_rows texts false
            (record mat { rows = done ++ all_values rows })
            (line_num + total_cells rows)
            rest
  rows_lem mat done [] rest line_num i frame so_far at last fit few =
      ap₂ (λ rows k. matrix_read_rows texts false (record mat { rows = rows }) k rest) so_far
        (omega arith)
  rows_lem mat done (row ∷ rows) rest line_num i frame so_far at last (narrow, cols, fit) few =
      let blank : List (Row V) = replicate (length rows) [] in
      let values = row_values texts line_of row in
      let next : Matrix V = record mat { rows = done ++ (values ∷ blank) } in
      let more : mat.n * length done + mat.n ≤ mat.n * (mat.to_i + 1 - mat.from_i) =
        grows mat.n (length done) (mat.to_i + 1 - mat.from_i) (omega arith) in
      let grown : length (done ++ (values ∷ [])) ≡ suc (length done) =
        length-append done (values ∷ []) ∙ omega arith in
      let room : line_num + length row ≤ mat.n * length (done ++ (values ∷ [])) =
        subst (λ k. line_num + length row ≤ mat.n * k) (sym grown)
          (step mat.n (length done) line_num (length row) few narrow) in
      ap (matrix_read_rows texts false mat line_num)
        (append_assoc (row_lines texts line_of i row) (listing texts line_of (i + 1) rows) rest)
      ∙ cells_lem mat done blank [] row (listing texts line_of (i + 1) rows ++ rest) line_num i
          frame so_far at (omega arith) cols (omega arith) (omega arith)
      ∙ rows_lem next (done ++ (values ∷ [])) rows rest (line_num + length row) (i + 1) frame
          (sym (append_assoc done (values ∷ []) blank)) (omega arith) (omega arith) fit room
      ∙ ap₂ (λ rows' k. matrix_read_rows texts false (record mat { rows = rows' }) k rest)
          (append_assoc done (values ∷ []) (all_values rows)) (omega arith)
    where
      grows : (n a b : ℕ) → a < b → n * a + n ≤ n * b
      grows n a b h = grind arith

      step : (n a l r : ℕ) → l ≤ n * a → r ≤ n → l + r ≤ n * suc a
      step n a l r h k = grind arith

  -- What is left of a file: the listing of the rows from `i` on, and perhaps the end.
  pub record IsLeft (i : ℕ) (rows : List (Row ℕ)) (input : List Line) : Type 0 where
    pub tail : List Line
    pub lists : input ≡ listing texts line_of i rows ++ tail
    pub ends : IsEnd texts line_of tail

  entry_short :
      (line : Line)
      → (texts.tokens line ≡ []) ⊎ ((k : ℕ) × (texts.tokens line ≡ k ∷ []) × (k < int_limit))
      → entry_of (map to_int32 (texts.tokens line)) ≡ some none
  unfolding entry_of
  entry_short line (inl none_there) = rw none_there refl
  entry_short line (inr (k, one, small)) = rw (one, to_int32-pos k small) refl

  -- At the rows that belong to others the loop ends, and leaves them.
  others_lem :
      (mat : Matrix V) (rows : List (Row ℕ)) (tail : List Line) (line_num i : ℕ)
      → mat.to_i < i
      → i + length rows ≤ mat.m
      → mat.m ≤ int_limit
      → mat.n ≤ int_limit
      → IsFitting mat.n rows
      → IsEnd texts line_of tail
      → (rest : List Line) × (matrix_read_rows texts false mat line_num
            (listing texts line_of i rows ++ tail)
          ≡ some (mat, rest))
        × IsLeft i rows rest
  unfolding matrix_read_rows read_line parse_line
  others_lem mat [] [] line_num i past inside printed wide fit ends =
      ([], refl, record { tail = []; lists = refl; ends = tt })
  others_lem mat [] (line ∷ []) line_num i past inside printed wide fit ends =
      ([], rw (entry_short line ends) refl, record { tail = []; lists = refl; ends = tt })
  others_lem mat [] (line ∷ more ∷ rest) line_num i past inside printed wide fit ends = absurd ends
  others_lem mat ([] ∷ rows) tail line_num i past inside printed wide (narrow, cols, fit) ends =
      let (rest, run, left) =
        others_lem mat rows tail line_num (i + 1) (omega arith) (omega arith) printed wide fit
          ends in
      (rest, run, record { tail = left.tail; lists = left.lists; ends = left.ends })
  others_lem mat ((cell ∷ row) ∷ rows) tail line_num i past inside printed wide
        (narrow, (hj, hv, cols), fit) ends =
      (
        listing texts line_of i ((cell ∷ row) ∷ rows) ++ tail,
        rw
            (read_line_put_back texts line_of prints mat line_num i cell.j cell.val past
              (omega arith) hj printed wide hv)
            refl,
        record { tail = tail; lists = refl; ends = ends },
      )

  -- From a file that lists the rows of a matrix, none of them longer than the matrix is wide,
  -- `matrix_read_rows` takes the rows from `from_i` to `to_i`, in which the cells then stand in the
  -- order of the file, and leaves the listing of the others.
  pub read_rows_of_listing :
      (mat : Matrix V) (own others : List (Row ℕ)) (input : List Line)
      → IsOpen mat.m mat.n mat.from_i mat.to_i
      → mat.rows ≡ replicate (length own) []
      → mat.from_i + length own ≡ mat.to_i + 1
      → mat.to_i + 1 + length others ≤ mat.m
      → IsFitting mat.n own
      → IsFitting mat.n others
      → IsLeft mat.from_i (own ++ others) input
      → (rest : List Line) × (matrix_read_rows texts false mat 0 input
          ≡ some (record mat { rows = all_values own }, rest))
        × IsLeft (mat.to_i + 1) others rest
  read_rows_of_listing mat own others input frame blank size inside fit fit' left =
      let full_row : Matrix V = record mat { rows = all_values own } in
      let (rest, run, left') =
        others_lem full_row others left.tail (0 + total_cells own) (mat.to_i + 1) (omega arith)
          inside frame.bounded frame.wide fit' left.ends in
      (
        rest,
        ap (matrix_read_rows texts false mat 0) (
              left.lists
              ∙ ap (λ lines. lines ++ left.tail) (split own others mat.from_i)
              ∙ append_assoc (listing texts line_of mat.from_i own)
                  (listing texts line_of (mat.from_i + length own) others) left.tail)
            ∙ rows_lem mat [] own
                (listing texts line_of (mat.from_i + length own) others ++ left.tail) 0 mat.from_i
                frame blank (omega arith) size fit (omega arith)
            ∙ ap
                (λ i.
                  matrix_read_rows texts false full_row (0 + total_cells own)
                    (listing texts line_of i others ++ left.tail))
                size
            ∙ run,
        left',
      )
    where
      split :
          (xs ys : List (Row ℕ)) (i : ℕ)
          → listing texts line_of i (xs ++ ys)
            ≡ listing texts line_of i xs ++ listing texts line_of (i + length xs) ys
      split [] ys i = ap (λ k. listing texts line_of k ys) (omega arith)
      split (x ∷ xs) ys i =
          ap (λ lines. row_lines texts line_of i x ++ lines)
            (split xs ys (i + 1)
              ∙ ap (λ k. listing texts line_of (i + 1) xs ++ listing texts line_of k ys)
                  (omega arith))
          ∙ sym (
              append_assoc (row_lines texts line_of i x) (listing texts line_of (i + 1) xs)
                (listing texts line_of (i + suc (length xs)) ys))
