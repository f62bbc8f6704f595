-- ===== src/Reading/Same.antt =====
-- `matrix_read_rows` leaves the stretch of a matrix as it is.
use university_coursework.Base.{
  ℕ, ◌+◌, ◌-◌, ◌*◌, ◌%◌, ◌≡◌, refl, ◌∙◌, Bool, true, false, Option, none, some, List, [], ◌∷◌, ◌++◌,
  if◌then◌else◌, ltb, leb, ◌&&◌, length, get_elem?, store, ◌>>=◌,
}
use university_coursework.Matrix.{Row, Matrix, word, matrix_num_rows}
use university_coursework.Reading.{
  Texts, Entry, Round, broken, put_back, stored, parse_line, store_cell, read_line,
  matrix_read_rows,
}

module _ {Line V : Type 0} (texts : Texts Line V) where
  pub record IsSame (before after : Matrix V) : Type 0 where
    pub m : after.m ≡ before.m
    pub from_i : after.from_i ≡ before.from_i
    pub to_i : after.to_i ≡ before.to_i

  abbrev IsSameOption : Matrix V → Option (Matrix V) → Type 0
  IsSameOption mat none = Unit
  IsSameOption mat (some mat') = IsSame mat mat'

  abbrev IsSameRound : Matrix V → Option (Round V) → Type 0
  IsSameRound mat none = Unit
  IsSameRound mat (some broken) = Unit
  IsSameRound mat (some put_back) = Unit
  IsSameRound mat (some (stored mat')) = IsSame mat mat'

  abbrev pub IsSameRead : Matrix V → Option (Matrix V × List Line) → Type 0
  IsSameRead mat none = Unit
  IsSameRead mat (some (mat', rest)) = IsSame mat mat'

  same_bind :
      {A : Type 0} (mat : Matrix V) (o : Option A) (f : A → Option (Matrix V))
      → ((a : A) → IsSameOption mat (f a))
      → IsSameOption mat (o >>= f)
  same_bind mat none f h = tt
  same_bind mat (some a) f h = h a

  same_if :
      (mat : Matrix V) (b : Bool) (rows : List (Row V))
      → IsSameOption mat (if b then some (record mat { rows = rows }) else none)
  same_if mat true rows = record { m = refl; from_i = refl; to_i = refl }
  same_if mat false rows = tt

  store_cell_same :
      (mat : Matrix V) (line_num : ℕ) (entry : Entry)
      → IsSameOption mat (store_cell texts mat line_num entry)
  unfolding store_cell
  store_cell_same mat line_num entry =
      same_bind mat (get_elem? mat.rows (entry.i - mat.from_i)) _ (λ (row : Row V).
        same_bind mat entry.cell_val _ (λ (val : ℕ).
          same_bind mat
            (store mat.rows (entry.i - mat.from_i)
              (row ++ (record { j = entry.j; val = texts.value val } ∷ [])))
            _
            (λ (rows : List (Row V)). same_bind mat (matrix_num_rows mat) _ (λ (num_rows : ℕ).
              same_if mat
                (leb (length row + 1) mat.n
                  && leb (line_num + 1) ((mat.from_i + mat.n * num_rows) % word))
                rows))))

  stored_same :
      (mat : Matrix V) (o : Option (Matrix V))
      → IsSameOption mat o
      → IsSameRound mat (o >>= λ mat'. some (stored mat'))
  stored_same mat none h = tt
  stored_same mat (some mat') h = h

  read_line_same :
      (is_vec : Bool) (mat : Matrix V) (line_num : ℕ) (line : Line)
      → IsSameRound mat (read_line texts is_vec mat line_num line)
  unfolding read_line
  read_line_same is_vec mat line_num line = go (parse_line texts is_vec mat line_num line)
    where
      into : (entry : Entry) → Bool → Bool → Option (Round V)
      into entry after before =
          let stored_now = store_cell texts mat line_num entry >>= λ mat'. some (stored mat') in
          if after then some put_back else (if before then stored_now else none)

      choose : (entry : Entry) (after before : Bool) → IsSameRound mat (into entry after before)
      choose entry true before = tt
      choose entry false true =
          stored_same mat (store_cell texts mat line_num entry) (store_cell_same mat line_num entry)
      choose entry false false = tt

      go :
          (parsed : Option (Option Entry))
          → IsSameRound mat (
              parsed >>= λ found. elim found [
                | none ↦ some broken
                | some entry ↦ into entry (ltb mat.to_i entry.i) (leb mat.from_i entry.i)
              ])
      go none = tt
      go (some none) = tt
      go (some (some entry)) = choose entry (ltb mat.to_i entry.i) (leb mat.from_i entry.i)

  pub read_rows_same :
      (is_vec : Bool) (input : List Line) (mat : Matrix V) (line_num : ℕ)
      → IsSameRead mat (matrix_read_rows texts is_vec mat line_num input)
  unfolding matrix_read_rows
  read_rows_same is_vec [] mat line_num = record { m = refl; from_i = refl; to_i = refl }
  read_rows_same is_vec (line ∷ input) mat line_num =
      go (read_line texts is_vec mat line_num line) (read_line_same is_vec mat line_num line)
        (λ (mat' : Matrix V). read_rows_same is_vec input mat' (line_num + 1))
    where
      chain :
          (mat' : Matrix V) (o : Option (Matrix V × List Line))
          → IsSame mat mat'
          → IsSameRead mat' o
          → IsSameRead mat o
      chain mat' none h k = tt
      chain mat' (some (mat'', rest)) h k = record {
        m = k.m ∙ h.m;
        from_i = k.from_i ∙ h.from_i;
        to_i = k.to_i ∙ h.to_i;
      }

      go :
          (ended : Option (Round V))
          → IsSameRound mat ended
          → ((mat' : Matrix V)
              → IsSameRead mat' (matrix_read_rows texts is_vec mat' (line_num + 1) input))
          → IsSameRead mat (
              ended >>= λ found. elim found [
                | broken ↦ some (mat, input)
                | put_back ↦ some (mat, line ∷ input)
                | stored mat' ↦ matrix_read_rows texts is_vec mat' (line_num + 1) input
              ])
      go none h later = tt
      go (some broken) h later = record { m = refl; from_i = refl; to_i = refl }
      go (some put_back) h later = record { m = refl; from_i = refl; to_i = refl }
      go (some (stored mat')) h later =
          chain mat' (matrix_read_rows texts is_vec mat' (line_num + 1) input) h (later mat')
