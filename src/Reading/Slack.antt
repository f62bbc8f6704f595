-- ===== src/Reading/Slack.antt =====
-- What the last process's slack does to `matrix_read`.
use native.Mathlib.Nat.{mod-add-div, le-div_iff_mul-le}
use university_coursework.Base.{
  ℕ, zero, suc, ◌+◌, ◌-◌, ◌*◌, ◌/◌, ◌%◌, ◌≤◌, ◌<◌, ◌≡◌, refl, sym, ap, ◌∙◌, Bool, true, false,
  Option, none, some, List, [], ◌∷◌, ◌++◌, if◌then◌else◌, ltb, leb, ◌==◌, ◌&&◌, arith, ◌>>=◌,
  dec_le,
}
use university_coursework.Matrix.{Matrix, word, matrix_num_rows, matrix_init, matrix_serialize}
use university_coursework.Matrix.Valid.{
  num_rows_of, matrix_init-IsValid, blank_matrix, cut, cut_inside,
}
use university_coursework.Double.{floor_div}
use university_coursework.Reading.{
  Texts, matrix_read_rows, matrix_free, Dealt, read_stretch, read_partition, deal, matrix_read,
}
use university_coursework.Reading.Same.{IsSame, IsSameRead, read_rows_same}

module _ {Line V : Type 0} (texts : Texts Line V) (p m n : ℕ) (is_vec : Bool) (some_process : 0 < p)
    (some_row : 0 < m) (bounded : m < word) (slack : m / p ≤ m % p) where
  -- Of any size that the division may give, the last partition is less than one or at least two.
  wrong_size :
      (size to_r : ℕ)
      → to_r + 1 ≡ p
      → (leb size (m - to_r * size) && ltb (m - to_r * size) (2 * size)) ≡ false
  wrong_size size to_r turn =
      let whole : p * size ≡ to_r * size + size =
        ap (λ k. k * size) (sym turn) ∙ one_more to_r size in
      let total : m % p + p * (m / p) ≡ m = mod-add-div m p in
      elim (dec_le (p * size) m) [
        | yes within ↦
            let small : size ≤ m / p =
              (le-div_iff_mul-le {k = p} {x = size} {y = m} some_process).1
                (omega (arith, turned size p)) in
            second size (m - to_r * size) (2 * size) (omega (arith, scaled p size (m / p) small))
        | no beyond ↦
            first size (m - to_r * size) (2 * size) (omega (arith, positive p size (omega arith)))
      ]
    where
      one_more : (a b : ℕ) → (a + 1) * b ≡ a * b + b
      one_more a b = grind arith

      turned : (a b : ℕ) → a * b ≡ b * a
      turned a b = grind arith

      scaled : (p a b : ℕ) → a ≤ b → p * a ≤ p * b
      scaled p a b h = grind arith

      positive : (a b : ℕ) → 0 < a * b → 0 < b
      positive a zero h = absurd (omega arith)
      positive a (suc b) h = omega arith

      first : (a b c : ℕ) → b < a → (leb a b && ltb b c) ≡ false
      first a b c h = ground arith

      second : (a b c : ℕ) → c ≤ b → (leb a b && ltb b c) ≡ false
      second a b c h = ground arith

  -- The last assert of a partition.
  abbrev checked : ℕ → Matrix V → List Line → (num_rows : ℕ) → Option (Matrix V × List Line)
  checked size mat rest num_rows =
      if leb size num_rows && ltb num_rows (2 * size) then some (mat, rest) else none

  too_many :
      (size to_r : ℕ) (mat : Matrix V) (rest : List Line)
      → to_r + 1 ≡ p
      → to_r * size ≤ m - 1
      → IsSame texts (blank_matrix V m n (to_r * size) (m - 1)) mat
      → (matrix_num_rows mat >>= checked size mat rest) ≡ none
  too_many size to_r mat rest turn begins same =
      let num =
        num_rows_of mat (omega (arith, same.from_i, same.to_i)) (omega (arith, same.m, same.to_i))
          (omega (arith, same.m)) in
      let count : mat.to_i + 1 - mat.from_i ≡ m - to_r * size =
        omega (arith, same.from_i, same.to_i) in
      rw (num, count, wrong_size size to_r turn) refl

  outside : (from_i : ℕ) → m - 1 < from_i → matrix_init {V = V} m n from_i (m - 1) ≡ none
  unfolding matrix_init
  outside from_i h =
      let last : leb m (m - 1) ≡ false = below m some_row in
      let late : leb from_i (m - 1) ≡ false = above from_i (m - 1) h in rw (last, late) refl
    where
      below : (m : ℕ) → 0 < m → leb m (m - 1) ≡ false
      below m h = ground arith

      above : (a b : ℕ) → b < a → leb a b ≡ false
      above a b h = ground arith

  last_stretch :
      (size to_r : ℕ) (input : List Line)
      → to_r + 1 ≡ p
      → read_stretch texts p m n is_vec size to_r input ≡ none
  unfolding read_stretch
  last_stretch size to_r input turn =
      let from_i = to_r * size in
      let is_last : (to_r == p - 1) ≡ true = same to_r p turn in
      elim (dec_le from_i (m - 1)) [
        | no late ↦ rw (is_last, outside from_i (omega arith)) refl
        | yes begins ↦
            let (made, _) =
              matrix_init-IsValid {V = V} m n from_i (m - 1) begins (omega arith) bounded in
            let end : cut m (m - 1) ≡ m - 1 = cut_inside m (m - 1) (omega arith) in
            let start = made ∙ ap (λ k. some (blank_matrix V m n from_i k)) end in
            rw (is_last, start)
              (go (matrix_read_rows texts is_vec (blank_matrix V m n from_i (m - 1)) 0 input)
                (read_rows_same texts is_vec input (blank_matrix V m n from_i (m - 1)) 0) begins)
      ]
    where
      same : (a b : ℕ) → a + 1 ≡ b → (a == b - 1) ≡ true
      same a b h = ground arith

      go :
          (o : Option (Matrix V × List Line))
          → IsSameRead texts (blank_matrix V m n (to_r * size) (m - 1)) o
          → to_r * size ≤ m - 1
          → (o >>= λ read.
              let (mat', rest) = read in matrix_num_rows mat' >>= checked size mat' rest)
            ≡ none
      go none h begins = refl
      go (some (mat', rest)) h begins = too_many size to_r mat' rest turn begins h

  last_partition :
      (to_r : ℕ) (input : List Line)
      → to_r + 1 ≡ p
      → read_partition texts p m n is_vec to_r input ≡ none
  unfolding read_partition
  last_partition to_r input turn = go (floor_div word m p)
    where
      go :
          (divided : Option ℕ)
          → (divided >>= λ size. read_stretch texts p m n is_vec size to_r input) ≡ none
      go none = refl
      go (some size) = last_stretch size to_r input turn

  deal_fails :
      (to_r rounds : ℕ) (input : List Line) (dealt : Dealt V)
      → to_r + suc rounds ≡ p
      → deal texts p m n is_vec to_r (suc rounds) input dealt ≡ none
  unfolding deal
  deal_fails to_r zero input dealt turn = rw (last_partition to_r input turn) refl
  deal_fails to_r (suc rounds) input dealt turn =
      go (read_partition texts p m n is_vec to_r input) (λ (rest : List Line) (dealt' : Dealt V).
        deal_fails (to_r + 1) rounds rest dealt' (omega arith))
    where
      sends : Matrix V → Option (Dealt V)
      sends mat =
          let send = (do
            (buf, bufsize) ← matrix_serialize mat
            (cleared, freed) ← matrix_free mat
            if ltb 0 bufsize
                then some (record dealt { sent = dealt.sent ++ ((buf, bufsize) ∷ []) })
                else none) in
          if to_r == 0 then some (record dealt { root_mat = some mat }) else send

      after :
          (o : Option (Dealt V)) (rest : List Line)
          → ((dealt' : Dealt V)
              → deal texts p m n is_vec (to_r + 1) (suc rounds) rest dealt' ≡ none)
          → (o >>= λ dealt'. deal texts p m n is_vec (to_r + 1) (suc rounds) rest dealt') ≡ none
      after none rest later = refl
      after (some dealt') rest later = later dealt'

      go :
          (o : Option (Matrix V × List Line))
          → ((rest : List Line) (dealt' : Dealt V)
              → deal texts p m n is_vec (to_r + 1) (suc rounds) rest dealt' ≡ none)
          → (o >>= λ read.
              let (mat, rest) = read in
              sends mat >>= λ dealt'. deal texts p m n is_vec (to_r + 1) (suc rounds) rest dealt')
            ≡ none
      go none later = refl
      go (some (mat, rest)) later = after (sends mat) rest (later rest)

  -- Where the rest of the division of the number of rows by the number of processes is not smaller than
  -- the quotient, as with fewer rows than processes, `matrix_read` returns for no file: an assert
  -- fails at the last partition.
  pub matrix_read_fails : (input : List Line) → matrix_read {V = V} texts p m n is_vec input ≡ none
  unfolding matrix_read
  matrix_read_fails input =
      let turn : suc (p - 1) ≡ p = omega arith in
      ap (λ k. deal texts p m n is_vec 0 k input (record { root_mat = none; sent = [] })) (sym turn)
      ∙ deal_fails 0 (p - 1) input (record { root_mat = none; sent = [] }) (omega arith)
