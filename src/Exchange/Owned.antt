-- ===== src/Exchange/Owned.antt =====
-- `matrix_read` and `matrix_sync_build_schedule` divide the rows in the same way.
use native.Mathlib.Nat.{div-mul-le_self, le-div_iff_mul-le}
use mathlib.Core.Option.{some-injective}
use university_coursework.Base.{
  ℕ, ◌+◌, ◌-◌, ◌*◌, ◌/◌, ◌%◌, ◌≤◌, ◌<◌, ◌≡◌, refl, sym, ap, ◌∙◌, subst, Bool, true, false, Option,
  none, some, List, if◌then◌else◌, leb, ltb, ◌==◌, ◌&&◌, arith, ◌>>=◌, ◌≢◌,
}
use university_coursework.Matrix.{Matrix, word, matrix_num_rows, matrix_init}
use university_coursework.Matrix.Valid.{IsLocal, matrix_init-IsValid, blank_matrix, cut_inside}
use university_coursework.Double.{double_limit, floor_div}
use university_coursework.Double.Exact.{floor_div_lem}
use university_coursework.Schedule.{rank_limit, source_rank}
use university_coursework.Schedule.Owner.{owner, source_rank_lem, quotient_lt, quotient_le}
use university_coursework.Reading.{Texts, matrix_read_rows, read_stretch, read_partition}
use university_coursework.Reading.Deal.{last_row}
use university_coursework.Reading.Same.{IsSame, IsSameRead, read_rows_same}
use university_coursework.Exchange.Shares.{share_from, share_to, owner_has_row}

none-some : {A : Type 0} (a : A) → none ≢ some a
none-some {A} a e = subst is_none e tt
  where
    is_none : Option A → Type 0
    is_none none = Unit
    is_none (some b) = ⊥

module _ (p m s : ℕ) (some_process : 0 < p) (enough : p ≤ m) (exact : m < double_limit)
    (rank : s < p) where
  upto : (s + 1) * (m / p) ≤ m
  upto =
      omega (arith, div-mul-le_self m p, turned (m / p) p, scaled (s + 1) p (m / p) (omega arith))
    where
      turned : (a b : ℕ) → a * b ≡ b * a
      turned a b = grind arith

      scaled : (a b c : ℕ) → a ≤ b → a * c ≤ b * c
      scaled a b c h = grind arith

  positive : 0 < m / p
  positive = (le-div_iff_mul-le {k = p} {x = 1} {y = m} some_process).1 (omega arith)

  one_more : (s + 1) * (m / p) ≡ s * (m / p) + m / p
  one_more = grind arith

  last_row_lem : last_row p m s ≡ share_to p m s
  last_row_lem =
      ap (λ k. if s == p - 1 then m - 1 else k)
        (wraps ((s + 1) * (m / p)) (omega (arith, one_more, positive)) (omega (arith, upto)))
    where
      wraps : (a : ℕ) → 0 < a → a < word → (a + word - 1) % word ≡ a - 1
      wraps a h k = omega arith

  share_bounds : (share_from p m s ≤ share_to p m s) × (share_to p m s < m)
  share_bounds = either (s == p - 1)
    where
      either :
          (b : Bool)
          → (s * (m / p) ≤ (if b then m - 1 else (s + 1) * (m / p) - 1))
            × ((if b then m - 1 else (s + 1) * (m / p) - 1) < m)
      either true = omega (arith, one_more, positive, upto)
      either false = omega (arith, one_more, positive, upto)

  module _ {Line V : Type 0} (texts : Texts Line V) (n : ℕ) (is_vec : Bool) (input : List Line)
      (mat : Matrix V) (rest : List Line) where
    abbrev blank : Matrix V
    blank = blank_matrix V m n (share_from p m s) (share_to p m s)

    abbrev kept : Matrix V → List Line → Bool → Option (Matrix V × List Line)
    kept mat' rest' b = if b then some (mat', rest') else none

    abbrev checked : Matrix V × List Line → Option (Matrix V × List Line)
    checked (mat', rest') = matrix_num_rows mat' >>= λ num_rows.
        kept mat' rest' (leb (m / p) num_rows && ltb num_rows (2 * (m / p)))

    partition_of :
        read_partition texts p m n is_vec s input
        ≡ (matrix_read_rows texts is_vec blank 0 input >>= checked)
    unfolding read_partition read_stretch
    partition_of =
        let (low, high) = share_bounds in
        let (made, _) =
          matrix_init-IsValid {V = V} m n (share_from p m s) (share_to p m s) low (omega arith)
            (omega arith) in
        let size =
          floor_div_lem word m p some_process exact (omega arith)
            (omega (arith, quotient_le m p some_process)) in
        let start : matrix_init m n (share_from p m s) (last_row p m s) ≡ some blank =
          ap (matrix_init m n (share_from p m s)) last_row_lem
          ∙ made
          ∙ ap (λ k. some (blank_matrix V m n (share_from p m s) k))
              (cut_inside m (share_to p m s) high) in
        rw (size, start) refl

    stretch_of :
        read_partition texts p m n is_vec s input ≡ some (mat, rest) → IsSame texts blank mat
    stretch_of e =
        go (matrix_read_rows texts is_vec blank 0 input) (read_rows_same texts is_vec input blank 0)
          (sym partition_of ∙ e)
      where
        pick :
            (mat' : Matrix V) (rest' : List Line) (b : Bool)
            → kept mat' rest' b ≡ some (mat, rest)
            → mat' ≡ mat
        pick mat' rest' true e = ap (λ (r : Matrix V × List Line). r.0) (some-injective _ _ e)
        pick mat' rest' false e = absurd (none-some (mat, rest) e)

        count :
            (mat' : Matrix V) (rest' : List Line) (num : Option ℕ)
            → (num >>= λ num_rows.
                kept mat' rest' (leb (m / p) num_rows && ltb num_rows (2 * (m / p))))
              ≡ some (mat, rest)
            → mat' ≡ mat
        count mat' rest' none e = absurd (none-some (mat, rest) e)
        count mat' rest' (some k) e = pick mat' rest' (leb (m / p) k && ltb k (2 * (m / p))) e

        go :
            (o : Option (Matrix V × List Line))
            → IsSameRead texts blank o
            → (o >>= checked) ≡ some (mat, rest)
            → IsSame texts blank mat
        go none same e = absurd (none-some (mat, rest) e)
        go (some (mat', rest')) same e =
            subst (IsSame texts blank) (count mat' rest' (matrix_num_rows mat') e) same

-- Let there be `p` processes, `0 < p` and `p * p < 2 ^ 32`, and `m` rows, `p ≤ m < 2 ^ 53`. The process that
-- `matrix_sync_build_schedule` asks for a row below `m` has a rank below `p`, and whenever `matrix_read`
-- reads the partition of that rank, the row lies between the first and the last row of the partition.
pub source_rank_has_row :
    {Line V : Type 0} (texts : Texts Line V) (p m n s e size : ℕ) (is_vec : Bool)
    (input rest : List Line) (mat : Matrix V)
    → 0 < p
    → p * p < rank_limit
    → p ≤ m
    → m < double_limit
    → e < m
    → floor_div word m p ≡ some size
    → source_rank p size e ≡ some s
    → read_partition texts p m n is_vec s input ≡ some (mat, rest)
    → (s < p) × IsLocal mat e
source_rank_has_row {Line} {V} texts p m n s e size is_vec input rest mat some_process few enough
      exact inside divided asked read =
    let bound = quotient_le m p some_process in
    let same_size : m / p ≡ size =
      some-injective _ _
        (sym (floor_div_lem word m p some_process exact (omega arith) (omega arith)) ∙ divided) in
    let same_rank : owner p (m / p) e ≡ s = some-injective _ _ (
      sym (
        source_rank_lem p (m / p) e (positive p m 0 some_process enough exact some_process)
          (omega arith) (omega arith) (quotient_lt p m e few some_process enough inside))
      ∙ ap (λ k. source_rank p k e) same_size
      ∙ asked) in
    let (rank, low, high) =
      subst (λ k. (k < p) × (share_from p m k ≤ e) × (e ≤ share_to p m k)) same_rank
        (owner_has_row p m e some_process enough inside) in
    let same = stretch_of p m s some_process enough exact rank texts n is_vec input mat rest read in
    (rank, (subst (λ k. k ≤ e) (sym same.from_i) low, subst (λ k. e ≤ k) (sym same.to_i) high))
