-- ===== src/Exchange/Vector.antt =====
-- The vector of one process while rows are mapped into it: what it has is right, and stays.
use university_coursework.Base.{
  ℕ, ◌≤◌, ◌<◌, ◌≡◌, ◌≢◌, refl, sym, ◌∙◌, subst, true, Option, none, some, List, [], ◌∷◌, map, leb,
  ◌==◌, arith, ◌⊎◌, inl, inr, Bool-cases, ==_iff, ℕ_discrete,
}
use university_coursework.Matrix.{Row, Matrix, matrix_row, deref_row, matrix_map_row}
use university_coursework.Matrix.Valid.{IsValid, IsLocal, matrix_row_local}
use university_coursework.Matrix.Count.{Every}
use university_coursework.Matrix.Mapped.{IsMapped, keep_first}
use university_coursework.Matrix.Added.{map_row_keeps_first}
use university_coursework.Product.{first_cell}
use university_coursework.Product.Rows.{Provides}
use university_coursework.Exchange.{collect_values, map_values}

module _ {V : Type 0} (x : ℕ → V) where
  -- The vector of a process with the rows from `from_i` to `to_i`: each row that is found has the value of
  -- `x` in its first cell.
  pub record IsGood (m from_i to_i : ℕ) (vec : Matrix V) : Type 0 where
    pub valid : IsValid vec
    pub mapped : IsMapped vec
    pub same_m : vec.m ≡ m
    pub same_from : vec.from_i ≡ from_i
    pub same_to : vec.to_i ≡ to_i
    pub wide : 0 < vec.n
    pub right : (i : ℕ) → (matrix_row vec i ≡ some none) ⊎ Provides vec x i

  abbrev pub IsKeeping : Matrix V → Matrix V → Type 0
  IsKeeping vec vec' = (i : ℕ) → Provides vec x i → Provides vec' x i

  pub own-Provides :
      (m from_i to_i : ℕ) (vec : Matrix V) (i : ℕ)
      → IsGood m from_i to_i vec
      → IsLocal vec i
      → Provides vec x i
  own-Provides m from_i to_i vec i good own = elim (good.right i) [
    | inl missing ↦ absurd (clash (sym (matrix_row_local vec i good.valid own) ∙ missing))
    | inr there ↦ there
  ]
    where
      is_row : Option (Option (Row V)) → Type 0
      is_row none = ⊥
      is_row (some none) = ⊥
      is_row (some (some row)) = Unit

      clash : {row : Row V} → some (some row) ≡ some none → ⊥
      clash e = subst is_row e tt

  pub collect_lem :
      (m from_i to_i : ℕ) (vec : Matrix V) (cols : List ℕ)
      → IsGood m from_i to_i vec
      → Every (IsLocal vec) cols
      → collect_values vec cols ≡ some (map x cols)
  unfolding collect_values deref_row first_cell
  collect_lem m from_i to_i vec [] good own = refl
  collect_lem m from_i to_i vec (col ∷ cols) good (here, own) =
      let there = own-Provides m from_i to_i vec col good here in
      rw (there.found, there.value, collect_lem m from_i to_i vec cols good own) refl

  keep_found :
      (lookup : ℕ → Option (Option (Row V))) (k i : ℕ) (row there : Row V)
      → lookup i ≡ some (some there)
      → keep_first lookup k row i ≡ some (some there)
  unfolding keep_first
  keep_found lookup k i row there found = elim (Bool-cases (k == i)) [
    | inl same ↦ rw (same, found) refl
    | inr differ ↦ rw (differ, found) refl
  ]

  keep_new :
      (lookup : ℕ → Option (Option (Row V))) (k : ℕ) (row : Row V)
      → lookup k ≡ some none
      → keep_first lookup k row k ≡ some (some row)
  unfolding keep_first
  keep_new lookup k row missing =
      let same : (k == k) ≡ true = (==_iff k k).1 refl in rw (same, missing) refl

  keep_other :
      (lookup : ℕ → Option (Option (Row V))) (k i : ℕ) (row : Row V)
      → k ≢ i
      → keep_first lookup k row i ≡ lookup i
  unfolding keep_first
  keep_other lookup k i row other = elim (Bool-cases (k == i)) [
    | inl same ↦ absurd (other ((==_iff k i).0 same))
    | inr differ ↦ rw differ refl
  ]

  -- The row that is mapped for `e`.
  abbrev value_row : ℕ → Row V
  value_row e = record { j = 0; val = x e } ∷ []

  map_value_lem :
      (m from_i to_i : ℕ) (vec : Matrix V) (e : ℕ)
      → IsGood m from_i to_i vec
      → e < m
      → (vec' : Matrix V) × (matrix_map_row vec (value_row e) e ≡ some vec')
        × IsGood m from_i to_i vec'
        × IsKeeping vec vec'
        × Provides vec' x e
  map_value_lem m from_i to_i vec e good inside =
      let (vec', run, after) =
        map_row_keeps_first vec e (value_row e) good.valid good.mapped (omega (arith, good.same_m))
          (omega (arith, good.wide)) in
      let kept : IsKeeping vec vec' = λ i there. record {
        cell = there.cell;
        more = there.more;
        found =
            after.lookup i
            ∙ keep_found (matrix_row vec) e i (value_row e) (there.cell ∷ there.more) there.found;
        value = there.value;
      } in
      let now : Provides vec' x e = elim (good.right e) [
        | inl missing ↦ record {
          cell = record { j = 0; val = x e };
          more = [];
          found = after.lookup e ∙ keep_new (matrix_row vec) e (value_row e) missing;
          value = refl;
        }
        | inr there ↦ kept e there
      ] in
      let right : (i : ℕ) → (matrix_row vec' i ≡ some none) ⊎ Provides vec' x i = λ i.
        elim (ℕ_discrete e i) [
          | yes same ↦ inr (subst (Provides vec' x) same now)
          | no other ↦ elim (good.right i) [
            | inl missing ↦
                inl (after.lookup i ∙ keep_other (matrix_row vec) e i (value_row e) other ∙ missing)
            | inr there ↦ inr (kept i there)
          ]
        ] in
      (
        vec',
        run,
        record {
          valid = after.valid;
          mapped = after.mapped;
          same_m = after.same_m ∙ good.same_m;
          same_from = after.same_from ∙ good.same_from;
          same_to = after.same_to ∙ good.same_to;
          wide = subst (λ n. 0 < n) (sym after.same_n) good.wide;
          right = right;
        },
        kept,
        now,
      )

  pub map_values_lem :
      (m from_i to_i n : ℕ) (cols : List ℕ) (vec : Matrix V)
      → m ≤ n
      → IsGood m from_i to_i vec
      → Every (λ e. e < m) cols
      → (vec' : Matrix V) × (map_values n cols (map x cols) vec ≡ some vec')
        × IsGood m from_i to_i vec'
        × IsKeeping vec vec'
        × Every (Provides vec' x) cols
  unfolding map_values
  map_values_lem m from_i to_i n [] vec fits good inside = (vec, refl, good, λ i there. there, tt)
  map_values_lem m from_i to_i n (e ∷ cols) vec fits good (here, inside) =
      let (next, run, good', kept, now) = map_value_lem m from_i to_i vec e good here in
      let (vec', run', good'', kept', later) =
        map_values_lem m from_i to_i n cols next fits good' inside in
      let test : leb e n ≡ true = le_true e n (omega arith) in
      (vec', rw (test, run) run', good'', λ i there. kept' i (kept i there), (kept' e now, later))
    where
      le_true : (a b : ℕ) → a ≤ b → leb a b ≡ true
      le_true a b h = ground arith
