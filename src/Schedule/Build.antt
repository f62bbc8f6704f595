-- ===== src/Schedule/Build.antt =====
-- What `matrix_sync_build_schedule` asks the other processes for.
use native.Mathlib.Nat.{le-div_iff_mul-le}
use university_coursework.Base.{
  ℕ, zero, suc, ◌+◌, ◌-◌, ◌*◌, ◌/◌, ◌≤◌, ◌<◌, ◌≡◌, refl, sym, ap, ◌∙◌, true, false, some, List, [],
  ◌∷◌, ◌++◌, if◌then◌else◌, ltb, ◌||◌, length, length-append, append_assoc, arith, ◌>>=◌, ◌⊎◌, inl,
  inr,
}
use university_coursework.Double.{double_limit}
use university_coursework.Double.Exact.{floor_div_lem}
use university_coursework.Matrix.{Row, Matrix, word, deref_row, local_rows}
use university_coursework.Matrix.Valid.{IsValid, IsLocal, IsLocal-or}
use university_coursework.Matrix.Wire.{deref_local}
use university_coursework.Schedule.{
  Schedule, rank_limit, source_rank, comm_schedule_add, add_cells, add_rows,
  matrix_sync_build_schedule,
}
use university_coursework.Schedule.Owner.{
  owner, owner_lt, source_rank_lem, quotient_lt, quotient_le,
}
use university_coursework.Schedule.Listed.{IsListed}
use university_coursework.Schedule.Add.{wanted, IsCounted, schedule_add_lem}

-- What may be asked of a process: rows that it owns, and this one does not hold.
pub record IsAsked {V : Type 0} (p : ℕ) (mat : Matrix V) (s e : ℕ) : Type 0 where
  pub owned : s ≡ owner p (mat.m / p) e
  pub foreign : (e < mat.from_i) ⊎ (mat.to_i < e)
  pub column : e < mat.m

-- The columns of the cells are rows of a vector of length `m`.
abbrev pub IsNarrow : {V : Type 0} → (m : ℕ) → Row V → Type 0
IsNarrow m [] = Unit
IsNarrow m (cell ∷ row) = (cell.j < m) × IsNarrow m row

abbrev pub IsNarrowAll : {V : Type 0} → (m : ℕ) → List (Row V) → Type 0
IsNarrowAll m [] = Unit
IsNarrowAll m (row ∷ rows) = IsNarrow m row × IsNarrowAll m rows

-- What was listed stays so.
abbrev pub IsKept : (p : ℕ) → (before after : Schedule) → Type 0
IsKept p before after =
    (s e : ℕ) → s < p → IsListed e (wanted before s) → IsListed e (wanted after s)

-- The column is the process's own, or it is asked for.
abbrev pub IsServed : {V : Type 0} → (p : ℕ) → Matrix V → Schedule → ℕ → Type 0
IsServed p mat schedule j = IsLocal mat j ⊎ IsListed j (wanted schedule (owner p (mat.m / p) j))

abbrev pub IsServedRow : {V : Type 0} → (p : ℕ) → Matrix V → Schedule → Row V → Type 0
IsServedRow p mat schedule [] = Unit
IsServedRow p mat schedule (cell ∷ row) =
    IsServed p mat schedule cell.j × IsServedRow p mat schedule row

abbrev pub IsServedRows : {V : Type 0} → (p : ℕ) → Matrix V → Schedule → List (Row V) → Type 0
IsServedRows p mat schedule [] = Unit
IsServedRows p mat schedule (row ∷ rows) =
    IsServedRow p mat schedule row × IsServedRows p mat schedule rows

module _ {V : Type 0} (p r : ℕ) (here : r < p) (few : p * p < rank_limit) (mat : Matrix V)
    (big : p ≤ mat.m) (exact : mat.m < double_limit) where
  size_positive : 0 < mat.m / p
  size_positive = (le-div_iff_mul-le {k = p} {x = 1} {y = mat.m} (omega arith)).1 (omega arith)

  kept-IsServed :
      (before after : Schedule) (j : ℕ)
      → IsKept p before after
      → IsServed p mat before j
      → IsServed p mat after j
  kept-IsServed before after j kept (inl own) = inl own
  kept-IsServed before after j kept (inr listed) =
      inr (kept (owner p (mat.m / p) j) j (owner_lt p (mat.m / p) j (omega arith)) listed)

  kept-row :
      (before after : Schedule) (row : Row V)
      → IsKept p before after
      → IsServedRow p mat before row
      → IsServedRow p mat after row
  kept-row before after [] kept h = tt
  kept-row before after (cell ∷ row) kept (s, h) =
      (kept-IsServed before after cell.j kept s, kept-row before after row kept h)

  asked : (j : ℕ) → j < mat.m → source_rank p (mat.m / p) j ≡ some (owner p (mat.m / p) j)
  asked j inside =
      source_rank_lem p (mat.m / p) j size_positive
        (omega (arith, quotient_le mat.m p (omega arith))) (omega arith)
        (quotient_lt p mat.m j few (omega arith) big inside)

  -- One cell's part of the loop.
  cell_lem :
      (schedule : Schedule) (j : ℕ)
      → j < mat.m
      → IsCounted (IsAsked p mat) p r schedule
      → (after : Schedule) × ((if ltb j mat.from_i || ltb mat.to_i j
            then (source_rank p (mat.m / p) j >>= λ src_r. comm_schedule_add p r schedule src_r j)
            else some schedule)
          ≡ some after)
        × IsCounted (IsAsked p mat) p r after
        × IsKept p schedule after
        × IsServed p mat after j
  cell_lem schedule j inside_m c = elim (IsLocal-or mat j) [
    | inl own ↦
        let test : (ltb j mat.from_i || ltb mat.to_i j) ≡ false =
          inside j mat.from_i mat.to_i own.0 own.1 in
        (schedule, rw test refl, c, λ s e h listed. listed, inl own)
    | inr other ↦
        let s = owner p (mat.m / p) j in
        let (after, run, c', more) =
          schedule_add_lem (IsAsked p mat) p r here few schedule s j c
            (owner_lt p (mat.m / p) j (omega arith))
            (record { owned = refl; foreign = other; column = inside_m }) in
        let test : (ltb j mat.from_i || ltb mat.to_i j) ≡ true =
          outside j mat.from_i mat.to_i other in
        (after, rw (test, asked j inside_m) run, c', more.kept, inr more.there)
  ]
    where
      inside : (j a b : ℕ) → a ≤ j → j ≤ b → (ltb j a || ltb b j) ≡ false
      inside j a b h k = ground arith

      outside : (j a b : ℕ) → (j < a) ⊎ (b < j) → (ltb j a || ltb b j) ≡ true
      outside j a b (inl h) = ground arith
      outside j a b (inr h) = ground arith

  add_cells_lem :
      (row : Row V) (schedule : Schedule)
      → IsNarrow mat.m row
      → IsCounted (IsAsked p mat) p r schedule
      → (after : Schedule) × (add_cells p r (mat.m / p) mat row schedule ≡ some after)
        × IsCounted (IsAsked p mat) p r after
        × IsKept p schedule after
        × IsServedRow p mat after row
  unfolding add_cells
  add_cells_lem [] schedule narrow c = (schedule, refl, c, λ s e h listed. listed, tt)
  add_cells_lem (cell ∷ row) schedule (first, narrow) c =
      let (next, run, c', kept, served) = cell_lem schedule cell.j first c in
      let (after, run', c'', kept', rest) = add_cells_lem row next narrow c' in
      (
        after,
        rw run run',
        c'',
        λ s e h listed. kept' s e h (kept s e h listed),
        (kept-IsServed next after cell.j kept' served, rest),
      )

  add_rows_lem :
      (done rest : List (Row V)) (i rounds : ℕ) (schedule : Schedule)
      → IsValid mat
      → mat.rows ≡ done ++ rest
      → rounds ≡ length rest
      → i ≡ mat.from_i + length done
      → IsNarrowAll mat.m rest
      → IsCounted (IsAsked p mat) p r schedule
      → (after : Schedule) × (add_rows p r (mat.m / p) mat i rounds schedule ≡ some after)
        × IsCounted (IsAsked p mat) p r after
        × IsKept p schedule after
        × IsServedRows p mat after rest
  unfolding add_rows
  add_rows_lem done [] i zero schedule v e n at narrow c =
      (schedule, refl, c, λ s e h listed. listed, tt)
  add_rows_lem done [] i (suc rounds) schedule v e n at narrow c = absurd (omega arith)
  add_rows_lem done (row ∷ rest) i zero schedule v e n at narrow c = absurd (omega arith)
  add_rows_lem done (row ∷ rest) i (suc rounds) schedule v e n at (first, narrow) c =
      let (next, run, c', kept, served) = add_cells_lem row schedule first c in
      let (after, run', c'', kept', more) =
        add_rows_lem (done ++ (row ∷ [])) rest (i + 1) rounds next v
          (e ∙ sym (append_assoc done (row ∷ []) rest)) (omega arith)
          (omega (arith, length-append done (row ∷ []))) narrow c' in
      let found = ap (deref_row mat) at ∙ deref_local mat done rest row v e in
      (
        after,
        rw (found, run) run',
        c'',
        λ s e h listed. kept' s e h (kept s e h listed),
        (kept-row next after row kept' served, more),
      )

  -- Let a valid matrix with `m` rows have no cell in a column from `m` on, and let there be `p` processes
  -- with `p ≤ m < 2 ^ 53` and `p * p < 2 ^ 32`. Then `matrix_sync_build_schedule` returns from a counted
  -- schedule. Afterwards each column with a cell in the process's rows is one that the process holds, or
  -- stands in the list for its owner; each list is as long as counted, has no duplicates, and holds only
  -- columns of that owner that the process does not hold.
  pub build_schedule_lem :
      (schedule : Schedule)
      → IsValid mat
      → IsNarrowAll mat.m mat.rows
      → IsCounted (IsAsked p mat) p r schedule
      → (after : Schedule) × (matrix_sync_build_schedule p r mat schedule ≡ some after)
        × IsCounted (IsAsked p mat) p r after
        × IsServedRows p mat after mat.rows
  unfolding matrix_sync_build_schedule local_rows
  build_schedule_lem schedule v narrow c =
      let (after, run, c', kept, served) =
        add_rows_lem [] mat.rows mat.from_i (mat.to_i + 1 - mat.from_i) schedule v refl
          (sym v.stored) (omega arith) narrow c in
      let size =
        floor_div_lem word mat.m p (omega arith) exact (omega arith)
          (omega (arith, quotient_le mat.m p (omega arith))) in
      (after, rw size run, c', served)
