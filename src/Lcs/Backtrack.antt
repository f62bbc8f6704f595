-- ===== src/Lcs/Backtrack.antt =====
-- The way back through a filled grid, in common.c and lcs_serial.c.
use university_coursework.Base.{
  ℕ, zero, suc, ◌+◌, ◌-◌, ◌≤◌, ◌<◌, ◌≡◌, refl, sym, ap, ◌∙◌, some, List, ◌∷◌, length, subst, arith,
  true, false, inl, inr, get_or, set, write_all, length-set, store_of_lt, ltb, leb, ◌==◌,
}
use university_coursework.Lcs.{Grid, BacktrackState, backtrack_step, backtrack_from}
use university_coursework.Lcs.Spec.{
  spec_same, spec_up, spec_left, spec_cases, trace, trace_row, trace_column,
}
use university_coursework.Lcs.Fill.{IsValid, held, spec, cell_at_lem, char_at_lem}

positive : (i : ℕ) → ltb 0 (suc i) ≡ true
positive i = ground arith

-- Every cell behind the borders holds what it is meant to hold.
unfoldable pub IsFilled : Grid → Type 0
IsFilled g = (a b : ℕ) → a < g.n → b < g.m → held g (suc a) (suc b) ≡ spec g (suc a) (suc b)

abbrev pub at : ℕ → ℕ → ℕ → List ℕ → BacktrackState
at i j pos res = record { i = i; j = j; pos = pos; res = res }

-- What the way back from a state leaves: the characters of the trace, written from `pos` on.
pub record Traced (res : List ℕ) (pos : ℕ) (chars : List ℕ) (final : BacktrackState) : Type 0 where
  pub ends : final.pos ≡ pos + length chars
  pub wrote : final.res ≡ write_all res pos chars

Traced-cons :
    (res : List ℕ) (pos c : ℕ) (chars : List ℕ) (final : BacktrackState)
    → Traced (set res pos c) (pos + 1) chars final
    → Traced res pos (c ∷ chars) final
Traced-cons res pos c chars final traced = record {
  ends = omega (arith, traced.ends);
  wrote = traced.wrote ∙ ap (λ k. write_all (set res pos c) k chars) (omega arith);
}

module _ (g : Grid) (v : IsValid g) (filled : IsFilled g) where
  step_same :
      (i j pos : ℕ) (res : List ℕ)
      → i < g.n
      → j < g.m
      → pos < length res
      → (get_or g.s1 i 0 == get_or g.s2 j 0) ≡ true
      → backtrack_step g (at (suc i) (suc j) pos res)
        ≡ some (at i j (pos + 1) (set res pos (get_or g.s1 i 0)))
  unfolding backtrack_step IsFilled
  step_same i j pos res hi hj room same =
      let back_i : suc i - 1 ≡ i = omega arith in
      let back_j : suc j - 1 ≡ j = omega arith in
      rw
        (
          cell_at_lem g v (suc i) (suc j) (omega arith) (omega arith),
          filled i j hi hj,
          (spec_same g.s1 g.s2 i j same).0,
          back_i,
          back_j,
          char_at_lem g v g.s1 i (omega (arith, v.width, v.square)),
          store_of_lt res pos (get_or g.s1 i 0) room,
        )
        refl

  step_up :
      (i j pos : ℕ) (res : List ℕ)
      → i < g.n
      → j < g.m
      → (get_or g.s1 i 0 == get_or g.s2 j 0) ≡ false
      → leb (spec g (suc i) j).len (spec g i (suc j)).len ≡ true
      → backtrack_step g (at (suc i) (suc j) pos res) ≡ some (at i (suc j) pos res)
  unfolding backtrack_step IsFilled
  step_up i j pos res hi hj differ higher =
      let back_i : suc i - 1 ≡ i = omega arith in
      rw
        (
          cell_at_lem g v (suc i) (suc j) (omega arith) (omega arith),
          filled i j hi hj,
          (spec_up g.s1 g.s2 i j differ higher).0,
          back_i,
        )
        refl

  step_left :
      (i j pos : ℕ) (res : List ℕ)
      → i < g.n
      → j < g.m
      → (get_or g.s1 i 0 == get_or g.s2 j 0) ≡ false
      → leb (spec g (suc i) j).len (spec g i (suc j)).len ≡ false
      → backtrack_step g (at (suc i) (suc j) pos res) ≡ some (at (suc i) j pos res)
  unfolding backtrack_step IsFilled
  step_left i j pos res hi hj differ lower =
      let back_j : suc j - 1 ≡ j = omega arith in
      rw
        (
          cell_at_lem g v (suc i) (suc j) (omega arith) (omega arith),
          filled i j hi hj,
          (spec_left g.s1 g.s2 i j differ lower).0,
          back_j,
        )
        refl

  pub backtrack_from_lem :
      (fuel i j pos : ℕ) (res : List ℕ)
      → i + j < fuel
      → i ≤ g.n
      → j ≤ g.m
      → pos + length (trace g.s1 g.s2 i j) ≤ length res
      → (final : BacktrackState) × (backtrack_from fuel g 0 0 (at i j pos res) ≡ some final)
        × Traced res pos (trace g.s1 g.s2 i j) final
  unfolding backtrack_from
  backtrack_from_lem zero i j pos res enough hi hj room = absurd (omega arith)
  backtrack_from_lem (suc fuel) zero j pos res enough hi hj room = (
    at 0 j pos res,
    refl,
    rw (trace_row g.s1 g.s2 j) (record { ends = omega arith; wrote = refl }),
  )
  backtrack_from_lem (suc fuel) (suc i) zero pos res enough hi hj room = (
    at (suc i) 0 pos res,
    rw (positive i) refl,
    rw (trace_column g.s1 g.s2 (suc i)) (record { ends = omega arith; wrote = refl }),
  )
  backtrack_from_lem (suc fuel) (suc i) (suc j) pos res enough hi hj room =
      elim (spec_cases g.s1 g.s2 i j) [
        | inl same ↦
            let chars = (spec_same g.s1 g.s2 i j same).1 in
            let size : pos + suc (length (trace g.s1 g.s2 i j)) ≤ length res =
              omega (arith, room, ap length chars) in
            let (final, run, traced) =
              backtrack_from_lem fuel i j (pos + 1) (set res pos (get_or g.s1 i 0)) (omega arith)
                (omega arith) (omega arith) (omega (arith, length-set res pos (get_or g.s1 i 0))) in
            (
              final,
              rw
                  (
                    positive i,
                    positive j,
                    step_same i j pos res (omega arith) (omega arith) (omega arith) same,
                  )
                  run,
              subst (λ t. Traced res pos t final) (sym chars)
                  (Traced-cons res pos (get_or g.s1 i 0) (trace g.s1 g.s2 i j) final traced),
            )
        | inr (inl (differ, higher)) ↦
            let chars = (spec_up g.s1 g.s2 i j differ higher).1 in
            let (final, run, traced) =
              backtrack_from_lem fuel i (suc j) pos res (omega arith) (omega arith) hj
                (omega (arith, room, ap length chars)) in
            (
              final,
              rw
                  (
                    positive i,
                    positive j,
                    step_up i j pos res (omega arith) (omega arith) differ higher,
                  )
                  run,
              subst (λ t. Traced res pos t final) (sym chars) traced,
            )
        | inr (inr (differ, lower)) ↦
            let chars = (spec_left g.s1 g.s2 i j differ lower).1 in
            let (final, run, traced) =
              backtrack_from_lem fuel (suc i) j pos res (omega arith) hi (omega arith)
                (omega (arith, room, ap length chars)) in
            (
              final,
              rw
                  (
                    positive i,
                    positive j,
                    step_left i j pos res (omega arith) (omega arith) differ lower,
                  )
                  run,
              subst (λ t. Traced res pos t final) (sym chars) traced,
            )
      ]
