-- ===== src/Exchange/Whole.antt =====
-- All rounds of `comm_schedule_sendrecv`, and the product that the processes compute together.
use native.Mathlib.Nat.{mod-add-div', mod-lt, div-lt_iff_lt-mul}
use university_coursework.Base.{
  ℕ, zero, suc, ◌+◌, ◌*◌, ◌/◌, ◌%◌, ◌≤◌, ◌<◌, ◌≡◌, ◌≢◌, refl, sym, ap, ◌∙◌, subst, some, List, ◌∷◌,
  length, arith, get_elem?, inl, inr, ℕ_discrete, dec_lt,
}
use university_coursework.Matrix.{Matrix}
use university_coursework.Matrix.Count.{Every}
use university_coursework.Product.Rows.{Provides}
use university_coursework.Schedule.{Schedule}
use university_coursework.Schedule.Add.{wanted}
use university_coursework.Schedule.Build.{IsAsked}
use university_coursework.Exchange.{Mpi, update, comm_round, comm_rounds}
use university_coursework.Exchange.Vector.{IsGood, IsKeeping}
use university_coursework.Exchange.Shares.{share_from, share_to, IsShare, update_self, update_other}
use university_coursework.Exchange.Synced.{IsSynced}
use university_coursework.Exchange.Rounds.{
  list_cases, Every-map, IsGoodAll, IsKeepingAll, round_empty, round_full,
}

pair_unique : (p r s r' s' : ℕ) → s < p → s' < p → r * p + s ≡ r' * p + s' → (r ≡ r') × (s ≡ s')
pair_unique p r s r' s' hs hs' e = elim (ℕ_discrete r r') [
  | yes same ↦ (same, omega (arith, ap (λ k. k * p) same))
  | no other ↦ absurd (apart other)
]
  where
    next : (a b : ℕ) → a < b → a * p + p ≤ b * p
    next a b h = grind arith

    apart : r ≢ r' → ⊥
    apart other = elim (dec_lt r r') [
      | yes below ↦ omega (arith, next r r' below)
      | no above ↦ omega (arith, next r' r (omega arith))
    ]

module _ {V : Type 0} (mpi : Mpi V) (x : ℕ → V) (p m : ℕ) (mats : ℕ → Matrix V)
    (schedules : ℕ → Schedule) (some_process : 0 < p) (enough : p ≤ m)
    (shares : (r : ℕ) → r < p → IsShare p m r (mats r)) (wide : (r : ℕ) → r < p → m ≤ (mats r).n)
    (synced : IsSynced p mats schedules) (sends : (xs : List ℕ) → mpi.send_offsets xs ≡ xs)
    (sends' : (xs : List V) → mpi.send_values xs ≡ xs) where
  -- What the pairs before `comm_id` exchange is there.
  abbrev pub IsDone : ℕ → (ℕ → Matrix V) → Type 0
  IsDone comm_id vecs =
      (r s : ℕ)
      → r < p
      → s < p
      → r * p + s < comm_id
      → Every (Provides (vecs r) x) (wanted (schedules r) s)

  round_lem :
      (comm_id : ℕ) (vecs : ℕ → Matrix V)
      → comm_id < p * p
      → IsGoodAll mpi x p m mats schedules vecs
      → (vecs' : ℕ → Matrix V) × (comm_round mpi p mats schedules comm_id vecs ≡ some vecs')
        × IsGoodAll mpi x p m mats schedules vecs'
        × IsKeepingAll mpi x p m mats schedules vecs vecs'
        × Every (Provides (vecs' (comm_id / p)) x) (wanted (schedules (comm_id / p)) (comm_id % p))
  round_lem comm_id vecs inside good =
      let r = comm_id / p in
      let s = comm_id % p in
      let hr : r < p = (div-lt_iff_lt-mul {k = p} {x = comm_id} {y = p} some_process).1 inside in
      let hs : s < p = mod-lt comm_id some_process in
      let at : r * p + s ≡ comm_id = omega (arith, mod-add-div' comm_id p) in
      let num : (k : ℕ)
          → k < p
          → get_elem? (schedules k).comm_map comm_id ≡ some (length (wanted (schedules r) s)) =
        λ k hk. ap (get_elem? (schedules k).comm_map) (sym at) ∙ synced.count k r s hk hr hs in
      elim (list_cases (wanted (schedules r) s)) [
        | inl empty ↦
            let none_wanted = ap (λ xs. some (length xs)) empty in
            (
              vecs,
              round_empty mpi x p m mats schedules some_process enough shares wide synced sends
                  sends' comm_id vecs (num r hr ∙ none_wanted) (num s hs ∙ none_wanted),
              good,
              λ k h i there. there,
              subst (Every (Provides (vecs r) x)) (sym empty) tt,
            )
        | inr (e, rest, full) ↦
            let count = ap (λ xs. some (length xs)) full in
            let (vec, run, good', kept, now) =
              round_full mpi x p m mats schedules some_process enough shares wide synced sends
                sends' comm_id e rest vecs hr hs (num r hr ∙ count) (num s hs ∙ count) full
                (subst (Every (IsAsked p (mats r) s)) full (synced.asked r s hr hs)) good in
            let self = sym (update_self vecs r vec) in
            (
              update vecs r vec,
              run,
              λ k h. elim (ℕ_discrete k r) [
                | yes same ↦
                    subst
                      (λ j. IsGood x m (share_from p m j) (share_to p m j) (update vecs r vec j))
                      (sym same) (subst (IsGood x m (share_from p m r) (share_to p m r)) self good')
                | no other ↦
                    subst (IsGood x m (share_from p m k) (share_to p m k))
                      (sym (update_other vecs r vec k other)) (good k h)
              ],
              λ k h. elim (ℕ_discrete k r) [
                | yes same ↦
                    subst (λ j. IsKeeping x (vecs j) (update vecs r vec j)) (sym same)
                      (subst (IsKeeping x (vecs r)) self kept)
                | no other ↦
                    subst (IsKeeping x (vecs k)) (sym (update_other vecs r vec k other))
                      (λ i there. there)
              ],
              subst (Every (Provides (update vecs r vec r) x)) (sym full)
                  (subst (λ v. Every (Provides v x) (e ∷ rest)) self now),
            )
      ]

  pub rounds_lem :
      (comm_id rounds : ℕ) (vecs : ℕ → Matrix V)
      → comm_id + rounds ≡ p * p
      → IsGoodAll mpi x p m mats schedules vecs
      → IsDone comm_id vecs
      → (vecs' : ℕ → Matrix V) × (comm_rounds mpi p mats schedules comm_id rounds vecs ≡ some vecs')
        × IsGoodAll mpi x p m mats schedules vecs'
        × IsDone (p * p) vecs'
  unfolding comm_rounds
  rounds_lem comm_id zero vecs turn good done =
      (vecs, refl, good, subst (λ k. IsDone k vecs) {x = comm_id} {y = p * p} (omega arith) done)
  rounds_lem comm_id (suc rounds) vecs turn good done =
      let (next, run, good', kept, now) = round_lem comm_id vecs (omega arith) good in
      let at : comm_id / p * p + comm_id % p ≡ comm_id = omega (arith, mod-add-div' comm_id p) in
      let done' : IsDone (comm_id + 1) next = λ r s hr hs before.
        elim (dec_lt (r * p + s) comm_id) [
          | yes earlier ↦
              Every-map (Provides (vecs r) x) (Provides (next r) x) (wanted (schedules r) s)
                (kept r hr) (done r s hr hs earlier)
          | no here ↦
              let (same, same') =
                pair_unique p r s (comm_id / p) (comm_id % p) hs (mod-lt comm_id some_process)
                  (omega arith) in
              subst (λ k. Every (Provides (next k) x) (wanted (schedules k) s)) (sym same)
                (subst
                  (λ k.
                    Every (Provides (next (comm_id / p)) x) (wanted (schedules (comm_id / p)) k))
                  (sym same') now)
        ] in
      let (vecs', run', good'', done'') =
        rounds_lem (comm_id + 1) rounds next (omega arith) good' done' in
      (vecs', rw run run', good'', done'')
