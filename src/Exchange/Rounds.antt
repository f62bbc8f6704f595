-- ===== src/Exchange/Rounds.antt =====
-- The rounds of `comm_schedule_sendrecv`.
use university_coursework.Base.{
  ℕ, suc, ◌/◌, ◌%◌, ◌≤◌, ◌<◌, ◌≡◌, ◌≢◌, refl, sym, ap, ◌∙◌, subst, true, false, some, List, [], ◌∷◌,
  map, ltb, leb, ◌==◌, ◌&&◌, not, length, arith, get_elem?, get_elem?-eq-get_or, ◌⊎◌, inl, inr,
}
use university_coursework.Matrix.{Matrix}
use university_coursework.Matrix.Valid.{IsLocal}
use university_coursework.Matrix.Count.{Every}
use university_coursework.Product.Rows.{Provides}
use university_coursework.Schedule.{Schedule}
use university_coursework.Schedule.Listed.{IsListed, take_all}
use university_coursework.Schedule.Add.{wanted}
use university_coursework.Schedule.Owner.{owner}
use university_coursework.Schedule.Build.{IsAsked}
use university_coursework.Exchange.{Mpi, update, collect_values, map_values, comm_round}
use university_coursework.Exchange.Vector.{IsGood, IsKeeping, collect_lem, map_values_lem}
use university_coursework.Exchange.Shares.{share_from, share_to, IsShare, owner_has_row}
use university_coursework.Exchange.Synced.{IsSynced}

pub list_cases : (xs : List ℕ) → (xs ≡ []) ⊎ ((e : ℕ) × (rest : List ℕ) × (xs ≡ e ∷ rest))
list_cases [] = inl refl
list_cases (e ∷ rest) = inr (e, rest, refl)

pub Every-map : (P Q : ℕ → Type 0) (xs : List ℕ) → ((e : ℕ) → P e → Q e) → Every P xs → Every Q xs
Every-map P Q [] f h = tt
Every-map P Q (e ∷ xs) f (p, h) = (f e p, Every-map P Q xs f h)

pub Every-IsListed : (P : ℕ → Type 0) (xs : List ℕ) (e : ℕ) → Every P xs → IsListed e xs → P e
Every-IsListed P [] e h listed = absurd listed
Every-IsListed P (y ∷ xs) e (p, h) (inl same) = subst P same p
Every-IsListed P (y ∷ xs) e (p, h) (inr listed) = Every-IsListed P xs e h listed

module _ {V : Type 0} (mpi : Mpi V) (x : ℕ → V) (p m : ℕ) (mats : ℕ → Matrix V)
    (schedules : ℕ → Schedule) where
  -- Every process's vector is as it should be.
  abbrev pub IsGoodAll : (ℕ → Matrix V) → Type 0
  IsGoodAll vecs = (r : ℕ) → r < p → IsGood x m (share_from p m r) (share_to p m r) (vecs r)

  abbrev pub IsKeepingAll : (ℕ → Matrix V) → (ℕ → Matrix V) → Type 0
  IsKeepingAll vecs vecs' = (r : ℕ) → r < p → IsKeeping x (vecs r) (vecs' r)

  -- What a process asks of another stands in that one's share.
  asked-share :
      (r s e : ℕ)
      → 0 < p
      → p ≤ m
      → IsShare p m r (mats r)
      → IsAsked p (mats r) s e
      → (e < m) × (share_from p m s ≤ e) × (e ≤ share_to p m s)
  asked-share r s e some_process enough share ask =
      let below : e < m = subst (λ k. e < k) share.same_m ask.column in
      let at : owner p (m / p) e ≡ s =
        ap (λ k. owner p (k / p) e) (sym share.same_m) ∙ sym ask.owned in
      let (_, low, high) = owner_has_row p m e some_process enough below in
      (below, subst (λ k. share_from p m k ≤ e) at low, subst (λ k. e ≤ share_to p m k) at high)

  -- No process asks itself.
  nothing_own : (r e : ℕ) → 0 < p → p ≤ m → IsShare p m r (mats r) → IsAsked p (mats r) r e → ⊥
  nothing_own r e some_process enough share ask =
      let (_, low, high) = asked-share r r e some_process enough share ask in
      clash ask.foreign (subst (λ k. k ≤ e) (sym share.same_from) low)
        (subst (λ k. e ≤ k) (sym share.same_to) high)
    where
      clash : {a b c : ℕ} → (c < a) ⊎ (b < c) → a ≤ c → c ≤ b → ⊥
      clash (inl h) k l = omega arith
      clash (inr h) k l = omega arith

  module _ (some_process : 0 < p) (enough : p ≤ m)
      (shares : (r : ℕ) → r < p → IsShare p m r (mats r)) (wide : (r : ℕ) → r < p → m ≤ (mats r).n)
      (synced : IsSynced p mats schedules) (sends : (xs : List ℕ) → mpi.send_offsets xs ≡ xs)
      (sends' : (xs : List V) → mpi.send_values xs ≡ xs) where
    pub round_empty :
        (comm_id : ℕ) (vecs : ℕ → Matrix V)
        → get_elem? (schedules (comm_id / p)).comm_map comm_id ≡ some 0
        → get_elem? (schedules (comm_id % p)).comm_map comm_id ≡ some 0
        → comm_round mpi p mats schedules comm_id vecs ≡ some vecs
    unfolding comm_round
    round_empty comm_id vecs num served = rw (num, served) refl

    pub round_full :
        (comm_id e : ℕ) (rest : List ℕ) (vecs : ℕ → Matrix V)
        → comm_id / p < p
        → comm_id % p < p
        → get_elem? (schedules (comm_id / p)).comm_map comm_id ≡ some (suc (length rest))
        → get_elem? (schedules (comm_id % p)).comm_map comm_id ≡ some (suc (length rest))
        → wanted (schedules (comm_id / p)) (comm_id % p) ≡ e ∷ rest
        → Every (IsAsked p (mats (comm_id / p)) (comm_id % p)) (e ∷ rest)
        → IsGoodAll vecs
        → (vec : Matrix V) × (comm_round mpi p mats schedules comm_id vecs
            ≡ some (update vecs (comm_id / p) vec))
          × IsGood x m (share_from p m (comm_id / p)) (share_to p m (comm_id / p)) vec
          × IsKeeping x (vecs (comm_id / p)) vec
          × Every (Provides vec x) (e ∷ rest)
    unfolding comm_round
    round_full comm_id e rest vecs hr hs num served list asked good =
        let r = comm_id / p in
        let s = comm_id % p in
        let owns = asked-share r s in
        let sender = good s hs in
        let local =
          Every-map (IsAsked p (mats r) s) (IsLocal (vecs s)) (e ∷ rest)
            (λ c ask.
              let (_, low, high) = owns c some_process enough (shares r hr) ask in
              (
                subst (λ k. k ≤ c) (sym sender.same_from) low,
                subst (λ k. c ≤ k) (sym sender.same_to) high,
              ))
            asked in
        let inside =
          Every-map (IsAsked p (mats r) s) (λ c. c < m) (e ∷ rest)
            (λ c ask. (owns c some_process enough (shares r hr) ask).0) asked in
        let values =
          ap (collect_values (vecs s)) (sends (e ∷ rest))
          ∙ collect_lem x m (share_from p m s) (share_to p m s) (vecs s) (e ∷ rest) sender local in
        let (vec, run, good', kept, now) =
          map_values_lem x m (share_from p m r) (share_to p m r) (mats r).n (e ∷ rest) (vecs r)
            (wide r hr) (good r hr) inside in
        let cols =
          get_elem?-eq-get_or (schedules r).recv_cols s [] (omega (arith, synced.cols_size r hr))
          ∙ ap some list in
        let other : (s == r) ≡ false = apart s r (λ same.
          nothing_own r e some_process enough (shares r hr)
            (subst (λ k. IsAsked p (mats r) k e) same asked.0)) in
        let tests : (not (s == r) && ltb r p) ≡ true = rw other (lt_true r p hr) in
        (
          vec,
          rw
              (
                num,
                served,
                eq_self (length rest),
                tests,
                cols,
                take_all rest,
                values,
                sends' (map x (e ∷ rest)),
                ap (λ cols'. map_values (mats r).n (e ∷ cols') (map x (e ∷ rest)) (vecs r))
                      (take_all rest)
                    ∙ run,
                le_self (length rest),
                some_cells (length rest),
              )
              refl,
          good',
          kept,
          now,
        )
      where
        eq_self : (a : ℕ) → (suc a == suc a) ≡ true
        eq_self a = ground arith

        some_cells : (a : ℕ) → (suc a == 0) ≡ false
        some_cells a = ground arith

        le_self : (a : ℕ) → leb (suc a) (suc a) ≡ true
        le_self a = ground arith

        lt_true : (a b : ℕ) → a < b → ltb a b ≡ true
        lt_true a b h = ground arith

        apart : (a b : ℕ) → a ≢ b → (a == b) ≡ false
        apart a b h = ground arith
