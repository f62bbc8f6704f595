-- ===== src/Schedule/Add.antt =====
-- What `comm_schedule_add` adds, and what it keeps.
use university_coursework.Base.{
  ℕ, ◌+◌, ◌*◌, ◌%◌, ◌≤◌, ◌<◌, ◌≡◌, ◌≢◌, refl, sym, ap, ◌∙◌, subst, Bool, true, false, some, List,
  [], ◌∷◌, ◌++◌, if◌then◌else◌, ltb, ◌&&◌, length, arith, get_or, get_elem?, get_elem?-eq-get_or,
  set, store_of_lt, length-set, get_or-set_self, get_or-set_ne, length-append, replicate,
  length-replicate, get_or-replicate, inl, inr, ℕ_discrete,
}
use university_coursework.Schedule.{Schedule, rank_limit, comm_schedule_init, comm_schedule_add}
use university_coursework.Schedule.Listed.{
  IsListed, IsListed-dec, listed_in, is_listed_lem, listed_yes, listed_no, IsListed-append,
  IsListed-end, take_all, apart-end,
}
use university_coursework.Matrix.Count.{Every, Every-append, Distinct, Distinct-append}

abbrev pub wanted : Schedule → ℕ → List ℕ
wanted schedule s = get_or schedule.recv_cols s []

-- The counts of this process are the lengths of its lists, each of which is without duplicates and holds
-- only what may be asked of that process.
pub record IsCounted (P : ℕ → ℕ → Type 0) (p r : ℕ) (schedule : Schedule) : Type 0 where
  pub map_size : length schedule.comm_map ≡ p * p
  pub cols_size : length schedule.recv_cols ≡ p
  pub counts : (s : ℕ) → s < p → get_or schedule.comm_map (r * p + s) 0 ≡ length (wanted schedule s)
  pub once : (s : ℕ) → s < p → Distinct (wanted schedule s)
  pub asked : (s : ℕ) → s < p → Every (P s) (wanted schedule s)

-- The schedule afterwards lists the element, and what was listed before.
pub record IsExtended (p src_r element : ℕ) (before after : Schedule) : Type 0 where
  pub there : IsListed element (wanted after src_r)
  pub kept : (s e : ℕ) → s < p → IsListed e (wanted before s) → IsListed e (wanted after s)

-- An index of the map, where the square of the number of processes fits a rank.
pub pair_in : (p r s : ℕ) → r < p → s < p → r * p + s < p * p
pair_in p r s hr hs = omega (arith, rows p r hr)
  where
    rows : (p r : ℕ) → r < p → r * p + p ≤ p * p
    rows p r h = grind arith

module _ (P : ℕ → ℕ → Type 0) (p r : ℕ) (here : r < p) (few : p * p < rank_limit) where
  pub init-IsCounted : IsCounted P p r (comm_schedule_init p)
  unfolding comm_schedule_init
  init-IsCounted =
      let count : p * p % rank_limit ≡ p * p = wraps (p * p) few in
      let blank : (s : ℕ) → get_or (replicate p []) s [] ≡ [] = λ s. get_or-replicate p s [] in
      record {
        map_size = length-replicate (p * p % rank_limit) 0 ∙ count;
        cols_size = length-replicate p [];
        counts =
            λ s h. get_or-replicate (p * p % rank_limit) (r * p + s) 0 ∙ ap length (sym (blank s));
        once = λ s h. subst Distinct (sym (blank s)) tt;
        asked = λ s h. subst (Every (P s)) (sym (blank s)) tt;
      }
    where
      wraps : (n : ℕ) → n < rank_limit → n % rank_limit ≡ n
      wraps n h = omega arith

  abbrev grown : Schedule → ℕ → ℕ → Schedule
  grown schedule src_r element = record {
    comm_map = set schedule.comm_map (r * p + src_r) (length (wanted schedule src_r) + 1);
    recv_cols = set schedule.recv_cols src_r (wanted schedule src_r ++ (element ∷ []));
  }

  add_run :
      (schedule : Schedule) (src_r element : ℕ)
      → IsCounted P p r schedule
      → src_r < p
      → comm_schedule_add p r schedule src_r element
        ≡ some (
            if listed_in element (wanted schedule src_r)
            then schedule
            else grown schedule src_r element)
  unfolding comm_schedule_add
  add_run schedule src_r element c hs =
      let at = pair_in p r src_r here hs in
      let idx : (r * p + src_r) % rank_limit ≡ r * p + src_r =
        wraps (r * p + src_r) (omega arith) in
      let area : p * p % rank_limit ≡ p * p = wraps (p * p) few in
      let tests : (ltb src_r p && ltb (r * p + src_r) (p * p)) ≡ true =
        both src_r p (r * p + src_r) (p * p) hs at in
      let num : get_elem? schedule.comm_map (r * p + src_r)
          ≡ some (length (wanted schedule src_r)) =
        get_elem?-eq-get_or schedule.comm_map (r * p + src_r) 0 (omega (arith, c.map_size))
        ∙ ap some (c.counts src_r hs) in
      let cols : get_elem? schedule.recv_cols src_r ≡ some (wanted schedule src_r) =
        get_elem?-eq-get_or schedule.recv_cols src_r [] (omega (arith, c.cols_size)) in
      rw
        (
          idx,
          area,
          tests,
          num,
          cols,
          is_listed_lem [] (wanted schedule src_r) element 0 (length (wanted schedule src_r)) refl
              refl,
          take_all (wanted schedule src_r),
          store_of_lt schedule.recv_cols src_r (wanted schedule src_r ++ (element ∷ []))
              (omega (arith, c.cols_size)),
          store_of_lt schedule.comm_map (r * p + src_r) (length (wanted schedule src_r) + 1)
              (omega (arith, c.map_size)),
        )
        (push schedule (grown schedule src_r element) (listed_in element (wanted schedule src_r)))
    where
      wraps : (n : ℕ) → n < rank_limit → n % rank_limit ≡ n
      wraps n h = omega arith

      both : (a b c d : ℕ) → a < b → c < d → (ltb a b && ltb c d) ≡ true
      both a b c d h k = ground arith

      push :
          (x y : Schedule) (b : Bool) → (if b then some x else some y) ≡ some (if b then x else y)
      push x y true = refl
      push x y false = refl

  grown_self :
      (schedule : Schedule) (src_r element : ℕ)
      → IsCounted P p r schedule
      → src_r < p
      → wanted (grown schedule src_r element) src_r ≡ wanted schedule src_r ++ (element ∷ [])
  grown_self schedule src_r element c hs =
      get_or-set_self schedule.recv_cols src_r (wanted schedule src_r ++ (element ∷ [])) []
        (omega (arith, c.cols_size))

  grown_other :
      (schedule : Schedule) (src_r element s : ℕ)
      → s ≢ src_r
      → wanted (grown schedule src_r element) s ≡ wanted schedule s
  grown_other schedule src_r element s other =
      get_or-set_ne schedule.recv_cols src_r s (wanted schedule src_r ++ (element ∷ [])) []
        (λ e. other (sym e))

  grown-IsCounted :
      (schedule : Schedule) (src_r element : ℕ)
      → IsCounted P p r schedule
      → src_r < p
      → P src_r element
      → Every (λ x. x ≢ element) (wanted schedule src_r)
      → IsCounted P p r (grown schedule src_r element)
  grown-IsCounted schedule src_r element c hs may absent =
      let cols = wanted schedule src_r in
      let map' = length cols + 1 in
      record {
        map_size = length-set schedule.comm_map (r * p + src_r) map' ∙ c.map_size;
        cols_size = length-set schedule.recv_cols src_r (cols ++ (element ∷ [])) ∙ c.cols_size;
        counts = λ s h. elim (ℕ_discrete s src_r) [
          | yes same ↦
              ap (λ k. get_or (grown schedule src_r element).comm_map (r * p + k) 0) same
              ∙ get_or-set_self schedule.comm_map (r * p + src_r) map' 0
                  (omega (arith, pair_in p r src_r here hs, c.map_size))
              ∙ sym (length-append cols (element ∷ []))
              ∙ ap length (sym (grown_self schedule src_r element c hs))
              ∙ ap (λ k. length (wanted (grown schedule src_r element) k)) (sym same)
          | no other ↦
              get_or-set_ne schedule.comm_map (r * p + src_r) (r * p + s) map' 0
                (λ e. other (omega arith))
              ∙ c.counts s h
              ∙ ap length (sym (grown_other schedule src_r element s other))
        ];
        once = λ s h. elim (ℕ_discrete s src_r) [
          | yes same ↦
              subst Distinct
                (sym (
                  ap (wanted (grown schedule src_r element)) same
                  ∙ grown_self schedule src_r element c hs))
                (Distinct-append cols (element ∷ []) (c.once src_r hs) (tt, tt)
                  (apart-end element cols absent))
          | no other ↦
              subst Distinct (sym (grown_other schedule src_r element s other)) (c.once s h)
        ];
        asked = λ s h. elim (ℕ_discrete s src_r) [
          | yes same ↦
              subst (λ k. Every (P k) (wanted (grown schedule src_r element) k)) (sym same)
                (subst (Every (P src_r)) (sym (grown_self schedule src_r element c hs))
                  (Every-append (P src_r) cols (element ∷ []) (c.asked src_r hs) (may, tt)))
          | no other ↦
              subst (Every (P s)) (sym (grown_other schedule src_r element s other)) (c.asked s h)
        ];
      }

  grown-IsExtended :
      (schedule : Schedule) (src_r element : ℕ)
      → IsCounted P p r schedule
      → src_r < p
      → IsExtended p src_r element schedule (grown schedule src_r element)
  grown-IsExtended schedule src_r element c hs = record {
    there =
        subst (IsListed element) (sym (grown_self schedule src_r element c hs))
          (IsListed-end element (wanted schedule src_r));
    kept = λ s e h listed. elim (ℕ_discrete s src_r) [
      | yes same ↦
          subst (IsListed e)
            (sym (
              ap (wanted (grown schedule src_r element)) same
              ∙ grown_self schedule src_r element c hs))
            (IsListed-append e (wanted schedule src_r) (element ∷ [])
              (subst (λ k. IsListed e (wanted schedule k)) same listed))
      | no other ↦ subst (IsListed e) (sym (grown_other schedule src_r element s other)) listed
    ];
  }

  -- At a counted schedule `comm_schedule_add` returns for every rank and every element that may be asked of
  -- it. The schedule stays counted, each list without duplicates; the element is listed then, and all
  -- that was.
  pub schedule_add_lem :
      (schedule : Schedule) (src_r element : ℕ)
      → IsCounted P p r schedule
      → src_r < p
      → P src_r element
      → (after : Schedule) × (comm_schedule_add p r schedule src_r element ≡ some after)
        × IsCounted P p r after
        × IsExtended p src_r element schedule after
  schedule_add_lem schedule src_r element c hs may =
      elim (IsListed-dec element (wanted schedule src_r)) [
        | inl there ↦ (
          schedule,
          add_run schedule src_r element c hs
              ∙ ap (λ b. some (if b then schedule else grown schedule src_r element))
                  (listed_yes element (wanted schedule src_r) there),
          c,
          record { there = there; kept = λ s e h listed. listed },
        )
        | inr absent ↦ (
          grown schedule src_r element,
          add_run schedule src_r element c hs
              ∙ ap (λ b. some (if b then schedule else grown schedule src_r element))
                  (listed_no element (wanted schedule src_r) absent),
          grown-IsCounted schedule src_r element c hs may absent,
          grown-IsExtended schedule src_r element c hs,
        )
      ]
