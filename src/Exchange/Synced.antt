-- ===== src/Exchange/Synced.antt =====
-- Schedules whose counts all processes know.
use university_coursework.Base.{
  ℕ, ◌+◌, ◌*◌, ◌<◌, ◌≡◌, sym, subst, get_or, ap, ◌∙◌, some, [], length, arith, get_elem?,
  get_elem?-eq-get_or,
}
use university_coursework.Matrix.{Matrix}
use university_coursework.Matrix.Count.{Every}
use university_coursework.Schedule.{Schedule}
use university_coursework.Schedule.Add.{wanted, pair_in}
use university_coursework.Schedule.Build.{IsAsked}
use university_coursework.Exchange.Shares.{IsPlan}

-- All processes know how many cells each wants from each.
pub record IsSynced {V : Type 0} (p : ℕ) (mats : ℕ → Matrix V) (schedules : ℕ → Schedule)
    : Type 0 where
  pub cols_size : (r : ℕ) → r < p → length (schedules r).recv_cols ≡ p
  pub count :
      (k r s : ℕ)
      → k < p
      → r < p
      → s < p
      → get_elem? (schedules k).comm_map (r * p + s) ≡ some (length (wanted (schedules r) s))
  pub asked : (r s : ℕ) → r < p → s < p → Every (IsAsked p (mats r) s) (wanted (schedules r) s)

-- The lists are those that the processes built, and every process has every process's counts.
pub sync_lem :
    {V : Type 0} (p : ℕ) (mats : ℕ → Matrix V) (built together : ℕ → Schedule)
    → ((r : ℕ) → r < p → (together r).recv_cols ≡ (built r).recv_cols)
    → ((k r s : ℕ)
        → k < p
        → r < p
        → s < p
        → get_elem? (together k).comm_map (r * p + s) ≡ get_elem? (built r).comm_map (r * p + s))
    → ((r : ℕ) → r < p → IsPlan p r (mats r) (built r))
    → IsSynced p mats together
sync_lem {V} p mats built together lists counts plans = record {
  cols_size = λ r h. ap length (lists r h) ∙ (plans r h).counted.cols_size;
  count = λ k r s hk hr hs.
      counts k r s hk hr hs
      ∙ get_elem?-eq-get_or (built r).comm_map (r * p + s) 0
          (omega (arith, pair_in p r s hr hs, (plans r hr).counted.map_size))
      ∙ ap some (
          (plans r hr).counted.counts s hs
          ∙ ap (λ cols. length (get_or cols s [])) (sym (lists r hr)));
  asked = λ r s hr hs.
      subst (λ cols. Every (IsAsked p (mats r) s) (get_or cols s [])) (sym (lists r hr))
        ((plans r hr).counted.asked s hs);
}
