-- ===== src/Exchange/Answer.antt =====
-- The product that the processes compute together.
use university_coursework.Base.{
  ℕ, ◌+◌, ◌*◌, ◌/◌, ◌%◌, ◌≤◌, ◌<◌, ◌≡◌, sym, ◌∙◌, subst, some, List, [], ◌∷◌, arith, get_elem?,
  get_or, inl, inr,
}
use university_coursework.Matrix.{Row, Matrix}
use university_coursework.Matrix.Count.{Every}
use university_coursework.Product.{Values, matrix_vector_mult}
use university_coursework.Product.Rows.{Provides, ProvidesRow, ProvidesRows, dots, product_rows}
use university_coursework.Schedule.{Schedule, rank_limit}
use university_coursework.Schedule.Add.{wanted, pair_in}
use university_coursework.Schedule.Owner.{owner, owner_lt}
use university_coursework.Schedule.Build.{IsServedRow, IsServedRows, IsNarrowAll}
use university_coursework.Exchange.{Mpi, build_all, comm_schedule_sendrecv}
use university_coursework.Exchange.Vector.{IsGood, own-Provides}
use university_coursework.Exchange.Shares.{share_from, share_to, IsShare, IsPlan, build_all_lem}
use university_coursework.Double.{double_limit}
use mathlib.Core.Option.{some-injective}
use university_coursework.Exchange.Synced.{IsSynced, sync_lem}
use university_coursework.Exchange.Rounds.{Every-IsListed}
use university_coursework.Exchange.Whole.{rounds_lem}

module _ {V : Type 0} (x : ℕ → V) (p m r : ℕ) (mat vec : Matrix V) (schedule : Schedule)
    (some_process : 0 < p) (share : IsShare p m r mat)
    (good : IsGood x m (share_from p m r) (share_to p m r) vec)
    (done : (s : ℕ) → s < p → Every (Provides vec x) (wanted schedule s)) where
  served_row : (row : Row V) → IsServedRow p mat schedule row → ProvidesRow vec x row
  served_row [] served = tt
  served_row (cell ∷ row) (inl (low, high), served) = (
    own-Provides x m (share_from p m r) (share_to p m r) vec cell.j good (
      subst (λ k. k ≤ cell.j) (share.same_from ∙ sym good.same_from) low,
      subst (λ k. cell.j ≤ k) (share.same_to ∙ sym good.same_to) high,
    ),
    served_row row served,
  )
  served_row (cell ∷ row) (inr listed, served) =
      let s = owner p (mat.m / p) cell.j in
      (
        Every-IsListed (Provides vec x) (wanted schedule s) cell.j
            (done s (owner_lt p (mat.m / p) cell.j some_process)) listed,
        served_row row served,
      )

  served_rows : (rows : List (Row V)) → IsServedRows p mat schedule rows → ProvidesRows vec x rows
  served_rows [] served = tt
  served_rows (row ∷ rows) (first, served) = (served_row row first, served_rows rows served)

-- Let each of `p` processes, `0 < p` and `p * p < 2 ^ 32`, have its share of a matrix with `m` rows,
-- `p ≤ m < 2 ^ 53`, a width of at least `m`, and no cell in a column from `m` on, and let it have its share
-- of a vector `x` of length `m`. Let the processes go into the exchange with the lists that
-- `matrix_sync_build_schedule` has made, and with everyone's counts known to all, and let what one
-- process sends to another arrive. Then `comm_schedule_sendrecv` returns at all of them, and every process's
-- `matrix_vector_mult` gives the sums of the products of its rows with `x`.
pub distributed_product :
    {V : Type 0} (values : Values V) (mpi : Mpi V) (x : ℕ → V) (p m : ℕ) (mats vecs : ℕ → Matrix V)
    (built together : ℕ → Schedule)
    → ((xs : List ℕ) → mpi.send_offsets xs ≡ xs)
    → ((xs : List V) → mpi.send_values xs ≡ xs)
    → 0 < p
    → p * p < rank_limit
    → p ≤ m
    → m < double_limit
    → ((r : ℕ) → r < p → IsShare p m r (mats r))
    → ((r : ℕ) → r < p → m ≤ (mats r).n)
    → ((r : ℕ) → r < p → IsNarrowAll m (mats r).rows)
    → ((r : ℕ) → r < p → IsGood x m (share_from p m r) (share_to p m r) (vecs r))
    → build_all p mats p ≡ some built
    → ((r : ℕ) → r < p → (together r).recv_cols ≡ (built r).recv_cols)
    → ((k r s : ℕ)
        → k < p
        → r < p
        → s < p
        → get_elem? (together k).comm_map (r * p + s) ≡ get_elem? (built r).comm_map (r * p + s))
    → (r : ℕ) → r < p
    → (vecs' : ℕ → Matrix V) × (res : Matrix V) × (comm_schedule_sendrecv mpi p mats together vecs
        ≡ some vecs')
      × (matrix_vector_mult values (mats r) (vecs' r) ≡ some res)
      × (res.rows ≡ dots values x (mats r).rows)
unfolding comm_schedule_sendrecv
distributed_product {V} values mpi x p m mats vecs built together sends sends' some_process few
      enough exact shares wide narrow good build lists counts r hr =
    let (schedules, build', plans') =
      build_all_lem p m mats p few enough exact (omega arith) shares narrow in
    let plans : (r : ℕ) → r < p → IsPlan p r (mats r) (built r) =
      subst (λ (f : ℕ → Schedule). (r : ℕ) → r < p → IsPlan p r (mats r) (f r))
        (some-injective _ _ (sym build' ∙ build)) plans' in
    let synced : IsSynced p mats together = sync_lem p mats built together lists counts plans in
    let (vecs', run, good', done) =
      rounds_lem mpi x p m mats together some_process enough shares wide synced sends sends' 0
        (p * p) vecs (omega arith) good (λ r s hr hs h. absurd (omega arith)) in
    let share = shares r hr in
    let got : (s : ℕ) → s < p → Every (Provides (vecs' r) x) (wanted (built r) s) = λ s hs.
      subst (λ cols. Every (Provides (vecs' r) x) (get_or cols s [])) (lists r hr)
        (done r s hr hs (pair_in p r s hr hs)) in
    let provides =
      served_rows x p m r (mats r) (vecs' r) (built r) some_process share (good' r hr) got
        (mats r).rows (plans r hr).served in
    let (res, made, _, _, rows) = product_rows values (mats r) (vecs' r) x share.valid provides in
    (vecs', res, rw (wraps (p * p) few) run, made, rows)
  where
    wraps : (a : ℕ) → a < rank_limit → a % rank_limit ≡ a
    wraps a h = omega arith
