-- ===== src/Queue/Requeue/Shift.antt =====
-- The inner loop of `queue_requeue`: the items behind a place move up by one.
use university_coursework.Base.{
  add-mod_inj, ℕ, zero, suc, ◌+◌, ◌%◌, ◌<◌, ◌≡◌, refl, sym, ap, ◌∙◌, ◌≢◌, some, List, length,
  get_or, get_elem?-eq-get_or, arith, ℕ_discrete, if◌then◌else◌, ltb, leb, ◌&&◌, set, store_of_lt,
  length-set, get_or-set_self, get_or-set_ne,
}
use native.Mathlib.Nat.{mod-lt}
use university_coursework.Queue.{Queue, Pointer, shift_back}
use university_coursework.Queue.Valid.{IsValid, place, q_pos_lem}

-- Where the cell `k` places behind the head gets its item from when the items from `j` up to
-- `stop` move back a slot.
abbrev pub source : ℕ → ℕ → ℕ → ℕ
source j stop k = if leb j k && ltb k stop then k + 1 else k

pub record Shifted (q : Queue) (cells : List Pointer) (j stop : ℕ) (out : List Pointer)
    : Type 0 where
  pub same_length : length out ≡ length cells
  pub moved :
      (k : ℕ)
      → k < q.capacity
      → get_or out (place q k) 0 ≡ get_or cells (place q (source j stop k)) 0

-- The cells after one round of the loop.
abbrev moved_one : Queue → ℕ → List Pointer → List Pointer
moved_one q j cells = set cells (place q j) (get_or cells (place q (j + 1)) 0)

module _ {q : Queue} (v : IsValid q) where
  shift_step :
      (rounds j : ℕ) (cells : List Pointer)
      → length cells ≡ q.capacity
      → j + 1 < q.capacity
      → shift_back q (suc rounds) j cells ≡ shift_back q rounds (j + 1) (moved_one q j cells)
  unfolding shift_back
  shift_step rounds j cells e h = ground (
    arith,
    ap (λ i. i % q.capacity) regroup,
    q_pos_lem (q.head + j + 1) v,
    q_pos_lem (q.head + j) v,
    get_elem?-eq-get_or cells (place q (j + 1)) 0,
    store_of_lt cells (place q j) (get_or cells (place q (j + 1)) 0),
    mod-lt (q.head + j) v.positive,
    mod-lt (q.head + (j + 1)) v.positive,
  )
    where
      regroup : q.head + j + 1 ≡ q.head + (j + 1)
      regroup = omega arith

  shift_zero : (j : ℕ) (cells : List Pointer) → shift_back q zero j cells ≡ some cells
  unfolding shift_back
  shift_zero j cells = refl

  moved_later :
      (rounds j k : ℕ) (cells : List Pointer)
      → length cells ≡ q.capacity
      → j + suc rounds < q.size
      → k < q.capacity
      → get_or (moved_one q j cells) (place q (source (j + 1) (j + 1 + rounds) k)) 0
        ≡ get_or cells (place q (source j (j + suc rounds) k)) 0
  moved_later rounds j k cells e h lt = elim (ℕ_discrete k j) [
    | yes same ↦
        ap (λ i. get_or (moved_one q j cells) (place q i) 0) (here same)
        ∙ get_or-set_self cells (place q j) (get_or cells (place q (j + 1)) 0) 0 in_range
        ∙ ap (λ i. get_or cells (place q i) 0) (sym (there same))
    | no other ↦
        ap (λ i. get_or (moved_one q j cells) (place q i) 0) (again other)
        ∙ get_or-set_ne cells (place q j) (place q t) (get_or cells (place q (j + 1)) 0) 0
            (apart other)
  ]
    where
      t : ℕ
      t = source j (j + suc rounds) k

      in_range : place q j < length cells
      in_range = omega (arith, mod-lt (q.head + j) v.positive)

      here : k ≡ j → source (j + 1) (j + 1 + rounds) k ≡ j
      here same = ground arith

      there : k ≡ j → t ≡ j + 1
      there same = ground arith

      again : k ≢ j → source (j + 1) (j + 1 + rounds) k ≡ t
      again other = ground arith

      t_in : t < q.capacity
      t_in = ground (arith, v.size_in)

      t-ne : k ≢ j → t ≢ j
      t-ne other = ground arith

      apart : k ≢ j → place q j ≢ place q t
      apart other e' =
          t-ne other (sym (add-mod_inj q.head j t v.head_in (omega (arith, v.size_in)) t_in e'))

  pub shift_back_lem :
      (rounds j : ℕ) (cells : List Pointer)
      → length cells ≡ q.capacity
      → j + rounds < q.size
      → (out : List Pointer) × (shift_back q rounds j cells ≡ some out)
        × Shifted q cells j (j + rounds) out
  shift_back_lem zero j cells e h = (
    cells,
    shift_zero j cells,
    record {
      same_length = refl;
      moved = λ k lt. ap (λ i. get_or cells (place q i) 0) (ground arith);
    },
  )
  shift_back_lem (suc rounds) j cells e h =
      let one = moved_one q j cells in
      let same : length one ≡ length cells =
        length-set cells (place q j) (get_or cells (place q (j + 1)) 0) in
      let (out, defined, s) = shift_back_lem rounds (j + 1) one (same ∙ e) (omega arith) in
      (
        out,
        shift_step rounds j cells e (omega (arith, v.size_in)) ∙ defined,
        record {
          same_length = s.same_length ∙ same;
          moved = λ k lt. s.moved k lt ∙ moved_later rounds j k cells e h lt;
        },
      )
