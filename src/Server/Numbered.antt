-- ===== src/Server/Numbered.antt =====
-- No two requests get the same number.
use university_coursework.Base.{
  ℕ, ◌+◌, ◌≤◌, ◌≡◌, ◌≢◌, refl, sym, ap, ◌∙◌, subst, true, false, Option, none, some, List, [], ◌∷◌,
  ◌++◌, if◌then◌else◌, ltb, ◌==◌, arith, int_limit, ◌⊎◌, inl, inr, ℕ_discrete, Bool-cases, ==_iff,
}
use university_coursework.Matrix.Count.{Every, Every-append, Distinct, Distinct-append}
use university_coursework.Server.{Request}
use university_coursework.Server.Dispatch.{
  Connection, refused, bad_request, requested, Dispatching, server_stats_incr_req_num, accept_turn,
  produce_turn, dispatch_start, Step, accepts, produces, Reach, here, later,
}

pub numbers : List Request → List ℕ
numbers [] = []
numbers (req ∷ reqs) = req.req_num ∷ numbers reqs

-- The numbers are those that were counted, and none is there twice.
pub record IsNumbered (s : Dispatching) : Type 0 where
  pub counted : Every (λ n. n ≤ s.req_num) (numbers s.queued)
  pub distinct_numbers : Distinct (numbers s.queued)
  pub waiting : (t : ℕ) (req : Request) → s.pending t ≡ some req → req.req_num ≤ s.req_num
  pub apart :
      (t : ℕ) (req : Request)
      → s.pending t ≡ some req
      → Every (λ n. n ≢ req.req_num) (numbers s.queued)
  pub own :
      (t u : ℕ) (a b : Request)
      → t ≢ u
      → s.pending t ≡ some a
      → s.pending u ≡ some b
      → a.req_num ≢ b.req_num

Every-weaken : (P Q : ℕ → Type 0) (xs : List ℕ) → ((n : ℕ) → P n → Q n) → Every P xs → Every Q xs
Every-weaken P Q [] f h = tt
Every-weaken P Q (x ∷ xs) f (p, h) = (f x p, Every-weaken P Q xs f h)

numbers-append :
    (xs : List Request) (req : Request)
    → numbers (xs ++ (req ∷ [])) ≡ numbers xs ++ (req.req_num ∷ [])
unfolding numbers
numbers-append [] req = refl
numbers-append (x ∷ xs) req = ap (λ ns. x.req_num ∷ ns) (numbers-append xs req)

some_inj : (a b : Request) → some a ≡ some b → a ≡ b
some_inj a b e = ap get e
  where
    get : Option Request → Request
    get none = a
    get (some x) = x

none-some : (a : Request) → none ≡ some a → ⊥
none-some a e = subst is_none e tt
  where
    is_none : Option Request → Type 0
    is_none none = Unit
    is_none (some x) = ⊥

-- A table that is changed at one place.
at_place :
    (f : ℕ → Option Request) (t u : ℕ) (o : Option Request)
    → u ≡ t
    → (if u == t then o else f u) ≡ o
at_place f t u o e = let same : (u == t) ≡ true = (==_iff u t).1 e in rw same refl

elsewhere :
    (f : ℕ → Option Request) (t u : ℕ) (o : Option Request)
    → u ≢ t
    → (if u == t then o else f u) ≡ f u
elsewhere f t u o ne = let other : (u == t) ≡ false = apart_test u t ne in rw other refl
  where
    apart_test : (a b : ℕ) → a ≢ b → (a == b) ≡ false
    apart_test a b h = ground arith

produce-IsNumbered :
    (s : Dispatching) (t : ℕ) (req : Request)
    → IsNumbered s
    → s.pending t ≡ some req
    → IsNumbered (produce_turn s t req)
unfolding produce_turn
produce-IsNumbered s t req i held =
    let list = sym (numbers-append s.queued req) in
    record {
      counted = subst (Every (λ n. n ≤ s.req_num)) list (
          Every-append (λ n. n ≤ s.req_num) (numbers s.queued) (req.req_num ∷ []) i.counted
            (i.waiting t req held, tt));
      distinct_numbers = subst Distinct list (
          Distinct-append (numbers s.queued) (req.req_num ∷ []) i.distinct_numbers (tt, tt)
            (Every-weaken (λ n. n ≢ req.req_num) (λ n. Every (λ y. n ≢ y) (req.req_num ∷ []))
              (numbers s.queued) (λ n ne. (ne, tt)) (i.apart t req held)));
      waiting = λ u a e. i.waiting u a (before u a e).1;
      apart = λ u a e. subst (Every (λ n. n ≢ a.req_num)) list (
          Every-append (λ n. n ≢ a.req_num) (numbers s.queued) (req.req_num ∷ [])
            (i.apart u a (before u a e).1)
            (i.own t u req a (λ same. (before u a e).0 (sym same)) held (before u a e).1, tt));
      own = λ u w a b ne e f. i.own u w a b ne (before u a e).1 (before w b f).1;
    }
  where
    before :
        (u : ℕ) (a : Request)
        → (if u == t then none else s.pending u) ≡ some a
        → (u ≢ t) × (s.pending u ≡ some a)
    before u a e = elim (ℕ_discrete u t) [
      | yes same ↦ absurd (none-some a (sym (at_place s.pending t u none same) ∙ e))
      | no other ↦ (other, sym (elsewhere s.pending t u none other) ∙ e)
    ]

request-IsNumbered :
    (s : Dispatching) (t : ℕ) (req : Request)
    → IsNumbered s
    → req.req_num ≡ s.req_num + 1
    → IsNumbered (record s {
      req_num = req.req_num;
      pending = λ u. if u == t then some req else s.pending u;
    })
request-IsNumbered s t req i next = record {
  counted =
      Every-weaken (λ n. n ≤ s.req_num) (λ n. n ≤ req.req_num) (numbers s.queued)
        (λ n h. omega arith) i.counted;
  distinct_numbers = i.distinct_numbers;
  waiting = λ u a e. elim (after u a e) [
    | inl (same, is) ↦ omega (arith, ap (λ (r : Request). r.req_num) is)
    | inr (other, was) ↦ omega (arith, i.waiting u a was)
  ];
  apart = λ u a e. elim (after u a e) [
    | inl (same, is) ↦
        Every-weaken (λ n. n ≤ s.req_num) (λ n. n ≢ a.req_num) (numbers s.queued)
          (λ n h same'. omega (arith, ap (λ (r : Request). r.req_num) is)) i.counted
    | inr (other, was) ↦ i.apart u a was
  ];
  own = λ u w a b ne e f. elim (after u a e) [
    | inl (same, is) ↦ elim (after w b f) [
      | inl (same', is') ↦ absurd (ne (same ∙ sym same'))
      | inr (other', was') ↦
          λ eq. omega (arith, i.waiting w b was', ap (λ (r : Request). r.req_num) is)
    ]
    | inr (other, was) ↦ elim (after w b f) [
      | inl (same', is') ↦
          λ eq. omega (arith, i.waiting u a was, ap (λ (r : Request). r.req_num) is')
      | inr (other', was') ↦ i.own u w a b ne was was'
    ]
  ];
}
  where
    after :
        (u : ℕ) (a : Request)
        → (if u == t then some req else s.pending u) ≡ some a
        → ((u ≡ t) × (req ≡ a)) ⊎ ((u ≢ t) × (s.pending u ≡ some a))
    after u a e = elim (ℕ_discrete u t) [
      | yes same ↦ inl (same, some_inj req a (sym (at_place s.pending t u (some req) same) ∙ e))
      | no other ↦ inr (other, sym (elsewhere s.pending t u (some req) other) ∙ e)
    ]

-- What a turn may leave.
abbrev Numbered : Option Dispatching → Type 0
Numbered none = Unit
Numbered (some s) = IsNumbered s

accept-IsNumbered :
    (s : Dispatching) (t : ℕ) (c : Connection) → IsNumbered s → Numbered (accept_turn s t c)
unfolding accept_turn server_stats_incr_req_num
accept-IsNumbered s t refused i = record {
  counted = i.counted;
  distinct_numbers = i.distinct_numbers;
  waiting = i.waiting;
  apart = i.apart;
  own = i.own;
}
accept-IsNumbered s t (bad_request fd) i = i
accept-IsNumbered s t (requested fd filename) i =
    elim (Bool-cases (ltb (s.req_num + 1) int_limit)) [
      | inl fits ↦ rw fits (
          request-IsNumbered s t (record { fd = fd; filename = filename; req_num = s.req_num + 1 })
            i refl)
      | inr over ↦ rw over tt
    ]

Step-IsNumbered : (s s' : Dispatching) → IsNumbered s → Step s s' → IsNumbered s'
Step-IsNumbered s _ i (accepts t c s' free runs turn) =
    subst Numbered turn (accept-IsNumbered s t c i)
Step-IsNumbered s _ i (produces t req held) = produce-IsNumbered s t req i held

start-IsNumbered : IsNumbered dispatch_start
unfolding numbers
start-IsNumbered = record {
  counted = tt;
  distinct_numbers = tt;
  waiting = λ t req e. absurd (none-some req e);
  apart = λ t req e. tt;
  own = λ t u a b ne e f. absurd (none-some a e);
}

-- However the dispatchers take their turns, from the start of the server on, no two of the requests that
-- they have passed on or hold have the same number, and no number is above what was counted.
pub Reach-IsNumbered : (s : Dispatching) → Reach dispatch_start s → IsNumbered s
Reach-IsNumbered s here = start-IsNumbered
Reach-IsNumbered _ (later u v reached step) = Step-IsNumbered u v (Reach-IsNumbered u reached) step
