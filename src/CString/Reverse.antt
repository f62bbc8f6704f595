-- ===== src/CString/Reverse.antt =====
-- `strrev` reverses the string that its argument holds.
use university_coursework.Base.{
  ℕ, zero, suc, ◌+◌, ◌-◌, ◌≤◌, ◌<◌, ◌≡◌, ◌≢◌, refl, sym, ap, ap₂, ◌∙◌, false, some, List, [], ◌∷◌,
  ◌++◌, length, arith, inr, get_or, get_elem?-eq-get_or, set, store_of_lt, length-set,
  get_or-set_self, span, write_all, ◌==◌, span-append, span-write_all, length-write_all,
  get_or-write_outside, ℕ_discrete, length-append, append_assoc, append-nil, subst,
  get_or-write_inside, Option,
}
use university_coursework.CString.{strlen_from, strlen, strcpy_from, strcpy, reverse_into, strrev}

-- The `n` characters before index `n`, the last one first.
unfoldable pub front : List ℕ → ℕ → List ℕ
front s zero = []
front s (suc i) = get_or s i 0 ∷ front s i

unfoldable pub rev : List ℕ → List ℕ
rev [] = []
rev (x ∷ xs) = rev xs ++ (x ∷ [])

-- Every cell of the stretch holds a character other than the terminator.
pub record IsText (s : List ℕ) (n : ℕ) : Type 0 where
  pub inside : n < length s
  pub full : (k : ℕ) → k < n → get_or s k 0 ≢ 0
  pub ended : get_or s n 0 ≡ 0

pub length-front : (s : List ℕ) (n : ℕ) → length (front s n) ≡ n
unfolding front
length-front s zero = refl
length-front s (suc n) = ap suc (length-front s n)

pub length-rev : (xs : List ℕ) → length (rev xs) ≡ length xs
unfolding rev
length-rev [] = refl
length-rev (x ∷ xs) = omega (arith, length-append (rev xs) (x ∷ []), length-rev xs)

rev-append : (xs ys : List ℕ) → rev (xs ++ ys) ≡ rev ys ++ rev xs
unfolding rev
rev-append [] ys = sym (append-nil (rev ys))
rev-append (x ∷ xs) ys =
    ap (λ r. r ++ (x ∷ [])) (rev-append xs ys) ∙ append_assoc (rev ys) (rev xs) (x ∷ [])

pub rev-rev : (xs : List ℕ) → rev (rev xs) ≡ xs
unfolding rev
rev-rev [] = refl
rev-rev (x ∷ xs) = rev-append (rev xs) (x ∷ []) ∙ ap (λ r. x ∷ r) (rev-rev xs)

pub rev-front : (s : List ℕ) (n : ℕ) → rev (front s n) ≡ span 0 s 0 n
unfolding front rev
rev-front s zero = refl
rev-front s (suc n) =
    ap (λ r. r ++ (get_or s n 0 ∷ [])) (rev-front s n)
    ∙ ap (λ j. span 0 s 0 n ++ span 0 s j 1) (omega arith)
    ∙ sym (span-append 0 s 0 n 1)
    ∙ ap (span 0 s 0) (plus_one n)
  where
    plus_one : (n : ℕ) → n + 1 ≡ suc n
    plus_one n = omega arith

not_zero : (c : ℕ) → c ≢ 0 → (c == 0) ≡ false
not_zero c h = ground arith

strlen_from_lem :
    (s : List ℕ) (n i rounds : ℕ)
    → IsText s n
    → i ≤ n
    → n < i + rounds
    → strlen_from s i rounds ≡ some n
unfolding strlen_from
strlen_from_lem s n i zero t lo hi = absurd (omega arith)
strlen_from_lem s n i (suc rounds) t lo hi =
    rw (get_elem?-eq-get_or s i 0 (omega (arith, t.inside))) (elim (ℕ_discrete i n) [
      | yes here ↦
          let c : get_or s i 0 ≡ 0 = ap (λ j. get_or s j 0) here ∙ t.ended in rw c (ap some here)
      | no before ↦
          rw (not_zero (get_or s i 0) (t.full i (omega arith)))
            (strlen_from_lem s n (i + 1) rounds t (omega arith) (omega arith))
    ])

pub strlen_lem : (s : List ℕ) (n : ℕ) → IsText s n → strlen s ≡ some n
unfolding strlen
strlen_lem s n t = strlen_from_lem s n 0 (length s) t (omega arith) (omega (arith, t.inside))

strcpy_from_lem :
    (src dst : List ℕ) (n i rounds : ℕ)
    → IsText src (i + n)
    → n < rounds
    → i + n < length dst
    → strcpy_from src dst i rounds ≡ some (write_all dst i (span 0 src i (suc n)))
unfolding strcpy_from
strcpy_from_lem src dst n i zero t lo hi = absurd (omega arith)
strcpy_from_lem src dst zero i (suc rounds) t lo hi =
    let c : get_or src i 0 ≡ 0 = ap (λ j. get_or src j 0) (omega arith) ∙ t.ended in
    rw
      (
        get_elem?-eq-get_or src i 0 (omega (arith, t.inside)),
        store_of_lt dst i (get_or src i 0) (omega arith),
        c,
      )
      refl
strcpy_from_lem src dst (suc n) i (suc rounds) t lo hi =
    let c = get_or src i 0 in
    rw
      (
        get_elem?-eq-get_or src i 0 (omega (arith, t.inside)),
        store_of_lt dst i c (omega arith),
        not_zero c (t.full i (omega arith)),
      )
      (strcpy_from_lem src (set dst i c) n (i + 1) rounds (subst (IsText src) (omega arith) t)
          (omega arith) (omega (arith, length-set dst i c))
        ∙ ap (λ j. some (write_all (set dst i c) j (span 0 src j (suc n)))) (omega arith))

reverse_into_lem :
    (string : List ℕ) (n j : ℕ) (result : List ℕ)
    → n ≤ length string
    → j + n ≤ length result
    → reverse_into string n j result ≡ some (write_all result j (front string n))
unfolding reverse_into front
reverse_into_lem string zero j result hs hr = refl
reverse_into_lem string (suc n) j result hs hr =
    let c = get_or string n 0 in
    rw (get_elem?-eq-get_or string n 0 (omega arith), store_of_lt result j c (omega arith))
      (reverse_into_lem string n (j + 1) (set result j c) (omega arith)
          (omega (arith, length-set result j c))
        ∙ ap (λ k. some (write_all (set result j c) k (front string n))) (omega arith))

pub get_or-front : (s : List ℕ) (n k : ℕ) → k < n → get_or (front s n) k 0 ≡ get_or s (n - suc k) 0
unfolding front
get_or-front s zero k h = absurd (omega arith)
get_or-front s (suc n) zero h = ap (λ j. get_or s j 0) (omega arith)
get_or-front s (suc n) (suc k) h =
    get_or-front s n k (omega arith) ∙ ap (λ j. get_or s j 0) (omega arith)

-- Where a text of `n` characters is written into a block with a terminator at `n`.
pub written-IsText :
    (block : List ℕ) (ws : List ℕ)
    → length ws < length block
    → ((k : ℕ) → k < length ws → get_or ws k 0 ≢ 0)
    → get_or block (length ws) 0 ≡ 0
    → IsText (write_all block 0 ws) (length ws)
written-IsText block ws room full ended = record {
  inside = omega (arith, length-write_all block 0 ws);
  full = λ k lt e. full k lt (
      sym (
        ap (λ j. get_or (write_all block 0 ws) j 0) (omega arith)
        ∙ get_or-write_inside block 0 ws k 0 (omega arith) lt)
      ∙ e);
  ended = get_or-write_outside block 0 ws (length ws) 0 (inr (omega arith)) ∙ ended;
}

read_back :
    (block ws : List ℕ) (n : ℕ)
    → n < length block
    → length ws ≡ n
    → get_or block n 0 ≡ 0
    → span 0 (write_all block 0 ws) 0 (suc n) ≡ ws ++ (0 ∷ [])
read_back block ws n room size ended =
    let whole = write_all block 0 ws in
    let count : suc n ≡ length ws + 1 = omega arith in
    ap (span 0 whole 0) count
    ∙ span-append 0 whole 0 (length ws) 1
    ∙ ap₂ (λ l c. l ++ (c ∷ [])) (span-write_all 0 block 0 ws (omega arith))
        (ap (λ j. get_or whole j 0) (omega arith)
          ∙ get_or-write_outside block 0 ws n 0 (inr (omega arith))
          ∙ ended)

-- `strrev` of a buffer that holds a text of `n` characters returns, where `malloc` gives a block of
-- `n + 1` cells; the buffer then holds the text reversed, and its other cells are as before.
pub strrev_lem :
    (malloc : ℕ → Option (List ℕ)) (block string : List ℕ) (n : ℕ)
    → malloc (n + 1) ≡ some block
    → length block ≡ n + 1
    → IsText string n
    → strrev malloc string ≡ some (write_all string 0 (rev (span 0 string 0 n) ++ (0 ∷ [])))
unfolding strrev strcpy
strrev_lem malloc block string n given size t =
    let ended = set block n 0 in
    let len_ended = length-set block n 0 in
    let ws = front string n in
    let len_ws = length-front string n in
    let full : (k : ℕ) → k < length ws → get_or ws k 0 ≢ 0 = λ k lt e.
      t.full (n - suc k) (omega arith) (sym (get_or-front string n k (omega arith)) ∙ e) in
    let zero_at : get_or ended (length ws) 0 ≡ 0 =
      ap (λ j. get_or ended j 0) len_ws ∙ get_or-set_self block n 0 0 (omega arith) in
    let result = write_all ended 0 ws in
    let same : span 0 result 0 (suc n) ≡ rev (span 0 string 0 n) ++ (0 ∷ []) =
      read_back ended ws n (omega arith) len_ws (get_or-set_self block n 0 0 (omega arith))
      ∙ ap (λ r. r ++ (0 ∷ [])) (sym (rev-rev ws) ∙ ap rev (rev-front string n)) in
    let text = written-IsText ended ws (omega arith) full zero_at in
    rw
      (
        strlen_lem string n t,
        given,
        store_of_lt block n 0 (omega arith),
        reverse_into_lem string n 0 ended (omega (arith, t.inside)) (omega arith),
      )
      (strcpy_from_lem result string n 0 (length result) (subst (IsText result) (omega arith) text)
          (omega (arith, length-write_all ended 0 ws)) (omega (arith, t.inside))
        ∙ ap (λ zs. some (write_all string 0 zs)) same)
