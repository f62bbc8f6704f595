-- ===== src/Base/Run.antt =====
-- C code that may have undefined behaviour: `none` is a division by zero, a signed overflow or an
-- access outside an array.
use Prim.Native.Nat.{ℕ, ◌<◌, ◌^◌}
use mathlib.Core.Path.{◌≡◌}
use mathlib.Core.List.{List}
use mathlib.Core.Option.{Option, none, some}
use university_coursework.Base.Tests.{ltb, if◌then◌else◌, lt→ltb}
use university_coursework.Base.Lists.{length, set}

infixl 1 ◌>>=◌
abbrev pub ◌>>=◌ {ℓ κ} : {A : Type ℓ} {B : Type κ} → Option A → (A → Option B) → Option B
none >>= f = none
some a >>= f = f a

-- `INT_MAX + 1`
abbrev pub int_limit : ℕ
int_limit = 2 ^ 31

-- `arr[i] = x`
unfoldable pub store {ℓ} : {A : Type ℓ} → List A → ℕ → A → Option (List A)
store arr i x = if ltb i (length arr) then some (set arr i x) else none

pub store_of_lt {ℓ} :
    {A : Type ℓ} (arr : List A) (i : ℕ) (x : A)
    → i < length arr
    → store arr i x ≡ some (set arr i x)
unfolding store
store_of_lt arr i x h = rw (lt→ltb i (length arr) h)
