-- ===== src/Prelude/Fallible.antt =====
-- Chains of steps that may fault: `none` is undefined behaviour, such as an access out of bounds.
use Prim.Native.Nat.{ℕ, ◌<◌}
use mathlib.Core.Path.{◌≡◌}
use mathlib.Core.List.{List}
use mathlib.Core.Option.{Option, none, some}
use native.Mathlib.Omega.{arith}
use my_arbitrager.Prelude.Tests.{ltb, if◌then◌else◌}
use my_arbitrager.Prelude.Lists.{length, set}

infixl 5 ◌>>=◌
abbrev pub ◌>>=◌ {ℓ κ} : {A : Type ℓ} {B : Type κ} → Option A → (A → Option B) → Option B
none >>= f = none
some a >>= f = f a

-- `buffer[i] = v`, which faults outside the buffer.
unfoldable pub store {ℓ} : {A : Type ℓ} → List A → ℕ → A → Option (List A)
store xs i v = if ltb i (length xs) then some (set xs i v) else none

pub store_in_bounds {ℓ} :
    {A : Type ℓ} (xs : List A) (i : ℕ) (v : A) → i < length xs → store xs i v ≡ some (set xs i v)
unfolding store
store_in_bounds xs i v h = ground arith
