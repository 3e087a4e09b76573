-- ===== src/Queue.antt =====
-- The abstract queues that the ring buffers promise: first in, first out, of a bounded length.
use my_arbitrager.Prelude.{
  ℕ, Bool, true, false, List, [], ◌∷◌, ◌++◌, Option, none, some, length, leb, if◌then◌else◌,
}

module _ {ℓ} {A : Type ℓ} where
  -- A full queue refuses the entry and stays as it is.
  unfoldable pub offer : ℕ → List A → A → Bool × List A
  offer capacity q x = if leb capacity (length q) then (false, q) else (true, q ++ x ∷ [])

  unfoldable pub poll : List A → Option A × List A
  poll [] = (none, [])
  poll (x ∷ q) = (some x, q)

  -- A full queue drops its oldest entry to take the new one; the flag says that it did.
  unfoldable pub displace : ℕ → List A → A → Bool × List A
  displace capacity [] x = (false, x ∷ [])
  displace capacity (y ∷ q) x =
      if leb capacity (length (y ∷ q)) then (true, q ++ x ∷ []) else (false, y ∷ q ++ x ∷ [])

-- The calls that a client makes, and what it gets back.
pub data Call {ℓ} (A : Type ℓ) : Type ℓ where
  put : A → Call A
  take : Call A

pub data Reply {ℓ} (A : Type ℓ) : Type ℓ where
  stored : Bool → Reply A
  taken : Option A → Reply A

unfoldable pub run {ℓ} : {A : Type ℓ} → ℕ → List A → List (Call A) → List (Reply A)
unfolding offer poll
run capacity q [] = []
run capacity q (put x ∷ calls) =
    let (ok, q') = offer capacity q x in stored ok ∷ run capacity q' calls
run capacity q (take ∷ calls) = let (x, q') = poll q in taken x ∷ run capacity q' calls
