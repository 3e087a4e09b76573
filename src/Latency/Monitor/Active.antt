-- ===== src/Latency/Monitor/Active.antt =====
-- The map of the measurements under way.
use my_arbitrager.Prelude.{
  ℕ, ◌≡◌, refl, [], ◌∷◌, none, some, arith, ◌==◌, if◌then◌else◌, Bool-cases, inl, inr,
}
use my_arbitrager.Latency.Measurement.{Measurement}
use my_arbitrager.Latency.Monitor.{ActiveMap, lookup, insert, erase}

-- No id has two entries.
abbrev pub Distinct : ActiveMap → Type 0
Distinct [] = Unit
Distinct ((i, m) ∷ active) = (lookup i active ≡ none) × Distinct active

pub lookup-insert :
    (id j : ℕ) (m : Measurement) (active : ActiveMap)
    → lookup j (insert id m active) ≡ (if id == j then some m else lookup j active)
unfolding lookup insert
lookup-insert id j m [] = refl
lookup-insert id j m ((i, n) ∷ active) = ground (arith, lookup-insert id j m active)

pub lookup-erase :
    (id j : ℕ) (active : ActiveMap)
    → Distinct active
    → lookup j (erase id active) ≡ (if id == j then none else lookup j active)
unfolding lookup erase
lookup-erase id j [] h = ground arith
lookup-erase id j ((i, n) ∷ active) h = ground (arith, lookup-erase id j active h.1)

pub insert-Distinct :
    (id : ℕ) (m : Measurement) (active : ActiveMap)
    → Distinct active
    → Distinct (insert id m active)
unfolding insert lookup
insert-Distinct id m [] h = (refl, tt)
insert-Distinct id m ((i, n) ∷ active) h = elim (Bool-cases (i == id)) [
  | inl e ↦ rw e h
  | inr e ↦ rw e (ground (arith, lookup-insert id i m active), insert-Distinct id m active h.1)
]

pub erase-Distinct : (id : ℕ) (active : ActiveMap) → Distinct active → Distinct (erase id active)
unfolding erase
erase-Distinct id [] h = tt
erase-Distinct id ((i, n) ∷ active) h = elim (Bool-cases (i == id)) [
  | inl e ↦ rw e h.1
  | inr e ↦ rw e (ground (arith, lookup-erase id i active h.1), erase-Distinct id active h.1)
]
