-- ===== src/ThreadAffinity.antt =====
-- src/thread_affinity.hpp on Linux: each thread's tag picks the processor that it is to run on.
-- `cpu_setsize` is CPU_SETSIZE, and `set_affinity` says whether pthread_setaffinity_np takes a processor.
use my_arbitrager.Prelude.{ℕ, ◌%◌, ◌<◌, ◌≡◌, ap, sym, ◌∙◌, Bool, false, arith}
use native.Mathlib.Nat.{mod-eq_of_lt}

pub data Tag : Type 0 where
  arbitrage_engine binance_ws coinbase_ws kraken_ws bybit_ws dashboard : Tag

unfoldable pub tag_number : Tag → ℕ
tag_number arbitrage_engine = 1
tag_number binance_ws = 2
tag_number coinbase_ws = 3
tag_number kraken_ws = 4
tag_number bybit_ws = 5
tag_number dashboard = 6

unfoldable pub processor : (cpu_setsize : ℕ) → Tag → ℕ
processor cpu_setsize tag = tag_number tag % cpu_setsize

-- The result; a failure only warns.
unfoldable pub set_thread_affinity : (cpu_setsize : ℕ) → (set_affinity : ℕ → Bool) → Tag → Bool
set_thread_affinity cpu_setsize set_affinity tag = set_affinity (processor cpu_setsize tag)

tag_number-lt : (tag : Tag) → tag_number tag < 7
unfolding tag_number
tag_number-lt tag = ground arith

tag_of_number : (s t : Tag) → tag_number s ≡ tag_number t → s ≡ t
unfolding tag_number
tag_of_number s t e = ground arith

-- Two threads are never sent to one processor, if a set has more than six.
processors_apart :
    (cpu_setsize : ℕ) (s t : Tag)
    → 6 < cpu_setsize
    → processor cpu_setsize s ≡ processor cpu_setsize t
    → s ≡ t
unfolding processor
processors_apart cpu_setsize s t large e = tag_of_number s t (
    sym (mod-eq_of_lt (omega (arith, tag_number-lt s)))
    ∙ e
    ∙ mod-eq_of_lt (omega (arith, tag_number-lt t)))

-- A machine with six processors, numbered from 0, refuses the dashboard.
six_processors :
    (cpu_setsize : ℕ) (set_affinity : ℕ → Bool)
    → 6 < cpu_setsize
    → set_affinity 6 ≡ false
    → set_thread_affinity cpu_setsize set_affinity dashboard ≡ false
unfolding set_thread_affinity processor tag_number
six_processors cpu_setsize set_affinity large none_there =
    ap set_affinity (mod-eq_of_lt large) ∙ none_there
