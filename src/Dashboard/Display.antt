-- ===== src/Dashboard/Display.antt =====
-- The display thread of `TerminalDashboard` in src/dashboard.cpp: `start`, `stop` and the setters.
use my_arbitrager.Prelude.{ℕ, Bool, true, false, Option, none, some, not, if◌then◌else◌}

pub record Display : Type 0 where
  pub running : Bool
  pub joinable : Bool
  pub update_interval : ℕ  -- in milliseconds
  pub has_engine : Bool  -- `arbitrage_engine_` is set

unfoldable pub create : Display
create = record { running = false; joinable = false; update_interval = 1000; has_engine = false }

unfoldable pub set_arbitrage_engine : Display → Display
set_arbitrage_engine s = record s { has_engine = true }

unfoldable pub set_update_interval : ℕ → Display → Display
set_update_interval interval s = record s { update_interval = interval }

-- `none`: a thread assigned over one that has not been joined, which ends the program.
unfoldable pub start : Display → Option Display
start s =
    if s.running
    then some s
    else if s.joinable
    then none
    else some (record s { running = true; joinable = true })

-- With the join.
unfoldable pub stop : Display → Display
stop s = if not s.running then s else record s { running = false; joinable = false }
