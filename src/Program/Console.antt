-- ===== src/Program/Console.antt =====
-- What src/main.cpp prints before it connects, in the default build.
use my_arbitrager.Prelude.{suc, ◌*◌, List, [], ◌∷◌, ◌++◌, length}
use my_arbitrager.Prelude.Int.{ℤ, pos}
use my_arbitrager.Output.{Insertion, number, lit, line}
use my_arbitrager.Program.{symbols}

module _ {D : Type 0} where
  -- The seconds are an `int` of the source; a limit of more than 214,748,364 reports overflows it.
  unfoldable pub mode_lines : (max_reports : ℤ) → List (Insertion D)
  mode_lines (pos (suc m)) =
      lit "Benchmark mode: auto-shutdown after "
      ∷ number (suc m)
      ∷ lit " reports (~"
      ∷ number (suc m * 10)
      ∷ line "s)"
      ∷ []
  mode_lines _ = line "Running indefinitely (use --max-reports N to auto-stop)" ∷ []

  unfoldable pub banner : (max_reports : ℤ) → List (Insertion D)
  banner max_reports =
      (line "Multi-Exchange Crypto Arbitrage Dashboard"
        ∷ line "=========================================="
        ∷ line "Queue Type: Shared Mutex (baseline contention)"
        ∷ line "Latency report prints every 10 seconds"
        ∷ [])
      ++ mode_lines max_reports
      ++ line "" ∷ []

  unfoldable pub monitoring_lines : List (Insertion D)
  monitoring_lines =
      lit "Monitoring "
      ∷ number (length symbols)
      ∷ line " cryptocurrency pairs across 4 exchanges:"
      ∷ line "Binance.US + Coinbase + Kraken + Bybit"
      ∷ line ""
      ∷ []
