-- ===== src/Tests/Gateway.antt =====
-- The connection and the aliases on small inputs.
use exchange_mcp.Prelude.{true, none, some, [], ◌∷◌, ◌++◌}
use exchange_mcp.Prelude.Int.{pos}
use exchange_mcp.Text.{codes}
use exchange_mcp.Gateway.Connection.{Config, Attempt, connected, attempted, new_manager, start, run}
use exchange_mcp.Gateway.Connection.Recovery.{Settled, events, run-Settled}

abbrev config : Config
config = record {
  initial_backoff = 1000;
  max_backoff = 300000;
  heartbeat_seconds = 600;
  has_on_warm = true;
}

run-Settled_example : Settled config 4 (pos 60) (
    run config
      (events (
          (Attempt.refused none, pos 1)
          ∷ (Attempt.raised (codes "x"), pos 3)
          ∷ (Attempt.refused (some (codes "busy")), pos 7)
          ∷ (Attempt.refused (some []), pos 20)
          ∷ [])
        ++ (attempted connected (pos 60) ∷ []))
      (start config new_manager))
run-Settled_example =
    run-Settled config
      ((Attempt.refused none, pos 1)
        ∷ (Attempt.raised (codes "x"), pos 3)
        ∷ (Attempt.refused (some (codes "busy")), pos 7)
        ∷ (Attempt.refused (some []), pos 20)
        ∷ [])
      (pos 60) (tt, (tt, (tt, (tt, tt))))
