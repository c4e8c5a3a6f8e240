-- ===== src/Archive/Runner/Closed.antt =====
-- The row of a pass in `ews.archive_runs`: ewsmcp/archive/runner.py.
use exchange_mcp.Prelude.{◌<◌, Bool, List, [], ◌∷◌, ◌++◌, All}
use exchange_mcp.Archive.Passes.{Kind, Out, RunRow, close_row, open_row}
use exchange_mcp.Archive.Runner.{Workers, Ledger, lanes, out_of}

-- Every row has an id below the next one.
abbrev pub Numbered : {W : Type 0} → Ledger W → Type 0
Numbered l = All (λ r. r.id < l.next_id) l.runs

module _ {W : Type 0} (ws : Workers W) (kind : Kind) (dry_run allow_delete : Bool)
    (l : Ledger W) where
  -- What the lanes of the pass return and leave.
  abbrev pub pass : Out × W
  pass = out_of (lanes ws l.next_id kind dry_run allow_delete l.world)

  abbrev pub closed : List RunRow
  closed = l.runs ++ (close_row pass.0 (open_row l.next_id kind dry_run) ∷ [])
