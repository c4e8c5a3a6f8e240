-- ===== src/Archive/Verify.antt =====
-- ewsmcp/archive/verify.py: a captured row is promoted to `verified`, or reset to `live`. What the
-- gateway, the disk and the database answer is an input; `others` is what other processes did to
-- the store while the rows were evaluated. `ews_id` is the table's key, so that the dict `by_id`
-- has the rows' own order.
pub mod Counts
pub mod Promotions
use exchange_mcp.Prelude.{
  ℕ, suc, ◌+◌, String, Bool, ◌&&◌, Option, none, some, List, [], ◌∷◌, if◌then◌else◌, option_str_eq,
  ◌==◌,
}
use exchange_mcp.Prelude.Int.{ℤ}
use exchange_mcp.Store.Rows.{Message, Attachment, Store}
use exchange_mcp.Store.Archive.{attachments_for, captured_rows, mark_verified, reset_to_live}
use exchange_mcp.Archive.Files.{Disk, Check, Problem, Error, check_copy, truthy}

pub data Mismatch : Type 0 where
  changekey_unavailable changekey_changed : Mismatch
  copy : Problem → Mismatch

-- The verdict on one row: promote it, reset it, or leave it for the next cycle.
pub data Verdict : Type 0 where
  ok : Verdict
  mismatch : Mismatch → Verdict
  failed : Error → Verdict

pub data Fetched : Type 0 where
  missing : String → Fetched
  item : Option String → Fetched

pub record Environment : Type 0 where
  pub now : ℤ
  pub disk : Disk
  pub attachments_down : String → Bool
  pub gateway : Option (List Fetched)
  pub others : Store → Store
  pub write_down : String → Bool

abbrev pub sha_text : Option String → String
sha_text none = ""
sha_text (some sha) = sha

abbrev pub verdict_of : Check → Verdict
verdict_of Check.passed = ok
verdict_of (Check.problem p) = mismatch (copy p)
verdict_of (Check.raised e) = failed e

abbrev pub inventory : Environment → Store → String → Option (List Attachment)
inventory env s i = if env.attachments_down i then none else some (attachments_for i s)

-- `_mismatch`, with the exception that it may raise.
unfoldable pub judge : Environment → Store → Message → Option String → Verdict
unfolding check_copy attachments_for
judge env s row live_ck =
    if truthy row.captured_changekey && truthy live_ck
    then if option_str_eq live_ck row.captured_changekey
      then verdict_of (check_copy env.disk (sha_text row.mime_sha256) (inventory env s row.ews_id))
      else mismatch changekey_changed
    else mismatch changekey_unavailable

-- The rows that were fetched, with their items, and how many were not.
pub record Pairs : Type 0 where
  pub pairs : List (Message × Option String)
  pub missed : ℕ

abbrev pub add_fetched : Message → Fetched → Pairs → Pairs
add_fetched row (missing e) ps = record ps { missed = suc ps.missed }
add_fetched row (item ck) ps = record ps { pairs = (row, ck) ∷ ps.pairs }

abbrev pub add_to : Message → Fetched → Option Pairs → Option Pairs
add_to row f none = none
add_to row f (some ps) = some (add_fetched row f ps)

-- `zip(ids, fetched, strict=True)`, which raises if one of them is shorter.
unfoldable pub pair_up : List Message → List Fetched → Option Pairs
pair_up [] [] = some (record { pairs = []; missed = 0 })
pair_up [] (f ∷ fs) = none
pair_up (row ∷ rows) [] = none
pair_up (row ∷ rows) (f ∷ fs) = add_to row f (pair_up rows fs)

unfoldable pub evaluate :
    Environment → Store → List (Message × Option String) → List (String × Verdict)
unfolding judge
evaluate env s [] = []
evaluate env s ((row, ck) ∷ pairs) = (row.ews_id, judge env s row ck) ∷ evaluate env s pairs

pub record Outcome : Type 0 where
  pub verified : ℕ
  pub reset : ℕ
  pub failed : ℕ
  pub reasons : List (String × Mismatch)

abbrev pub add_failed : Outcome → Outcome
add_failed o = record o { failed = suc o.failed }

abbrev pub add_verified : Outcome → Outcome
add_verified o = record o { verified = suc o.verified }

abbrev pub add_reset : String → Mismatch → Outcome → Outcome
add_reset i m o = record o { reset = suc o.reset; reasons = (i, m) ∷ o.reasons }

abbrev pub then_count : (Outcome → Outcome) → Option Outcome × Store → Option Outcome × Store
then_count f (none, s) = (none, s)
then_count f (some o, s) = (some (f o), s)

-- `_apply`: a write that changes no row is a failure; one that raises ends the run.
unfoldable pub apply : Environment → List (String × Verdict) → Store → Option Outcome × Store
unfolding mark_verified reset_to_live
apply env [] s = (some (record { verified = 0; reset = 0; failed = 0; reasons = [] }), s)
apply env ((i, failed e) ∷ vs) s = then_count add_failed (apply env vs s)
apply env ((i, ok) ∷ vs) s =
    let (s', changed) = mark_verified env.now i s in
    let rest = apply env vs s' in
    if env.write_down i
    then (none, s)
    else then_count (if changed == 0 then add_failed else add_verified) rest
apply env ((i, mismatch m) ∷ vs) s =
    let (s', changed) = reset_to_live i s in
    let rest = apply env vs s' in
    if env.write_down i
    then (none, s)
    else then_count (if changed == 0 then add_failed else add_reset i m) rest

abbrev pub add_missed : ℕ → Outcome → Outcome
add_missed n o = record o { failed = n + o.failed }

abbrev pub run_pairs : Environment → Store → Option Pairs → Option Outcome × Store
run_pairs env s none = (none, s)
run_pairs env s (some ps) =
    then_count (add_missed ps.missed) (apply env (evaluate env s ps.pairs) (env.others s))

abbrev pub run_fetched :
    Environment → List Message → Option (List Fetched) → Store → Option Outcome × Store
run_fetched env rows none s = (none, s)
run_fetched env rows (some fetched) s = run_pairs env s (pair_up rows fetched)

abbrev pub run_rows : Environment → List Message → Store → Option Outcome × Store
run_rows env [] s = (some (record { verified = 0; reset = 0; failed = 0; reasons = [] }), s)
run_rows env (row ∷ rows) s = run_fetched env (row ∷ rows) env.gateway s

-- `Verifier.run`; `none`: an exception leaves it.
unfoldable pub run : Environment → ℕ → Store → Option Outcome × Store
unfolding captured_rows pair_up evaluate apply
run env limit s = run_rows env (captured_rows limit s) s
