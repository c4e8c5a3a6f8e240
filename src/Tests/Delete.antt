-- ===== src/Tests/Delete.antt =====
-- A run of the deleter over two verified rows: one is deleted, the other changed upstream.
use exchange_mcp.Prelude.{ℕ, String, ◌≡◌, refl, true, false, none, some, List, [], ◌∷◌}
use exchange_mcp.Prelude.Int.{pos, ◌-ℤ◌, scale}
use exchange_mcp.Store.Rows.{order_by}
use exchange_mcp.Store.Archive.{deletable_rows, demote_to_captured, mark_deleted, attachments_for}
use exchange_mcp.Archive.Files.{is_sha, check_copy}
use exchange_mcp.Archive.Policy.{
  ArchivePolicy, backup_state, delete_cutoff_ts, grace_instant_ts, age_cutoff_ts,
}
use exchange_mcp.Archive.Delete.{
  World, Environment, item, copy_problem, unusable_copies, judge, delete_batch, persist_skips,
  requeue, persist_batch,
}
use exchange_mcp.Archive.Delete.Run.{
  RunInput, Outcome, returned, after_requeue, after_gateway, step, batches_of, delete_loop,
  run_rows, run,
}
use exchange_mcp.Archive.Delete.Accounting.{Partitioned, run-Partitioned}
use exchange_mcp.Tests.Data.{verified_row, store_of}

abbrev pub policy : ArchivePolicy
policy = record {
  folders = [];
  after_days = pos 1;
  exclude_categories = [];
  grace_days = pos 1;
  delete_enabled = true;
  max_delete_per_run = 10;
  min_free_bytes = 0;
  before_ts = none;
  capture_after_days = none;
  backup_stamp = "";
  backup_max_age_hours = pos 48;
  backup_hold_max_days = pos 10;
}

abbrev world : World
world = record {
  store = store_of (verified_row "m1" 100 ∷ verified_row "m2" 200 ∷ []);
  audit = [];
  upstream = [];
}

abbrev environment : Environment
environment = record {
  now = pos 1_000_000;
  disk = record { mime = λ s. some s; blob = λ s. none };
  attachments_down = λ i. false;
  demote_down = λ i. false;
  gateway = some (item (some "ck1") none ∷ item (some "ck2") none ∷ []);
  others = λ s. s;
  mark_down = false;
  lookup_down = false;
}

abbrev input : RunInput
input = record {
  now = pos 1_000_000;
  stamped = none;
  query_down = false;
  dry_run = false;
  batches = λ k. environment;
}

abbrev upstream_of : Outcome → List String
upstream_of (returned r w) = w.upstream
upstream_of (Outcome.raised w) = "raised" ∷ []

abbrev counts_of : Outcome → List ℕ
counts_of (returned r w) = r.eligible ∷ r.deleted ∷ r.failed ∷ r.remaining ∷ r.requeued ∷ []
counts_of (Outcome.raised w) = []

program : Unit {0}
unfolding run run_rows deletable_rows order_by delete_cutoff_ts grace_instant_ts age_cutoff_ts ◌-ℤ◌
    scale backup_state delete_loop batches_of step unusable_copies copy_problem is_sha check_copy
    attachments_for delete_batch judge after_gateway persist_skips requeue demote_to_captured
    after_requeue persist_batch mark_deleted
program = tt

run_deletes_one :
    (upstream_of (run policy input world) ≡ "m1" ∷ [])
    × (counts_of (run policy input world) ≡ 2 ∷ 1 ∷ 1 ∷ 0 ∷ 1 ∷ [])
unfolding program
run_deletes_one = (refl, refl)

run-Partitioned_example : Partitioned input (run policy input world)
run-Partitioned_example = run-Partitioned policy input world
