-- ===== src/Archive/Delete/Run.antt =====
-- `Deleter.run` of ewsmcp/archive/delete.py: the guards, the loop over the batches and the result.
use exchange_mcp.Prelude.{
  ℕ, zero, suc, ◌+◌, ◌-◌, String, Bool, true, false, Option, none, some, List, [], ◌∷◌, ◌++◌,
  if◌then◌else◌, length, take, drop, select,
}
use exchange_mcp.Prelude.Int.{ℤ}
use exchange_mcp.Store.Rows.{Message, Store}
use exchange_mcp.Store.Archive.{deletable_rows}
use exchange_mcp.Archive.Policy.{
  ArchivePolicy, BackupState, backup_state, delete_cutoff_ts, grace_instant_ts,
}
use exchange_mcp.Archive.Delete.{
  Reason, stale_changekey, World, Environment, Sifted, BatchOutcome, Fetched, unusable_copies,
  delete_batch, persist_skips, requeue, persist_batch, ids_of,
}

abbrev pub batch_size : ℕ
batch_size = 25

pub record LoopState : Type 0 where
  pub processed : ℕ
  pub deleted : ℕ
  pub failed : ℕ
  pub unmarked : ℕ
  pub requeued : ℕ
  pub unrecorded : List String
  pub reasons : List (String × Reason)
  pub error : Bool

-- How a batch ends: on to the next, `break`, or an exception that leaves `run`.
pub data Flow : Type 0 where
  continue : LoopState → World → Flow
  stop : LoopState → World → Flow
  raised : World → Flow

abbrev pub is_stale : String × Reason → Bool
is_stale (i, stale_changekey) = true
is_stale (i, r) = false

abbrev pub persisted : List String → LoopState → Option (List String) × World → Flow
persisted done st (none, w) =
    stop (record st { unrecorded = st.unrecorded ++ done; error = true }) w
persisted done st (some unmarked, w) =
    continue
      (record st {
        unmarked = st.unmarked + length unmarked;
        unrecorded = st.unrecorded ++ unmarked;
      })
      w

-- The batch is gone from Exchange: count it, then mark it and write its audit records.
unfoldable pub after_requeue : Environment → List String → LoopState → World → Flow
after_requeue env [] st w = continue st w
after_requeue env (i ∷ is) st w =
    persisted (i ∷ is) (record st { deleted = st.deleted + length (i ∷ is) })
      (persist_batch env (i ∷ is) w)

abbrev pub requeued_batch : Environment → List String → LoopState → World → Option ℕ × Store → Flow
requeued_batch env done st w (none, s) = Flow.raised (record w { store = s })
requeued_batch env done st w (some n, s) =
    after_requeue env done (record st { requeued = st.requeued + n }) (record w { store = s })

-- The gateway call returned: skips are audited, stale rows go back to `captured`.
unfoldable pub after_gateway :
    Environment → List Message → Sifted → BatchOutcome → LoopState → World → Flow
after_gateway env rows sifted out st w =
    let st' = record st {
      processed = st.processed + length rows;
      reasons = st.reasons ++ out.reasons;
      failed = st.failed + length out.reasons;
    } in
    let w' = persist_skips (sifted.bad ++ out.reasons) w in
    requeued_batch env out.done st' w'
      (requeue env (ids_of (select is_stale out.reasons)) (env.others w'.store))

-- The gateway call raised: only the refused rows of the chunk have a verdict.
abbrev pub gateway_failed : Sifted → LoopState → World → Flow
gateway_failed sifted st w =
    stop (record st { processed = st.processed + length sifted.bad; error = true })
      (persist_skips sifted.bad w)

abbrev pub call_gateway :
    Environment → List Message → Sifted → Option (List Fetched) → LoopState → World → Flow
call_gateway env rows sifted none st w = gateway_failed sifted st w
call_gateway env rows sifted (some fetched) st w =
    let out = delete_batch sifted.batch fetched in
    let w' = record w { upstream = w.upstream ++ out.done } in
    if out.complete then after_gateway env rows sifted out st w' else gateway_failed sifted st w'

abbrev pub batch_step :
    Environment → List Message → Sifted → List Message → LoopState → World → Flow
batch_step env rows sifted [] st w =
    continue (record st { processed = st.processed + length rows }) (persist_skips sifted.bad w)
batch_step env rows sifted (row ∷ rest) st w = call_gateway env rows sifted env.gateway st w

unfoldable pub step : Environment → List Message → LoopState → World → Flow
step env rows st w =
    let sifted = unusable_copies env rows w.store in
    let w' = record w { store = sifted.store } in
    let st' = record st {
      reasons = st.reasons ++ sifted.bad;
      failed = st.failed + length sifted.bad;
    } in
    batch_step env rows sifted sifted.batch st' w'

abbrev pub then_loop : (LoopState → World → Flow) → Flow → Flow
then_loop loop (continue st w) = loop st w
then_loop loop (stop st w) = stop st w
then_loop loop (raised w) = raised w

-- `for start in range(0, len(ids), BATCH_SIZE)`; the number of rows is fuel enough.
unfoldable pub batches_of : ℕ → List Message → List (List Message)
batches_of zero rows = []
batches_of (suc fuel) [] = []
batches_of (suc fuel) (row ∷ rows) =
    take batch_size (row ∷ rows) ∷ batches_of fuel (drop batch_size (row ∷ rows))

unfoldable pub delete_loop : (ℕ → Environment) → ℕ → List (List Message) → LoopState → World → Flow
delete_loop envs k [] st w = stop st w
delete_loop envs k (rows ∷ chunks) st w =
    then_loop (λ st' w'. delete_loop envs (suc k) chunks st' w') (step (envs k) rows st w)

pub data Blocked : Type 0 where
  disabled marker_missing backup_stale : Blocked

pub record DeleteResult : Type 0 where
  pub eligible : ℕ
  pub deleted : ℕ
  pub failed : ℕ
  pub remaining : ℕ
  pub unmarked : ℕ
  pub deleted_unrecorded : List String
  pub reasons : List (String × Reason)
  pub blocked : Option Blocked
  pub error : Bool
  pub requeued : ℕ
  pub held : Bool
  pub warning : Bool
  pub sample : List Message

abbrev pub nothing_done : DeleteResult
nothing_done = record {
  eligible = 0;
  deleted = 0;
  failed = 0;
  remaining = 0;
  unmarked = 0;
  deleted_unrecorded = [];
  reasons = [];
  blocked = none;
  error = false;
  requeued = 0;
  held = false;
  warning = false;
  sample = [];
}

abbrev pub eligible_result : List Message → Bool → DeleteResult
eligible_result rows warning = record nothing_done {
  eligible = length rows;
  warning = warning;
  sample = take 10 rows;
}

abbrev pub start_state : LoopState
start_state = record {
  processed = 0;
  deleted = 0;
  failed = 0;
  unmarked = 0;
  requeued = 0;
  unrecorded = [];
  reasons = [];
  error = false;
}

pub data Outcome : Type 0 where
  returned : DeleteResult → World → Outcome
  raised : World → Outcome

abbrev pub close_run_at : DeleteResult → LoopState → DeleteResult
close_run_at result st = record result {
  deleted = st.deleted;
  failed = st.failed;
  remaining = result.eligible - st.processed;
  unmarked = st.unmarked;
  deleted_unrecorded = st.unrecorded;
  reasons = st.reasons;
  error = st.error;
  requeued = st.requeued;
}

abbrev pub close_run : DeleteResult → Flow → Outcome
close_run result (continue st w) = returned (close_run_at result st) w
close_run result (stop st w) = returned (close_run_at result st) w
close_run result (Flow.raised w) = Outcome.raised w

pub record RunInput : Type 0 where
  pub now : ℤ
  pub stamped : Option ℤ
  pub query_down : Bool
  pub dry_run : Bool
  pub batches : ℕ → Environment

-- The selection and the loop, once the rails that look at no row have let the run pass.
unfoldable pub run_rows : ArchivePolicy → RunInput → Bool → World → Outcome
run_rows policy input warning w =
    let rows =
      deletable_rows (delete_cutoff_ts policy input.now) (grace_instant_ts policy input.now)
        policy.max_delete_per_run w.store in
    let result = eligible_result rows warning in
    if input.query_down
    then Outcome.raised w
    else if input.dry_run
    then returned (record result { remaining = length rows }) w
    else close_run result
        (delete_loop input.batches 0 (batches_of (length rows) rows) start_state w)

abbrev pub hold : Blocked → World → Outcome
hold b w = returned (record nothing_done { blocked = some b; held = true }) w

abbrev pub run_backed : ArchivePolicy → RunInput → World → BackupState → Outcome
run_backed policy input w BackupState.stale = hold backup_stale w
run_backed policy input w BackupState.missing = hold marker_missing w
run_backed policy input w BackupState.expired = run_rows policy input true w
run_backed policy input w BackupState.off = run_rows policy input false w
run_backed policy input w BackupState.fresh = run_rows policy input false w

unfoldable pub run : ArchivePolicy → RunInput → World → Outcome
run policy input w =
    if policy.delete_enabled
    then run_backed policy input w (backup_state policy input.stamped input.now)
    else returned (record nothing_done { blocked = some disabled }) w
