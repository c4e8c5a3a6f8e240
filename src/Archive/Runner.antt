-- ===== src/Archive/Runner.antt =====
-- ewsmcp/archive/runner.py: one pass of the archive, its row in `ews.archive_runs`, and the
-- background cycle. The workers are an interface: each runs on a world `W` and returns its counters,
-- or raises (`none`).
pub mod Closed
pub mod Lanes
use exchange_mcp.Prelude.{
  ℕ, suc, ◌+◌, String, Bool, true, false, not, ◌&&◌, Option, none, some, List, [], ◌∷◌, ◌++◌,
  if◌then◌else◌,
}
use exchange_mcp.Prelude.Int.{ℤ, ◌-ℤ◌, ltb_ℤ}
use exchange_mcp.Archive.Policy.{ArchivePolicy}
use exchange_mcp.Archive.Passes.{
  Kind, kind_of, kind_eq, lane_of, CaptureResult, VerifyResult, EmbedResult, GcResult, DeleteResult,
  Out, fresh_out, RunRow, merge_capture, merge_verify, merge_embed, merge_gc, merge_delete,
  finish_run, open_row, capture, verify, delete, embed, gc, all,
}

pub record Workers (W : Type 0) : Type 0 where
  pub capture : Bool → W → Option CaptureResult × W
  pub verify : W → Option VerifyResult × W
  pub embed : W → Option EmbedResult × W
  pub gc : Bool → W → Option GcResult × W
  pub delete : ℕ → Bool → W → Option DeleteResult × W

-- The pass so far; `raised`: the `except` of the lanes is reached.
pub data Flow (W : Type 0) : Type 0 where
  going : Out → W → Flow W
  raised : Out → W → Flow W

pub record Ledger (W : Type 0) : Type 0 where
  pub world : W
  pub runs : List RunRow
  pub next_id : ℕ

module _ {W : Type 0} where
  abbrev pub merged : {A : Type 0} → (A → Out → Out) → Out → Option A × W → Flow W
  merged merge out (none, w) = raised out w
  merged merge out (some a, w) = going (merge a out) w

  -- One lane, run if its test holds and none before it raised.
  abbrev pub lane : {A : Type 0} → Bool → (W → Option A × W) → (A → Out → Out) → Flow W → Flow W
  lane false body merge fl = fl
  lane true body merge (raised out w) = raised out w
  lane true body merge (going out w) = merged merge out (body w)

  abbrev pub refuse : Bool → Flow W → Flow W
  refuse true (going out w) = going (record out { blocked = some "ARCHIVE_DELETE_AUTO=false" }) w
  refuse b fl = fl

  -- The five lanes in their order.
  unfoldable pub lanes : Workers W → ℕ → Kind → Bool → Bool → W → Flow W
  lanes ws id kind dry_run allow_delete w =
      let f1 = lane (lane_of capture kind) (ws.capture dry_run) merge_capture (going fresh_out w) in
      let f2 = lane (lane_of verify kind && not dry_run) ws.verify merge_verify f1 in
      let f3 = lane (lane_of embed kind && not dry_run) ws.embed merge_embed f2 in
      let f4 = lane (kind_eq kind gc) (ws.gc dry_run) merge_gc f3 in
      let f5 = refuse (lane_of delete kind && not allow_delete) f4 in
      lane (lane_of delete kind && allow_delete) (ws.delete id dry_run) merge_delete f5

  abbrev pub out_of : Flow W → Out × W
  out_of (going out w) = (out, w)
  out_of (raised out w) = (record out { ok = false; error = some "exception" }, w)

  -- `_run_once_locked` once the policy is made; the Booleans: `start_run` and `finish_run` raise.
  unfoldable pub run_locked :
      Workers W → Kind → Bool → Bool → Bool → Bool → Ledger W → Option Out × Ledger W
  unfolding lanes finish_run
  run_locked ws kind dry_run allow_delete start_down finish_down l =
      let id = l.next_id in
      let (out, w) = out_of (lanes ws id kind dry_run allow_delete l.world) in
      let started = l.runs ++ (open_row id kind dry_run ∷ []) in
      if start_down
      then (none, l)
      else if finish_down
      then (none, record l { world = w; runs = started; next_id = suc id })
      else (some out, record l { world = w; runs = finish_run id out started; next_id = suc id })

  -- The policy of the pass may raise ValueError.
  abbrev pub with_policy :
      (ArchivePolicy → Workers W)
      → Option ArchivePolicy
      → Kind
      → Bool
      → Bool
      → Bool
      → Bool
      → Ledger W
      → Option Out × Ledger W
  with_policy make none kind dry_run allow_delete start_down finish_down l = (none, l)
  with_policy make (some policy) kind dry_run allow_delete start_down finish_down l =
      run_locked (make policy) kind dry_run allow_delete start_down finish_down l

  -- `run_once`: an unknown kind, a lock that is not free in time, or the pass.
  unfoldable pub run_once :
      (ArchivePolicy → Workers W)
      → Option ArchivePolicy
      → String
      → Bool
      → Bool
      → Bool
      → Bool
      → Ledger W
      → Option Out × Ledger W
  unfolding kind_of run_locked
  run_once make policy kind dry_run lock_free start_down finish_down l = elim (kind_of kind) [
    | none ↦ (none, l)
    | some k ↦
        if lock_free
        then with_policy make policy k dry_run true start_down finish_down l
        else (some (record fresh_out { ok = false; blocked = some "cycle in progress" }), l)
  ]

  -- The pass of `_loop`, which asks ARCHIVE_DELETE_AUTO before it deletes.
  unfoldable pub cycle :
      (ArchivePolicy → Workers W)
      → Option ArchivePolicy
      → Bool
      → Bool
      → Bool
      → Ledger W
      → Option Out × Ledger W
  unfolding run_locked
  cycle make policy delete_auto start_down finish_down l =
      with_policy make policy all false delete_auto start_down finish_down l

  -- `_maybe_gc`: the sweep, when it is due; the time of the last one moves first.
  unfoldable pub maybe_gc :
      (ArchivePolicy → Workers W)
      → Option ArchivePolicy
      → ℤ
      → ℤ
      → ℤ
      → Bool
      → Bool
      → Ledger W
      → ℤ × Ledger W
  unfolding run_locked
  maybe_gc make policy now last interval start_down finish_down l =
      if ltb_ℤ (now -ℤ last) interval
      then (last, l)
      else (now, (with_policy make policy gc false true start_down finish_down l).1)
