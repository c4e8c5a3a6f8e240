-- ===== src/Archive/Delete/Accounting.antt =====
-- The counters of `Deleter.run` of ewsmcp/archive/delete.py.
use exchange_mcp.Prelude.{
  ℕ, zero, suc, ◌+◌, ◌≤◌, String, ◌≡◌, refl, Bool, true, false, List, [], ◌∷◌, arith, inl, inr, ◌⊎◌,
  length, length-drop, length-take, if◌then◌else◌, drop,
}
use exchange_mcp.Store.Rows.{Message}
use exchange_mcp.Store.Archive.{deletable_rows}
use exchange_mcp.Archive.Policy.{
  ArchivePolicy, BackupState, backup_state, delete_cutoff_ts, grace_instant_ts,
}
use exchange_mcp.Archive.Delete.{World, Environment}
use exchange_mcp.Archive.Delete.Run.{
  LoopState, Flow, continue, stop, step, batches_of, delete_loop, DeleteResult, start_state,
  Outcome, returned, then_loop, run_backed, RunInput, run_rows, run, close_run, eligible_result,
}
use exchange_mcp.Archive.Delete.Accounted.{Balanced, DemotionRaises, Accounted, step-Accounted}

total : List (List Message) → ℕ
total [] = 0
total (rows ∷ chunks) = length rows + total chunks

total-batches_of :
    (fuel : ℕ) (rows : List Message)
    → length rows ≤ fuel
    → total (batches_of fuel rows) ≡ length rows
unfolding total batches_of
total-batches_of zero [] h = refl
total-batches_of zero (row ∷ rows) h = absurd (omega arith)
total-batches_of (suc fuel) [] h = refl
total-batches_of (suc fuel) (row ∷ rows) h = omega (
  arith,
  total-batches_of fuel (drop 24 rows) (omega (arith, length-drop 24 rows)),
  length-drop 24 rows,
  length-take 24 rows,
)

-- A loop that ends has counts that balance and cover at most `n` rows.
abbrev Closed : (ℕ → Environment) → ℕ → Flow → Type 0
Closed envs n (continue st w) = Balanced st × (st.processed ≤ n)
Closed envs n (stop st w) = Balanced st × (st.processed ≤ n)
Closed envs n (Flow.raised w) = (k : ℕ) × DemotionRaises (envs k)

delete_loop-Closed :
    (envs : ℕ → Environment) (k : ℕ) (chunks : List (List Message)) (st : LoopState) (w : World)
    (n : ℕ)
    → Balanced st
    → st.processed + total chunks ≡ n
    → Closed envs n (delete_loop envs k chunks st w)
unfolding delete_loop total
delete_loop-Closed envs k [] st w n h e = (h, omega arith)
delete_loop-Closed envs k (rows ∷ chunks) st w n h e =
    next (step (envs k) rows st w) (step-Accounted (envs k) rows st w h)
      (λ st' w'. delete_loop-Closed envs (suc k) chunks st' w' n)
  where
    next :
        (f : Flow)
        → Accounted (envs k) (st.processed + length rows) f
        → ((st' : LoopState) (w' : World)
            → Balanced st'
            → st'.processed + total chunks ≡ n
            → Closed envs n (delete_loop envs (suc k) chunks st' w'))
        → Closed envs n (then_loop (λ st' w'. delete_loop envs (suc k) chunks st' w') f)
    next (continue st' w') a ih = ih st' w' a.0 (omega arith)
    next (stop st' w') a ih = (a.0, omega arith)
    next (Flow.raised w') a ih = (k, a)

-- A run that returns has the three counts add up to the eligible rows. It raises only if the query
-- for the rows does, or a demotion of a stale row.
abbrev pub Partitioned : RunInput → Outcome → Type 0
Partitioned input (returned r w) = r.deleted + r.failed + r.remaining ≡ r.eligible
Partitioned input (Outcome.raised w) =
    (input.query_down ≡ true) ⊎ ((k : ℕ) × (i : String) × ((input.batches k).demote_down i ≡ true))

close_run-Partitioned :
    (input : RunInput) (r : DeleteResult) (n : ℕ) (f : Flow)
    → r.eligible ≡ n
    → Closed input.batches n f
    → Partitioned input (close_run r f)
close_run-Partitioned input r n (continue st w) e c = omega arith
close_run-Partitioned input r n (stop st w) e c = omega arith
close_run-Partitioned input r n (Flow.raised w) e c = inr (c.0, c.1.0, c.1.1)

Partitioned-if :
    (input : RunInput) (b : Bool) (f g : Outcome)
    → (b ≡ true → Partitioned input f)
    → Partitioned input g
    → Partitioned input (if b then f else g)
Partitioned-if input true f g h k = h refl
Partitioned-if input false f g h k = k

run_rows-Partitioned :
    (policy : ArchivePolicy) (input : RunInput) (warning : Bool) (w : World)
    → Partitioned input (run_rows policy input warning w)
unfolding run_rows
run_rows-Partitioned policy input warning w =
    Partitioned-if input input.query_down _ _ (λ down. inl down)
      (Partitioned-if input input.dry_run _ _ (λ dry. omega arith)
        (close_run-Partitioned input (eligible_result rows warning) (length rows) _ refl (
          delete_loop-Closed input.batches 0 (batches_of (length rows) rows) start_state w
            (length rows) refl (omega (arith, total-batches_of (length rows) rows (omega arith))))))
  where
    rows : List Message
    rows =
        deletable_rows (delete_cutoff_ts policy input.now) (grace_instant_ts policy input.now)
          policy.max_delete_per_run w.store

-- Whatever the gateway, the disk, the database and other processes do, a run of the deleter that
-- returns has `deleted + failed + remaining ≡ eligible`; it raises only if the query for the
-- eligible rows raises, or a demotion in `_requeue`.
pub run-Partitioned :
    (policy : ArchivePolicy) (input : RunInput) (w : World) → Partitioned input (run policy input w)
unfolding run
run-Partitioned policy input w =
    Partitioned-if input policy.delete_enabled _ _
      (λ on. backed (backup_state policy input.stamped input.now)) (omega arith)
  where
    backed : (b : BackupState) → Partitioned input (run_backed policy input w b)
    backed BackupState.stale = omega arith
    backed BackupState.missing = omega arith
    backed BackupState.expired = run_rows-Partitioned policy input true w
    backed BackupState.off = run_rows-Partitioned policy input false w
    backed BackupState.fresh = run_rows-Partitioned policy input false w
