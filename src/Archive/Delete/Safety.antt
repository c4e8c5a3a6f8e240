-- ===== src/Archive/Delete/Safety.antt =====
-- What a run of the deleter may delete from Exchange.
use exchange_mcp.Prelude.{ℕ, ◌+◌, At, String, ◌≡◌, ◌≢◌, true, false, List, ◌++◌, length, All}
use exchange_mcp.Store.Rows.{Message, Store}
use exchange_mcp.Store.Archive.{deletable, deletable_rows}
use exchange_mcp.Archive.Policy.{
  ArchivePolicy, BackupState, backup_state, delete_cutoff_ts, grace_instant_ts,
}
use exchange_mcp.Archive.Delete.{World, Environment}
use exchange_mcp.Archive.Delete.Run.{batches_of, Outcome, returned, RunInput}
use exchange_mcp.Archive.Delete.LastMile.{LastMile, Justified}

-- Justified in one of the chunks, in the environment of that batch.
abbrev JustifiedIn :
    (ℕ → Environment) → (Message → Type 0) → ℕ → List (List Message) → String → Type 0
JustifiedIn envs P k chunks i =
    (j : ℕ) × (rows : List Message) × At rows j chunks × Justified (envs (j + k)) rows P i

abbrev pub outcome_world : Outcome → World
outcome_world (returned r w) = w
outcome_world (Outcome.raised w) = w

-- The rows of the run, oldest first, 25 to a batch.
abbrev pub batches : ArchivePolicy → RunInput → Store → List (List Message)
batches policy input s =
    let rows =
      deletable_rows (delete_cutoff_ts policy input.now) (grace_instant_ts policy input.now)
        policy.max_delete_per_run s in
    batches_of (length rows) rows

-- Every rail that stands between a row and its deletion.
pub record Permitted (policy : ArchivePolicy) (input : RunInput) (s : Store) (i : String)
    : Type 0 where
  pub enabled : policy.delete_enabled ≡ true
  pub asked : input.dry_run ≡ false
  pub not_stale : backup_state policy input.stamped input.now ≢ BackupState.stale
  pub not_missing : backup_state policy input.stamped input.now ≢ BackupState.missing
  pub row : Message
  pub id : row.ews_id ≡ i
  pub old :
      deletable (delete_cutoff_ts policy input.now) (grace_instant_ts policy input.now) row ≡ true
  pub batch : ℕ
  pub rows : List Message
  pub chunk : At rows batch (batches policy input s)
  pub last_mile : LastMile (input.batches batch) rows row

abbrev pub Deletes : ArchivePolicy → RunInput → World → Outcome → Type 0
Deletes policy input w o =
    (new : List String) × ((outcome_world o).upstream ≡ w.upstream ++ new)
    × All (Permitted policy input w.store) new

module _ (policy : ArchivePolicy) (input : RunInput) (w : World) where
  abbrev Old : Message → Type 0
  Old row =
      deletable (delete_cutoff_ts policy input.now) (grace_instant_ts policy input.now) row ≡ true

  abbrev eligible : List Message
  eligible =
      deletable_rows (delete_cutoff_ts policy input.now) (grace_instant_ts policy input.now)
        policy.max_delete_per_run w.store
