-- ===== src/Tests/Cycle.antt =====
-- The backlog, the sweep of files and the passes of the archive on small inputs.
use exchange_mcp.Prelude.{
  ℕ, ◌+◌, String, ◌≡◌, refl, inl, inr, true, false, none, some, [], ◌∷◌, length, All, select,
}
use exchange_mcp.Prelude.Int.{pos}
use exchange_mcp.Store.Rows.{Message, Store}
use exchange_mcp.Store.Chunks.{Repair, update_bodies, embedding_backlog, embedded_count}
use exchange_mcp.Store.Chunks.Clean.{IsClean}
use exchange_mcp.Store.Chunks.Backlog.{backlog-embedded}
use exchange_mcp.Store.Chunks.Repaired.{Requeued, Rowwise, update_bodies-Requeued}
use exchange_mcp.Archive.Embed.{Index, drain, start}
use exchange_mcp.Archive.Embed.Budget.{Within, drain-ends}
use exchange_mcp.Archive.Gc.{Entry, Folders, referenced_mime_shas, referenced_blob_shas}
use exchange_mcp.Archive.Gc
use exchange_mcp.Archive.Gc.Keeps.{Unswept, stays, run-Unswept}
use exchange_mcp.Archive.Passes.{Kind, open_row}
use exchange_mcp.Archive.Runner.{Workers, Ledger, cycle}
use exchange_mcp.Archive.Runner.Lanes.{cycle-Kept}
use exchange_mcp.Tests.Data.{sha_a, sha_b, live_row, captured_row, store_of}
use exchange_mcp.Tests.Delete.{policy}

abbrev stamped : Message
stamped = record (live_row "m1" 100) { embedded_at = some (pos 5) }

abbrev store : Store
store = record (store_of (stamped ∷ live_row "m2" 200 ∷ [])) {
  chunks =
      record { message_ews_id = "m1"; seq = 0; source = "body"; text = "hi"; embedding = "[]" }
      ∷ [];
}

abbrev repair : Repair
repair = record {
  ews_id = "m1";
  body = some "new text";
  to = none;
  item_class = none;
  attachments_json = none;
}

update_bodies-Requeued_example :
    let t = (update_bodies (repair ∷ []) store).0 in
    IsClean t × Rowwise (Requeued t.chunks) store.messages t.messages
update_bodies-Requeued_example =
    update_bodies-Requeued (repair ∷ []) store (inl refl, (inr (refl, tt), tt))

backlog-embedded_example : embedding_backlog store + embedded_count store ≡ 2
backlog-embedded_example = backlog-embedded store

-- An index that takes all rows and makes no progress in the store.
abbrev index : Index
index = λ k rows s. (some (length rows), s)

drain-ends_example : Within 3 (drain index 2 (λ k. false) 3 0 3 start store).0
drain-ends_example = drain-ends index 2 (λ k. false) 3 store

abbrev old : String → Entry
old key = record { key = key; is_file = true; mtime = pos 0; size = 9; unlink_fails = false }

abbrev folders : Folders
folders = record { mimes = old sha_a ∷ old sha_b ∷ []; blobs = old sha_a ∷ [] }

abbrev archived : Store
archived = store_of (captured_row "m1" 100 ∷ [])

run-Unswept_example :
    All
      (λ m.
        Unswept folders.mimes (Gc.run (pos 1_000_000) false archived folders).1.mimes m.mime_sha256)
      archived.messages
    × All
        (λ a.
          Unswept folders.blobs (Gc.run (pos 1_000_000) false archived folders).1.blobs a.sha256)
        archived.attachments
    × ((Gc.run (pos 1_000_000) false archived folders).1.mimes
        ≡ select
            (stays (referenced_mime_shas archived.messages) (pos 1_000_000) false)
            folders.mimes)
    × ((Gc.run (pos 1_000_000) false archived folders).1.blobs
        ≡ select
            (stays (referenced_blob_shas archived.attachments) (pos 1_000_000) false)
            folders.blobs)
run-Unswept_example = run-Unswept (pos 1_000_000) false archived folders

-- Workers on a world of two counters: the captures, and the deletions.
abbrev workers : Workers (ℕ × ℕ)
workers = record {
  capture = λ dry w. (none, (w.0 + 1, w.1));
  verify = λ w. (none, w);
  embed = λ w. (none, w);
  gc = λ dry w. (none, w);
  delete = λ id dry w. (none, (w.0, w.1 + 1));
}

abbrev ledger : Ledger (ℕ × ℕ)
ledger = record { world = (0, 0); runs = open_row 1 Kind.verify true ∷ []; next_id = 2 }

cycle-Kept_example : (cycle (λ p. workers) (some policy) false false false ledger).1.world.1 ≡ 0
cycle-Kept_example =
    cycle-Kept (λ (w : ℕ × ℕ). w.1) (λ p. workers) (λ p w. refl) (λ p w. refl) (λ p w. refl)
      (some policy) false false ledger
