-- ===== src/Store/Writes.antt =====
-- Every writer of `ews.messages` in ewsmcp/cache/store.py as one type of writes, and the steps that a row's state may take.
use exchange_mcp.Prelude.{ℕ, String, ◌≡◌, Bool, false, Option, List, [], ◌∷◌, mem_str}
use exchange_mcp.Prelude.Int.{ℤ}
use exchange_mcp.Store.Rows.{
  ArchiveState, live, captured, verified, deleted, Mirror, Attachment, Chunk, Store,
}
use exchange_mcp.Store.Mirror.{
  upsert_messages, set_read_flag, set_flag_status, delete_live_messages_in_folder,
  delete_messages_by_id, apply_categories,
}
use exchange_mcp.Store.Chunks.{Repair, replace_chunks, mark_embedded, update_bodies}
use exchange_mcp.Store.Archive.{
  mark_captured, mark_verified, demote_to_captured, reset_to_live, mark_deleted,
  apply_server_deletes, replace_attachments,
}

pub data Write : Type 0 where
  upsert : List (String × Mirror) → Write
  read_flag : List String → Bool → Write
  flag_status : List (String × Option ℕ) → Write
  drop_folder : String → Write
  delete_by_id : List String → Write
  categories : String → Option (List String) → Write
  embed : ℤ → String → List Chunk → Write
  embedded : ℤ → List String → Write
  repair : List Repair → Write
  capture : ℤ → String → String → String → Option String → Write
  verify : ℤ → String → Write
  demote : String → Write
  reset : String → Write
  bury : ℤ → List String → Write
  server_delete : ℤ → List String → Write
  attach : String → List Attachment → Write

unfoldable pub write : Write → Store → Store
unfolding upsert_messages set_read_flag set_flag_status delete_live_messages_in_folder mark_captured
    mark_verified demote_to_captured reset_to_live mark_deleted apply_server_deletes
    replace_attachments delete_messages_by_id apply_categories replace_chunks mark_embedded
    update_bodies
write (upsert rows) s = (upsert_messages rows s).0
write (read_flag ids b) s = set_read_flag ids b s
write (flag_status pairs) s = set_flag_status pairs s
write (drop_folder f) s = (delete_live_messages_in_folder f s).0
write (delete_by_id ids) s = (delete_messages_by_id ids s).0
write (categories i cs) s = apply_categories i cs s
write (embed now i chunks) s = replace_chunks now i chunks s
write (embedded now ids) s = mark_embedded now ids s
write (repair repairs) s = (update_bodies repairs s).0
write (capture now i sha path ck) s = (mark_captured now i sha path ck s).0
write (verify now i) s = (mark_verified now i s).0
write (demote i) s = (demote_to_captured i s).0
write (reset i) s = (reset_to_live i s).0
write (bury now ids) s = (mark_deleted now ids s).0
write (server_delete now ids) s = (apply_server_deletes now ids s).0
write (attach i rows) s = replace_attachments i rows s

unfoldable pub write_all : List Write → Store → Store
write_all [] s = s
write_all (w ∷ ws) s = write_all ws (write w s)

-- No DELETE by id names the row. Every writer but that one is bound by the state of the row.
abbrev pub Spares : String → Write → Type 0
Spares i (delete_by_id ids) = mem_str i ids ≡ false
Spares i _ = Unit

-- The state machine of `archive_state`.
pub data Step : ArchiveState → ArchiveState → Type 0 where
  stay : (s : ArchiveState) → Step s s
  capture : Step live captured
  verify : Step captured verified
  demote : Step verified captured
  reset : Step captured live
  bury_captured : Step captured deleted
  bury_verified : Step verified deleted
