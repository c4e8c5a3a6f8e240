-- ===== src/Tests/Store.antt =====
-- Writes to a small store.
use exchange_mcp.Prelude.{◌≡◌, refl, some, List, [], ◌∷◌}
use exchange_mcp.Prelude.Int.{pos}
use exchange_mcp.Store.Rows.{ArchiveState, Message, Store, find_row}
use exchange_mcp.Store.Writes.{Write, write, write_all}
use exchange_mcp.Store.Survival.{Survives}
use exchange_mcp.Store.Kept.{write-Survives, write_all-deleted}
use exchange_mcp.Store.Consistent.{IsConsistent, write_all-IsConsistent}
use exchange_mcp.Tests.Data.{mirror_at, live_row, captured_row, verified_row, store_of}

abbrev store : Store
store = store_of (live_row "m0" 50 ∷ captured_row "m1" 100 ∷ verified_row "m2" 200 ∷ [])

abbrev buried : Message
buried = record (verified_row "m2" 200) {
  archive_state = ArchiveState.deleted;
  deleted_at = some (pos 3000);
}

-- A sync that deletes the row upstream and then sees its id again, and an attempt to reset it.
abbrev later : List Write
later =
    Write.server_delete (pos 4000) ("m1" ∷ "m2" ∷ [])
    ∷ Write.upsert (("m2", mirror_at 300) ∷ [])
    ∷ Write.reset "m2"
    ∷ Write.drop_folder "inbox-id"
    ∷ Write.delete_by_id ("m0" ∷ [])
    ∷ []

write-Survives_example :
    Survives (captured_row "m1" 100) "m1" (write (Write.server_delete (pos 4000) ("m1" ∷ [])) store)
write-Survives_example =
    write-Survives "m1" store refl (λ e. cc) (Write.server_delete (pos 4000) ("m1" ∷ [])) tt

write_all-deleted_example :
    (m : Message) × (find_row "m2" (write_all later (store_of (buried ∷ []))).messages ≡ some m)
    × (m.archive_state ≡ ArchiveState.deleted)
    × (m.mime_sha256 ≡ buried.mime_sha256)
write_all-deleted_example =
    write_all-deleted later "m2" (store_of (buried ∷ [])) refl refl
      (tt, (tt, (tt, (tt, (refl, tt)))))

write_all-IsConsistent_example : IsConsistent (write_all later store)
write_all-IsConsistent_example =
    write_all-IsConsistent later store
      ((refl, refl, refl, refl, refl), ((refl, refl, refl, refl), ((refl, refl, refl, refl), tt)))
