-- ===== src/Store/Mirror.antt =====
-- ewsmcp/cache/store.py: the writers of the mirrored columns and of live rows.
use exchange_mcp.Prelude.{
  ℕ, String, Bool, ◌&&◌, Option, none, some, List, [], ◌∷◌, if◌then◌else◌, str_eq, mem_str, length,
  count, is_some, select,
}
use exchange_mcp.Store.Rows.{
  ArchiveState, Mirror, Message, Store, has_id, in_state, update_where, delete_where, find_row,
}

-- A row as INSERT leaves it: the archive columns at their defaults.
abbrev pub fresh_row : String → Mirror → Message
fresh_row i m = record {
  ews_id = i;
  mirror = m;
  archive_state = ArchiveState.live;
  archived_at = none;
  verified_at = none;
  deleted_at = none;
  mime_sha256 = none;
  mime_path = none;
  captured_changekey = none;
  embedded_at = none;
}

-- INSERT … ON CONFLICT (ews_id) DO UPDATE SET the mirrored columns.
unfoldable pub upsert_row : String → Mirror → List Message → List Message
upsert_row i r [] = fresh_row i r ∷ []
upsert_row i r (m ∷ ms) =
    let rest = upsert_row i r ms in if has_id i m then record m { mirror = r } ∷ ms else m ∷ rest

unfoldable pub upsert_rows : List (String × Mirror) → List Message → List Message
upsert_rows [] ms = ms
upsert_rows ((i, r) ∷ rows) ms = upsert_rows rows (upsert_row i r ms)

unfoldable pub upsert_messages : List (String × Mirror) → Store → Store × ℕ
unfolding upsert_row upsert_rows
upsert_messages rows s = (record s { messages = upsert_rows rows s.messages }, length rows)

-- DELETE FROM ews.messages WHERE p; the child rows go by ON DELETE CASCADE.
unfoldable pub delete_messages : (Message → Bool) → Store → Store
delete_messages p s =
    let kept = delete_where p s.messages in
    record s {
      messages = kept;
      attachments = select (λ a. is_some (find_row a.message_ews_id kept)) s.attachments;
      chunks = select (λ c. is_some (find_row c.message_ews_id kept)) s.chunks;
    }

-- DELETE of the ids, whatever their state.
unfoldable pub delete_messages_by_id : List String → Store → Store × ℕ
unfolding delete_messages
delete_messages_by_id ids s = (delete_messages (λ m. mem_str m.ews_id ids) s, length ids)

unfoldable pub apply_categories : String → Option (List String) → Store → Store
apply_categories i categories s = record s {
  messages =
      update_where (has_id i)
        (λ m. record m { mirror = record m.mirror { categories = listed categories } }) s.messages;
}
  where
    -- `categories or []`
    listed : Option (List String) → List String
    listed none = []
    listed (some cs) = cs

unfoldable pub set_read_flag : List String → Bool → Store → Store
set_read_flag ids is_read s = record s {
  messages =
      update_where (λ m. mem_str m.ews_id ids)
        (λ m. record m { mirror = record m.mirror { is_read = is_read } }) s.messages;
}

unfoldable pub set_flag_status : List (String × Option ℕ) → Store → Store
set_flag_status [] s = s
set_flag_status ((i, status) ∷ pairs) s = set_flag_status pairs (record s {
  messages =
      update_where (has_id i) (λ m. record m { mirror = record m.mirror { flag_status = status } })
        s.messages;
})

unfoldable pub delete_live_messages_in_folder : String → Store → Store × ℕ
unfolding delete_messages
delete_live_messages_in_folder folder_id s =
    let doomed : Message → Bool =
      λ m. str_eq m.folder_id folder_id && in_state ArchiveState.live m in
    (delete_messages doomed s, count doomed s.messages)
