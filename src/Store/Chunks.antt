-- ===== src/Store/Chunks.antt =====
-- ewsmcp/cache/store.py, the chunks of a message and its place on the embedding backlog.
pub mod Clean
pub mod Backlog
pub mod Repaired
use exchange_mcp.Prelude.{
  ℕ, suc, String, Bool, true, false, not, ◌&&◌, ◌||◌, Option, none, some, List, [], ◌∷◌, ◌++◌, map,
  if◌then◌else◌, str_eq, mem_str, take, count, select, is_some,
}
use exchange_mcp.Prelude.Int.{ℤ, leb_ℤ}
use exchange_mcp.Store.Rows.{
  ArchiveState, Message, Chunk, Store, has_id, in_state, update_where, delete_where, find_row,
}

abbrev pub unembedded : Message → Bool
unembedded m = not (is_some m.embedded_at)

-- ORDER BY date_ts DESC NULLS LAST
unfoldable pub insert_latest : Message → List Message → List Message
insert_latest m [] = m ∷ []
insert_latest m (x ∷ xs) =
    let rest = insert_latest m xs in if newer m.date_ts x.date_ts then m ∷ x ∷ xs else x ∷ rest
  where
    newer : Option ℤ → Option ℤ → Bool
    newer (some a) (some b) = leb_ℤ b a
    newer none (some b) = false
    newer a none = true

unfoldable pub latest_first : List Message → List Message
unfolding insert_latest
latest_first [] = []
latest_first (m ∷ ms) = insert_latest m (latest_first ms)

unfoldable pub unembedded_messages : ℕ → Store → List Message
unfolding latest_first
unembedded_messages limit s = take limit (latest_first (select unembedded s.messages))

-- Rows still on Exchange with no body, no recipients or no class.
abbrev pub blank : Message → Bool
blank m = str_eq m.body_clean "" || str_eq m.to_json "[]" || not (is_some m.item_class)

unfoldable pub messages_missing_body : ℕ → Store → List (String × Option String)
unfolding latest_first
messages_missing_body limit s =
    map (λ m. (m.ews_id, m.changekey))
      (take limit
        (latest_first (select (λ m. blank m && not (in_state ArchiveState.deleted m)) s.messages)))

abbrev pub of_message : String → Chunk → Bool
of_message i c = str_eq c.message_ews_id i

-- DELETE the chunks of one message, INSERT `chunks`, and stamp the row.
unfoldable pub replace_chunks : ℤ → String → List Chunk → Store → Store
replace_chunks now i chunks s = record s {
  chunks =
      delete_where (of_message i) s.chunks
      ++ map (λ (c : Chunk). record c { message_ews_id = i }) chunks;
  messages = update_where (has_id i) (λ m. record m { embedded_at = some now }) s.messages;
}

-- What one id of `update_bodies` is given; a body only if the id is a key of `bodies`.
pub record Repair : Type 0 where
  pub ews_id : String
  pub body : Option String
  pub to : Option String
  pub item_class : Option String
  pub attachments_json : Option String

abbrev pub coalesce {ℓ} : {A : Type ℓ} → Option A → Option A → Option A
coalesce none old = old
coalesce (some a) old = some a

abbrev pub coalesce_text : Option String → String → String
coalesce_text none old = old
coalesce_text (some a) old = a

-- CASE WHEN body_clean IS DISTINCT FROM body THEN NULL ELSE embedded_at END
abbrev pub restamp : Option String → String → Option ℤ → Option ℤ
restamp none old stamp = stamp
restamp (some body) old stamp = if str_eq old body then stamp else none

abbrev pub repair_row : Repair → Message → Message
repair_row r m = record m {
  embedded_at = restamp r.body m.body_clean m.embedded_at;
  mirror = record m.mirror {
    body_clean = coalesce_text r.body m.body_clean;
    to_json = coalesce_text r.to m.to_json;
    item_class = coalesce r.item_class m.item_class;
    attachments_json = coalesce r.attachments_json m.attachments_json;
  };
}

-- RETURNING (embedded_at IS NULL), FALSE for an id without a body; the key has one row at most.
unfoldable pub requeues : Repair → List Message → Bool
requeues r [] = false
requeues r (m ∷ ms) =
    (has_id r.ews_id m && (is_some r.body && unembedded (repair_row r m))) || requeues r ms

-- The rows updated, the ids requeued, and the store.
pub record Progress : Type 0 where
  pub updated : ℕ
  pub requeued : List String
  pub store : Store

-- No row is returned: neither is counted.
abbrev pub note_row : String → Bool → Bool → Progress → Progress
note_row i found requeued p = record p {
  updated = if found then suc p.updated else p.updated;
  requeued = if requeued then i ∷ p.requeued else p.requeued;
}

unfoldable pub repair_rows : List Repair → Store → Progress
unfolding requeues
repair_rows [] s = record { updated = 0; requeued = []; store = s }
repair_rows (r ∷ rs) s =
    note_row r.ews_id (is_some (find_row r.ews_id s.messages)) (requeues r s.messages) (
      repair_rows rs
        (record s { messages = update_where (has_id r.ews_id) (repair_row r) s.messages }))

-- `update_bodies`, given the union of the ids of its three arguments, each once.
unfoldable pub update_bodies : List Repair → Store → Store × ℕ
unfolding repair_rows
update_bodies repairs s =
    let p = repair_rows repairs s in
    let t = p.store in
    (
      record t { chunks = delete_where (λ c. mem_str c.message_ews_id p.requeued) t.chunks },
      p.updated,
    )

unfoldable pub mark_embedded : ℤ → List String → Store → Store
mark_embedded now ids s = record s {
  messages =
      update_where (λ m. mem_str m.ews_id ids) (λ m. record m { embedded_at = some now })
        s.messages;
}

unfoldable pub embedding_backlog : Store → ℕ
embedding_backlog s = count unembedded s.messages

unfoldable pub embedded_count : Store → ℕ
embedded_count s = count (λ m. is_some m.embedded_at) s.messages
