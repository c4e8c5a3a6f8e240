-- ===== src/Store/Archive.antt =====
-- ewsmcp/cache/store.py, the archive state of a row: live → captured → verified → deleted.
use exchange_mcp.Prelude.{
  ℕ, String, Bool, true, false, not, ◌&&◌, ◌||◌, Option, none, some, List, [], ◌∷◌, if◌then◌else◌,
  str_eq, mem_str, take, count, select, ◌==◌, ◌++◌,
}
use exchange_mcp.Prelude.Int.{ℤ, leb_ℤ}
use exchange_mcp.Store.Rows.{
  live, captured, verified, deleted, Message, Attachment, Store, has_id, in_state, update_where,
  delete_where, order_by,
}
use exchange_mcp.Store.Mirror.{delete_messages}

-- UPDATE ews.messages SET f WHERE p, with the cursor's rowcount.
abbrev pub update_messages : (Message → Bool) → (Message → Message) → Store → Store × ℕ
update_messages p f s = (record s { messages = update_where p f s.messages }, count p s.messages)

abbrev pub dated_by : ℤ → Option ℤ → Bool
dated_by before none = false
dated_by before (some t) = leb_ℤ t before

-- What `_candidate_params` hands to the query.
pub record Selection : Type 0 where
  pub folder_ids : Option (List String)
  pub before_ts : ℤ
  pub exclude_categories : List String
  pub exclude_ids : List String

abbrev pub in_folders : Option (List String) → String → Bool
in_folders none folder_id = true
in_folders (some ids) folder_id = mem_str folder_id ids

-- `strip().lower()` and `lower(btrim(…))` of a category.
module _ (fold_category : String → String) where
  unfoldable pub excluded : List String → List String → Bool
  excluded [] names = false
  excluded (c ∷ cs) names = mem_str (fold_category c) names || excluded cs names

  abbrev pub candidate : Selection → Message → Bool
  candidate sel m =
      in_state live m
      && dated_by sel.before_ts m.date_ts
      && in_folders sel.folder_ids m.folder_id
      && not (excluded m.categories sel.exclude_categories)
      && not (mem_str m.ews_id sel.exclude_ids)

  unfoldable pub archive_candidates : Selection → ℕ → Store → List Message
  unfolding order_by
  archive_candidates sel limit s =
      take limit (order_by (λ m. m.date_ts) (select (candidate sel) s.messages))

  unfoldable pub archive_candidate_count : Selection → Store → ℕ
  archive_candidate_count sel s = count (candidate sel) s.messages

unfoldable pub mark_captured : ℤ → String → String → String → Option String → Store → Store × ℕ
mark_captured now ews_id sha path changekey =
    update_messages (λ m. has_id ews_id m && in_state live m)
      λ m. record m {
        archive_state = captured;
        archived_at = some now;
        mime_sha256 = some sha;
        mime_path = some path;
        captured_changekey = changekey;
      }

unfoldable pub captured_rows : ℕ → Store → List Message
unfolding order_by
captured_rows limit s =
    take limit (order_by (λ m. m.archived_at) (select (in_state captured) s.messages))

unfoldable pub mark_verified : ℤ → String → Store → Store × ℕ
mark_verified now ews_id =
    update_messages (λ m. has_id ews_id m && in_state captured m)
      λ m. record m { archive_state = verified; verified_at = some now }

unfoldable pub demote_to_captured : String → Store → Store × ℕ
demote_to_captured ews_id =
    update_messages (λ m. has_id ews_id m && in_state verified m)
      λ m. record m { archive_state = captured; verified_at = none }

-- The capture is forgotten, with its attachment inventory if the row was captured.
unfoldable pub reset_to_live : String → Store → Store × ℕ
reset_to_live ews_id s =
    let (s', rowcount) =
      update_messages (λ m. has_id ews_id m && in_state captured m)
        (λ m. record m {
          archive_state = live;
          archived_at = none;
          verified_at = none;
          mime_sha256 = none;
          mime_path = none;
          captured_changekey = none;
        })
        s in
    (
      record s' {
        attachments =
            if rowcount == 0
            then s'.attachments
            else delete_where (λ a. str_eq a.message_ews_id ews_id) s'.attachments;
      },
      rowcount,
    )

-- Rail 3: verified, older than the cutoff, and verified long enough ago.
abbrev pub deletable : ℤ → ℤ → Message → Bool
deletable before verified_before m =
    in_state verified m && dated_by before m.date_ts && dated_by verified_before m.verified_at

unfoldable pub deletable_rows : ℤ → ℤ → ℕ → Store → List Message
unfolding order_by
deletable_rows before verified_before limit s =
    take limit (order_by (λ m. m.date_ts) (select (deletable before verified_before) s.messages))

unfoldable pub mark_deleted : ℤ → List String → Store → Store × ℕ
mark_deleted now ews_ids =
    update_messages (λ m. mem_str m.ews_id ews_ids && in_state verified m)
      λ m. record m { archive_state = deleted; deleted_at = some now }

-- A delete event from Exchange: an archived row is kept, a live one is dropped.
unfoldable pub apply_server_deletes : ℤ → List String → Store → Store × ℕ × ℕ
unfolding delete_messages
apply_server_deletes now ews_ids s =
    let (s', tombstoned) =
      update_messages
        (λ m. mem_str m.ews_id ews_ids && (in_state captured m || in_state verified m))
        (λ m. record m { archive_state = deleted; deleted_at = some now }) s in
    let dropped : Message → Bool = λ m. mem_str m.ews_id ews_ids && in_state live m in
    (delete_messages dropped s', count dropped s'.messages, tombstoned)

-- DELETE the inventory of one message, then INSERT `rows`.
unfoldable pub replace_attachments : String → List Attachment → Store → Store
replace_attachments ews_id rows s = record s {
  attachments = delete_where (λ a. str_eq a.message_ews_id ews_id) s.attachments ++ rows;
}

unfoldable pub attachments_for : String → Store → List Attachment
attachments_for ews_id s = select (λ a. str_eq a.message_ews_id ews_id) s.attachments
