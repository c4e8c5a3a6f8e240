-- ===== src/Tests/Data.antt =====
-- Rows and stores that the tests share.
use exchange_mcp.Prelude.{ℕ, String, true, false, none, some, List, []}
use exchange_mcp.Prelude.Int.{pos}
use exchange_mcp.Store.Rows.{ArchiveState, Mirror, Message, Store}

abbrev pub sha_a : String
sha_a = "aaaaaaaaaaaaaaaaaaaaaaaaaaaaaaaaaaaaaaaaaaaaaaaaaaaaaaaaaaaaaaaa"

abbrev pub sha_b : String
sha_b = "bbbbbbbbbbbbbbbbbbbbbbbbbbbbbbbbbbbbbbbbbbbbbbbbbbbbbbbbbbbbbbbb"

abbrev pub mirror_at : ℕ → Mirror
mirror_at date = record {
  changekey = some "ck1";
  folder_id = "inbox-id";
  conversation_id = none;
  sender_name = "Ann";
  sender_email = "ann@example.org";
  to_json = "[]";
  subject = "hello";
  date_ts = some (pos date);
  date_iso = none;
  is_read = true;
  has_attachments = false;
  importance = none;
  categories = [];
  body_clean = "hi";
  internet_message_id = none;
  item_class = none;
  attachments_json = none;
  flag_status = none;
}

abbrev pub live_row : String → ℕ → Message
live_row i date = record {
  ews_id = i;
  mirror = mirror_at date;
  archive_state = ArchiveState.live;
  archived_at = none;
  verified_at = none;
  deleted_at = none;
  mime_sha256 = none;
  mime_path = none;
  captured_changekey = none;
  embedded_at = none;
}

abbrev pub captured_row : String → ℕ → Message
captured_row i date = record (live_row i date) {
  archive_state = ArchiveState.captured;
  archived_at = some (pos 1000);
  mime_sha256 = some sha_a;
  mime_path = some "mime/a.eml";
  captured_changekey = some "ck1";
}

abbrev pub verified_row : String → ℕ → Message
verified_row i date = record (captured_row i date) {
  archive_state = ArchiveState.verified;
  verified_at = some (pos 2000);
}

abbrev pub store_of : List Message → Store
store_of rows = record { messages = rows; attachments = []; chunks = [] }
