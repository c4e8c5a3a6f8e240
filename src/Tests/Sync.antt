-- ===== src/Tests/Sync.antt =====
-- The sync engine on small inputs.
use exchange_mcp.Prelude.{◌≡◌, refl, String, true, false, none, some, List, [], ◌∷◌}
use exchange_mcp.Prelude.Int.{pos}
use exchange_mcp.Sync.Items.{Item, Outside, Fetched}
use exchange_mcp.Sync.Folder.{Change, empty, folder_writes}
use exchange_mcp.Sync.Folder.Requests.{
  gather, upserted, dropped, flagged, asked, asks_upsert, asks_delete, asks_flag,
}
use exchange_mcp.Sync.Folder.Batches.{folder_writes-Delta}
use exchange_mcp.Sync.Hierarchy.{Engine, Forest, Node}
use exchange_mcp.Sync.Engine.{Answers, run}
use exchange_mcp.Sync.Engine.Archived.{Archived, run-Archived}
use exchange_mcp.Tests.Data.{live_row, captured_row, sha_a}

abbrev item : String → Item
item i = record {
  id = i;
  changekey = none;
  sender = none;
  subject = some "s";
  text_body = none;
  received = none;
  conversation_id = none;
  message_id = none;
  is_read = some (some true);
  has_attachments = none;
  importance = none;
  categories = none;
  to_recipients = none;
  attachments = none;
  item_class = none;
  flag_status = some 2;
}

abbrev outside : Outside
outside = record {
  clean = λ s. some s;
  dump_texts = λ ts. "[]";
  dump_attachments = λ ds. "[]";
  fetch = λ is. some (Fetched.got (some "body") none none none ∷ []);
}

abbrev changes : List Change
changes =
    Change.created (item "n1")
    ∷ Change.deleted "m1"
    ∷ Change.read_flag "m2" false
    ∷ Change.updated (item "")
    ∷ Change.ignored
    ∷ []

abbrev engine : Engine
engine = record {
  store = record {
    messages = captured_row "m1" 100 ∷ live_row "m2" 200 ∷ [];
    attachments = [];
    chunks = [];
  };
  folder_rows = [];
  states = [];
  mirrored = [];
}

abbrev inbox : Node
inbox = record {
  id = some "f1";
  name = some "Inbox";
  folder_class = some "IPF.Note";
  is_messages = true;
  known = some "f:inbox";
  total = 2;
  unread = 0;
}

abbrev answers : Answers
answers = record {
  now = pos 50;
  hierarchy_due = true;
  tree = some (Forest.branch inbox Forest.leaf Forest.leaf);
  fetch_flags = λ is. some (some (some 1) ∷ []);
  outside = outside;
  deltas = λ f t. record { changes = changes; new_token = some "t1"; fault = some 1 };
}

folder_writes-Delta_example :
    (gather upserted (folder_writes outside "f1" (pos 50) changes empty)
      ≡ asked asks_upsert changes)
    × (gather dropped (folder_writes outside "f1" (pos 50) changes empty)
        ≡ asked asks_delete changes)
    × (gather flagged (folder_writes outside "f1" (pos 50) changes empty) ≡ asked asks_flag changes)
folder_writes-Delta_example = folder_writes-Delta outside "f1" (pos 50) changes

run-Archived_example : Archived "m1" (some sha_a) (run [] (answers ∷ answers ∷ []) engine).store
run-Archived_example =
    run-Archived "m1" (some sha_a) [] (answers ∷ answers ∷ []) engine
      (captured_row "m1" 100, refl, (λ e. cc), refl)
