-- ===== src/Archive/Capture.antt =====
-- ewsmcp/archive/capture.py: one batch of live rows is captured. Exceptions of the gateway, the
-- disk and the database are inputs (`Environment`); `others` is what other processes did to the
-- store before a row was marked. `tmp` names a temporary file by the address it is for.
pub mod Batch
pub mod Counts
pub mod Whole
use exchange_mcp.Prelude.{
  ℕ, String, Bool, true, false, Option, none, some, List, [], ◌∷◌, if◌then◌else◌, str_eq, length,
  ◌==◌,
}
use exchange_mcp.Prelude.Int.{ℤ}
use exchange_mcp.Text.{Text}
use exchange_mcp.Store.Rows.{Attachment, Store}
use exchange_mcp.Store.Archive.{mark_captured, reset_to_live, replace_attachments}
use exchange_mcp.Archive.Blobs.{Directory, Disk, store_bytes}

-- An exchangelib attachment: a file, whose `content` may fail to be bytes, or a nested item.
pub data Part : Type 0 where
  file : Option String → Option String → Option Text → Bool → Part
  nested : Option String → Option ℕ → Bool → Part

pub record Item : Type 0 where
  pub size : Option ℕ
  pub mime_content : Option Text
  pub changekey : Option String
  pub parts : List Part

pub data Fetched : Type 0 where
  missing : String → Fetched
  item : Item → Fetched

pub record Environment : Type 0 where
  pub now : ℤ
  pub sha256 : Text → String
  pub disk : Text → Disk
  pub tmp : String → String
  pub mime_path : String → String
  pub gateway : Option (List Fetched)
  pub others : String → Store → Store
  pub mark_down : String → Bool
  pub inventory_down : String → Bool
  pub reset_down : String → Bool

pub record World : Type 0 where
  pub store : Store
  pub mimes : Directory
  pub blobs : Directory

-- `getattr(att, "name", None) or "attachment"`
abbrev pub part_name : Option String → String
part_name none = "attachment"
part_name (some name) = if str_eq name "" then "attachment" else name

abbrev pub add_part :
    Attachment → Option (List Attachment) × World → Option (List Attachment) × World
add_part att (none, w) = (none, w)
add_part att (some atts, w) = (some (att ∷ atts), w)

abbrev pub store_blob : Environment → Text → World → Option String × World
store_blob env bytes w =
    let (sha, blobs) =
      store_bytes env.sha256 (env.disk bytes) (env.tmp (env.sha256 bytes)) bytes w.blobs in
    (sha, record w { blobs = blobs })

abbrev pub store_mime : Environment → Text → World → Option String × World
store_mime env bytes w =
    let (sha, mimes) =
      store_bytes env.sha256 (env.disk bytes) (env.tmp (env.sha256 bytes)) bytes w.mimes in
    (sha, record w { mimes = mimes })

abbrev pub if_stored :
    (World → Option (List Attachment) × World)
    → (String → Attachment)
    → Option String × World
    → Option (List Attachment) × World
if_stored next att (none, w) = (none, w)
if_stored next att (some sha, w) = add_part (att sha) (next w)

-- The loop over `item.attachments`; `none`: a part without bytes, or a disk that fails.
unfoldable pub store_parts :
    Environment → String → List Part → World → Option (List Attachment) × World
unfolding store_bytes
store_parts env raw_id [] w = (some [], w)
store_parts env raw_id (file name content_type none inline ∷ parts) w = (none, w)
store_parts env raw_id (file name content_type (some content) inline ∷ parts) w =
    if_stored (λ w'. store_parts env raw_id parts w')
      (λ sha. record {
        message_ews_id = raw_id;
        name = part_name name;
        content_type = content_type;
        size = some (length content);
        sha256 = some sha;
        is_inline = inline;
      })
      (store_blob env content w)
store_parts env raw_id (nested name size inline ∷ parts) w =
    add_part
      (record {
        message_ews_id = raw_id;
        name = part_name name;
        content_type = some "message/rfc822";
        size = size;
        sha256 = none;
        is_inline = inline;
      })
      (store_parts env raw_id parts w)

-- After `mark_captured`: the inventory is written, or the capture is undone.
abbrev pub write_inventory : Environment → String → List Attachment → World → Bool × World
write_inventory env raw_id atts w =
    if env.inventory_down raw_id
    then (
      false,
      record w {
        store = if env.reset_down raw_id then w.store else (reset_to_live raw_id w.store).0;
      },
    )
    else (true, record w { store = replace_attachments raw_id atts w.store })

abbrev pub mark_and_write :
    Environment → String → String → Option String → List Attachment → World → Bool × World
mark_and_write env raw_id sha changekey atts w =
    let (s, changed) =
      mark_captured env.now raw_id sha (env.mime_path sha) changekey (env.others raw_id w.store) in
    if env.mark_down raw_id
    then (false, record w { store = env.others raw_id w.store })
    else if changed == 0
    then (false, record w { store = s })
    else write_inventory env raw_id atts (record w { store = s })

abbrev pub mark_parts :
    Environment → String → String → Option String → Option (List Attachment) × World → Bool × World
mark_parts env raw_id sha changekey (none, w) = (false, w)
mark_parts env raw_id sha changekey (some atts, w) = mark_and_write env raw_id sha changekey atts w

abbrev pub capture_mime : Environment → String → Item → Option String × World → Bool × World
capture_mime env raw_id it (none, w) = (false, w)
capture_mime env raw_id it (some sha, w) =
    mark_parts env raw_id sha it.changekey (store_parts env raw_id it.parts w)

abbrev pub capture_bytes : Environment → String → Item → Option Text → World → Bool × World
capture_bytes env raw_id it none w = (false, w)
capture_bytes env raw_id it (some mime) w = capture_mime env raw_id it (store_mime env mime w)

-- `_capture_one`; `false`: it raises.
unfoldable pub capture_one : Environment → String → Item → World → Bool × World
unfolding store_parts store_bytes mark_captured reset_to_live replace_attachments
capture_one env raw_id it w = capture_bytes env raw_id it it.mime_content w
