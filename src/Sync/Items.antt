-- ===== src/Sync/Items.antt =====
-- ewsmcp/cache/sync.py: what becomes of an item of Exchange. `clean_body`, `json.dumps` and the bulk
-- GetItem are parameters; a time is its timestamp, with the text that `fmt_dt` makes of it.
use exchange_mcp.Prelude.{
  ℕ, zero, suc, String, Bool, true, false, Option, none, some, List, [], ◌∷◌, ◌++◌, if◌then◌else◌,
  str_eq, take, drop, length, map, ◌==◌, ◌||◌,
}
use exchange_mcp.Prelude.Int.{ℤ}
use exchange_mcp.Store.Rows.{Mirror}

-- An attachment; only a FileAttachment has a content type.
pub record Attached : Type 0 where
  pub name : Option String
  pub size : Option ℕ
  pub is_file : Bool
  pub content_type : Option String
  pub is_inline : Option Bool

-- An entry of `attachments_json`.
pub record Described : Type 0 where
  pub name : String
  pub size : Option ℕ
  pub content_type : Option String
  pub inline : Bool

pub record Item : Type 0 where
  pub id : String
  pub changekey : Option String
  pub sender : Option (Option String × Option String)
  pub subject : Option String
  pub text_body : Option String
  pub received : Option (ℤ × String)
  pub conversation_id : Option String
  pub message_id : Option String
  pub is_read : Option (Option Bool)
  pub has_attachments : Option Bool
  pub importance : Option String
  pub categories : Option (List String)
  pub to_recipients : Option (List (Option String))
  pub attachments : Option (List Attached)
  pub item_class : Option String
  pub flag_status : Option ℕ

abbrev pub empty_text : String → Bool
empty_text s = str_eq s ""

-- `x or ""`, and `x or None`
abbrev pub text_or : Option String → String → String
text_or none d = d
text_or (some s) d = if empty_text s then d else s

abbrev pub or_none : Option String → Option String
or_none none = none
or_none (some s) = if empty_text s then none else some s

abbrev pub truth : Option Bool → Bool
truth none = false
truth (some b) = b

-- `getattr(item, "is_read", True)`: an item without the attribute counts as read, one that has None
-- there as unread.
abbrev pub read_or : Option (Option Bool) → Bool
read_or none = true
read_or (some b) = truth b

abbrev pub list_or {ℓ} : {A : Type ℓ} → Option (List A) → List A
list_or none = []
list_or (some xs) = xs

-- `text[:n]`
abbrev pub take_chars : ℕ → String → String
take_chars zero s = String.[]
take_chars (suc n) String.[] = String.[]
take_chars (suc n) (String.◌∷◌ c s) = String.◌∷◌ c (take_chars n s)

abbrev pub describe : Attached → Described
describe a = record {
  name = text_or a.name "attachment";
  size = a.size;
  content_type = if a.is_file then a.content_type else some "message/rfc822";
  inline = truth a.is_inline;
}

abbrev pub addressed : List (Option String) → List String
addressed [] = []
addressed (none ∷ rest) = addressed rest
addressed (some s ∷ rest) = if empty_text s then addressed rest else s ∷ addressed rest

-- `flag_status_of`
unfoldable pub flag_status_of : Option ℕ → Option ℕ
flag_status_of none = none
flag_status_of (some n) = if n == 1 || n == 2 then some n else none

abbrev pub sender_name : Option (Option String × Option String) → String
sender_name none = ""
sender_name (some s) = text_or s.0 ""

abbrev pub sender_email : Option (Option String × Option String) → String
sender_email none = ""
sender_email (some s) = text_or s.1 ""

-- What the bulk GetItem brings for one item, or an exception.
pub data Fetched : Type 0 where
  failed : Fetched
  got :
      Option String
      → Option (List (Option String))
      → Option String
      → Option (List Attached)
      → Fetched

-- `clean` has no answer where `clean_body` raises; `fetch` has none where the whole call does.
pub record Outside : Type 0 where
  pub clean : String → Option String
  pub dump_texts : List String → String
  pub dump_attachments : List Described → String
  pub fetch : List Item → Option (List Fetched)

abbrev pub body_or : String → Option String → String
body_or text none = take_chars 20000 text
body_or text (some clean) = clean

abbrev pub body_clean : Outside → String → String
body_clean o text = if empty_text text then "" else body_or text (o.clean text)

abbrev pub time_of : Option (ℤ × String) → Option ℤ
time_of none = none
time_of (some t) = some t.0

abbrev pub iso_of : Option (ℤ × String) → Option String
iso_of none = none
iso_of (some t) = some t.1

-- `row_from_message`, with `recipients_json` and `attachments_json`
unfoldable pub row_from_message : Outside → String → Item → String × Mirror
unfolding flag_status_of
row_from_message o folder_id item = (
  item.id,
  record {
    changekey = item.changekey;
    folder_id = folder_id;
    conversation_id = item.conversation_id;
    sender_name = sender_name item.sender;
    sender_email = sender_email item.sender;
    to_json = o.dump_texts (addressed (list_or item.to_recipients));
    subject = text_or item.subject "";
    date_ts = time_of item.received;
    date_iso = iso_of item.received;
    is_read = read_or item.is_read;
    has_attachments = truth item.has_attachments;
    importance = or_none item.importance;
    categories = list_or item.categories;
    body_clean = body_clean o (text_or item.text_body "");
    internet_message_id = item.message_id;
    item_class = or_none item.item_class;
    attachments_json = some (o.dump_attachments (map describe (list_or item.attachments)));
    flag_status = flag_status_of item.flag_status;
  },
)

-- What is fetched, or what the item had.
abbrev pub fetched_or {ℓ} : {A : Type ℓ} → Option A → Option A → Option A
fetched_or none old = old
fetched_or (some x) old = some x

abbrev pub fill : Item → Fetched → Item
fill item failed = item
fill item (got text to ic atts) = record item {
  text_body = fetched_or text item.text_body;
  to_recipients = fetched_or to item.to_recipients;
  item_class = fetched_or ic item.item_class;
  attachments = fetched_or atts item.attachments;
}

-- `zip(batch, fetched)`
unfoldable pub fill_all : List Item → List Fetched → List Item
fill_all [] fs = []
fill_all (i ∷ is) [] = i ∷ is
fill_all (i ∷ is) (f ∷ fs) = fill i f ∷ fill_all is fs

abbrev pub fill_batch : List Item → Option (List Fetched) → List Item
fill_batch batch none = batch
fill_batch batch (some fs) = fill_all batch fs

-- `hydrate_bodies`, in chunks of BODY_FETCH_CHUNK; there are no more chunks than items.
unfoldable pub hydrate_chunks : Outside → ℕ → List Item → List Item
unfolding fill_all
hydrate_chunks o zero items = items
hydrate_chunks o (suc fuel) items =
    fill_batch (take 100 items) (o.fetch (take 100 items)) ++ hydrate_chunks o fuel (drop 100 items)

unfoldable pub hydrate_bodies : Outside → List Item → List Item
unfolding hydrate_chunks
hydrate_bodies o items = hydrate_chunks o (length items) items
