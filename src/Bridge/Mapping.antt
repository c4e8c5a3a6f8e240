-- ===== src/Bridge/Mapping.antt =====
-- ewsmcp/bridge/mapping.py: rows of `ews.messages` as the chats and messages of the contract. A
-- column that is NULL or absent is `none`. `json.loads` is a parameter, and so are `str.strip` and
-- `str.lower`, whose tables are Unicode's.
pub mod Members
use exchange_mcp.Prelude.{
  ℕ, Bool, true, false, not, ◌&&◌, ◌||◌, Option, none, some, List, [], ◌∷◌, ◌++◌, length, map,
  if◌then◌else◌, ltb, ◌==◌,
}
use exchange_mcp.Text.{Text, codes, same_text, mem_text, starts_with}

-- `json.loads`: not JSON, no list, or the list's entries.
pub data Entry : Type 0 where
  address : Text → Entry
  person : Option Text → Option Text → Entry
  other : Entry

pub data Parsed : Type 0 where
  unreadable no_list : Parsed
  entries : List Entry → Parsed

pub record Recipient : Type 0 where
  pub name : Option Text
  pub email : Option Text

pub record Row : Type 0 where
  pub native_id : Text
  pub subject : Option Text
  pub sender_email : Option Text
  pub to_json : Option Text

abbrev pub filled : Option Text → Bool
filled none = false
filled (some []) = false
filled (some (c ∷ s)) = true

abbrev pub text_or : Option Text → Text → Text
text_or none s = s
text_or (some []) s = s
text_or (some (c ∷ t)) s = c ∷ t

abbrev pub or_none : Option Text → Option Text
or_none none = none
or_none (some []) = none
or_none (some (c ∷ s)) = some (c ∷ s)

pub data Meeting : Type 0 where
  invitation accepted declined tentative cancellation forwarded : Meeting
  other_class : Text → Meeting

-- `_MEETING_CLASSES.get`
abbrev pub known_class : Text → Option Meeting
known_class s =
    if same_text s (codes "IPM.Schedule.Meeting.Request")
    then some invitation
    else if same_text s (codes "IPM.Schedule.Meeting.Resp.Pos")
    then some accepted
    else if same_text s (codes "IPM.Schedule.Meeting.Resp.Neg")
    then some declined
    else if same_text s (codes "IPM.Schedule.Meeting.Resp.Tent")
    then some tentative
    else if same_text s (codes "IPM.Schedule.Meeting.Canceled")
    then some cancellation
    else if same_text s (codes "IPM.Schedule.Meeting.Notification.Forward")
    then some forwarded
    else none

abbrev pub or_other : Text → Option Meeting → Meeting
or_other s none = other_class s
or_other s (some m) = m

-- `_meeting`
unfoldable pub meeting : Option Text → Option Meeting
meeting none = none
meeting (some item_class) =
    if starts_with (codes "IPM.Schedule.Meeting") item_class
    then some (or_other item_class (known_class item_class))
    else none

-- `conversation_id or ews_id`
unfoldable pub chat_native_id : Option Text → Text → Text
chat_native_id conversation_id ews_id = text_or conversation_id ews_id

-- `partition("@")`: the text before the first sign, if there is one, and the text behind it.
unfoldable pub partition_at : Text → Option (Text × Text)
partition_at [] = none
partition_at (c ∷ s) = if c == b'@' then some ([], s) else before (partition_at s)
  where
    before : Option (Text × Text) → Option (Text × Text)
    before none = none
    before (some (l, r)) = some (c ∷ l, r)

pub record Convo : Type 0 where
  pub native_id : Text
  pub name : Option Text
  pub members : List Text

-- `set.add`, for each of the texts.
unfoldable pub add_members : List Text → List Text → List Text
add_members [] members = members
add_members (x ∷ xs) members = add_members xs (if mem_text x members then members else x ∷ members)

pub record Chat : Type 0 where
  pub native_id : Text
  pub group : Bool
  pub name : Option Text
  pub member_count : ℕ

abbrev pub chat_of : Convo → Chat
chat_of c = record {
  native_id = c.native_id;
  group = ltb 2 (length c.members);
  name = c.name;
  member_count = length c.members;
}

module _ (strip lower : Text → Text) (loads : Text → Parsed) where
  -- `identity`: the value behind `email:`.
  unfoldable pub identity : Option Text → Option Text
  unfolding partition_at
  identity email =
      let value = lower (strip (text_or email [])) in
      elim (partition_at value) [
        | none ↦ none
        | some (local, domain) ↦
            if filled (some local) && filled (some domain)
            then some (codes "email:" ++ value)
            else none
      ]

  abbrev pub entry_recipient : Entry → List Recipient → List Recipient
  entry_recipient (address s) rest =
      if filled (some (strip s))
      then record { name = none; email = some (strip s) } ∷ rest
      else rest
  entry_recipient (person name email) rest =
      if filled email || filled name then record { name = name; email = email } ∷ rest else rest
  entry_recipient other rest = rest

  unfoldable pub recipients_of : List Entry → List Recipient
  recipients_of [] = []
  recipients_of (e ∷ es) = entry_recipient e (recipients_of es)

  abbrev pub parsed_recipients : Parsed → List Recipient
  parsed_recipients unreadable = []
  parsed_recipients no_list = []
  parsed_recipients (entries es) = recipients_of es

  -- `recipients`
  unfoldable pub recipients : Option Text → List Recipient
  unfolding recipients_of
  recipients none = []
  recipients (some []) = []
  recipients (some (c ∷ s)) = parsed_recipients (loads (c ∷ s))

  abbrev pub sender_of : Option Text → List Text
  sender_of none = []
  sender_of (some s) = if filled (some (strip s)) then lower (strip s) ∷ [] else []

  abbrev pub email_of : Option Text → List Text
  email_of none = []
  email_of (some []) = []
  email_of (some (c ∷ s)) = lower (strip (c ∷ s)) ∷ []

  abbrev pub emails_of : List Recipient → List Text
  emails_of [] = []
  emails_of (r ∷ rs) = email_of r.email ++ emails_of rs

  -- The addresses that one row adds to its conversation.
  unfoldable pub addresses : Row → List Text
  unfolding recipients
  addresses row = sender_of row.sender_email ++ emails_of (recipients row.to_json)

  -- One row, into the conversation of its id or a new one at the end.
  unfoldable pub add_row : Row → List Convo → List Convo
  unfolding addresses add_members
  add_row row [] =
      record {
        native_id = row.native_id;
        name = or_none row.subject;
        members = add_members (addresses row) [];
      }
      ∷ []
  add_row row (c ∷ cs) =
      let rest = add_row row cs in
      if same_text c.native_id row.native_id
      then record c { members = add_members (addresses row) c.members } ∷ cs
      else c ∷ rest

  unfoldable pub fold_rows : List Row → List Convo → List Convo
  unfolding add_row
  fold_rows [] cs = cs
  fold_rows (row ∷ rows) cs = fold_rows rows (add_row row cs)

  -- `chats_from_rows`
  unfoldable pub chats_from_rows : List Row → List Chat
  unfolding fold_rows
  chats_from_rows rows = map chat_of (fold_rows rows [])

  -- `_text`; the Boolean: the row is a meeting item.
  unfoldable pub text : Option Text → Option Text → Bool → Text
  text body_clean subject false = text_or body_clean (text_or subject [])
  text body_clean subject true =
      let body = strip (text_or body_clean []) in
      let title = strip (text_or subject []) in
      if not (filled (some body))
      then title
      else if not (filled (some title)) || starts_with title body
      then body
      else title ++ (10 ∷ 10 ∷ body)
