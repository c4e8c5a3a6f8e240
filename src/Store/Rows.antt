-- ===== src/Store/Rows.antt =====
-- The rows of `ews.messages` and its child tables, and the generic forms of the statements that
-- ewsmcp/cache/store.py runs on them: UPDATE … WHERE, DELETE … WHERE, SELECT … ORDER BY … LIMIT.
use exchange_mcp.Prelude.{
  ℕ, String, ◌≡◌, refl, Bool, true, false, not, Option, none, some, List, [], ◌∷◌, if◌then◌else◌,
  str_eq, select, All, All-if,
}
use exchange_mcp.Prelude.Int.{ℤ, leb_ℤ}

pub data ArchiveState : Type 0 where
  live captured verified deleted : ArchiveState

abbrev pub state_eq : ArchiveState → ArchiveState → Bool
state_eq live live = true
state_eq captured captured = true
state_eq verified verified = true
state_eq deleted deleted = true
state_eq _ _ = false

-- The columns that `_UPSERT_MESSAGE` writes.
pub record Mirror : Type 0 where
  pub changekey : Option String
  pub folder_id : String
  pub conversation_id : Option String
  pub sender_name : String
  pub sender_email : String
  pub to_json : String
  pub subject : String
  pub date_ts : Option ℤ
  pub date_iso : Option String
  pub is_read : Bool
  pub has_attachments : Bool
  pub importance : Option String
  pub categories : List String
  pub body_clean : String
  pub internet_message_id : Option String
  pub item_class : Option String
  pub attachments_json : Option String
  pub flag_status : Option ℕ

-- A row of `ews.messages`: the key, the mirrored columns, and those that the archive owns.
pub record Message : Type 0 where
  pub ews_id : String
  pub mirror : Mirror
  pub open mirror use *
  pub archive_state : ArchiveState
  pub archived_at : Option ℤ
  pub verified_at : Option ℤ
  pub deleted_at : Option ℤ
  pub mime_sha256 : Option String
  pub mime_path : Option String
  pub captured_changekey : Option String
  pub embedded_at : Option ℤ

-- A row of `ews.attachments`.
pub record Attachment : Type 0 where
  pub message_ews_id : String
  pub name : String
  pub content_type : Option String
  pub size : Option ℕ
  pub sha256 : Option String
  pub is_inline : Bool

-- A row of `ews.chunks`; `embedding` is the text handed to the `::vector` cast.
pub record Chunk : Type 0 where
  pub message_ews_id : String
  pub seq : ℕ
  pub source : String
  pub text : String
  pub embedding : String

pub record Store : Type 0 where
  pub messages : List Message
  pub attachments : List Attachment
  pub chunks : List Chunk

abbrev pub has_id : String → Message → Bool
has_id i m = str_eq m.ews_id i

abbrev pub in_state : ArchiveState → Message → Bool
in_state s m = state_eq m.archive_state s

module _ {ℓ} {A : Type ℓ} where
  -- UPDATE … SET f WHERE p
  abbrev pub update_where : (A → Bool) → (A → A) → List A → List A
  update_where p f [] = []
  update_where p f (x ∷ xs) = (if p x then f x else x) ∷ update_where p f xs

  -- DELETE … WHERE p
  abbrev pub delete_where : (A → Bool) → List A → List A
  delete_where p xs = select (λ x. not (p x)) xs

  module _ {κ} (P : A → Type κ) where
    pub All-update_where :
        (p : A → Bool) (f : A → A)
        → ((x : A) → p x ≡ true → P x → P (f x))
        → (xs : List A) → All P xs
        → All P (update_where p f xs)
    All-update_where p f keep [] h = tt
    All-update_where p f keep (x ∷ xs) h = (one (p x) refl, All-update_where p f keep xs h.1)
      where
        one : (b : Bool) → p x ≡ b → P (if b then f x else x)
        one true e = keep x e h.0
        one false e = h.0

-- SELECT * WHERE ews_id = i
abbrev pub find_row : String → List Message → Option Message
find_row i [] = none
find_row i (m ∷ ms) = let rest = find_row i ms in if has_id i m then some m else rest

-- ORDER BY key ASC, with NULL last; rows with equal keys keep the table's order.
abbrev pub date_le : Option ℤ → Option ℤ → Bool
date_le (some a) (some b) = leb_ℤ a b
date_le none (some b) = false
date_le _ none = true

module _ (key : Message → Option ℤ) where
  unfoldable pub insert_by : Message → List Message → List Message
  insert_by m [] = m ∷ []
  insert_by m (x ∷ xs) =
      let rest = insert_by m xs in if date_le (key m) (key x) then m ∷ x ∷ xs else x ∷ rest

  unfoldable pub order_by : List Message → List Message
  unfolding insert_by
  order_by [] = []
  order_by (m ∷ ms) = insert_by m (order_by ms)

  module _ {κ} (P : Message → Type κ) where
    All-insert_by : (m : Message) (ms : List Message) → P m → All P ms → All P (insert_by m ms)
    unfolding insert_by
    All-insert_by m [] h hs = (h, tt)
    All-insert_by m (x ∷ xs) h hs =
        All-if P (date_le (key m) (key x)) _ _ (h, hs) (hs.0, All-insert_by m xs h hs.1)

    pub All-order_by : (ms : List Message) → All P ms → All P (order_by ms)
    unfolding order_by
    All-order_by [] h = tt
    All-order_by (m ∷ ms) h = All-insert_by m _ h.0 (All-order_by ms h.1)
