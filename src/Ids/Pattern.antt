-- ===== src/Ids/Pattern.antt =====
-- ewsmcp/ids.py: the shape of an alias, and its kinds.
use exchange_mcp.Prelude.{ℕ, Bool, true, false, ◌&&◌, ◌||◌, List, [], ◌∷◌, if◌then◌else◌, leb, ◌==◌}
use exchange_mcp.Text.{Text, codes, lower, same_text}
use exchange_mcp.Text.Decimal.{is_digit}

abbrev pub is_letter : ℕ → Bool
is_letter c = leb b'a' c && leb c b'z'

-- `$` matches before a newline that ends the text, too.
abbrev pub ends : Text → Bool
ends [] = true
ends (c ∷ []) = c == 10
ends (c ∷ d ∷ s) = false

-- `[0-9]+$`, once a digit is seen or not.
abbrev pub digits_end : Bool → Text → Bool
digits_end seen [] = seen
digits_end seen (c ∷ s) =
    let rest = digits_end true s in if is_digit c then rest else seen && ends (c ∷ s)

abbrev pub second_letter : Text → Bool
second_letter [] = false
second_letter (c ∷ s) = is_letter c && digits_end false s

-- _ALIAS_RE
unfoldable pub is_alias : Text → Bool
is_alias [] = false
is_alias (c ∷ s) = is_letter c && (digits_end false s || second_letter s)

abbrev pub kind_rest : Text → Bool
kind_rest [] = true
kind_rest (c ∷ s) = ends (c ∷ s) || (is_letter c && ends s)

-- _KIND_RE
unfoldable pub is_kind : Text → Bool
is_kind [] = false
is_kind (c ∷ s) = is_letter c && kind_rest s

abbrev pub kind_of_key : Text → List (Text × Text) → Text
kind_of_key key [] = codes "x"
kind_of_key key ((k, v) ∷ rest) =
    let later = kind_of_key key rest in if same_text k key then v else later

-- `kind_for_key`, with _KIND_BY_KEY
unfoldable pub kind_for_key : Text → Text
kind_for_key key = kind_of_key (lower key) (
    (codes "message_id", codes "m")
    ∷ (codes "email_id", codes "m")
    ∷ (codes "draft_id", codes "d")
    ∷ (codes "event_id", codes "e")
    ∷ (codes "appointment_id", codes "e")
    ∷ (codes "task_id", codes "k")
    ∷ (codes "contact_id", codes "c")
    ∷ (codes "attachment_id", codes "a")
    ∷ (codes "conversation_id", codes "t")
    ∷ (codes "thread_id", codes "t")
    ∷ (codes "folder_id", codes "f")
    ∷ [])
