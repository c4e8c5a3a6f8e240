-- ===== src/Tools/Arguments.antt =====
-- ewsmcp/tools/base.py: the arguments of a call, their recipients and their ids. `matches` is
-- `fnmatch.fnmatch`.
pub mod Recipients
use exchange_mcp.Prelude.{
  String, Bool, true, false, not, ◌&&◌, ◌||◌, Option, none, some, List, [], ◌∷◌, ◌++◌, map,
  if◌then◌else◌, str_eq, select, ◌==◌,
}
use exchange_mcp.Text.{Text, lower, strip, split_on}
use exchange_mcp.Tools.Errors.{recipient_blocked, ToolError, tool_error}

-- A JSON value: a text, a list (an entry that is no text is `none`), or anything else.
pub data Value : Type 0 where
  text : Text → Value
  items : List (Option Text) → Value
  other : Value

abbrev pub Args : Type 0
Args = List (String × Value)

-- `kwargs.get(key)`
unfoldable pub get : String → Args → Option Value
get key [] = none
get key ((k, v) ∷ rest) = let later = get key rest in if str_eq k key then some v else later

-- `kwargs.pop(key, None)`: what is left.
unfoldable pub without : String → Args → Args
without key [] = []
without key ((k, v) ∷ rest) =
    let later = without key rest in if str_eq k key then later else (k, v) ∷ later

abbrev pub present : List (Option Text) → List Text
present [] = []
present (none ∷ xs) = present xs
present (some t ∷ xs) = t ∷ present xs

abbrev pub texts_of : Option Value → List Text
texts_of none = []
texts_of (some (text t)) = t ∷ []
texts_of (some (items xs)) = present xs
texts_of (some other) = []

abbrev pub has_at : Text → Bool
has_at [] = false
has_at (c ∷ s) = c == b'@' || has_at s

abbrev pub addresses : List Text → List Text
addresses ts = map (λ t. lower t) (select has_at ts)

-- `_recipients` over RECIPIENT_KEYS
unfoldable pub recipients : Args → List Text
unfolding get
recipients args =
    addresses (texts_of (get "to" args))
    ++ (addresses (texts_of (get "cc" args))
        ++ (addresses (texts_of (get "bcc" args)) ++ addresses (texts_of (get "attendees" args))))

abbrev pub non_empty : List Text → Bool
non_empty [] = false
non_empty (t ∷ ts) = true

abbrev pub filled : Text → Bool
filled [] = false
filled (c ∷ s) = true

-- `_split`
unfoldable pub split_list : Text → List Text
unfolding strip split_on
split_list raw = map (λ p. lower p) (select filled (map strip (split_on b',' raw)))

module _ (matches : Text → Text → Bool) where
  -- `any(fnmatch(r, p) for p in patterns)`
  abbrev pub any_match : Text → List Text → Bool
  any_match r [] = false
  any_match r (p ∷ ps) = matches r p || any_match r ps

  abbrev pub blocked : List Text → List Text → Text → Bool
  blocked deny allow r = any_match r deny || (non_empty allow && not (any_match r allow))

  -- The loop of `_recipient_guard`; with both lists empty no recipient is blocked.
  unfoldable pub recipient_guard : List Text → List Text → List Text → Option ToolError
  recipient_guard deny allow [] = none
  recipient_guard deny allow (r ∷ rs) =
      let later = recipient_guard deny allow rs in
      if blocked deny allow r then some (tool_error recipient_blocked) else later

-- ID_KEYS less `folder`
abbrev pub is_id_key : String → Bool
is_id_key k =
    str_eq k "id"
    || (str_eq k "message_id"
        || (str_eq k "draft_id"
            || (str_eq k "event_id" || (str_eq k "thread_id" || str_eq k "reply_to"))))

module _ (resolve : Text → Option Text) where
  abbrev pub cons_item : Option Text → Option (List (Option Text)) → Option (List (Option Text))
  cons_item t none = none
  cons_item t (some xs) = some (t ∷ xs)

  abbrev pub resolve_item : Option Text → Option (List (Option Text)) → Option (List (Option Text))
  resolve_item none rest = cons_item none rest
  resolve_item (some t) rest = elim (resolve t) [
    | none ↦ none
    | some raw ↦ cons_item (some raw) rest
  ]

  unfoldable pub resolve_items : List (Option Text) → Option (List (Option Text))
  resolve_items [] = some []
  resolve_items (x ∷ xs) = resolve_item x (resolve_items xs)

  abbrev pub as_items : Option (List (Option Text)) → Option Value
  as_items none = none
  as_items (some xs) = some (items xs)

  abbrev pub as_text : Option Text → Option Value
  as_text none = none
  as_text (some t) = some (text t)

  abbrev pub resolve_value : String → Value → Option Value
  resolve_value k (text t) = if is_id_key k then as_text (resolve t) else some (text t)
  resolve_value k (items xs) =
      if str_eq k "ids" then as_items (resolve_items xs) else some (items xs)
  resolve_value k other = some other

  abbrev pub cons_arg : String → Option Value → Option Args → Option Args
  cons_arg k none rest = none
  cons_arg k (some v) none = none
  cons_arg k (some v) (some rest) = some ((k, v) ∷ rest)

  -- `resolve_ids`; `none`: an unknown alias, a validation error.
  unfoldable pub resolve_ids : Args → Option Args
  unfolding resolve_items
  resolve_ids [] = some []
  resolve_ids ((k, v) ∷ rest) = cons_arg k (resolve_value k v) (resolve_ids rest)
