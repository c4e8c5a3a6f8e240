-- ===== src/Sync/Hierarchy.antt =====
-- ewsmcp/cache/sync.py: the folders, the sync states of ewsmcp/cache/store.py, and the hierarchy lane.
use exchange_mcp.Prelude.{
  ℕ, suc, String, Bool, true, false, not, ◌&&◌, ◌||◌, Option, none, some, List, [], ◌∷◌, ◌++◌,
  if◌then◌else◌, str_eq, mem_str, select, map,
}
use exchange_mcp.Prelude.Int.{ℤ}
use exchange_mcp.Store.Rows.{Store}
use exchange_mcp.Store.Writes.{Write, write}
use exchange_mcp.Sync.Items.{empty_text, text_or}

-- The keys of `ews.sync_state`.
pub data Key : Type 0 where
  item : String → Key
  folders flags_backfill : Key

abbrev pub same_key : Key → Key → Bool
same_key (item a) (item b) = str_eq a b
same_key folders folders = true
same_key flags_backfill flags_backfill = true
same_key _ _ = false

pub record SyncState : Type 0 where
  pub key : Key
  pub token : Option String
  pub as_of : ℤ

-- A folder of Exchange; `known` is its alias in WELL_KNOWN.
pub record Node : Type 0 where
  pub id : Option String
  pub name : Option String
  pub folder_class : Option String
  pub is_messages : Bool
  pub known : Option String
  pub total : ℕ
  pub unread : ℕ

-- The children of a folder: one with its own children, and its siblings.
pub data Forest : Type 0 where
  leaf : Forest
  branch : Node → Forest → Forest → Forest

abbrev pub width : Forest → ℕ
width leaf = 0
width (branch n children siblings) = suc (width siblings)

-- A row of `ews.folders`.
pub record FolderRow : Type 0 where
  pub ews_id : String
  pub name : String
  pub path : List String
  pub wk : Option String
  pub total : ℕ
  pub unread : ℕ
  pub children : ℕ

pub record Engine : Type 0 where
  pub store : Store
  pub folder_rows : List FolderRow
  pub states : List SyncState
  pub mirrored : List String

abbrev pub mem_wk : Option String → List String → Bool
mem_wk none xs = false
mem_wk (some w) xs = mem_str w xs

abbrev pub classless : Bool → Option String → Bool
classless messages none = messages
classless messages (some wk) =
    messages || not (str_eq wk "f:calendar" || (str_eq wk "f:contacts" || str_eq wk "f:tasks"))

-- `is_mail_folder`
unfoldable pub is_mail_folder : Node → Bool
is_mail_folder n = by_class n.folder_class
  where
    by_class : Option String → Bool
    by_class none = classless n.is_messages n.known
    by_class (some c) =
        if empty_text c then classless n.is_messages n.known else str_eq c "IPF.Note"

-- What `walk` collects: the rows, and the folders to item-sync.
abbrev pub Walked : Type 0
Walked = List FolderRow × List String

abbrev pub joined : Walked → Walked → Walked
joined (rows, ids) (rows', ids') = (rows ++ rows', ids ++ ids')

abbrev pub row_of : Node → String → List String → ℕ → FolderRow
row_of n i path children = record {
  ews_id = i;
  name = text_or n.name "";
  path = path;
  wk = n.known;
  total = n.total;
  unread = n.unread;
  children = children;
}

abbrev pub visit : List String → Node → List String → ℕ → Option String → Walked
visit excluded n path children none = ([], [])
visit excluded n path children (some i) = if empty_text i then ([], []) else (
  row_of n i path children ∷ [],
  if not (mem_wk n.known excluded) && is_mail_folder n then i ∷ [] else [],
)

-- `walk`; a path is its list of names.
unfoldable pub walk : List String → List String → Forest → Walked
unfolding is_mail_folder
walk excluded prefix leaf = ([], [])
walk excluded prefix (branch n children siblings) =
    let path = prefix ++ (text_or n.name "" ∷ []) in
    joined (visit excluded n path (width children) n.id)
      (joined (walk excluded path children) (walk excluded prefix siblings))

abbrev pub has_row : String → List FolderRow → Bool
has_row i [] = false
has_row i (r ∷ rs) = str_eq r.ews_id i || has_row i rs

-- INSERT … ON CONFLICT (ews_id) DO UPDATE.
unfoldable pub put_folder : FolderRow → List FolderRow → List FolderRow
put_folder r [] = r ∷ []
put_folder r (x ∷ xs) =
    let rest = put_folder r xs in if str_eq x.ews_id r.ews_id then r ∷ xs else x ∷ rest

abbrev pub put_folders : List FolderRow → List FolderRow → List FolderRow
put_folders [] acc = acc
put_folders (r ∷ rs) acc = put_folders rs (put_folder r acc)

-- `replace_folders`
unfoldable pub replace_folders : List FolderRow → List FolderRow
unfolding put_folder
replace_folders rows = put_folders rows []

-- `set_sync_state`, `get_sync_state` and `drop_sync_state`
unfoldable pub set_sync_state : Key → Option String → ℤ → List SyncState → List SyncState
set_sync_state k token now [] = record { key = k; token = token; as_of = now } ∷ []
set_sync_state k token now (s ∷ ss) =
    let rest = set_sync_state k token now ss in
    if same_key s.key k then record s { token = token; as_of = now } ∷ ss else s ∷ rest

unfoldable pub get_sync_state : Key → List SyncState → Option String
get_sync_state k [] = none
get_sync_state k (s ∷ ss) =
    let rest = get_sync_state k ss in if same_key s.key k then s.token else rest

unfoldable pub drop_sync_state : Key → List SyncState → List SyncState
drop_sync_state k ss = select (λ s. not (same_key s.key k)) ss

-- The ids that were known before and are not any more; a Python set has no order.
abbrev pub gone_from : List FolderRow → List FolderRow → List String
gone_from before rows = map (λ r. r.ews_id) (select (λ r. not (has_row r.ews_id rows)) before)

-- The loop over the folders that disappeared.
unfoldable pub forget : List String → Engine → Engine
unfolding write drop_sync_state
forget [] e = e
forget (f ∷ fs) e = forget fs (record e {
  store = write (Write.drop_folder f) e.store;
  states = drop_sync_state (item f) e.states;
})

abbrev pub apply_walk : ℤ → Walked → Engine → Engine
apply_walk now ([], ids) e = e
apply_walk now (r ∷ rs, ids) e = forget (gone_from e.folder_rows (r ∷ rs)) (record e {
  folder_rows = replace_folders (r ∷ rs);
  states = set_sync_state folders none now e.states;
  mirrored = ids;
})

-- `_sync_hierarchy`
unfoldable pub sync_hierarchy : List String → ℤ → Forest → Engine → Engine
unfolding walk replace_folders set_sync_state forget
sync_hierarchy excluded now tree e = apply_walk now (walk excluded [] tree) e
