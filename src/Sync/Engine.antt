-- ===== src/Sync/Engine.antt =====
-- ewsmcp/cache/sync.py: the lanes of a cycle. The state is the tables of ewsmcp/cache/store.py that they
-- write. What Exchange answers and where an exception strikes are inputs; the calendar and tasks lane
-- is left out.
pub mod Archived
use exchange_mcp.Prelude.{
  ℕ, zero, suc, String, Bool, true, false, Option, none, some, List, [], ◌∷◌, if◌then◌else◌, select,
  map, take, drop, length,
}
use exchange_mcp.Prelude.Int.{ℤ}
use exchange_mcp.Store.Rows.{ArchiveState, Store, in_state}
use exchange_mcp.Store.Writes.{Write, write_all}
use exchange_mcp.Sync.Items.{Outside, flag_status_of}
use exchange_mcp.Sync.Folder.{Change, empty, folder_writes}
use exchange_mcp.Sync.Hierarchy.{
  item, flags_backfill, Forest, Engine, set_sync_state, get_sync_state, sync_hierarchy,
}

-- What the flag fetch answers for an id: an exception, or an item's status.
abbrev pub pairs_of : List String → List (Option (Option ℕ)) → List (String × Option ℕ)
pairs_of [] fs = []
pairs_of (i ∷ is) [] = []
pairs_of (i ∷ is) (none ∷ fs) = pairs_of is fs
pairs_of (i ∷ is) (some status ∷ fs) = (i, flag_status_of status) ∷ pairs_of is fs

-- The writes of `_backfill_flags`, and whether every fetch answered.
abbrev pub then_backfill :
    List String → Option (List (Option (Option ℕ))) → List Write × Bool → List Write × Bool
then_backfill batch none rest = ([], false)
then_backfill batch (some fs) (ws, ok) = (Write.flag_status (pairs_of batch fs) ∷ ws, ok)

unfoldable pub backfill_chunks :
    (List String → Option (List (Option (Option ℕ)))) → ℕ → List String → List Write × Bool
unfolding flag_status_of
backfill_chunks fetch zero ids = ([], true)
backfill_chunks fetch (suc fuel) [] = ([], true)
backfill_chunks fetch (suc fuel) (i ∷ ids) =
    then_backfill (take 100 (i ∷ ids)) (fetch (take 100 (i ∷ ids)))
      (backfill_chunks fetch fuel (drop 100 (i ∷ ids)))

-- `live_message_ids`, in the table's order.
unfoldable pub live_message_ids : Store → List String
live_message_ids s = map (λ m. m.ews_id) (select (in_state ArchiveState.live) s.messages)

abbrev pub backfilled : ℤ → List Write × Bool → Engine → Bool × Engine
backfilled now (ws, false) e = (false, record e { store = write_all ws e.store })
backfilled now (ws, true) e = (
  true,
  record e {
    store = write_all ws e.store;
    states = set_sync_state flags_backfill (some "done") now e.states;
  },
)

abbrev pub backfill_if :
    (List String → Option (List (Option (Option ℕ)))) → ℤ → Option String → Engine → Bool × Engine
backfill_if fetch now (some t) e = (true, e)
backfill_if fetch now none e =
    let ids = live_message_ids e.store in backfilled now (backfill_chunks fetch (length ids) ids) e

-- `_backfill_flags`; `false`: it raised.
unfoldable pub backfill_flags :
    (List String → Option (List (Option (Option ℕ)))) → ℤ → Engine → Bool × Engine
unfolding backfill_chunks live_message_ids get_sync_state set_sync_state
backfill_flags fetch now e = backfill_if fetch now (get_sync_state flags_backfill e.states) e

-- A folder's delta with the token behind it; `fault`: an exception after so many of its writes.
pub record Delta : Type 0 where
  pub changes : List Change
  pub new_token : Option String
  pub fault : Option ℕ

abbrev pub interrupted : Option ℕ → String → Option String → ℤ → List Write → Engine → Engine
interrupted (some k) f token now ws e = record e { store = write_all (take k ws) e.store }
interrupted none f token now ws e = record e {
  store = write_all ws e.store;
  states = set_sync_state (item f) token now e.states;
}

-- `_sync_one_folder`
unfoldable pub sync_one_folder : Outside → ℤ → String → Delta → Engine → Engine
unfolding folder_writes set_sync_state
sync_one_folder o now f d e =
    interrupted d.fault f d.new_token now (folder_writes o f now d.changes empty) e

-- What `sync_items` yields for a folder and its token.
abbrev pub Deltas : Type 0
Deltas = String → Option String → Delta

unfoldable pub sync_folders : Outside → ℤ → Deltas → List String → Engine → Engine
unfolding sync_one_folder get_sync_state
sync_folders o now deltas [] e = e
sync_folders o now deltas (f ∷ fs) e =
    sync_folders o now deltas fs
      (sync_one_folder o now f (deltas f (get_sync_state (item f) e.states)) e)

-- The answers to one cycle; no tree: the hierarchy call raises.
pub record Answers : Type 0 where
  pub now : ℤ
  pub hierarchy_due : Bool
  pub tree : Option Forest
  pub fetch_flags : List String → Option (List (Option (Option ℕ)))
  pub outside : Outside
  pub deltas : Deltas

abbrev pub after_backfill : Answers → Bool × Engine → Engine
after_backfill a (false, e) = e
after_backfill a (true, e) = sync_folders a.outside a.now a.deltas e.mirrored e

abbrev pub item_lane : Answers → Engine → Engine
item_lane a e = after_backfill a (backfill_flags a.fetch_flags a.now e)

abbrev pub with_tree : List String → Answers → Option Forest → Engine → Engine
with_tree excluded a none e = e
with_tree excluded a (some tree) e = item_lane a (sync_hierarchy excluded a.now tree e)

-- `_cycle`
unfoldable pub cycle : List String → Answers → Engine → Engine
unfolding sync_hierarchy backfill_flags sync_folders
cycle excluded a e =
    let hierarchy = with_tree excluded a a.tree e in
    if a.hierarchy_due then hierarchy else item_lane a e

-- The cycles of `_loop`; an exception ends only its own cycle.
unfoldable pub run : List String → List Answers → Engine → Engine
unfolding cycle
run excluded [] e = e
run excluded (a ∷ rest) e = run excluded rest (cycle excluded a e)
