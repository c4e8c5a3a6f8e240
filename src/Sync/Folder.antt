-- ===== src/Sync/Folder.antt =====
-- ewsmcp/cache/sync.py: the item delta of one folder, flushed in batches.
pub mod Requests
pub mod Batches
use exchange_mcp.Prelude.{ℕ, suc, String, Bool, List, [], ◌∷◌, ◌++◌, if◌then◌else◌, leb, map}
use exchange_mcp.Prelude.Int.{ℤ}
use exchange_mcp.Store.Writes.{Write}
use exchange_mcp.Sync.Items.{Item, Outside, empty_text, row_from_message, hydrate_bodies}

-- What `sync_items` yields.
pub data Change : Type 0 where
  created updated : Item → Change
  deleted : String → Change
  read_flag : String → Bool → Change
  ignored : Change

-- The lists of `_sync_one_folder`, and `pending`.
pub record Buffer : Type 0 where
  pub upserts : List Item
  pub deletes : List String
  pub read_flags : List (String × Bool)
  pub pending : ℕ

abbrev pub empty : Buffer
empty = record { upserts = []; deletes = []; read_flags = []; pending = 0 }

abbrev pub add_item : Item → Buffer → Buffer
add_item item b =
    if empty_text item.id
    then b
    else record b { upserts = b.upserts ++ (item ∷ []); pending = suc b.pending }

unfoldable pub buffer : Change → Buffer → Buffer
buffer (created item) b = add_item item b
buffer (updated item) b = add_item item b
buffer (deleted i) b = record b { deletes = b.deletes ++ (i ∷ []); pending = suc b.pending }
buffer (read_flag i r) b = record b {
  read_flags = b.read_flags ++ ((i, r) ∷ []);
  pending = suc b.pending;
}
buffer ignored b = b

module _ (o : Outside) (folder_id : String) (now : ℤ) where
  abbrev pub upsert_writes : List Item → List Write
  upsert_writes [] = []
  upsert_writes (i ∷ is) =
      Write.upsert (map (λ x. row_from_message o folder_id x) (hydrate_bodies o (i ∷ is))) ∷ []

  abbrev pub delete_writes : List String → List Write
  delete_writes [] = []
  delete_writes (i ∷ is) = Write.server_delete now (i ∷ is) ∷ []

  abbrev pub flag_writes : List (String × Bool) → List Write
  flag_writes [] = []
  flag_writes ((i, r) ∷ rest) = Write.read_flag (i ∷ []) r ∷ flag_writes rest

  -- `flush`: the statements, each its own transaction.
  unfoldable pub flush : Buffer → List Write
  unfolding row_from_message hydrate_bodies
  flush b = upsert_writes b.upserts ++ (delete_writes b.deletes ++ flag_writes b.read_flags)

  -- The loop over the delta, with FLUSH_EVERY, and the flush behind it.
  unfoldable pub folder_writes : List Change → Buffer → List Write
  unfolding buffer flush
  folder_writes [] b = flush b
  folder_writes (c ∷ cs) b =
      let full = flush (buffer c b) ++ folder_writes cs empty in
      let more = folder_writes cs (buffer c b) in
      if leb 200 (buffer c b).pending then full else more
