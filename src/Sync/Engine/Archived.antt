-- ===== src/Sync/Engine/Archived.antt =====
-- Archived mail under the cycles of ewsmcp/cache/sync.py.
use exchange_mcp.Prelude.{
  ℕ, zero, suc, String, ◌≡◌, ◌≢◌, refl, ◌∙◌, Bool, true, false, mem_str, str_eq, Option, none, some,
  List, [], ◌∷◌, ◌++◌, if◌then◌else◌, All, All-append, All-take, take, drop, leb,
}
use exchange_mcp.Prelude.Int.{ℤ}
use exchange_mcp.Store.Rows.{live, Message, Store, find_row}
use exchange_mcp.Store.Writes.{Write, write, write_all}
use exchange_mcp.Store.Survival.{
  find_row-delete_where, find_row-upsert_rows, find_row-set_flag_status, find_row-update_where,
  not_live_of,
}
use exchange_mcp.Store.Kept.{server_delete-Archived}
use exchange_mcp.Sync.Items.{Item, Outside}
use exchange_mcp.Sync.Folder.{
  Change, Buffer, empty, buffer, upsert_writes, delete_writes, flag_writes, flush, folder_writes,
}
use exchange_mcp.Sync.Hierarchy.{
  Walked, apply_walk, walk, forget, sync_hierarchy, get_sync_state, set_sync_state, replace_folders,
  gone_from,
}
use exchange_mcp.Sync.Hierarchy.{Key, Engine, Forest}
use exchange_mcp.Sync.Engine.{
  then_backfill, backfill_chunks, backfilled, backfill_if, backfill_flags, Delta, interrupted,
  sync_one_folder, Deltas, sync_folders, Answers, after_backfill, item_lane, with_tree, cycle, run,
}

-- The statements that the engine runs on `ews.messages`.
abbrev pub IsMirror : Write → Type 0
IsMirror (Write.upsert rows) = Unit
IsMirror (Write.read_flag ids b) = Unit
IsMirror (Write.flag_status pairs) = Unit
IsMirror (Write.drop_folder f) = Unit
IsMirror (Write.server_delete now ids) = Unit
IsMirror _ = ⊥

-- The message is in the store, in the archive and with this MIME.
abbrev pub Archived : String → Option String → Store → Type 0
Archived i sha s =
    (m : Message) × (find_row i s.messages ≡ some m)
    × (m.archive_state ≢ live)
    × (m.mime_sha256 ≡ sha)

module _ (i : String) (sha : Option String) where
  same_archive :
      (m m' : Message) (s : Store)
      → find_row i s.messages ≡ some m'
      → m'.archive_state ≡ m.archive_state
      → m'.mime_sha256 ≡ m.mime_sha256
      → m.archive_state ≢ live
      → m.mime_sha256 ≡ sha
      → Archived i sha s
  same_archive m m' s found state mime archived h = (m', found, rw state archived, mime ∙ h)

  write-Archived :
      (w : Write) (s : Store) → IsMirror w → Archived i sha s → Archived i sha (write w s)
  unfolding write
  write-Archived (Write.upsert rows) s k (m, found, archived, h) =
      let (m', found', same) = find_row-upsert_rows rows i s.messages found in
      same_archive m m' (write (Write.upsert rows) s) found' same.0 same.1 archived h
  write-Archived (Write.read_flag ids b) s k (m, found, archived, h) =
      let (state, mime) = go (mem_str m.ews_id ids) in
      same_archive m (if mem_str m.ews_id ids then read m else m) (write (Write.read_flag ids b) s)
        (find_row-update_where (λ y. mem_str y.ews_id ids) read (λ y. refl) i s.messages found)
        state mime archived h
    where
      read : Message → Message
      read y = record y { mirror = record y.mirror { is_read = b } }

      go :
          (c : Bool)
          → let m' = (if c then read m else m) in
            (m'.archive_state ≡ m.archive_state) × (m'.mime_sha256 ≡ m.mime_sha256)
      go true = (refl, refl)
      go false = (refl, refl)
  write-Archived (Write.flag_status pairs) s k (m, found, archived, h) =
      let (m', found', same) = find_row-set_flag_status pairs i s found in
      same_archive m m' (write (Write.flag_status pairs) s) found' same.0 same.1 archived h
  write-Archived (Write.drop_folder f) s k (m, found, archived, h) = (
    m,
    find_row-delete_where _ i s.messages found (not_live_of m archived (str_eq m.folder_id f)),
    archived,
    h,
  )
  write-Archived (Write.server_delete now ids) s k (m, found, archived, h) =
      let (m', found', step, state, mime) = server_delete-Archived i s found archived now ids in
      (m', found', state, mime ∙ h)
  write-Archived (Write.delete_by_id ids) s k a = absurd k
  write-Archived (Write.categories j cs) s k a = absurd k
  write-Archived (Write.embed now j chunks) s k a = absurd k
  write-Archived (Write.embedded now ids) s k a = absurd k
  write-Archived (Write.repair repairs) s k a = absurd k
  write-Archived (Write.capture now j sha' path ck) s k a = absurd k
  write-Archived (Write.verify now j) s k a = absurd k
  write-Archived (Write.demote j) s k a = absurd k
  write-Archived (Write.reset j) s k a = absurd k
  write-Archived (Write.bury now ids) s k a = absurd k
  write-Archived (Write.attach j rows) s k a = absurd k

  write_all-Archived :
      (ws : List Write) (s : Store)
      → All IsMirror ws
      → Archived i sha s
      → Archived i sha (write_all ws s)
  unfolding write_all
  write_all-Archived [] s k a = a
  write_all-Archived (w ∷ ws) s k a =
      write_all-Archived ws (write w s) k.1 (write-Archived w s k.0 a)

  forget-Archived :
      (fs : List String) (e : Engine) → Archived i sha e.store → Archived i sha (forget fs e).store
  unfolding forget
  forget-Archived [] e a = a
  forget-Archived (f ∷ fs) e a =
      forget-Archived fs _ (write-Archived (Write.drop_folder f) e.store tt a)

  sync_hierarchy-Archived :
      (excluded : List String) (now : ℤ) (tree : Forest) (e : Engine)
      → Archived i sha e.store
      → Archived i sha (sync_hierarchy excluded now tree e).store
  unfolding sync_hierarchy
  sync_hierarchy-Archived excluded now tree e a = go (walk excluded [] tree)
    where
      go : (w : Walked) → Archived i sha (apply_walk now w e).store
      go ([], ids) = a
      go (r ∷ rs, ids) =
          forget-Archived (gone_from e.folder_rows (r ∷ rs))
            (record e {
              folder_rows = replace_folders (r ∷ rs);
              states = set_sync_state Key.folders none now e.states;
              mirrored = ids;
            })
            a

  module _ (o : Outside) (f : String) (now : ℤ) where
    flag_writes-IsMirror : (fs : List (String × Bool)) → All IsMirror (flag_writes o f now fs)
    flag_writes-IsMirror [] = tt
    flag_writes-IsMirror (x ∷ fs) = (tt, flag_writes-IsMirror fs)

    flush-IsMirror : (b : Buffer) → All IsMirror (flush o f now b)
    unfolding flush
    flush-IsMirror b = go b.upserts b.deletes
      where
        go :
            (us : List Item) (ds : List String)
            → All IsMirror (
                upsert_writes o f now us
                ++ (delete_writes o f now ds ++ flag_writes o f now b.read_flags))
        go [] [] = flag_writes-IsMirror b.read_flags
        go [] (d ∷ ds) = (tt, flag_writes-IsMirror b.read_flags)
        go (u ∷ us) [] = (tt, flag_writes-IsMirror b.read_flags)
        go (u ∷ us) (d ∷ ds) = (tt, (tt, flag_writes-IsMirror b.read_flags))

    folder_writes-IsMirror :
        (cs : List Change) (b : Buffer) → All IsMirror (folder_writes o f now cs b)
    unfolding folder_writes
    folder_writes-IsMirror [] b = flush-IsMirror b
    folder_writes-IsMirror (c ∷ cs) b =
        go (leb 200 (buffer c b).pending) (folder_writes-IsMirror cs empty)
          (folder_writes-IsMirror cs (buffer c b))
      where
        go :
            (full : Bool)
            → All IsMirror (folder_writes o f now cs empty)
            → All IsMirror (folder_writes o f now cs (buffer c b))
            → All IsMirror (
                if full
                then flush o f now (buffer c b) ++ folder_writes o f now cs empty
                else folder_writes o f now cs (buffer c b))
        go true fresh on =
            All-append IsMirror (flush o f now (buffer c b)) _ (flush-IsMirror (buffer c b)) fresh
        go false fresh on = on

  sync_one_folder-Archived :
      (o : Outside) (now : ℤ) (f : String) (d : Delta) (e : Engine)
      → Archived i sha e.store
      → Archived i sha (sync_one_folder o now f d e).store
  unfolding sync_one_folder
  sync_one_folder-Archived o now f d e a = go d.fault
    where
      ws : List Write
      ws = folder_writes o f now d.changes empty

      go : (fault : Option ℕ) → Archived i sha (interrupted fault f d.new_token now ws e).store
      go none = write_all-Archived ws e.store (folder_writes-IsMirror o f now d.changes empty) a
      go (some k) =
          write_all-Archived (take k ws) e.store
            (All-take IsMirror k ws (folder_writes-IsMirror o f now d.changes empty)) a

  sync_folders-Archived :
      (o : Outside) (now : ℤ) (deltas : Deltas) (fs : List String) (e : Engine)
      → Archived i sha e.store
      → Archived i sha (sync_folders o now deltas fs e).store
  unfolding sync_folders
  sync_folders-Archived o now deltas [] e a = a
  sync_folders-Archived o now deltas (f ∷ fs) e a =
      sync_folders-Archived o now deltas fs _
        (sync_one_folder-Archived o now f (deltas f (get_sync_state (Key.item f) e.states)) e a)

  backfill_chunks-IsMirror :
      (fetch : List String → Option (List (Option (Option ℕ)))) (fuel : ℕ) (ids : List String)
      → All IsMirror (backfill_chunks fetch fuel ids).0
  unfolding backfill_chunks
  backfill_chunks-IsMirror fetch zero ids = tt
  backfill_chunks-IsMirror fetch (suc fuel) [] = tt
  backfill_chunks-IsMirror fetch (suc fuel) (j ∷ ids) =
      go (take 100 (j ∷ ids)) (fetch (take 100 (j ∷ ids)))
        (backfill_chunks fetch fuel (drop 100 (j ∷ ids)))
        (backfill_chunks-IsMirror fetch fuel (drop 100 (j ∷ ids)))
    where
      go :
          (batch : List String) (fs : Option (List (Option (Option ℕ)))) (rest : List Write × Bool)
          → All IsMirror rest.0
          → All IsMirror (then_backfill batch fs rest).0
      go batch none rest h = tt
      go batch (some fs) (ws, ok) h = (tt, h)

  backfill_flags-Archived :
      (fetch : List String → Option (List (Option (Option ℕ)))) (now : ℤ) (e : Engine)
      → Archived i sha e.store
      → Archived i sha (backfill_flags fetch now e).1.store
  unfolding backfill_flags
  backfill_flags-Archived fetch now e a = go (get_sync_state Key.flags_backfill e.states)
    where
      done :
          (x : List Write × Bool) → All IsMirror x.0 → Archived i sha (backfilled now x e).1.store
      done (ws, true) h = write_all-Archived ws e.store h a
      done (ws, false) h = write_all-Archived ws e.store h a

      go : (t : Option String) → Archived i sha (backfill_if fetch now t e).1.store
      go (some t) = a
      go none = done _ (backfill_chunks-IsMirror fetch _ _)

  item_lane-Archived :
      (a : Answers) (e : Engine) → Archived i sha e.store → Archived i sha (item_lane a e).store
  item_lane-Archived a e h =
      go (backfill_flags a.fetch_flags a.now e) (backfill_flags-Archived a.fetch_flags a.now e h)
    where
      go :
          (x : Bool × Engine) → Archived i sha x.1.store → Archived i sha (after_backfill a x).store
      go (false, e') k = k
      go (true, e') k = sync_folders-Archived a.outside a.now a.deltas e'.mirrored e' k

  cycle-Archived :
      (excluded : List String) (a : Answers) (e : Engine)
      → Archived i sha e.store
      → Archived i sha (cycle excluded a e).store
  unfolding cycle
  cycle-Archived excluded a e h = go a.hierarchy_due
    where
      walked : (t : Option Forest) → Archived i sha (with_tree excluded a t e).store
      walked none = h
      walked (some tree) =
          item_lane-Archived a (sync_hierarchy excluded a.now tree e)
            (sync_hierarchy-Archived excluded a.now tree e h)

      go :
          (b : Bool)
          → Archived i sha (if b then with_tree excluded a a.tree e else item_lane a e).store
      go true = walked a.tree
      go false = item_lane-Archived a e h

  -- Whatever Exchange reports in however many cycles - changed, deleted or unread items, vanished
  -- folders, exceptions in the middle of a folder - a message of the archive stays in the store, stays
  -- archived and keeps its MIME.
  pub run-Archived :
      (excluded : List String) (cycles : List Answers) (e : Engine)
      → Archived i sha e.store
      → Archived i sha (run excluded cycles e).store
  unfolding run
  run-Archived excluded [] e h = h
  run-Archived excluded (a ∷ rest) e h =
      run-Archived excluded rest (cycle excluded a e) (cycle-Archived excluded a e h)
