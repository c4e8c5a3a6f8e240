-- ===== src/Store/Kept.antt =====
-- A row of the archive under the writes of ewsmcp/cache/store.py.
use exchange_mcp.Prelude.{
  ◌||◌, mem_str, String, ◌≡◌, refl, ◌≢◌, ◌⊎◌, inl, inr, Bool, true, false, ◌&&◌, str_eq, ◌∙◌, sym,
  Option, some, List, [], ◌∷◌, if◌then◌else◌, All,
}
use exchange_mcp.Prelude.Int.{ℤ}
use exchange_mcp.Store.Rows.{
  ArchiveState, live, captured, verified, deleted, Message, Store, has_id, in_state, find_row,
}
use exchange_mcp.Store.Archive.{apply_server_deletes}
use exchange_mcp.Store.Writes.{Write, Step, Spares, write, write_all}
use exchange_mcp.Store.Survival.{
  KeptAs, KeptAs-refl, guarded, find_row-delete_where, KeptAs-same, find_row-upsert_rows,
  find_row-set_flag_status, find_row-repair_rows, find_row-Spared, Survives, Survives-Keeps,
  not_live_of, buried, find_row-update_where, KeptAs-if, update_where-KeptAs,
}

module _ (i : String) (s : Store) {m : Message} (found : find_row i s.messages ≡ some m)
    (archived : m.archive_state ≢ live) where
  -- A delete event of Exchange leaves an archived row found, archived and with its MIME.
  pub server_delete-Archived :
      (now : ℤ) (ids : List String)
      → (m' : Message) × (find_row i (apply_server_deletes now ids s).0.messages ≡ some m')
        × KeptAs m m'
        × (m'.archive_state ≢ live)
        × (m'.mime_sha256 ≡ m.mime_sha256)
  unfolding apply_server_deletes
  server_delete-Archived now ids = (
    m1,
    find_row-delete_where _ i _ (find_row-update_where p f (λ y. refl) i s.messages found) kept,
    KeptAs-if p f m step,
    still (p m),
    mime (p m),
  )
    where
      p : Message → Bool
      p y = mem_str y.ews_id ids && (in_state captured y || in_state verified y)

      f : Message → Message
      f y = record y { archive_state = deleted; deleted_at = some now }

      m1 : Message
      m1 = if p m then f m else m

      still : (b : Bool) → (if b then f m else m).archive_state ≢ live
      still true = λ e. cc
      still false = archived

      mime : (b : Bool) → (if b then f m else m).mime_sha256 ≡ m.mime_sha256
      mime true = refl
      mime false = refl

      kept : (mem_str m1.ews_id ids && in_state live m1) ≡ false
      kept = not_live_of m1 (still (p m)) (mem_str m1.ews_id ids)

      step : p m ≡ true → KeptAs m (f m)
      step e = record { step = buried (mem_str m.ews_id ids) m e; mime = inr refl }

  server_delete-Survives :
      (now : ℤ) (ids : List String) → Survives m i (apply_server_deletes now ids s).0
  server_delete-Survives now ids =
      let (m', found', kept, state, mime) = server_delete-Archived now ids in (m', found', kept)

  -- One write of any kind, but a DELETE by id that names it, keeps an archived row, and moves it at
  -- most one step of the state machine.
  pub write-Survives : (w : Write) → Spares i w → Survives m i (write w s)
  unfolding write
  write-Survives (Write.upsert rows) spared =
      Survives-Keeps m i _ (find_row-upsert_rows rows i s.messages found)
  write-Survives (Write.read_flag ids b) spared =
      update_where-KeptAs _ _ (λ y. refl) i s.messages found (λ _. KeptAs-same m _ (refl, refl))
  write-Survives (Write.flag_status pairs) spared =
      Survives-Keeps m i _ (find_row-set_flag_status pairs i s found)
  write-Survives (Write.drop_folder f) spared = (
    m,
    find_row-delete_where _ i s.messages found (not_live_of m archived (str_eq m.folder_id f)),
    KeptAs-refl m,
  )
  write-Survives (Write.delete_by_id ids) spared = (
    m,
    find_row-delete_where _ i s.messages found (find_row-Spared i ids s.messages found spared),
    KeptAs-refl m,
  )
  write-Survives (Write.categories j cs) spared =
      update_where-KeptAs (has_id j) _ (λ y. refl) i s.messages found
        (λ _. KeptAs-same m _ (refl, refl))
  write-Survives (Write.embed now j chunks) spared =
      update_where-KeptAs (has_id j) _ (λ y. refl) i s.messages found
        (λ _. KeptAs-same m _ (refl, refl))
  write-Survives (Write.embedded now ids) spared =
      update_where-KeptAs _ _ (λ y. refl) i s.messages found (λ _. KeptAs-same m _ (refl, refl))
  write-Survives (Write.repair repairs) spared =
      Survives-Keeps m i _ (find_row-repair_rows repairs i s found)
  write-Survives (Write.capture now j sha path ck) spared =
      update_where-KeptAs _ _ (λ y. refl) i s.messages found
        (λ e. absurd (archived (guarded (has_id j m) m e)))
  write-Survives (Write.verify now j) spared =
      update_where-KeptAs _ _ (λ y. refl) i s.messages found
        (λ e. record { step = rw (guarded (has_id j m) m e) Step.verify; mime = inr refl })
  write-Survives (Write.demote j) spared =
      update_where-KeptAs _ _ (λ y. refl) i s.messages found
        (λ e. record { step = rw (guarded (has_id j m) m e) Step.demote; mime = inr refl })
  write-Survives (Write.reset j) spared =
      update_where-KeptAs _ _ (λ y. refl) i s.messages found
        (λ e. record { step = rw (guarded (has_id j m) m e) Step.reset; mime = inl refl })
  write-Survives (Write.bury now ids) spared =
      update_where-KeptAs _ _ (λ y. refl) i s.messages found
        (λ e. record {
          step = rw (guarded (mem_str m.ews_id ids) m e) Step.bury_verified;
          mime = inr refl;
        })
  write-Survives (Write.server_delete now ids) spared = server_delete-Survives now ids
  write-Survives (Write.attach j rows) spared = (m, found, KeptAs-refl m)

-- No step leaves `deleted`.
deleted_stays : {s t : ArchiveState} → Step s t → s ≡ deleted → t ≡ deleted
deleted_stays (Step.stay s) e = e
deleted_stays Step.capture e = cc
deleted_stays Step.verify e = cc
deleted_stays Step.demote e = cc
deleted_stays Step.reset e = cc
deleted_stays Step.bury_captured e = refl
deleted_stays Step.bury_verified e = refl

-- Once a row is deleted upstream, no sequence of writes of all kinds, of which no DELETE by id names
-- the row, drops it, revives it or changes its MIME.
pub write_all-deleted :
    (ws : List Write) (i : String) (s : Store) {m : Message}
    → find_row i s.messages ≡ some m
    → m.archive_state ≡ deleted
    → All (Spares i) ws
    → (m' : Message) × (find_row i (write_all ws s).messages ≡ some m')
      × (m'.archive_state ≡ deleted)
      × (m'.mime_sha256 ≡ m.mime_sha256)
unfolding write_all
write_all-deleted [] i s {m} found d spared = (m, found, d, refl)
write_all-deleted (w ∷ ws) i s {m} found d spared =
    let (m1, found1, k) = write-Survives i s found (λ e. cc (sym d ∙ e)) w spared.0 in
    let d1 : m1.archive_state ≡ deleted = deleted_stays k.step d in
    let (m2, found2, d2, mime2) = write_all-deleted ws i (write w s) found1 d1 spared.1 in
    (m2, found2, d2, mime2 ∙ same k.mime d1)
  where
    same : {a b : Option String} {t : ArchiveState} → (t ≡ live) ⊎ (b ≡ a) → t ≡ deleted → b ≡ a
    same (inl e) d = cc
    same (inr e) d = e
