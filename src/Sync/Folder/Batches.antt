-- ===== src/Sync/Folder/Batches.antt =====
-- That the batches of a folder's delta are the delta.
use exchange_mcp.Prelude.{
  ℕ, suc, String, ◌≡◌, refl, sym, ap, ◌∙◌, Bool, true, false, Option, none, some, List, [], ◌∷◌,
  ◌++◌, zero, take, drop, length, take-append-drop, append_nil, append_assoc, map-append,
  if◌then◌else◌, leb, map,
}
use exchange_mcp.Prelude.Int.{ℤ}
use exchange_mcp.Store.Writes.{Write}
use exchange_mcp.Sync.Items.{
  Item, Outside, Fetched, fill_batch, hydrate_chunks, hydrate_bodies, row_from_message,
}
use exchange_mcp.Sync.Folder.{
  Change, created, updated, deleted, read_flag, ignored, Buffer, empty, buffer, upsert_writes,
  delete_writes, flag_writes, flush, folder_writes,
}
use exchange_mcp.Sync.Folder.Requests.{
  gather, gather-append, upserted, dropped, flagged, asks_upsert, asks_delete, asks_flag, asked,
  ids, fill_all-ids, add_item-upserts, add_item-others,
}

module _ (o : Outside) where
  fill_batch-ids :
      (batch : List Item) (f : Option (List Fetched)) → ids (fill_batch batch f) ≡ ids batch
  fill_batch-ids batch none = refl
  fill_batch-ids batch (some fs) = fill_all-ids batch fs

  hydrate_chunks-ids :
      (fuel : ℕ) (items : List Item) → ids (hydrate_chunks o fuel items) ≡ ids items
  unfolding hydrate_chunks
  hydrate_chunks-ids zero items = refl
  hydrate_chunks-ids (suc fuel) items =
      let batch = take 100 items in
      map-append (λ i. i.id) (fill_batch batch (o.fetch batch))
        (hydrate_chunks o fuel (drop 100 items))
      ∙ ap (λ xs. xs ++ ids (hydrate_chunks o fuel (drop 100 items)))
          (fill_batch-ids batch (o.fetch batch))
      ∙ ap (λ xs. ids batch ++ xs) (hydrate_chunks-ids fuel (drop 100 items))
      ∙ sym (map-append (λ i. i.id) batch (drop 100 items))
      ∙ ap ids (take-append-drop 100 items)

  -- The bulk GetItem leaves the items in their order, none lost and none new.
  hydrate_bodies-ids : (items : List Item) → ids (hydrate_bodies o items) ≡ ids items
  unfolding hydrate_bodies
  hydrate_bodies-ids items = hydrate_chunks-ids (length items) items

  rows-ids :
      (folder_id : String) (items : List Item)
      → map (λ r. r.0) (map (λ x. row_from_message o folder_id x) items) ≡ ids items
  unfolding row_from_message
  rows-ids folder_id [] = refl
  rows-ids folder_id (i ∷ is) = ap (λ js. i.id ∷ js) (rows-ids folder_id is)

  module _ (folder_id : String) (now : ℤ) where
    flag_writes-upserted :
        (fs : List (String × Bool)) → gather upserted (flag_writes o folder_id now fs) ≡ []
    flag_writes-upserted [] = refl
    flag_writes-upserted (f ∷ fs) = flag_writes-upserted fs

    flag_writes-dropped :
        (fs : List (String × Bool)) → gather dropped (flag_writes o folder_id now fs) ≡ []
    flag_writes-dropped [] = refl
    flag_writes-dropped (f ∷ fs) = flag_writes-dropped fs

    flag_writes-flagged :
        (fs : List (String × Bool)) → gather flagged (flag_writes o folder_id now fs) ≡ fs
    flag_writes-flagged [] = refl
    flag_writes-flagged (f ∷ fs) = ap (λ xs. f ∷ xs) (flag_writes-flagged fs)

    flush-upserted : (b : Buffer) → gather upserted (flush o folder_id now b) ≡ ids b.upserts
    unfolding flush
    flush-upserted b = go b.upserts b.deletes
      where
        go :
            (us : List Item) (ds : List String)
            → gather upserted (
                upsert_writes o folder_id now us
                ++ (delete_writes o folder_id now ds ++ flag_writes o folder_id now b.read_flags))
              ≡ ids us
        go [] [] = flag_writes-upserted b.read_flags
        go [] (d ∷ ds) = flag_writes-upserted b.read_flags
        go (u ∷ us) [] =
            ap
              (λ xs.
                map (λ r. r.0)
                  (map (λ x. row_from_message o folder_id x) (hydrate_bodies o (u ∷ us)))
                ++ xs)
              (flag_writes-upserted b.read_flags)
            ∙ append_nil _
            ∙ rows-ids folder_id (hydrate_bodies o (u ∷ us))
            ∙ hydrate_bodies-ids (u ∷ us)
        go (u ∷ us) (d ∷ ds) =
            ap
              (λ xs.
                map (λ r. r.0)
                  (map (λ x. row_from_message o folder_id x) (hydrate_bodies o (u ∷ us)))
                ++ xs)
              (flag_writes-upserted b.read_flags)
            ∙ append_nil _
            ∙ rows-ids folder_id (hydrate_bodies o (u ∷ us))
            ∙ hydrate_bodies-ids (u ∷ us)

    flush-dropped : (b : Buffer) → gather dropped (flush o folder_id now b) ≡ b.deletes
    unfolding flush
    flush-dropped b = go b.upserts b.deletes
      where
        tail :
            (ds : List String)
            → gather dropped
                (delete_writes o folder_id now ds ++ flag_writes o folder_id now b.read_flags)
              ≡ ds
        tail [] = flag_writes-dropped b.read_flags
        tail (d ∷ ds) =
            ap (λ xs. (d ∷ ds) ++ xs) (flag_writes-dropped b.read_flags) ∙ append_nil (d ∷ ds)

        go :
            (us : List Item) (ds : List String)
            → gather dropped (
                upsert_writes o folder_id now us
                ++ (delete_writes o folder_id now ds ++ flag_writes o folder_id now b.read_flags))
              ≡ ds
        go [] ds = tail ds
        go (u ∷ us) ds = tail ds

    flush-flagged : (b : Buffer) → gather flagged (flush o folder_id now b) ≡ b.read_flags
    unfolding flush
    flush-flagged b = go b.upserts b.deletes
      where
        go :
            (us : List Item) (ds : List String)
            → gather flagged (
                upsert_writes o folder_id now us
                ++ (delete_writes o folder_id now ds ++ flag_writes o folder_id now b.read_flags))
              ≡ b.read_flags
        go [] [] = flag_writes-flagged b.read_flags
        go [] (d ∷ ds) = flag_writes-flagged b.read_flags
        go (u ∷ us) [] = flag_writes-flagged b.read_flags
        go (u ∷ us) (d ∷ ds) = flag_writes-flagged b.read_flags

    -- A kind of request, how the buffer holds it and how the writes carry it.
    module _ {ℓ} {A : Type ℓ} (asks : Change → List A) (held : Buffer → List A)
        (carried : Write → List A)
        (buffered : (c : Change) (b : Buffer) → held (buffer c b) ≡ held b ++ asks c)
        (flushed : (b : Buffer) → gather carried (flush o folder_id now b) ≡ held b)
        (none_held : held empty ≡ []) where
      folder_writes-asked :
          (cs : List Change) (b : Buffer)
          → gather carried (folder_writes o folder_id now cs b) ≡ held b ++ asked asks cs
      unfolding folder_writes
      folder_writes-asked [] b = flushed b ∙ sym (append_nil (held b))
      folder_writes-asked (c ∷ cs) b =
          go (leb 200 (buffer c b).pending) (folder_writes-asked cs empty)
            (folder_writes-asked cs (buffer c b))
        where
          together : held (buffer c b) ++ asked asks cs ≡ held b ++ (asks c ++ asked asks cs)
          together =
              ap (λ xs. xs ++ asked asks cs) (buffered c b)
              ∙ append_assoc (held b) (asks c) (asked asks cs)

          go :
              (full : Bool)
              → gather carried (folder_writes o folder_id now cs empty)
                ≡ held empty ++ asked asks cs
              → gather carried (folder_writes o folder_id now cs (buffer c b))
                ≡ held (buffer c b) ++ asked asks cs
              → gather carried (
                  if full
                  then flush o folder_id now (buffer c b) ++ folder_writes o folder_id now cs empty
                  else folder_writes o folder_id now cs (buffer c b))
                ≡ held b ++ (asks c ++ asked asks cs)
          go true fresh on =
              gather-append carried (flush o folder_id now (buffer c b))
                (folder_writes o folder_id now cs empty)
              ∙ ap (λ xs. xs ++ gather carried (folder_writes o folder_id now cs empty))
                  (flushed (buffer c b))
              ∙ ap (λ xs. held (buffer c b) ++ xs)
                  (fresh ∙ ap (λ xs. xs ++ asked asks cs) none_held)
              ∙ together
          go false fresh on = on ∙ together

    buffer-upserts :
        (c : Change) (b : Buffer) → ids (buffer c b).upserts ≡ ids b.upserts ++ asks_upsert c
    unfolding buffer
    buffer-upserts (created i) b = add_item-upserts i b
    buffer-upserts (updated i) b = add_item-upserts i b
    buffer-upserts (deleted i) b = sym (append_nil (ids b.upserts))
    buffer-upserts (read_flag i r) b = sym (append_nil (ids b.upserts))
    buffer-upserts ignored b = sym (append_nil (ids b.upserts))

    buffer-deletes : (c : Change) (b : Buffer) → (buffer c b).deletes ≡ b.deletes ++ asks_delete c
    unfolding buffer
    buffer-deletes (created i) b = (add_item-others i b).0 ∙ sym (append_nil b.deletes)
    buffer-deletes (updated i) b = (add_item-others i b).0 ∙ sym (append_nil b.deletes)
    buffer-deletes (deleted i) b = refl
    buffer-deletes (read_flag i r) b = sym (append_nil b.deletes)
    buffer-deletes ignored b = sym (append_nil b.deletes)

    buffer-read_flags :
        (c : Change) (b : Buffer) → (buffer c b).read_flags ≡ b.read_flags ++ asks_flag c
    unfolding buffer
    buffer-read_flags (created i) b = (add_item-others i b).1 ∙ sym (append_nil b.read_flags)
    buffer-read_flags (updated i) b = (add_item-others i b).1 ∙ sym (append_nil b.read_flags)
    buffer-read_flags (deleted i) b = sym (append_nil b.read_flags)
    buffer-read_flags (read_flag i r) b = refl
    buffer-read_flags ignored b = sym (append_nil b.read_flags)

    -- The writes of a folder's delta, however it is cut into batches: they upsert the ids of the created
    -- and updated items that have one, delete those that Exchange deleted and set those read flags that
    -- it reports, each exactly once and in the order of the delta.
    pub folder_writes-Delta :
        (cs : List Change)
        → (gather upserted (folder_writes o folder_id now cs empty) ≡ asked asks_upsert cs)
          × (gather dropped (folder_writes o folder_id now cs empty) ≡ asked asks_delete cs)
          × (gather flagged (folder_writes o folder_id now cs empty) ≡ asked asks_flag cs)
    folder_writes-Delta cs = (
      folder_writes-asked asks_upsert (λ b. ids b.upserts) upserted buffer-upserts flush-upserted
          refl cs empty,
      folder_writes-asked asks_delete (λ b. b.deletes) dropped buffer-deletes flush-dropped refl cs
          empty,
      folder_writes-asked asks_flag (λ b. b.read_flags) flagged buffer-read_flags flush-flagged refl
          cs empty,
    )
