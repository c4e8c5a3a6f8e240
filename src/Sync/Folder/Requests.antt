-- ===== src/Sync/Folder/Requests.antt =====
-- What the changes of a folder ask for, and what its writes carry.
use exchange_mcp.Prelude.{
  suc, String, ◌≡◌, refl, sym, ap, ◌∙◌, Bool, true, false, List, [], ◌∷◌, ◌++◌, append_nil,
  append_assoc, map-append, if◌then◌else◌, map,
}
use exchange_mcp.Store.Writes.{Write}
use exchange_mcp.Sync.Items.{Item, empty_text, Fetched, failed, got, fill, fill_all}
use exchange_mcp.Sync.Folder.{Change, created, updated, deleted, read_flag, Buffer, add_item}

-- What all the writes carry, in their order.
abbrev pub gather {ℓ} : {A : Type ℓ} → (Write → List A) → List Write → List A
gather f [] = []
gather f (w ∷ ws) = f w ++ gather f ws

pub gather-append {ℓ} :
    {A : Type ℓ} (f : Write → List A) (ws vs : List Write)
    → gather f (ws ++ vs) ≡ gather f ws ++ gather f vs
gather-append f [] vs = refl
gather-append f (w ∷ ws) vs =
    ap (λ xs. f w ++ xs) (gather-append f ws vs)
    ∙ sym (append_assoc (f w) (gather f ws) (gather f vs))

abbrev pub upserted : Write → List String
upserted (Write.upsert rows) = map (λ r. r.0) rows
upserted _ = []

abbrev pub dropped : Write → List String
dropped (Write.server_delete now ids) = ids
dropped _ = []

abbrev pub one_flag : Bool → List String → List (String × Bool)
one_flag r ids = map (λ i. (i, r)) ids

abbrev pub flagged : Write → List (String × Bool)
flagged (Write.read_flag ids r) = one_flag r ids
flagged _ = []

-- What one change asks for.
abbrev pub item_id : Item → List String
item_id item = if empty_text item.id then [] else item.id ∷ []

abbrev pub asks_upsert : Change → List String
asks_upsert (created item) = item_id item
asks_upsert (updated item) = item_id item
asks_upsert _ = []

abbrev pub asks_delete : Change → List String
asks_delete (deleted i) = i ∷ []
asks_delete _ = []

abbrev pub asks_flag : Change → List (String × Bool)
asks_flag (read_flag i r) = (i, r) ∷ []
asks_flag _ = []

abbrev pub asked {ℓ} : {A : Type ℓ} → (Change → List A) → List Change → List A
asked f [] = []
asked f (c ∷ cs) = f c ++ asked f cs

abbrev pub ids : List Item → List String
ids items = map (λ i. i.id) items

pub fill-id : (i : Item) (f : Fetched) → (fill i f).id ≡ i.id
fill-id i failed = refl
fill-id i (got text to ic atts) = refl

pub fill_all-ids : (items : List Item) (fs : List Fetched) → ids (fill_all items fs) ≡ ids items
unfolding fill_all
fill_all-ids [] fs = refl
fill_all-ids (i ∷ is) [] = refl
fill_all-ids (i ∷ is) (f ∷ fs) =
    ap (λ j. j ∷ ids (fill_all is fs)) (fill-id i f) ∙ ap (λ js. i.id ∷ js) (fill_all-ids is fs)

pub add_item-upserts :
    (i : Item) (b : Buffer) → ids (add_item i b).upserts ≡ ids b.upserts ++ item_id i
add_item-upserts i b = go (empty_text i.id)
  where
    go :
        (e : Bool)
        → ids
            (if e
              then b
              else record b { upserts = b.upserts ++ (i ∷ []); pending = suc b.pending }).upserts
          ≡ ids b.upserts ++ (if e then [] else i.id ∷ [])
    go true = sym (append_nil (ids b.upserts))
    go false = map-append (λ x. x.id) b.upserts (i ∷ [])

pub add_item-others :
    (i : Item) (b : Buffer)
    → ((add_item i b).deletes ≡ b.deletes) × ((add_item i b).read_flags ≡ b.read_flags)
add_item-others i b = go (empty_text i.id)
  where
    go :
        (e : Bool)
        → let b' =
            (if e
              then b
              else record b { upserts = b.upserts ++ (i ∷ []); pending = suc b.pending }) in
          (b'.deletes ≡ b.deletes) × (b'.read_flags ≡ b.read_flags)
    go true = (refl, refl)
    go false = (refl, refl)
