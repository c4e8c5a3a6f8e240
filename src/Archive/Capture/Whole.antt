-- ===== src/Archive/Capture/Whole.antt =====
-- What `_capture_one` of ewsmcp/archive/capture.py leaves on disk and in the store.
use exchange_mcp.Prelude.{
  String, ◌≡◌, Bool, true, false, ◌⊎◌, Option, none, some, List, [], ◌∷◌, All, length,
}
use exchange_mcp.Text.{Text}
use exchange_mcp.Archive.Files.{is_sha}
use exchange_mcp.Store.Rows.{Attachment, Store}
use exchange_mcp.Store.Archive.{mark_captured, reset_to_live, replace_attachments}
use exchange_mcp.Archive.Blobs.{Directory}
use exchange_mcp.Archive.Blobs.Kept.{Present}
use exchange_mcp.Archive.Capture.{Environment, World, Item, Part, file, nested, part_name}

-- The blob of an inventory row, if it has one, is on disk under its hash.
abbrev pub BlobThere : Environment → Directory → Option String → Type 0
BlobThere env blobs none = Unit
BlobThere env blobs (some sha) = Present env.sha256 sha blobs

-- The store after `mark_captured` and `replace_attachments`.
abbrev pub captured_store : Environment → String → Item → String → List Attachment → Store → Store
captured_store env raw_id it sha atts s =
    replace_attachments raw_id atts
      (mark_captured env.now raw_id sha (env.mime_path sha) it.changekey s).0

-- The store after a capture that did not end well: untouched, as the others left it, reset after
-- the inventory failed, or, if the reset raises too, captured without an inventory.
abbrev pub Undone : Environment → String → Item → Store → Store → Type 0
Undone env raw_id it s t =
    (t ≡ s)
    ⊎ (t ≡ env.others raw_id s)
    ⊎ ((sha : String) × (t
          ≡ (reset_to_live raw_id
              (mark_captured env.now raw_id sha (env.mime_path sha) it.changekey
                (env.others raw_id s)).0).0))
    ⊎ (env.reset_down raw_id ≡ true)

-- The inventory row of one part, written as the fields of `ews.attachments` should hold it: a file
-- is known by the hash of its bytes, a nested message has no blob.
abbrev pub OfPart : Environment → String → Part → Attachment → Type 0
OfPart env raw_id (file name content_type none inline) a = ⊥
OfPart env raw_id (file name content_type (some content) inline) a =
    (a.message_ews_id ≡ raw_id)
    × (a.name ≡ part_name name)
    × (a.content_type ≡ content_type)
    × (a.size ≡ some (length content))
    × (a.sha256 ≡ some (env.sha256 content))
    × (a.is_inline ≡ inline)
OfPart env raw_id (nested name size inline) a =
    (a.message_ews_id ≡ raw_id)
    × (a.name ≡ part_name name)
    × (a.content_type ≡ some "message/rfc822")
    × (a.size ≡ size)
    × (a.sha256 ≡ none)
    × (a.is_inline ≡ inline)

-- One inventory row for each part, in the parts' order.
abbrev pub Inventoried : Environment → String → List Part → List Attachment → Type 0
Inventoried env raw_id [] [] = Unit
Inventoried env raw_id (p ∷ ps) (a ∷ atts) = OfPart env raw_id p a × Inventoried env raw_id ps atts
Inventoried env raw_id _ _ = ⊥

-- What `_capture_one` leaves behind.
abbrev pub Whole : Environment → String → Item → Store → Bool × World → Type 0
Whole env raw_id it s (true, w) =
    (mime : Text) × (sha : String) × (atts : List Attachment) × (it.mime_content ≡ some mime)
    × (sha ≡ env.sha256 mime)
    × Inventoried env raw_id it.parts atts
    × (w.store ≡ captured_store env raw_id it sha atts (env.others raw_id s))
    × Present env.sha256 sha w.mimes
    × All (λ a. BlobThere env w.blobs a.sha256) atts
Whole env raw_id it s (false, w) = Undone env raw_id it s w.store

module _ (env : Environment) (temporary : (s : String) → is_sha (env.tmp s) ≡ false)
    (raw_id : String) where
  abbrev Keeps : String → World → World → Type 0
  Keeps n w w' =
      (w'.store ≡ w.store)
      × (w'.mimes ≡ w.mimes)
      × (Present env.sha256 n w.blobs → Present env.sha256 n w'.blobs)

  -- What the loop over the parts leaves: the store and the MIME files alone, and every blob that
  -- was there, and if it ends well the blobs of its rows.
  abbrev PartsKept : List Part → World → Option (List Attachment) × World → Type 0
  PartsKept parts w (atts, w') = ((n : String) → is_sha n ≡ true → Keeps n w w') × (elim atts [
    | none ↦ Unit
    | some rows ↦
        All (λ a. BlobThere env w'.blobs a.sha256) rows × Inventoried env raw_id parts rows
  ])

  -- Where the hash and the inventory of a capture come from.
  abbrev Source : Item → String → List Attachment → Type 0
  Source it sha atts =
      (mime : Text) × (it.mime_content ≡ some mime)
      × (sha ≡ env.sha256 mime)
      × Inventoried env raw_id it.parts atts
