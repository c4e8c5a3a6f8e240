-- ===== src/Archive/Files.antt =====
-- The checks of an archive copy against the disk: ewsmcp/archive/files.py and what
-- ewsmcp/archive/delete.py and verify.py read through it. A disk is what a look at it finds: for a
-- content address the hash of the MIME file that stands there, or the size of the blob.
use exchange_mcp.Prelude.{
  ℕ, zero, suc, String, Bool, true, false, ◌&&◌, ◌||◌, Option, none, some, List, [], ◌∷◌,
  if◌then◌else◌, str_eq, leb, ◌==◌,
}
use exchange_mcp.Text.{Text, codes}
use exchange_mcp.Store.Rows.{Attachment}

pub record Disk : Type 0 where
  pub mime : String → Option String
  pub blob : String → Option ℕ

abbrev pub is_hex : ℕ → Bool
is_hex c = (leb b'0' c && leb c b'9') || (leb b'a' c && leb c b'f')

-- `^[0-9a-f]{n}$`, whose `$` also stands before a final line feed.
abbrev pub hex_chars : ℕ → Text → Bool
hex_chars zero [] = true
hex_chars zero (c ∷ []) = c == 10
hex_chars zero (c ∷ d ∷ s) = false
hex_chars (suc n) [] = false
hex_chars (suc n) (c ∷ s) = is_hex c && hex_chars n s

unfoldable pub is_sha : String → Bool
is_sha sha = hex_chars 64 (codes sha)

pub data Problem : Type 0 where
  no_sha mime_missing mime_mismatch : Problem
  blob_missing : String → Problem
  blob_size : String → ℕ → ℕ → Problem

pub data Error : Type 0 where
  invalid_sha store_error : Error

pub data Check : Type 0 where
  passed : Check
  problem : Problem → Check
  raised : Error → Check

abbrev pub truthy : Option String → Bool
truthy none = false
truthy (some s) = if str_eq s "" then false else true

abbrev pub size_ok : Option ℕ → ℕ → Bool
size_ok none found = true
size_ok (some n) found = found == n

abbrev pub recorded_size : Option ℕ → ℕ
recorded_size none = 0
recorded_size (some n) = n

-- One attachment row: without a sha it lives inside the MIME, and nothing is checked.
unfoldable pub check_blob : Disk → Attachment → Check
unfolding is_sha
check_blob disk att = elim att.sha256 [
  | none ↦ passed
  | some sha ↦
      if str_eq sha ""
      then passed
      else if is_sha sha
      then (elim (disk.blob sha) [
        | none ↦ problem (blob_missing att.name)
        | some size ↦
            if size_ok att.size size
            then passed
            else problem (blob_size att.name size (recorded_size att.size))
      ])
      else raised invalid_sha
]

abbrev pub and_then : Check → Check → Check
and_then passed next = next
and_then (problem p) next = problem p
and_then (raised e) next = raised e

unfoldable pub check_blobs : Disk → List Attachment → Check
unfolding check_blob
check_blobs disk [] = passed
check_blobs disk (att ∷ atts) =
    let rest = check_blobs disk atts in and_then (check_blob disk att) rest

-- The `for att in self.store.attachments_for(…)`; `none`: the query raised.
abbrev pub check_inventory : Disk → Option (List Attachment) → Check
check_inventory disk none = raised store_error
check_inventory disk (some atts) = check_blobs disk atts

-- The MIME file exists and still hashes to its name, and every recorded blob is there.
unfoldable pub check_copy : Disk → String → Option (List Attachment) → Check
unfolding is_sha check_blobs
check_copy disk sha atts =
    if is_sha sha
    then (elim (disk.mime sha) [
      | none ↦ problem mime_missing
      | some hash ↦ if str_eq hash sha then check_inventory disk atts else problem mime_mismatch
    ])
    else raised invalid_sha
