-- ===== src/Archive/Gc.antt =====
-- ewsmcp/archive/gc.py: the sweep of files that no row references. Times are whole seconds.
pub mod Keeps
use exchange_mcp.Prelude.{
  ℕ, suc, ◌+◌, String, Bool, true, false, not, ◌||◌, Option, none, some, List, [], ◌∷◌,
  if◌then◌else◌, mem_str,
}
use exchange_mcp.Prelude.Int.{ℤ, pos, ◌-ℤ◌, ltb_ℤ}
use exchange_mcp.Store.Rows.{Message, Attachment, Store}

-- What `rglob` finds: `key` is the name up to the first dot for a MIME file, the name for a blob.
pub record Entry : Type 0 where
  pub key : String
  pub is_file : Bool
  pub mtime : ℤ
  pub size : ℕ
  pub unlink_fails : Bool

pub record Tally : Type 0 where
  pub scanned : ℕ
  pub removed_files : ℕ
  pub removed_bytes : ℕ
  pub kept_recent : ℕ

abbrev pub min_age : ℤ
min_age = pos 86_400

abbrev pub recent : ℤ → Entry → Bool
recent now e = ltb_ℤ (now -ℤ e.mtime) min_age

-- One file: the new tally, and whether it is still there.
unfoldable pub sweep_one : List String → ℤ → Bool → Entry → Tally → Tally × Bool
sweep_one keep now dry_run e t =
    let seen : Tally = record t { scanned = suc t.scanned } in
    if not e.is_file
    then (t, true)
    else if mem_str e.key keep
    then (seen, true)
    else if recent now e
    then (record seen { kept_recent = suc seen.kept_recent }, true)
    else (
      record seen {
        removed_files = suc seen.removed_files;
        removed_bytes = seen.removed_bytes + e.size;
      },
      dry_run || e.unlink_fails,
    )

abbrev pub keep_entry : Bool → Entry → Tally × List Entry → Tally × List Entry
keep_entry true e (t, es) = (t, e ∷ es)
keep_entry false e (t, es) = (t, es)

-- One directory: the tally, and the entries that are left.
unfoldable pub sweep : List String → ℤ → Bool → List Entry → Tally → Tally × List Entry
unfolding sweep_one
sweep keep now dry_run [] t = (t, [])
sweep keep now dry_run (e ∷ es) t =
    let (t', stays) = sweep_one keep now dry_run e t in
    keep_entry stays e (sweep keep now dry_run es t')

abbrev pub add_sha : Option String → List String → List String
add_sha none shas = shas
add_sha (some sha) shas = sha ∷ shas

-- SELECT DISTINCT … IS NOT NULL, of which a set is made.
unfoldable pub referenced_mime_shas : List Message → List String
referenced_mime_shas [] = []
referenced_mime_shas (m ∷ ms) = add_sha m.mime_sha256 (referenced_mime_shas ms)

unfoldable pub referenced_blob_shas : List Attachment → List String
referenced_blob_shas [] = []
referenced_blob_shas (a ∷ rest) = add_sha a.sha256 (referenced_blob_shas rest)

pub record Folders : Type 0 where
  pub mimes : List Entry
  pub blobs : List Entry

-- `GcWorker._run`, with a missing directory as an empty one.
unfoldable pub run : ℤ → Bool → Store → Folders → Tally × Folders
unfolding sweep referenced_mime_shas referenced_blob_shas
run now dry_run s f =
    let zero_tally : Tally = record {
      scanned = 0;
      removed_files = 0;
      removed_bytes = 0;
      kept_recent = 0;
    } in
    let (t, mimes) = sweep (referenced_mime_shas s.messages) now dry_run f.mimes zero_tally in
    let (t', blobs) = sweep (referenced_blob_shas s.attachments) now dry_run f.blobs t in
    (t', record { mimes = mimes; blobs = blobs })
