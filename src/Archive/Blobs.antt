-- ===== src/Archive/Blobs.antt =====
-- The writes of ewsmcp/archive/files.py: a temporary file, checked from disk, then renamed. A
-- directory is a function from names to bytes; the hash and what the disk does are parameters.
pub mod Intact
pub mod Kept
use exchange_mcp.Prelude.{
  String, Bool, true, false, not, ◌&&◌, Option, none, some, if◌then◌else◌, str_eq,
}
use exchange_mcp.Text.{Text}
use exchange_mcp.Archive.Files.{is_sha}

abbrev pub Directory : Type 0
Directory = String → Option Text

-- What the disk does to one write: the bytes that then lie under the temporary name, and whether
-- the write or the rename raises.
pub record Disk : Type 0 where
  pub stored : Text → Option Text
  pub write_raises : Bool
  pub replace_raises : Bool

abbrev pub set_file : String → Option Text → Directory → Directory
set_file name bytes dir = λ n. if str_eq n name then bytes else dir n

module _ (sha256 : Text → String) where
  abbrev pub holds : String → Option Text → Bool
  holds sha none = false
  holds sha (some bytes) = str_eq (sha256 bytes) sha

  -- `os.replace`, and the `finally` that unlinks the temporary file.
  abbrev pub replace_if : Bool → String → String → Directory → Bool × Directory
  replace_if true tmp sha dir = (true, set_file tmp none (set_file sha (dir tmp) dir))
  replace_if false tmp sha dir = (false, set_file tmp none dir)

  -- `_write_verified`; `false`: it raises.
  unfoldable pub write_verified : Disk → String → Text → String → Directory → Bool × Directory
  write_verified disk tmp bytes sha dir =
      let written = set_file tmp (disk.stored bytes) dir in
      let ok = not disk.write_raises && holds sha (written tmp) && not disk.replace_raises in
      if holds sha (dir sha) then (true, dir) else replace_if ok tmp sha written

  abbrev pub named : String → Bool × Directory → Option String × Directory
  named sha (true, dir) = (some sha, dir)
  named sha (false, dir) = (none, dir)

  -- `store_mime` and `store_blob`, each on its own directory: the address, or `none` if it raises.
  unfoldable pub store_bytes : Disk → String → Text → Directory → Option String × Directory
  unfolding is_sha write_verified
  store_bytes disk tmp bytes dir =
      let sha = sha256 bytes in
      let written = write_verified disk tmp bytes sha dir in
      if is_sha sha then named sha written else (none, dir)
