-- ===== src/Archive/Blobs/Kept.antt =====
-- A stored file of ewsmcp/archive/files.py under later writes.
use mathlib.Core.Bool.{false≢true}
use exchange_mcp.Prelude.{
  String, ◌≡◌, refl, sym, ◌∙◌, Bool, true, false, not, ◌&&◌, Option, none, if◌then◌else◌, str_eq,
}
use exchange_mcp.Text.{Text}
use exchange_mcp.Archive.Files.{is_sha}
use exchange_mcp.Archive.Blobs.{
  Directory, Disk, set_file, holds, replace_if, write_verified, named, store_bytes,
}
use exchange_mcp.Archive.Blobs.Intact.{str_eq-apart, and-last, named-dir, holds_at}

module _ (sha256 : Text → String) where
  -- The file under the address `n` is there and whole.
  abbrev pub Present : String → Directory → Type 0
  Present n dir = holds sha256 n (dir n) ≡ true

  Present-if :
      (n : String) (b : Bool) (x y : Option Text)
      → (b ≡ true → holds sha256 n x ≡ true)
      → holds sha256 n y ≡ true
      → holds sha256 n (if b then x else y) ≡ true
  Present-if n true x y h k = h refl
  Present-if n false x y h k = k

  set_file-Present :
      (n name : String) (bytes : Option Text) (dir : Directory)
      → (str_eq n name ≡ true → holds sha256 n bytes ≡ true)
      → Present n dir
      → Present n (set_file name bytes dir)
  set_file-Present n name bytes dir h k = Present-if n (str_eq n name) bytes (dir n) h k

  replace_if-Present :
      (n : String) (b : Bool) (tmp sha : String) (dir : Directory)
      → str_eq n tmp ≡ false
      → (b ≡ true → holds sha256 sha (dir tmp) ≡ true)
      → Present n dir
      → Present n (replace_if sha256 b tmp sha dir).1
  replace_if-Present n true tmp sha dir t ok k =
      set_file-Present n tmp none (set_file sha (dir tmp) dir)
        (λ e. absurd (false≢true (sym t ∙ e)))
        (set_file-Present n sha (dir tmp) dir (λ e. holds_at sha256 n sha (dir tmp) e (ok refl)) k)
  replace_if-Present n false tmp sha dir t ok k =
      set_file-Present n tmp none dir (λ e. absurd (false≢true (sym t ∙ e))) k

  pub store_bytes-Present :
      (n : String)
      → is_sha n ≡ true
      → (disk : Disk) (tmp : String) → is_sha tmp ≡ false
      → (bytes : Text) (dir : Directory) → Present n dir
      → Present n (store_bytes sha256 disk tmp bytes dir).1
  unfolding store_bytes write_verified
  store_bytes-Present n hn disk tmp ht bytes dir k =
      go (is_sha (sha256 bytes)) (holds sha256 sha (dir sha))
    where
      sha : String
      sha = sha256 bytes

      apart : str_eq n tmp ≡ false
      apart = str_eq-apart n tmp hn ht

      written : Directory
      written = set_file tmp (disk.stored bytes) dir

      ok : Bool
      ok = not disk.write_raises && holds sha256 sha (written tmp) && not disk.replace_raises

      replaced : Present n (replace_if sha256 ok tmp sha written).1
      replaced =
          replace_if-Present n ok tmp sha written apart
            (and-last (not disk.write_raises) (holds sha256 sha (written tmp))
              (not disk.replace_raises))
            (set_file-Present n tmp (disk.stored bytes) dir
              (λ e. absurd (false≢true (sym apart ∙ e))) k)

      go :
          (a b : Bool)
          → Present n
              (if a
                then named sha256 sha
                    (if b then (true, dir) else replace_if sha256 ok tmp sha written)
                else (none, dir)).1
      go true true = k
      go true false = rw (named-dir sha256 sha (replace_if sha256 ok tmp sha written)) replaced
      go false b = k
