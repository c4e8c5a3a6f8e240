-- ===== src/Archive/Blobs/Intact.antt =====
-- The files under content addresses of ewsmcp/archive/files.py.
use mathlib.Core.Bool.{false≢true}
use exchange_mcp.Prelude.{
  String, ◌≡◌, refl, ap, sym, ◌∙◌, Bool, true, false, not, ◌&&◌, Option, none, some, if◌then◌else◌,
  str_eq, str_eq_refl, str_eq-eq, ◌⊎◌, inl, inr, arith, Bool-cases,
}
use exchange_mcp.Text.{Text}
use exchange_mcp.Archive.Files.{is_sha}
use exchange_mcp.Archive.Blobs.{
  Directory, Disk, set_file, holds, replace_if, write_verified, named, store_bytes,
}

pub and-last : (a b c : Bool) → (a && b && c) ≡ true → b ≡ true
and-last a b c h = ground arith

pub str_eq-apart : (a b : String) → is_sha a ≡ true → is_sha b ≡ false → str_eq a b ≡ false
str_eq-apart a b ha hb = elim (Bool-cases (str_eq a b)) [
  | inl e ↦ absurd (false≢true (sym hb ∙ ap is_sha (sym (str_eq-eq a b e)) ∙ ha))
  | inr e ↦ e
]

module _ (sha256 : Text → String) where
  -- Every file under a content address hashes to its name.
  abbrev pub Intact : Directory → Type 0
  Intact dir = (n : String) → is_sha n ≡ true → (dir n ≡ none) ⊎ (holds sha256 n (dir n) ≡ true)

  set_file-none : (tmp : String) (dir : Directory) → Intact dir → Intact (set_file tmp none dir)
  set_file-none tmp dir h n e = go (str_eq n tmp)
    where
      go :
          (b : Bool)
          → ((if b then none else dir n) ≡ none)
            ⊎ (holds sha256 n (if b then none else dir n) ≡ true)
      go true = inl refl
      go false = h n e

  set_file-Intact :
      (name : String) (bytes : Option Text) (dir : Directory)
      → (is_sha name ≡ true → holds sha256 name bytes ≡ true)
      → Intact dir
      → Intact (set_file name bytes dir)
  set_file-Intact name bytes dir ok h n e = go (str_eq n name) refl
    where
      go :
          (b : Bool)
          → str_eq n name ≡ b
          → ((if b then bytes else dir n) ≡ none)
            ⊎ (holds sha256 n (if b then bytes else dir n) ≡ true)
      go true eb = inr (rw (str_eq-eq n name eb) (ok (ap is_sha (sym (str_eq-eq n name eb)) ∙ e)))
      go false eb = h n e

  pub holds_at :
      (n sha : String) (bytes : Option Text)
      → str_eq n sha ≡ true
      → holds sha256 sha bytes ≡ true
      → holds sha256 n bytes ≡ true
  holds_at n sha bytes e h = rw (str_eq-eq n sha e) h

  replace_if-Intact :
      (b : Bool) (tmp sha : String) (dir : Directory)
      → (b ≡ true → holds sha256 sha (dir tmp) ≡ true)
      → Intact (set_file tmp none dir)
      → Intact dir
      → Intact (replace_if sha256 b tmp sha dir).1
  replace_if-Intact true tmp sha dir ok h k =
      set_file-none tmp _ (set_file-Intact sha (dir tmp) dir (λ e. ok refl) k)
  replace_if-Intact false tmp sha dir ok h k = h

  -- The temporary name is not a content address.
  Temporary : String → Type 0
  Temporary tmp = is_sha tmp ≡ false

  pub named-dir : (sha : String) (r : Bool × Directory) → (named sha256 sha r).1 ≡ r.1
  named-dir sha (true, dir) = refl
  named-dir sha (false, dir) = refl

  write_verified-Intact :
      (disk : Disk) (tmp : String)
      → is_sha tmp ≡ false
      → (bytes : Text) (sha : String) (dir : Directory) → Intact dir
      → Intact (write_verified sha256 disk tmp bytes sha dir).1
  unfolding write_verified
  write_verified-Intact disk tmp t bytes sha dir h = go (holds sha256 sha (dir sha))
    where
      written : Directory
      written = set_file tmp (disk.stored bytes) dir

      ok : Bool
      ok = not disk.write_raises && holds sha256 sha (written tmp) && not disk.replace_raises

      written-Intact : Intact written
      written-Intact =
          set_file-Intact tmp (disk.stored bytes) dir (λ e. absurd (false≢true (sym t ∙ e))) h

      go : (b : Bool) → Intact (if b then (true, dir) else replace_if sha256 ok tmp sha written).1
      go true = h
      go false =
          replace_if-Intact ok tmp sha written
            (and-last (not disk.write_raises) (holds sha256 sha (written tmp))
              (not disk.replace_raises))
            (set_file-none tmp written written-Intact) written-Intact

  -- Whatever the disk does with the bytes, also if it raises half-way, no file under a content
  -- address is left that does not hash to its name, provided that there was none and that the
  -- temporary name is not itself a content address.
  pub store_bytes-Intact :
      (disk : Disk) (tmp : String)
      → is_sha tmp ≡ false
      → (bytes : Text) (dir : Directory) → Intact dir
      → Intact (store_bytes sha256 disk tmp bytes dir).1
  unfolding store_bytes
  store_bytes-Intact disk tmp t bytes dir h = go (is_sha (sha256 bytes))
    where
      written : Bool × Directory
      written = write_verified sha256 disk tmp bytes (sha256 bytes) dir

      go : (b : Bool) → Intact (if b then named sha256 (sha256 bytes) written else (none, dir)).1
      go true =
          rw (named-dir (sha256 bytes) written)
            (write_verified-Intact disk tmp t bytes (sha256 bytes) dir h)
      go false = h

  -- What `store_bytes` answers: an address only if its file is there and hashes to it.
  abbrev pub Stored : Text → Option String × Directory → Type 0
  Stored bytes (none, dir) = Unit
  Stored bytes (some sha, dir) =
      (sha ≡ sha256 bytes) × (is_sha sha ≡ true) × (holds sha256 sha (dir sha) ≡ true)

  if-holds :
      (a b : Bool) (sha : String) (x y z : Option Text)
      → a ≡ false
      → b ≡ true
      → holds sha256 sha y ≡ true
      → holds sha256 sha (if a then x else if b then y else z) ≡ true
  if-holds true b sha x y z ea eb h = absurd (false≢true (sym ea))
  if-holds false true sha x y z ea eb h = h
  if-holds false false sha x y z ea eb h = absurd (false≢true eb)

  named-Stored :
      (bytes : Text) (r : Bool × Directory)
      → is_sha (sha256 bytes) ≡ true
      → (r.0 ≡ true → holds sha256 (sha256 bytes) (r.1 (sha256 bytes)) ≡ true)
      → Stored bytes (named sha256 (sha256 bytes) r)
  named-Stored bytes (true, dir) e h = (refl, e, h refl)
  named-Stored bytes (false, dir) e h = tt

  write_verified-holds :
      (disk : Disk) (tmp : String) (bytes : Text) (sha : String) (dir : Directory)
      → is_sha tmp ≡ false
      → is_sha sha ≡ true
      → (write_verified sha256 disk tmp bytes sha dir).0 ≡ true
      → holds sha256 sha ((write_verified sha256 disk tmp bytes sha dir).1 sha) ≡ true
  unfolding write_verified
  write_verified-holds disk tmp bytes sha dir ht hs = go (holds sha256 sha (dir sha)) refl ok refl
    where
      written : Directory
      written = set_file tmp (disk.stored bytes) dir

      ok : Bool
      ok = not disk.write_raises && holds sha256 sha (written tmp) && not disk.replace_raises

      go :
          (b : Bool)
          → holds sha256 sha (dir sha) ≡ b
          → (c : Bool) → ok ≡ c
          → (if b then (true, dir) else replace_if sha256 c tmp sha written).0 ≡ true
          → holds sha256 sha
              ((if b then (true, dir) else replace_if sha256 c tmp sha written).1 sha)
            ≡ true
      go true eb c ec h = eb
      go false eb true ec h =
          if-holds (str_eq sha tmp) (str_eq sha sha) sha none (written tmp) (written sha)
            (str_eq-apart sha tmp hs ht) (str_eq_refl sha)
            (and-last (not disk.write_raises) (holds sha256 sha (written tmp))
              (not disk.replace_raises) ec)
      go false eb false ec h = absurd (false≢true h)

  -- An address that `store_bytes` answers is the hash of the bytes that it was given, and the file
  -- under it hashes to that address, unless the temporary name is itself a content address.
  pub store_bytes-Stored :
      (disk : Disk) (tmp : String)
      → is_sha tmp ≡ false
      → (bytes : Text) (dir : Directory) → Stored bytes (store_bytes sha256 disk tmp bytes dir)
  unfolding store_bytes
  store_bytes-Stored disk tmp t bytes dir = go (is_sha (sha256 bytes)) refl
    where
      written : Bool × Directory
      written = write_verified sha256 disk tmp bytes (sha256 bytes) dir

      go :
          (b : Bool)
          → is_sha (sha256 bytes) ≡ b
          → Stored bytes (if b then named sha256 (sha256 bytes) written else (none, dir))
      go true e =
          named-Stored bytes written e (write_verified-holds disk tmp bytes (sha256 bytes) dir t e)
      go false e = tt
