-- ===== src/Archive/Gc/Keeps.antt =====
-- What the sweep of ewsmcp/archive/gc.py leaves.
use exchange_mcp.Prelude.{
  ℕ, suc, String, ◌≡◌, refl, sym, ◌∙◌, ap, Bool, true, false, not, ◌||◌, Option, none, some, List,
  [], ◌∷◌, if◌then◌else◌, str_eq, str_eq_refl, str_eq-eq, mem_str, select, count, All, All-map,
  arith,
}
use exchange_mcp.Prelude.Int.{ℤ}
use exchange_mcp.Store.Rows.{Message, Attachment, Store}
use exchange_mcp.Archive.Gc.{
  Entry, Tally, Folders, recent, sweep_one, sweep, keep_entry, add_sha, referenced_mime_shas,
  referenced_blob_shas, run,
}

-- The entries that a sweep does not remove.
abbrev pub stays : List String → ℤ → Bool → Entry → Bool
stays keep now dry_run e =
    not e.is_file || (mem_str e.key keep || (recent now e || (dry_run || e.unlink_fails)))

abbrev left : Tally × Bool → Bool
left r = r.1

sweep_one-stays :
    (keep : List String) (now : ℤ) (dry_run : Bool) (e : Entry) (t : Tally)
    → (sweep_one keep now dry_run e t).1 ≡ stays keep now dry_run e
unfolding sweep_one
sweep_one-stays keep now dry_run e t = go e.is_file (mem_str e.key keep) (recent now e) _ _ _ _
  where
    go :
        (a b c : Bool) (u v w x : Tally)
        → left (
            if not a
            then (u, true)
            else if b
            then (v, true)
            else if c
            then (w, true)
            else (x, dry_run || e.unlink_fails))
          ≡ (not a || (b || (c || (dry_run || e.unlink_fails))))
    go false b c u v w x = refl
    go true true c u v w x = refl
    go true false true u v w x = refl
    go true false false u v w x = refl

sweep-select :
    (keep : List String) (now : ℤ) (dry_run : Bool) (es : List Entry) (t : Tally)
    → (sweep keep now dry_run es t).1 ≡ select (stays keep now dry_run) es
unfolding sweep
sweep-select keep now dry_run [] t = refl
sweep-select keep now dry_run (e ∷ es) t =
    one (sweep_one keep now dry_run e t).1
      (sweep keep now dry_run es (sweep_one keep now dry_run e t).0)
      (sweep_one-stays keep now dry_run e t)
      (sweep-select keep now dry_run es (sweep_one keep now dry_run e t).0)
  where
    one :
        (b : Bool) (r : Tally × List Entry)
        → b ≡ stays keep now dry_run e
        → r.1 ≡ select (stays keep now dry_run) es
        → (keep_entry b e r).1 ≡ (
            if stays keep now dry_run e
            then e ∷ select (stays keep now dry_run) es
            else select (stays keep now dry_run) es)
    one true r h k = rw (sym h) (ap (λ (xs : List Entry). e ∷ xs) k)
    one false r h k = rw (sym h) k

abbrev with_key : String → Entry → Bool
with_key sha e = str_eq e.key sha

-- As many entries with the address as before; nothing is asked of a row without one.
abbrev pub Unswept : List Entry → List Entry → Option String → Type 0
Unswept before after none = Unit
Unswept before after (some sha) =
    count (λ e. str_eq e.key sha) after ≡ count (λ e. str_eq e.key sha) before

count-select :
    (p q : Entry → Bool)
    → ((e : Entry) → p e ≡ true → q e ≡ true)
    → (es : List Entry) → count p (select q es) ≡ count p es
count-select p q h [] = refl
count-select p q h (e ∷ es) = one (p e) refl (q e) refl (count-select p q h es)
  where
    one :
        (a : Bool)
        → p e ≡ a
        → (b : Bool) → q e ≡ b
        → count p (select q es) ≡ count p es
        → count p (if b then e ∷ select q es else select q es)
          ≡ (if a then suc (count p es) else count p es)
    one a ea true eb k = rw ea (ap (λ (n : ℕ). if a then suc n else n) k)
    one true ea false eb k = absurd (clash (sym eb ∙ h e ea))
      where
        clash : false ≡ true → ⊥
        clash c = cc
    one false ea false eb k = k

mem-stays :
    (keep : List String) (now : ℤ) (dry_run : Bool) (sha : String)
    → mem_str sha keep ≡ true
    → (e : Entry) → with_key sha e ≡ true
    → stays keep now dry_run e ≡ true
mem-stays keep now dry_run sha h e k =
    kept e.is_file (mem_str e.key keep) (recent now e || (dry_run || e.unlink_fails))
      (ap (λ (j : String). mem_str j keep) (str_eq-eq e.key sha k) ∙ h)
  where
    kept : (a b c : Bool) → b ≡ true → (not a || (b || c)) ≡ true
    kept a b c h = ground arith

-- Each row's address is on the list of those to keep.
abbrev Listed : List String → Option String → Type 0
Listed keep none = Unit
Listed keep (some sha) = mem_str sha keep ≡ true

Listed-add : (o p : Option String) (keep : List String) → Listed keep p → Listed (add_sha o keep) p
Listed-add none p keep h = h
Listed-add (some sha) none keep h = tt
Listed-add (some sha) (some x) keep h = or_true (str_eq sha x) (mem_str x keep) h
  where
    or_true : (a b : Bool) → b ≡ true → (a || b) ≡ true
    or_true a b e = ground arith

Listed-head : (o : Option String) (keep : List String) → Listed (add_sha o keep) o
Listed-head none keep = tt
Listed-head (some sha) keep = ap (λ (b : Bool). b || mem_str sha keep) (str_eq_refl sha)

mime_shas-Listed :
    (ms : List Message) → All (λ m. Listed (referenced_mime_shas ms) m.mime_sha256) ms
unfolding referenced_mime_shas
mime_shas-Listed [] = tt
mime_shas-Listed (m ∷ ms) = (
  Listed-head m.mime_sha256 (referenced_mime_shas ms),
  All-map _ _ (λ x h. Listed-add m.mime_sha256 x.mime_sha256 (referenced_mime_shas ms) h) ms
      (mime_shas-Listed ms),
)

blob_shas-Listed :
    (rows : List Attachment) → All (λ a. Listed (referenced_blob_shas rows) a.sha256) rows
unfolding referenced_blob_shas
blob_shas-Listed [] = tt
blob_shas-Listed (a ∷ rest) = (
  Listed-head a.sha256 (referenced_blob_shas rest),
  All-map _ _ (λ x h. Listed-add a.sha256 x.sha256 (referenced_blob_shas rest) h) rest
      (blob_shas-Listed rest),
)

Unswept-Listed :
    (keep : List String) (now : ℤ) (dry_run : Bool) (es : List Entry) (t : Tally)
    (o : Option String)
    → Listed keep o
    → Unswept es (sweep keep now dry_run es t).1 o
Unswept-Listed keep now dry_run es t none h = tt
Unswept-Listed keep now dry_run es t (some sha) h =
    rw (sweep-select keep now dry_run es t)
      (count-select (with_key sha) (stays keep now dry_run) (mem-stays keep now dry_run sha h) es)

-- The sweep leaves every MIME file that a message references and every blob that an attachment
-- references, however old, and all else that is recent, no file, or could not be removed.
pub run-Unswept :
    (now : ℤ) (dry_run : Bool) (s : Store) (f : Folders)
    → All (λ m. Unswept f.mimes (run now dry_run s f).1.mimes m.mime_sha256) s.messages
      × All (λ a. Unswept f.blobs (run now dry_run s f).1.blobs a.sha256) s.attachments
      × ((run now dry_run s f).1.mimes
          ≡ select (stays (referenced_mime_shas s.messages) now dry_run) f.mimes)
      × ((run now dry_run s f).1.blobs
          ≡ select (stays (referenced_blob_shas s.attachments) now dry_run) f.blobs)
unfolding run
run-Unswept now dry_run s f = (
  All-map _ _ (λ m h. Unswept-Listed _ now dry_run f.mimes _ m.mime_sha256 h) s.messages
      (mime_shas-Listed s.messages),
  All-map _ _ (λ a h. Unswept-Listed _ now dry_run f.blobs _ a.sha256 h) s.attachments
      (blob_shas-Listed s.attachments),
  sweep-select _ now dry_run f.mimes _,
  sweep-select _ now dry_run f.blobs _,
)
