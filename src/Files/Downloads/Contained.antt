-- ===== src/Files/Downloads/Contained.antt =====
-- What a link of ewsmcp/downloads.py serves.
use mathlib.Core.Bool.{false≢true}
use exchange_mcp.Prelude.{
  ◌≡◌, refl, String, Bool, true, false, not, ◌||◌, if◌then◌else◌, str_eq, str_eq_refl,
}
use exchange_mcp.Prelude.Int.{ℤ, ltb_ℤ}
use exchange_mcp.Text.{Text}
use exchange_mcp.Files.Uploads.{is_token}
use exchange_mcp.Files.Downloads.{
  Target, Record, Link, absent, corrupt, valid, Links, Redeemed, served, rejected, raised,
  allowed_root, set_link, redeem_record, redeem_link, redeem,
}

module _ (resolve : Text → Target) (root : Target) (is_file : Target → Bool) (token : String) where
  -- No call serves the token, or changes anything.
  abbrev pub Spent : Links → Type 0
  Spent links =
      (now : ℤ) (burn_down : Bool)
      → redeem resolve root is_file now burn_down token links ≡ (rejected, links)

  -- What is served lies under `mime` or `blobs` and is a file, and the token is spent.
  abbrev pub Contained : Redeemed × Links → Type 0
  Contained (served target, links) =
      (allowed_root root target ≡ true) × (is_file target ≡ true) × Spent links
  Contained (rejected, links) = Unit
  Contained (raised, links) = Unit

  Spent-used : (links : Links) (r : Record) → links token ≡ valid r → r.used ≡ true → Spent links
  unfolding redeem
  Spent-used links r e u now down = go (is_token token) (links token) e
    where
      used :
          (b : Bool) (y : Redeemed × Links)
          → b ≡ true
          → (if b then (rejected, links) else y) ≡ (rejected, links)
      used true y h = refl
      used false y h = absurd (false≢true h)

      same : (x : Record) → valid x ≡ valid r → x.used ≡ true
      same x k = cc

      link :
          (l : Link)
          → l ≡ valid r
          → redeem_link resolve root is_file now down token l links ≡ (rejected, links)
      link absent h = cc
      link corrupt h = cc
      link (valid x) h = used x.used _ (same x h)

      go :
          (a : Bool) (l : Link)
          → l ≡ valid r
          → (if a
              then redeem_link resolve root is_file now down token l links
              else (rejected, links))
            ≡ (rejected, links)
      go true l h = link l h
      go false l h = refl

  redeem_record-Contained :
      (now : ℤ) (down : Bool) (r : Record) (links : Links)
      → Contained (redeem_record resolve root is_file now down token r links)
  redeem_record-Contained now down r links =
      go r.used (ltb_ℤ r.expires_at now) (allowed_root root target) refl (is_file target) refl down
    where
      target : Target
      target = resolve r.path

      spent : Links
      spent = set_link token (valid (record r { used = true })) links

      own :
          (b : Bool)
          → b ≡ true
          → (if b then valid (record r { used = true }) else links token)
            ≡ valid (record r { used = true })
      own true e = refl
      own false e = absurd (false≢true e)

      go :
          (a b c : Bool)
          → allowed_root root target ≡ c
          → (d : Bool) → is_file target ≡ d
          → (e : Bool)
          → Contained (
              if a
              then (rejected, links)
              else if b
              then (rejected, set_link token absent links)
              else if not c || not d
              then (rejected, links)
              else if e
              then (raised, links)
              else (served target, spent))
      go true b c ec d ed e = tt
      go false true c ec d ed e = tt
      go false false false ec d ed e = tt
      go false false true ec false ed e = tt
      go false false true ec true ed true = tt
      go false false true ec true ed false = (
        ec,
        ed,
        Spent-used spent (record r { used = true }) (own (str_eq token token) (str_eq_refl token))
            refl,
      )

  -- Whatever the record says, what a call serves is a file that resolves to a place under `mime` or
  -- `blobs` of the data directory, and no later call with the token serves or changes anything.
  pub redeem-Contained :
      (now : ℤ) (burn_down : Bool) (links : Links)
      → Contained (redeem resolve root is_file now burn_down token links)
  unfolding redeem
  redeem-Contained now down links = go (is_token token) (links token)
    where
      link : (l : Link) → Contained (redeem_link resolve root is_file now down token l links)
      link absent = tt
      link corrupt = tt
      link (valid r) = redeem_record-Contained now down r links

      go :
          (a : Bool) (l : Link)
          → Contained (
              if a
              then redeem_link resolve root is_file now down token l links
              else (rejected, links))
      go true l = link l
      go false l = tt
