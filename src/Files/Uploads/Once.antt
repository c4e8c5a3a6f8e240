-- ===== src/Files/Uploads/Once.antt =====
-- How often a link of ewsmcp/uploads.py is redeemed.
use mathlib.Core.Bool.{false≢true}
use exchange_mcp.Prelude.{
  ℕ, String, ◌≡◌, refl, Bool, true, false, not, length, ltb, if◌then◌else◌, str_eq, str_eq_refl,
}
use exchange_mcp.Prelude.Int.{ℤ, ltb_ℤ}
use exchange_mcp.Text.{Text}
use exchange_mcp.Files.Uploads.{
  Record, Link, absent, corrupt, valid, World, Redeemed, stored, rejected, raised, is_token,
  safe_name, write_upload, set_link, name_or_default, redeem_record, redeem_link, redeem,
  max_upload,
}

module _ (is_word : ℕ → Bool) (token : String) where
  -- No call redeems the token, or changes anything.
  abbrev pub Spent : World → Type 0
  Spent w =
      (now : ℤ) (write_down burn_down : Bool) (body : Text)
      → redeem is_word now write_down burn_down token body w ≡ (rejected, w)

  -- What a call leaves: one file written and the token spent; or, refused, the same files.
  abbrev pub Once : Text → World → Redeemed × World → Type 0
  Once body w (stored name size, w') =
      (w'.uploads ≡ (write_upload is_word name body w).uploads) × (size ≡ length body) × Spent w'
  Once body w (rejected, w') = w'.uploads ≡ w.uploads
  Once body w (raised, w') = Unit

  Spent-used : (w : World) (r : Record) → w.links token ≡ valid r → r.used ≡ true → Spent w
  unfolding redeem
  Spent-used w r e u now wd bd body =
      go (not (is_token token)) (ltb max_upload (length body)) (w.links token) e
    where
      used :
          (b c : Bool) (x y z v : Redeemed × World)
          → b ≡ true
          → (if b then x else if c then y else z) ≡ x
      used true c x y z v h = refl
      used false c x y z v h = absurd (false≢true h)

      link : (l : Link) → l ≡ valid r → redeem_link is_word now wd bd token body l w ≡ (rejected, w)
      link absent h = cc
      link corrupt h = cc
      link (valid r') h = used r'.used (ltb_ℤ r'.expires_at now) _ _ _ (raised, w) (same r' h)
        where
          same : (x : Record) → valid x ≡ valid r → x.used ≡ true
          same x k = cc

      go :
          (a b : Bool) (l : Link)
          → l ≡ valid r
          → (if a
              then (rejected, w)
              else if b
              then (rejected, w)
              else redeem_link is_word now wd bd token body l w)
            ≡ (rejected, w)
      go true b l h = refl
      go false true l h = refl
      go false false l h = link l h

  redeem_record-Once :
      (now : ℤ) (wd bd : Bool) (body : Text) (r : Record) (w : World)
      → Once body w (redeem_record is_word now wd bd token body r w)
  redeem_record-Once now wd bd body r w = go r.used (ltb_ℤ r.expires_at now) wd bd
    where
      name : Text
      name = safe_name is_word (name_or_default is_word r.name)

      written : World
      written = write_upload is_word name body w

      spent : World
      spent = set_link is_word token (valid (record r { used = true })) written

      spent-link :
          (b : Bool)
          → b ≡ true
          → (if b then valid (record r { used = true }) else w.links token)
            ≡ valid (record r { used = true })
      spent-link true e = refl
      spent-link false e = absurd (false≢true e)

      go :
          (a b c d : Bool)
          → Once body w (
              if a
              then (rejected, w)
              else if b
              then (rejected, set_link is_word token absent w)
              else if c
              then (raised, w)
              else if d
              then (raised, written)
              else (stored name (length body), spent))
      go true b c d = refl
      go false true c d = refl
      go false false true d = tt
      go false false false true = tt
      go false false false false = (
        refl,
        refl,
        Spent-used spent (record r { used = true })
            (spent-link (str_eq token token) (str_eq_refl token)) refl,
      )

  -- A call that stores has written the body under one name and spent the token: no later call with
  -- it, at any time and with any body, stores or changes anything. A call that is refused changes
  -- no uploaded file.
  pub redeem-Once :
      (now : ℤ) (write_down burn_down : Bool) (body : Text) (w : World)
      → Once body w (redeem is_word now write_down burn_down token body w)
  unfolding redeem
  redeem-Once now wd bd body w =
      go (not (is_token token)) (ltb max_upload (length body)) (w.links token)
    where
      link : (l : Link) → Once body w (redeem_link is_word now wd bd token body l w)
      link absent = refl
      link corrupt = refl
      link (valid r) = redeem_record-Once now wd bd body r w

      go :
          (a b : Bool) (l : Link)
          → Once body w (
              if a
              then (rejected, w)
              else if b
              then (rejected, w)
              else redeem_link is_word now wd bd token body l w)
      go true b l = refl
      go false true l = refl
      go false false l = link l
