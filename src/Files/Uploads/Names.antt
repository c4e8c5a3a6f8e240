-- ===== src/Files/Uploads/Names.antt =====
-- The sanitised names of ewsmcp/uploads.py.
use mathlib.Core.Bool.{false≢true}
use exchange_mcp.Prelude.{
  ℕ, ◌≡◌, refl, Bool, true, false, ◌||◌, [], ◌∷◌, if◌then◌else◌, ◌==◌, All, All-if,
}
use exchange_mcp.Text.{Text, codes, split_on}
use exchange_mcp.Files.Uploads.{
  harmless, substitute, trimmed, push_left, lstrip, rstrip, last_part, or_default, safe_name,
}

module _ (is_word : ℕ → Bool) (underscore : is_word b'_' ≡ true) where
  abbrev pub Plain : Text → Type 0
  Plain s = All (λ c. harmless is_word c ≡ true) s

  word-harmless : (c : ℕ) → is_word c ≡ true → harmless is_word c ≡ true
  word-harmless c e = go (is_word c) e
    where
      go : (b : Bool) → b ≡ true → (b || (c == b'.' || c == b'-')) ≡ true
      go true h = refl
      go false h = absurd (false≢true h)

  substitute-Plain : (replaced : Bool) (s : Text) → Plain (substitute is_word replaced s)
  unfolding substitute
  substitute-Plain replaced [] = tt
  substitute-Plain replaced (c ∷ s) =
      go (harmless is_word c) refl replaced (substitute-Plain false s) (substitute-Plain true s)
    where
      go :
          (b : Bool)
          → harmless is_word c ≡ b
          → (d : Bool) → Plain (substitute is_word false s)
          → Plain (substitute is_word true s)
          → Plain (
              if b
              then c ∷ substitute is_word false s
              else if d
              then substitute is_word true s
              else b'_' ∷ substitute is_word true s)
      go true e d h k = (e, h)
      go false e true h k = k
      go false e false h k = (word-harmless b'_' underscore, k)

  lstrip-Plain : (s : Text) → Plain s → Plain (lstrip s)
  unfolding lstrip
  lstrip-Plain [] h = tt
  lstrip-Plain (c ∷ s) h = All-if _ (trimmed c) _ _ (lstrip-Plain s h.1) h

  rstrip-Plain : (s : Text) → Plain s → Plain (rstrip s)
  unfolding rstrip
  rstrip-Plain [] h = tt
  rstrip-Plain (c ∷ s) h = push (rstrip s) (rstrip-Plain s h.1)
    where
      push : (r : Text) → Plain r → Plain (push_left c r)
      push [] k = All-if _ (trimmed c) _ _ tt (h.0, tt)
      push (d ∷ r) k = (h.0, k)

  -- Not empty, and without a dot or an underscore in front.
  abbrev pub Fronted : Text → Type 0
  Fronted [] = ⊥
  Fronted (c ∷ s) = trimmed c ≡ false

  -- The first character, if there is one.
  abbrev StartsClean : Text → Type 0
  StartsClean [] = Unit
  StartsClean (c ∷ s) = trimmed c ≡ false

  lstrip-StartsClean : (s : Text) → StartsClean (lstrip s)
  unfolding lstrip
  lstrip-StartsClean [] = tt
  lstrip-StartsClean (c ∷ s) = go (trimmed c) refl (lstrip-StartsClean s)
    where
      go :
          (b : Bool)
          → trimmed c ≡ b
          → StartsClean (lstrip s)
          → StartsClean (if b then lstrip s else c ∷ s)
      go true e h = h
      go false e h = e

  rstrip-StartsClean : (s : Text) → StartsClean s → StartsClean (rstrip s)
  unfolding rstrip
  rstrip-StartsClean [] h = tt
  rstrip-StartsClean (c ∷ s) h = push (rstrip s)
    where
      single : (b : Bool) → trimmed c ≡ b → StartsClean (if b then [] else c ∷ [])
      single true e = tt
      single false e = e

      push : (r : Text) → StartsClean (push_left c r)
      push [] = single (trimmed c) refl
      push (d ∷ r) = h

  or_default-Fronted : (s : Text) → StartsClean s → Fronted (or_default is_word s)
  or_default-Fronted [] h = refl
  or_default-Fronted (c ∷ s) h = h

  or_default-Plain :
      Plain (codes "upload.bin") → (s : Text) → Plain s → Plain (or_default is_word s)
  or_default-Plain d [] h = d
  or_default-Plain d (c ∷ s) h = h

  -- If the regular expressions count the underscore and the letters of the default name as word
  -- characters, the sanitised name of any text is not empty, has no dot or underscore in front, and
  -- consists of word characters, dots and dashes: no separator, if that is no word character.
  pub safe_name-Plain :
      Plain (codes "upload.bin")
      → (name : Text) → Plain (safe_name is_word name) × Fronted (safe_name is_word name)
  unfolding safe_name
  safe_name-Plain d name =
      let s = substitute is_word false (last_part (split_on b'/' name) []) in
      let t = rstrip (lstrip s) in
      (
        or_default-Plain d t (rstrip-Plain (lstrip s) (lstrip-Plain s (substitute-Plain false _))),
        or_default-Fronted t (rstrip-StartsClean (lstrip s) (lstrip-StartsClean s)),
      )
