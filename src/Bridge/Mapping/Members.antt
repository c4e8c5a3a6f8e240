-- ===== src/Bridge/Mapping/Members.antt =====
-- The members of the chats of ewsmcp/bridge/mapping.py.
use mathlib.Core.Bool.{false≢true}
use exchange_mcp.Prelude.{
  Option, none, some, or_false, ◌≡◌, refl, sym, ◌∙◌, ap, Bool, true, false, ◌&&◌, ◌||◌, List, [],
  ◌∷◌, if◌then◌else◌, arith,
}
use exchange_mcp.Text.{Text, same_text, same_text_refl, same_text-eq, mem_text, mem_text-append}
use exchange_mcp.Bridge.Mapping.{
  Parsed, unreadable, no_list, entries, Entry, address, person, other, Recipient, filled,
  entry_recipient, recipients_of, parsed_recipients, recipients, sender_of, emails_of, Row, Convo,
  add_members, add_row, addresses, fold_rows,
}

mem-if :
    (x y : Text) (ms : List Text)
    → mem_text x (if mem_text y ms then ms else y ∷ ms) ≡ (mem_text x ms || same_text y x)
mem-if x y ms = go (mem_text y ms) refl (same_text y x) refl
  where
    or_false : (b : Bool) → b ≡ (b || false)
    or_false b = ground arith

    or_true : (b : Bool) → b ≡ true → b ≡ (b || true)
    or_true b e = ground arith

    or_comm : (b c : Bool) → (c || b) ≡ (b || c)
    or_comm b c = ground arith

    go :
        (b : Bool)
        → mem_text y ms ≡ b
        → (c : Bool) → same_text y x ≡ c
        → mem_text x (if b then ms else y ∷ ms) ≡ (mem_text x ms || c)
    go true e false f = or_false (mem_text x ms)
    go true e true f =
        or_true (mem_text x ms) (ap (λ (z : Text). mem_text z ms) (sym (same_text-eq y x f)) ∙ e)
    go false e c f = rw f (or_comm (mem_text x ms) c)

mem-add_members :
    (x : Text) (xs ms : List Text)
    → mem_text x (add_members xs ms) ≡ (mem_text x ms || mem_text x xs)
unfolding add_members
mem-add_members x [] ms = or_false (mem_text x ms)
  where
    or_false : (b : Bool) → b ≡ (b || false)
    or_false b = ground arith
mem-add_members x (y ∷ ys) ms =
    mem-add_members x ys (if mem_text y ms then ms else y ∷ ms)
    ∙ ap (λ (b : Bool). b || mem_text x ys) (mem-if x y ms)
    ∙ assoc (mem_text x ms) (same_text y x) (mem_text x ys)
  where
    assoc : (a b c : Bool) → ((a || b) || c) ≡ (a || (b || c))
    assoc a b c = ground arith

-- The members of the chat `i`; nobody, if there is none.
abbrev pub members_of : Text → List Convo → List Text
members_of i [] = []
members_of i (c ∷ cs) =
    let rest = members_of i cs in if same_text c.native_id i then c.members else rest

same_text-false :
    (a b c : Text) → same_text a b ≡ true → same_text a c ≡ false → same_text b c ≡ false
same_text-false a b c h k = ap (λ (z : Text). same_text z c) (sym (same_text-eq a b h)) ∙ k

module _ (strip lower : Text → Text) (loads : Text → Parsed) (x i : Text) where
  -- The sender of a mail, stripped and in lower case, is `x`.
  abbrev pub wrote : Option Text → Bool
  wrote none = false
  wrote (some s) = filled (some (strip s)) && same_text (lower (strip s)) x

  -- An entry of its recipients is `x`: a text that is not blank, or a person with an address.
  abbrev pub is_for : Entry → Bool
  is_for (address s) = filled (some (strip s)) && same_text (lower (strip (strip s))) x
  is_for (person name none) = false
  is_for (person name (some s)) = filled (some s) && same_text (lower (strip s)) x
  is_for other = false

  abbrev pub any_for : List Entry → Bool
  any_for [] = false
  any_for (e ∷ es) = is_for e || any_for es

  abbrev pub parsed_for : Parsed → Bool
  parsed_for unreadable = false
  parsed_for no_list = false
  parsed_for (entries es) = any_for es

  abbrev pub received : Option Text → Bool
  received none = false
  received (some raw) = filled (some raw) && parsed_for (loads raw)

  -- Whether `x` wrote or received one of the mails of the chat `i`.
  abbrev pub occurs : List Row → Bool
  occurs [] = false
  occurs (row ∷ rows) =
      (same_text row.native_id i && (wrote row.sender_email || received row.to_json)) || occurs rows

  entry-is_for :
      (e : Entry) (rs : List Recipient) (b : Bool)
      → mem_text x (emails_of strip lower loads rs) ≡ b
      → mem_text x (emails_of strip lower loads (entry_recipient strip lower loads e rs))
        ≡ (is_for e || b)
  entry-is_for (address s) rs b h = go (strip s)
    where
      go :
          (t : Text)
          → mem_text x (
              emails_of strip lower loads
                (if filled (some t) then record { name = none; email = some t } ∷ rs else rs))
            ≡ ((filled (some t) && same_text (lower (strip t)) x) || b)
      go [] = h
      go (c ∷ t) = ap (λ d. same_text (lower (strip (c ∷ t))) x || d) h
  entry-is_for (person name none) rs b h = go (filled name)
    where
      go :
          (d : Bool)
          → mem_text x (
              emails_of strip lower loads
                (if d then record { name = name; email = none } ∷ rs else rs))
            ≡ b
      go true = h
      go false = h
  entry-is_for (person name (some [])) rs b h = go (filled name)
    where
      go :
          (d : Bool)
          → mem_text x (
              emails_of strip lower loads
                (if d then record { name = name; email = some [] } ∷ rs else rs))
            ≡ b
      go true = h
      go false = h
  entry-is_for (person name (some (c ∷ s))) rs b h =
      ap (λ d. same_text (lower (strip (c ∷ s))) x || d) h
  entry-is_for other rs b h = h

  recipients-any_for :
      (es : List Entry)
      → mem_text x (emails_of strip lower loads (recipients_of strip lower loads es)) ≡ any_for es
  unfolding recipients_of
  recipients-any_for [] = refl
  recipients-any_for (e ∷ es) =
      entry-is_for e (recipients_of strip lower loads es) (any_for es) (recipients-any_for es)

  recipients-received :
      (raw : Option Text)
      → mem_text x (emails_of strip lower loads (recipients strip lower loads raw)) ≡ received raw
  unfolding recipients
  recipients-received none = refl
  recipients-received (some []) = refl
  recipients-received (some (c ∷ s)) = go (loads (c ∷ s))
    where
      go :
          (p : Parsed)
          → mem_text x (emails_of strip lower loads (parsed_recipients strip lower loads p))
            ≡ parsed_for p
      go unreadable = refl
      go no_list = refl
      go (entries es) = recipients-any_for es

  sender-wrote : (s : Option Text) → mem_text x (sender_of strip lower loads s) ≡ wrote s
  sender-wrote none = refl
  sender-wrote (some s) = go (strip s)
    where
      go :
          (t : Text)
          → mem_text x (if filled (some t) then lower t ∷ [] else [])
            ≡ (filled (some t) && same_text (lower t) x)
      go [] = refl
      go (c ∷ t) = or_false (same_text (lower (c ∷ t)) x)

  -- The addresses of a mail are those of its sender and of its recipients.
  mem-addresses :
      (row : Row)
      → mem_text x (addresses strip lower loads row)
        ≡ (wrote row.sender_email || received row.to_json)
  unfolding addresses
  mem-addresses row =
      mem_text-append x (sender_of strip lower loads row.sender_email)
        (emails_of strip lower loads (recipients strip lower loads row.to_json))
      ∙ ap
          (λ b.
            b
            || mem_text x (emails_of strip lower loads (recipients strip lower loads row.to_json)))
          (sender-wrote row.sender_email)
      ∙ ap (λ b. wrote row.sender_email || b) (recipients-received row.to_json)

  pick :
      (b : Bool) (ms ns : List Text)
      → mem_text x (if b then ms else ns) ≡ (if b then mem_text x ms else mem_text x ns)
  pick true ms ns = refl
  pick false ms ns = refl

  add_row-members :
      (row : Row) (cs : List Convo)
      → mem_text x (members_of i (add_row strip lower loads row cs)) ≡ (
          mem_text x (members_of i cs)
          || (same_text row.native_id i && mem_text x (addresses strip lower loads row)))
  unfolding add_row
  add_row-members row [] = go (same_text row.native_id i)
    where
      new : List Text
      new = addresses strip lower loads row

      go :
          (b : Bool)
          → mem_text x (if b then add_members new [] else []) ≡ (false || (b && mem_text x new))
      go true = mem-add_members x new []
      go false = refl
  add_row-members row (c ∷ cs) =
      go (same_text c.native_id row.native_id) refl (same_text c.native_id i) refl
        (same_text row.native_id i) refl (add_row-members row cs)
    where
      new : List Text
      new = addresses strip lower loads row

      after : Convo
      after = record c { members = add_members new c.members }

      or_false : (b : Bool) → b ≡ (b || false)
      or_false b = ground arith

      go :
          (a : Bool)
          → same_text c.native_id row.native_id ≡ a
          → (b : Bool) → same_text c.native_id i ≡ b
          → (d : Bool) → same_text row.native_id i ≡ d
          → mem_text x (members_of i (add_row strip lower loads row cs))
            ≡ (mem_text x (members_of i cs) || (same_text row.native_id i && mem_text x new))
          → mem_text x
              (members_of i (if a then after ∷ cs else c ∷ add_row strip lower loads row cs))
            ≡ (mem_text x (if b then c.members else members_of i cs) || (d && mem_text x new))
      go true ea true eb true ed h = rw eb (mem-add_members x new c.members)
      go true ea true eb false ed h =
          absurd (
            false≢true (sym ed ∙ ap (λ (z : Text). same_text z i) (sym (same_text-eq _ _ ea)) ∙ eb))
      go true ea false eb true ed h =
          absurd (false≢true (sym (same_text-false c.native_id row.native_id i ea eb) ∙ ed))
      go true ea false eb false ed h = rw eb (or_false (mem_text x (members_of i cs)))
      go false ea true eb true ed h = absurd (
          false≢true (
            sym ea
            ∙ ap (λ (z : Text). same_text c.native_id z)
                (same_text-eq row.native_id i ed ∙ sym (same_text-eq c.native_id i eb))
            ∙ same_text_refl c.native_id))
      go false ea true eb false ed h = rw eb (or_false (mem_text x c.members))
      go false ea false eb d ed h = rw eb (rw ed at h)

  assoc : (a b c : Bool) → ((a || b) || c) ≡ (a || (b || c))
  assoc a b c = ground arith

  -- After a page of rows, `x` is a member of the chat `i` exactly if it was one before, or wrote or
  -- received one of the chat's mails on the page: a later mail never takes a member away.
  pub fold_rows-members :
      (rows : List Row) (cs : List Convo)
      → mem_text x (members_of i (fold_rows strip lower loads rows cs))
        ≡ (mem_text x (members_of i cs) || occurs rows)
  unfolding fold_rows
  fold_rows-members [] cs = or_false (mem_text x (members_of i cs))
    where
      or_false : (b : Bool) → b ≡ (b || false)
      or_false b = ground arith
  fold_rows-members (row ∷ rows) cs =
      fold_rows-members rows (add_row strip lower loads row cs)
      ∙ ap (λ (b : Bool). b || occurs rows)
          (add_row-members row cs
            ∙ ap (λ (b : Bool). mem_text x (members_of i cs) || (same_text row.native_id i && b))
                (mem-addresses row))
      ∙ assoc (mem_text x (members_of i cs)) _ (occurs rows)
