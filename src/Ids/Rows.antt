-- ===== src/Ids/Rows.antt =====
-- The rows of the table of ewsmcp/ids.py: what its statements keep.
use exchange_mcp.Prelude.{
  ◌≡◌, refl, sym, ap, ◌∙◌, Bool, true, false, ◌||◌, Option, none, some, List, [], ◌∷◌, ◌++◌,
  if◌then◌else◌, or_false, both_false, if_true, if_false, All,
}
use exchange_mcp.Prelude.Int.{ℤ}
use exchange_mcp.Text.{Text, same_text, same_text_refl, same_text_comm}
use exchange_mcp.Ids.Pattern.{is_alias}
use exchange_mcp.Ids.Table.{
  Alias, id_of, has_id, has_alias, touched, touch, insert, or_rows, commit_all,
}
use exchange_mcp.Ids.Found.{Sound, same_rows}

module _ (r : Alias) where
  has_alias-snoc :
      (a : Text) (rs : List Alias)
      → has_alias a (rs ++ (r ∷ [])) ≡ (has_alias a rs || same_text r.alias a)
  has_alias-snoc a [] = or_false (same_text r.alias a)
  has_alias-snoc a (x ∷ xs) = go (same_text x.alias a) (has_alias-snoc a xs)
    where
      go :
          (b : Bool)
          → has_alias a (xs ++ (r ∷ [])) ≡ (has_alias a xs || same_text r.alias a)
          → (b || has_alias a (xs ++ (r ∷ []))) ≡ ((b || has_alias a xs) || same_text r.alias a)
      go true h = refl
      go false h = h

  has_id-snoc :
      (j : Text) (rs : List Alias)
      → has_id j (rs ++ (r ∷ [])) ≡ (has_id j rs || same_text r.ews_id j)
  has_id-snoc j [] = or_false (same_text r.ews_id j)
  has_id-snoc j (x ∷ xs) = go (same_text x.ews_id j) (has_id-snoc j xs)
    where
      go :
          (b : Bool)
          → has_id j (xs ++ (r ∷ [])) ≡ (has_id j xs || same_text r.ews_id j)
          → (b || has_id j (xs ++ (r ∷ []))) ≡ ((b || has_id j xs) || same_text r.ews_id j)
      go true h = refl
      go false h = h

  neither : (b c : Bool) → b ≡ false → c ≡ false → (b || c) ≡ false
  neither true c e f = cc
  neither false c e f = f

  Sound-snoc :
      (rs : List Alias)
      → Sound rs
      → is_alias r.alias ≡ true
      → has_alias r.alias rs ≡ false
      → has_id r.ews_id rs ≡ false
      → Sound (rs ++ (r ∷ []))
  Sound-snoc [] s shape a j = (shape, refl, refl, tt)
  Sound-snoc (x ∷ xs) s shape a j =
      let (ax, axs) = both_false (same_text x.alias r.alias) (has_alias r.alias xs) a in
      let (jx, jxs) = both_false (same_text x.ews_id r.ews_id) (has_id r.ews_id xs) j in
      (
        s.0,
        has_alias-snoc x.alias xs
            ∙ neither (has_alias x.alias xs) (same_text r.alias x.alias) s.1
                (same_text_comm r.alias x.alias ∙ ax),
        has_id-snoc x.ews_id xs
            ∙ neither (has_id x.ews_id xs) (same_text r.ews_id x.ews_id) s.2
                (same_text_comm r.ews_id x.ews_id ∙ jx),
        Sound-snoc xs s.3 shape axs jxs,
      )

  id_of-snoc :
      (rs : List Alias)
      → has_alias r.alias rs ≡ false
      → id_of r.alias (rs ++ (r ∷ [])) ≡ some r.ews_id
  id_of-snoc [] h =
      if_true (same_text r.alias r.alias) (some r.ews_id) none (same_text_refl r.alias)
  id_of-snoc (x ∷ xs) h =
      let (ax, axs) = both_false (same_text x.alias r.alias) (has_alias r.alias xs) h in
      if_false (same_text x.alias r.alias) (some x.ews_id) (id_of r.alias (xs ++ (r ∷ []))) ax
      ∙ id_of-snoc xs axs

  -- What an INSERT that succeeds leaves.
  pub insert-Sound :
      (rs more : List Alias)
      → Sound rs
      → is_alias r.alias ≡ true
      → insert r rs ≡ some more
      → Sound more × (id_of r.alias more ≡ some r.ews_id)
  unfolding insert
  insert-Sound rs more s shape h = go (has_alias r.alias rs || has_id r.ews_id rs) refl h
    where
      go :
          (b : Bool)
          → (has_alias r.alias rs || has_id r.ews_id rs) ≡ b
          → (if b then none else some (rs ++ (r ∷ []))) ≡ some more
          → Sound more × (id_of r.alias more ≡ some r.ews_id)
      go true e k = cc
      go false e k =
          let (a, j) = both_false (has_alias r.alias rs) (has_id r.ews_id rs) e in
          rw (sym (same_rows k)) (Sound-snoc rs s shape a j, id_of-snoc rs a)

pub commit_all-Sound :
    (rivals rows : List Alias)
    → All (λ r. is_alias r.alias ≡ true) rivals
    → Sound rows
    → Sound (commit_all rivals rows)
commit_all-Sound [] rows h s = s
commit_all-Sound (r ∷ rs) rows h s =
    commit_all-Sound rs (or_rows rows (insert r rows)) h.1 (go (insert r rows) refl)
  where
    go : (o : Option (List Alias)) → insert r rows ≡ o → Sound (or_rows rows o)
    go none e = s
    go (some more) e = (insert-Sound r rows more s h.0 e).0

module _ (now : ℤ) (changekey imid : Option Text) (a : Text) where
  pub touch-has_alias :
      (b : Text) (rs : List Alias) → has_alias b (touch now changekey imid a rs) ≡ has_alias b rs
  unfolding touch
  touch-has_alias b [] = refl
  touch-has_alias b (r ∷ rs) = go (same_text r.alias a) (touch-has_alias b rs)
    where
      go :
          (c : Bool)
          → has_alias b (touch now changekey imid a rs) ≡ has_alias b rs
          → (same_text (if c then touched now changekey imid r else r).alias b
              || has_alias b (touch now changekey imid a rs))
            ≡ (same_text r.alias b || has_alias b rs)
      go true h = ap (λ x. same_text r.alias b || x) h
      go false h = ap (λ x. same_text r.alias b || x) h

  pub touch-has_id :
      (j : Text) (rs : List Alias) → has_id j (touch now changekey imid a rs) ≡ has_id j rs
  unfolding touch
  touch-has_id j [] = refl
  touch-has_id j (r ∷ rs) = go (same_text r.alias a) (touch-has_id j rs)
    where
      go :
          (c : Bool)
          → has_id j (touch now changekey imid a rs) ≡ has_id j rs
          → (same_text (if c then touched now changekey imid r else r).ews_id j
              || has_id j (touch now changekey imid a rs))
            ≡ (same_text r.ews_id j || has_id j rs)
      go true h = ap (λ x. same_text r.ews_id j || x) h
      go false h = ap (λ x. same_text r.ews_id j || x) h

  pub touch-id_of :
      (b : Text) (rs : List Alias) → id_of b (touch now changekey imid a rs) ≡ id_of b rs
  unfolding touch
  touch-id_of b [] = refl
  touch-id_of b (r ∷ rs) = go (same_text r.alias a) (touch-id_of b rs)
    where
      go :
          (c : Bool)
          → id_of b (touch now changekey imid a rs) ≡ id_of b rs
          → (let r' = (if c then touched now changekey imid r else r) in
              if same_text r'.alias b
              then some r'.ews_id
              else id_of b (touch now changekey imid a rs))
            ≡ (if same_text r.alias b then some r.ews_id else id_of b rs)
      go true h = ap (λ x. if same_text r.alias b then some r.ews_id else x) h
      go false h = ap (λ x. if same_text r.alias b then some r.ews_id else x) h

  -- The UPDATE leaves aliases and raw ids as they are.
  pub touch-Sound : (rs : List Alias) → Sound rs → Sound (touch now changekey imid a rs)
  unfolding touch
  touch-Sound [] s = tt
  touch-Sound (r ∷ rs) s = go (same_text r.alias a) (touch-Sound rs s.3)
    where
      go :
          (c : Bool)
          → Sound (touch now changekey imid a rs)
          → Sound ((if c then touched now changekey imid r else r) ∷ touch now changekey imid a rs)
      go true h = (s.0, touch-has_alias r.alias rs ∙ s.1, touch-has_id r.ews_id rs ∙ s.2, h)
      go false h = (s.0, touch-has_alias r.alias rs ∙ s.1, touch-has_id r.ews_id rs ∙ s.2, h)
