-- ===== src/Ids/Aliased.antt =====
-- What an alias of ewsmcp/ids.py resolves to.
use exchange_mcp.Prelude.{
  ℕ, ◌≡◌, refl, ap, ◌∙◌, Bool, true, false, not, ◌&&◌, ◌||◌, Option, none, some, List,
  if◌then◌else◌, All,
}
use exchange_mcp.Prelude.Int.{ℤ}
use exchange_mcp.Text.{Text}
use exchange_mcp.Ids.Pattern.{is_alias, is_kind}
use exchange_mcp.Ids.Table.{Alias, Table, find, id_of, touch, next_count, insert, commit_all}
use exchange_mcp.Ids.Aliaser.{
  kind_or_x, alias_or, after_insert, minted, mint_found, mint_locked, current, agrees,
  known_or_minted, is_empty, alias_for, resolve,
}
use exchange_mcp.Ids.Shape.{Plain, kind_or_x-Kind, mint-is_alias}
use exchange_mcp.Ids.Found.{Sound}
use exchange_mcp.Ids.Found.{find-alias, find-id_of}
use exchange_mcp.Ids.Rows.{insert-Sound, commit_all-Sound, touch-id_of, touch-Sound}

-- The table is sound, and the name leads to the raw id.
abbrev pub Names : Text → Text × Table → Type 0
Names i x = Sound x.1.rows × (resolve false x.1 x.0 ≡ some i)

resolve-alias :
    (a i : Text) (t : Table)
    → is_alias a ≡ true
    → id_of a t.rows ≡ some i
    → resolve false t a ≡ some i
unfolding resolve
resolve-alias a i t shape h = go (is_alias a) shape
  where
    go : (b : Bool) → b ≡ true → (if not b || false then some a else id_of a t.rows) ≡ some i
    go true e = h
    go false e = cc

resolve-raw : (i : Text) (t : Table) → is_alias i ≡ false → resolve false t i ≡ some i
unfolding resolve
resolve-raw i t shape = go (is_alias i) shape
  where
    go : (b : Bool) → b ≡ false → (if not b || false then some i else id_of i t.rows) ≡ some i
    go true e = cc
    go false e = refl

module _ (now : ℤ) (rivals : List Alias) (i : Text) (changekey imid : Option Text)
    (raw : is_alias i ≡ false) where
  found-Names :
      (t : Table) (r : Alias) → Sound t.rows → find i t.rows ≡ some r → Names i (r.alias, t)
  found-Names t r s h =
      (s, resolve-alias r.alias i t (find-alias i t.rows r s h) (find-id_of i t.rows r s h))

  after_insert-Names :
      (r : Alias) (counters : List (Text × ℕ)) (rows : List Alias) (o : Option (List Alias))
      → Sound rows
      → is_alias r.alias ≡ true
      → r.ews_id ≡ i
      → insert r rows ≡ o
      → Names i (after_insert i r counters rows o)
  after_insert-Names r counters rows none s shape own h = lost (find i rows) refl
    where
      lost :
          (f : Option Alias)
          → find i rows ≡ f
          → Names i (alias_or i f, record { rows = rows; counters = counters })
      lost none e = (s, resolve-raw i (record { rows = rows; counters = counters }) raw)
      lost (some w) e = found-Names (record { rows = rows; counters = counters }) w s e
  after_insert-Names r counters rows (some more) s shape own h =
      let (s', found) = insert-Sound r rows more s shape h in
      (
        s',
        resolve-alias r.alias i (record { rows = more; counters = counters }) shape
            (found ∙ ap some own),
      )

  mint_locked-Names :
      (kind : Text) (t : Table)
      → is_kind kind ≡ true
      → Plain kind
      → All (λ r. is_alias r.alias ≡ true) rivals
      → Sound t.rows
      → Names i (mint_locked now rivals i kind changekey imid t)
  unfolding mint_locked
  mint_locked-Names kind t k p rs s = go (find i t.rows) refl
    where
      go :
          (f : Option Alias)
          → find i t.rows ≡ f
          → Names i (mint_found now rivals i kind changekey imid t f)
      go (some r) e = (
        touch-Sound now changekey imid r.alias t.rows s,
        resolve-alias r.alias i (record t { rows = touch now changekey imid r.alias t.rows })
            (find-alias i t.rows r s e)
            (touch-id_of now changekey imid r.alias r.alias t.rows ∙ find-id_of i t.rows r s e),
      )
      go none e =
          let counted = next_count kind t.counters in
          let r = minted i kind changekey imid now counted.0 in
          after_insert-Names r counted.1 (commit_all rivals t.rows)
            (insert r (commit_all rivals t.rows)) (commit_all-Sound rivals t.rows rs s)
            (mint-is_alias kind counted.0 k p) refl refl

  -- For a raw id that does not look like an alias, and a kind without a newline, whatever `alias_for`
  -- answers - an alias it knew, a new one, the one of a minter that was faster, or the raw id after a
  -- storage error - `resolve` leads back to the raw id; and the table stays sound.
  pub alias_for-resolve :
      (fault : Bool) (kind : Text) (t : Table)
      → Plain kind
      → All (λ r. is_alias r.alias ≡ true) rivals
      → Sound t.rows
      → Names i (alias_for fault now rivals i kind changekey imid t)
  unfolding alias_for
  alias_for-resolve fault kind t p rs s = go (is_empty i || fault)
    where
      known :
          (f : Option Alias)
          → find i t.rows ≡ f
          → Names i (
              known_or_minted now rivals i
                (kind_or_x kind)
                changekey
                imid
                t
                (current changekey imid f))
      known none e =
          let (k, p') = kind_or_x-Kind kind p in mint_locked-Names (kind_or_x kind) t k p' rs s
      known (some r) e = pick (agrees changekey r.changekey && agrees imid r.imid)
        where
          pick :
              (b : Bool)
              → Names i (
                  known_or_minted now rivals i
                    (kind_or_x kind)
                    changekey
                    imid
                    t
                    (if b then some r else none))
          pick true = found-Names t r s e
          pick false =
              let (k, p') = kind_or_x-Kind kind p in mint_locked-Names (kind_or_x kind) t k p' rs s

      go :
          (b : Bool)
          → Names i (
              if b
              then (i, t)
              else known_or_minted now rivals i
                  (kind_or_x kind)
                  changekey
                  imid
                  t
                  (current changekey imid (find i t.rows)))
      go true = (s, resolve-raw i t raw)
      go false = known (find i t.rows) refl
