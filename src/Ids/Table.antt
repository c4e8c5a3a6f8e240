-- ===== src/Ids/Table.antt =====
-- ewsmcp/ids.py: the rows of `ews.aliases` and `ews.alias_counters`, and the statements on them. Both the
-- alias and the raw id are unique.
use exchange_mcp.Prelude.{
  ℕ, suc, Bool, false, not, ◌&&◌, ◌||◌, Option, none, some, List, [], ◌∷◌, ◌++◌, if◌then◌else◌,
}
use exchange_mcp.Prelude.Int.{ℤ}
use exchange_mcp.Text.{Text, same_text}

-- A row of `ews.aliases`.
pub record Alias : Type 0 where
  pub alias : Text
  pub kind : Text
  pub ews_id : Text
  pub changekey : Option Text
  pub imid : Option Text
  pub first_seen : ℤ
  pub last_seen : ℤ

pub record Table : Type 0 where
  pub rows : List Alias
  pub counters : List (Text × ℕ)

-- `_find`
abbrev pub find : Text → List Alias → Option Alias
find i [] = none
find i (r ∷ rs) = let rest = find i rs in if same_text r.ews_id i then some r else rest

-- `SELECT ews_id FROM ews.aliases WHERE alias = …`
abbrev pub id_of : Text → List Alias → Option Text
id_of a [] = none
id_of a (r ∷ rs) = let rest = id_of a rs in if same_text r.alias a then some r.ews_id else rest

abbrev pub has_id : Text → List Alias → Bool
has_id i [] = false
has_id i (r ∷ rs) = same_text r.ews_id i || has_id i rs

abbrev pub has_alias : Text → List Alias → Bool
has_alias a [] = false
has_alias a (r ∷ rs) = same_text r.alias a || has_alias a rs

-- COALESCE(new, old)
abbrev pub coalesce : Option Text → Option Text → Option Text
coalesce none old = old
coalesce (some t) old = some t

abbrev pub touched : ℤ → Option Text → Option Text → Alias → Alias
touched now changekey imid r = record r {
  last_seen = now;
  changekey = coalesce changekey r.changekey;
  imid = coalesce imid r.imid;
}

-- The UPDATE of `_mint_locked`.
unfoldable pub touch : ℤ → Option Text → Option Text → Text → List Alias → List Alias
touch now changekey imid a [] = []
touch now changekey imid a (r ∷ rs) =
    let rest = touch now changekey imid a rs in
    (if same_text r.alias a then touched now changekey imid r else r) ∷ rest

-- _MINT: the counter of the kind, bumped.
unfoldable pub next_count : Text → List (Text × ℕ) → ℕ × List (Text × ℕ)
next_count kind [] = (1, (kind, 1) ∷ [])
next_count kind ((k, n) ∷ rest) =
    let later = next_count kind rest in
    if same_text k kind then (suc n, (k, suc n) ∷ rest) else (later.0, (k, n) ∷ later.1)

-- The INSERT, of which the constraints refuse a second alias or raw id.
unfoldable pub insert : Alias → List Alias → Option (List Alias)
insert r rows =
    if has_alias r.alias rows || has_id r.ews_id rows then none else some (rows ++ (r ∷ []))

abbrev pub or_rows : List Alias → Option (List Alias) → List Alias
or_rows rows none = rows
or_rows rows (some more) = more

abbrev pub commit_all : List Alias → List Alias → List Alias
commit_all [] rows = rows
commit_all (r ∷ rs) rows = commit_all rs (or_rows rows (insert r rows))

-- The DELETE and the UPDATE of `rebind`.
unfoldable pub drop_rival : Text → Text → List Alias → List Alias
drop_rival i a [] = []
drop_rival i a (r ∷ rs) =
    let rest = drop_rival i a rs in
    if same_text r.ews_id i && not (same_text r.alias a) then rest else r ∷ rest

abbrev pub repointed : ℤ → Text → Option Text → Alias → Alias
repointed now i changekey r = record r {
  ews_id = i;
  changekey = coalesce changekey r.changekey;
  last_seen = now;
}

unfoldable pub repoint : ℤ → Text → Option Text → Text → List Alias → List Alias
repoint now i changekey a [] = []
repoint now i changekey a (r ∷ rs) =
    let rest = repoint now i changekey a rs in
    (if same_text r.alias a then repointed now i changekey r else r) ∷ rest
