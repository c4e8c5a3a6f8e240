-- ===== src/Ids/Aliaser.antt =====
-- ewsmcp/ids.py: the operations of the aliaser. A storage error is an input, after which nothing of the
-- transaction is left.
use exchange_mcp.Prelude.{
  ℕ, zero, suc, Bool, true, false, not, ◌&&◌, ◌||◌, Option, none, some, List, [], ◌∷◌, ◌++◌,
  if◌then◌else◌,
}
use exchange_mcp.Prelude.Int.{ℤ}
use exchange_mcp.Text.{Text, codes, same_text}
use exchange_mcp.Text.Decimal.{print}
use exchange_mcp.Ids.Pattern.{is_alias, is_kind}
use exchange_mcp.Ids.Table.{
  Alias, Table, find, id_of, touch, next_count, insert, commit_all, drop_rival, repoint,
}

abbrev pub alias_or : Text → Option Alias → Text
alias_or i none = i
alias_or i (some r) = r.alias

abbrev pub after_insert :
    Text → Alias → List (Text × ℕ) → List Alias → Option (List Alias) → Text × Table
after_insert i r counters rows none =
    (alias_or i (find i rows), record { rows = rows; counters = counters })
after_insert i r counters rows (some more) = (r.alias, record { rows = more; counters = counters })

abbrev pub minted : Text → Text → Option Text → Option Text → ℤ → ℕ → Alias
minted i kind changekey imid now n = record {
  alias = kind ++ print n;
  kind = kind;
  ews_id = i;
  changekey = changekey;
  imid = imid;
  first_seen = now;
  last_seen = now;
}

abbrev pub mint_new :
    ℤ
    → List Alias
    → Text
    → Text
    → Option Text
    → Option Text
    → ℕ × List (Text × ℕ)
    → List Alias
    → Text × Table
mint_new now rivals i kind changekey imid (n, counters) rows =
    let all = commit_all rivals rows in
    let r = minted i kind changekey imid now n in after_insert i r counters all (insert r all)

abbrev pub mint_found :
    ℤ → List Alias → Text → Text → Option Text → Option Text → Table → Option Alias → Text × Table
mint_found now rivals i kind changekey imid t (some r) =
    (r.alias, record t { rows = touch now changekey imid r.alias t.rows })
mint_found now rivals i kind changekey imid t none =
    mint_new now rivals i kind changekey imid (next_count kind t.counters) t.rows

-- `_mint_locked`; `rivals` are the rows that other minters commit between the look and the INSERT.
unfoldable pub mint_locked :
    ℤ → List Alias → Text → Text → Option Text → Option Text → Table → Text × Table
unfolding touch next_count insert
mint_locked now rivals i kind changekey imid t =
    mint_found now rivals i kind changekey imid t (find i t.rows)

-- `new is None or old == new`
abbrev pub agrees : Option Text → Option Text → Bool
agrees none old = true
agrees (some t) none = false
agrees (some t) (some u) = same_text u t

abbrev pub current : Option Text → Option Text → Option Alias → Option Alias
current changekey imid none = none
current changekey imid (some r) =
    if agrees changekey r.changekey && agrees imid r.imid then some r else none

abbrev pub known_or_minted :
    ℤ → List Alias → Text → Text → Option Text → Option Text → Table → Option Alias → Text × Table
known_or_minted now rivals i kind changekey imid t (some r) = (r.alias, t)
known_or_minted now rivals i kind changekey imid t none =
    mint_locked now rivals i kind changekey imid t

abbrev pub is_empty : Text → Bool
is_empty [] = true
is_empty (c ∷ s) = false

abbrev pub kind_or_x : Text → Text
kind_or_x kind = if is_kind kind then kind else codes "x"

-- `alias_for`; the Boolean: a storage error.
unfoldable pub alias_for :
    Bool → ℤ → List Alias → Text → Text → Option Text → Option Text → Table → Text × Table
unfolding mint_locked is_kind
alias_for fault now rivals i kind changekey imid t =
    let done =
      known_or_minted now rivals i (kind_or_x kind) changekey imid t
        (current changekey imid (find i t.rows)) in
    if is_empty i || fault then (i, t) else done

-- `resolve`; `none`: the KeyError.
unfoldable pub resolve : Bool → Table → Text → Option Text
unfolding is_alias
resolve fault t value = if not (is_alias value) || fault then some value else id_of value t.rows

abbrev pub rebind_found : ℤ → Text → Option Text → Table → Option Alias → Option Text × Table
rebind_found now new_id changekey t none = (none, t)
rebind_found now new_id changekey t (some r) = (
  some r.alias,
  record t { rows = repoint now new_id changekey r.alias (drop_rival new_id r.alias t.rows) },
)

-- `rebind`
unfoldable pub rebind : Bool → ℤ → Text → Text → Option Text → Table → Option Text × Table
unfolding drop_rival repoint
rebind fault now old_id new_id changekey t =
    if fault then (none, t) else rebind_found now new_id changekey t (find old_id t.rows)

-- `imid_for`, with the first of the rows that match.
unfoldable pub imid_for : Bool → Text → List Alias → Option Text
imid_for fault x [] = none
imid_for fault x (r ∷ rs) =
    let rest = imid_for fault x rs in
    if fault then none else if same_text r.alias x || same_text r.ews_id x then r.imid else rest

-- An entry of `alias_many`: a raw id, its kind, changekey and message id.
pub record Request : Type 0 where
  pub ews_id : Text
  pub kind : Text
  pub changekey : Option Text
  pub imid : Option Text

abbrev pub Aliases : Type 0
Aliases = List (Text × Text)

abbrev pub and_then :
    Text → Text × Table → (Table → Bool × (Aliases × Table)) → Bool × (Aliases × Table)
and_then i (a, t) go = let (failed, (out, t')) = go t in (failed, ((i, a) ∷ out, t'))

-- The loop of `alias_many`; the fault, if any, strikes after `n` entries.
unfoldable pub mint_many : ℤ → Option ℕ → List Request → Table → Bool × (Aliases × Table)
unfolding mint_locked is_kind
mint_many now fault [] t = (false, ([], t))
mint_many now (some zero) (q ∷ qs) t = (true, ([], t))
mint_many now (some (suc n)) (q ∷ qs) t =
    let skipped = mint_many now (some n) qs t in
    let minted_here =
      and_then q.ews_id (mint_locked now [] q.ews_id (kind_or_x q.kind) q.changekey q.imid t)
        (λ t'. mint_many now (some n) qs t') in
    if is_empty q.ews_id then skipped else minted_here
mint_many now none (q ∷ qs) t =
    let skipped = mint_many now none qs t in
    let minted_here =
      and_then q.ews_id (mint_locked now [] q.ews_id (kind_or_x q.kind) q.changekey q.imid t)
        (λ t'. mint_many now none qs t') in
    if is_empty q.ews_id then skipped else minted_here

abbrev pub rolled_back : Table → Bool × (Aliases × Table) → Aliases × Table
rolled_back t (true, (out, t')) = (out, t)
rolled_back t (false, (out, t')) = (out, t')

-- `alias_many`: after an error the names stay, and the rows do not.
unfoldable pub alias_many : ℤ → Option ℕ → List Request → Table → Aliases × Table
unfolding mint_many
alias_many now fault qs t = rolled_back t (mint_many now fault qs t)
