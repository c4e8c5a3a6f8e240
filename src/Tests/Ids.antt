-- ===== src/Tests/Ids.antt =====
-- The alias table on small inputs.
use exchange_mcp.Prelude.{◌≡◌, refl, false, none, some, [], ◌∷◌}
use exchange_mcp.Prelude.Int.{pos}
use exchange_mcp.Text.{Text, codes}
use exchange_mcp.Text.Decimal.{print, print_on}
use exchange_mcp.Ids.Pattern.{is_alias, is_kind}
use exchange_mcp.Ids.Table.{Alias, Table, find, next_count, insert}
use exchange_mcp.Ids.Aliaser.{alias_for, mint_locked, rebind, alias_many, mint_many}
use exchange_mcp.Ids.Aliased.{Names, alias_for-resolve}
use exchange_mcp.Ids.Rebound.{view, move, alias_at, rebind-move}

abbrev known : Alias
known = record {
  alias = codes "m1";
  kind = codes "m";
  ews_id = codes "AAMk=";
  changekey = none;
  imid = none;
  first_seen = pos 1;
  last_seen = pos 1;
}

abbrev table : Table
table = record { rows = known ∷ []; counters = (codes "m", 1) ∷ [] }

second : (alias_for false (pos 9) [] (codes "BBMk=") (codes "m") none none table).0 ≡ codes "m2"
unfolding alias_for mint_locked is_kind next_count insert print print_on
second = refl

-- A storage error behind the first entry: its name is answered, and its row is not there.
dangling :
    (alias_many
      (pos 9)
      (some 1)
      (record { ews_id = codes "B="; kind = codes "m"; changekey = none; imid = none }
        ∷ record { ews_id = codes "C="; kind = codes "m"; changekey = none; imid = none }
        ∷ [])
      table)
    ≡ ((codes "B=", codes "m2") ∷ [], table)
unfolding alias_many mint_many mint_locked is_kind next_count insert print print_on
dangling = refl

alias_for-resolve_example :
    Names
      (codes "BBMk=")
      (alias_for false (pos 9) (known ∷ []) (codes "BBMk=") (codes "m") none none table)
unfolding is_alias
alias_for-resolve_example =
    alias_for-resolve (pos 9) (known ∷ []) (codes "BBMk=") none none refl false (codes "m") table
      (refl, tt) (refl, tt) (refl, refl, refl, tt)

rebind-move_example :
    ((rebind false (pos 9) (codes "AAMk=") (codes "ZZ=") none table).0
      ≡ alias_at (find (codes "AAMk=") table.rows))
    × ((b : Text)
        → view (rebind false (pos 9) (codes "AAMk=") (codes "ZZ=") none table).1 b
          ≡ move (codes "ZZ=") (alias_at (find (codes "AAMk=") table.rows)) (view table) b)
unfolding is_alias
rebind-move_example =
    rebind-move (pos 9) (codes "AAMk=") (codes "ZZ=") none table (refl, refl, refl, tt)
