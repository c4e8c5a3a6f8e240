-- ===== src/Ids/Found.antt =====
-- The rows that a look-up in the table of ewsmcp/ids.py finds.
use mathlib.Core.Bool.{true≢false}
use exchange_mcp.Prelude.{
  ◌≡◌, refl, sym, ap, ◌∙◌, Bool, true, false, ◌||◌, Option, none, some, List, [], ◌∷◌,
  if◌then◌else◌, or_left, or_right, if_true, if_false,
}
use exchange_mcp.Text.{Text, same_text, same_of, same_text-eq}
use exchange_mcp.Ids.Pattern.{is_alias}
use exchange_mcp.Ids.Table.{Alias, find, id_of, has_id, has_alias}

-- The aliases have their shape, and no two rows share an alias or a raw id.
abbrev pub Sound : List Alias → Type 0
Sound [] = Unit
Sound (r ∷ rs) =
    (is_alias r.alias ≡ true)
    × (has_alias r.alias rs ≡ false)
    × (has_id r.ews_id rs ≡ false)
    × Sound rs

abbrev pub alias_from : Option Alias → Text
alias_from none = []
alias_from (some r) = r.alias

pub same_alias : (x r : Alias) → some x ≡ some r → x.alias ≡ r.alias
same_alias x r e = ap alias_from e

abbrev pub rows_from : Option (List Alias) → List Alias
rows_from none = []
rows_from (some rs) = rs

pub same_rows : {xs ys : List Alias} → some xs ≡ some ys → xs ≡ ys
same_rows e = ap rows_from e

-- A text whose alias no row has is not that of a row's.
pub not_same :
    (a b : Text) (rs : List Alias)
    → has_alias a rs ≡ false
    → has_alias b rs ≡ true
    → same_text a b ≡ false
not_same a b rs h k = go (same_text a b) refl
  where
    go : (c : Bool) → same_text a b ≡ c → c ≡ false
    go false e = refl
    go true e =
        absurd (true≢false (sym k ∙ ap (λ t. has_alias t rs) (sym (same_text-eq a b e)) ∙ h))

module _ (i : Text) where
  pub find-has_alias :
      (rs : List Alias) (r : Alias) → find i rs ≡ some r → has_alias r.alias rs ≡ true
  find-has_alias [] r h = cc
  find-has_alias (x ∷ xs) r h = go (same_text x.ews_id i) (find-has_alias xs r) h
    where
      go :
          (b : Bool)
          → (find i xs ≡ some r → has_alias r.alias xs ≡ true)
          → (if b then some x else find i xs) ≡ some r
          → (same_text x.alias r.alias || has_alias r.alias xs) ≡ true
      go true f e =
          or_left (same_text x.alias r.alias) (has_alias r.alias xs)
            (same_of x.alias r.alias (same_alias x r e))
      go false f e = or_right (same_text x.alias r.alias) (has_alias r.alias xs) (f e)

  pub find-alias :
      (rs : List Alias) (r : Alias) → Sound rs → find i rs ≡ some r → is_alias r.alias ≡ true
  find-alias [] r s h = cc
  find-alias (x ∷ xs) r s h = go (same_text x.ews_id i) (find-alias xs r s.3) h
    where
      go :
          (b : Bool)
          → (find i xs ≡ some r → is_alias r.alias ≡ true)
          → (if b then some x else find i xs) ≡ some r
          → is_alias r.alias ≡ true
      go true f e = ap is_alias (sym (same_alias x r e)) ∙ s.0
      go false f e = f e

  -- The alias of a raw id leads back to it.
  pub find-id_of :
      (rs : List Alias) (r : Alias) → Sound rs → find i rs ≡ some r → id_of r.alias rs ≡ some i
  find-id_of [] r s h = cc
  find-id_of (x ∷ xs) r s h = go (same_text x.ews_id i) refl (find-id_of xs r s.3) h
    where
      go :
          (b : Bool)
          → same_text x.ews_id i ≡ b
          → (find i xs ≡ some r → id_of r.alias xs ≡ some i)
          → (if b then some x else find i xs) ≡ some r
          → (if same_text x.alias r.alias then some x.ews_id else id_of r.alias xs) ≡ some i
      go true k f e =
          if_true (same_text x.alias r.alias) (some x.ews_id) (id_of r.alias xs)
            (same_of x.alias r.alias (same_alias x r e))
          ∙ ap some (same_text-eq x.ews_id i k)
      go false k f e =
          if_false (same_text x.alias r.alias) (some x.ews_id) (id_of r.alias xs)
            (not_same x.alias r.alias xs s.1 (find-has_alias xs r e))
          ∙ f e
