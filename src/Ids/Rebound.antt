-- ===== src/Ids/Rebound.antt =====
-- What `rebind` of ewsmcp/ids.py does to the map from aliases to raw ids.
use mathlib.Core.Bool.{true≢false}
use exchange_mcp.Prelude.{
  ◌≡◌, refl, sym, ap, ◌∙◌, Bool, true, false, not, ◌&&◌, ◌||◌, Option, none, some, List, [], ◌∷◌,
  if◌then◌else◌, if_true, if_false, both_false,
}
use exchange_mcp.Prelude.Int.{ℤ}
use exchange_mcp.Text.{Text, same_text, same_text-eq, same_text_comm}
use exchange_mcp.Ids.Table.{Alias, Table, find, id_of, has_alias, drop_rival, repointed, repoint}
use exchange_mcp.Ids.Aliaser.{rebind_found, rebind}
use exchange_mcp.Ids.Found.{Sound}
use exchange_mcp.Ids.Found.{find-has_alias}

-- The abstract table: what each alias stands for.
abbrev pub View : Type 0
View = Text → Option Text

abbrev pub view : Table → View
view t = λ a. id_of a t.rows

abbrev pub alias_at : Option Alias → Option Text
alias_at none = none
alias_at (some r) = some r.alias

-- `i`, unless it is `new`, which another alias stands for from now on.
abbrev pub unless_new : Text → Option Text → Option Text
unless_new new none = none
unless_new new (some i) = if same_text i new then none else some i

-- The move of the abstract table: the alias stands for the new id, and no other alias does.
abbrev pub move : Text → Option Text → View → View
move new none v = v
move new (some a) v = λ b. if same_text a b then some new else unless_new new (v b)

module _ (now : ℤ) (new : Text) (changekey : Option Text) (a : Text) where
  -- The rows after the DELETE and the UPDATE.
  abbrev rows_after : List Alias → List Alias
  rows_after rs = repoint now new changekey a (drop_rival new a rs)

  -- What one row contributes.
  rows_after-row :
      (b : Text) (r : Alias) (rs : List Alias)
      → id_of b (rows_after (r ∷ rs)) ≡ (
          if same_text r.ews_id new && not (same_text r.alias a)
          then id_of b (rows_after rs)
          else if same_text r.alias b
          then some (if same_text r.alias a then new else r.ews_id)
          else id_of b (rows_after rs))
  unfolding drop_rival repoint
  rows_after-row b r rs = go (same_text r.ews_id new && not (same_text r.alias a))
    where
      head :
          (d : Bool)
          → (let r' = (if d then repointed now new changekey r else r) in
              if same_text r'.alias b then some r'.ews_id else id_of b (rows_after rs))
            ≡ (if same_text r.alias b
                then some (if d then new else r.ews_id)
                else id_of b (rows_after rs))
      head true = refl
      head false = refl

      go :
          (c : Bool)
          → id_of b (
              repoint now new changekey a
                (if c then drop_rival new a rs else r ∷ drop_rival new a rs))
            ≡ (if c
                then id_of b (rows_after rs)
                else if same_text r.alias b
                then some (if same_text r.alias a then new else r.ews_id)
                else id_of b (rows_after rs))
      go true = refl
      go false = head (same_text r.alias a)

  gone : (b : Text) (rs : List Alias) → has_alias b rs ≡ false → id_of b (rows_after rs) ≡ none
  unfolding drop_rival repoint
  gone b [] h = refl
  gone b (r ∷ rs) h =
      let (other, later) = both_false (same_text r.alias b) (has_alias b rs) h in
      rows_after-row b r rs
      ∙ go (same_text r.ews_id new && not (same_text r.alias a)) (same_text r.alias b) other
          (gone b rs later)
    where
      go :
          (c x : Bool)
          → x ≡ false
          → id_of b (rows_after rs) ≡ none
          → (if c
              then id_of b (rows_after rs)
              else if x
              then some (if same_text r.alias a then new else r.ews_id)
              else id_of b (rows_after rs))
            ≡ none
      go true x e k = k
      go false true e k = cc
      go false false e k = k

  -- The rows stand for what the abstract move says, if the alias is in use.
  moved :
      (b : Text) (rs : List Alias)
      → Sound rs
      → id_of b (rows_after rs)
        ≡ (if same_text a b && has_alias a rs then some new else unless_new new (id_of b rs))
  unfolding drop_rival repoint
  moved b [] s = go (same_text a b)
    where
      go : (c : Bool) → none ≡ (if c && false then some new else none)
      go true = refl
      go false = refl
  moved b (r ∷ rs) s =
      rows_after-row b r rs
      ∙ go (same_text r.alias a) (same_text r.alias b) (same_text r.ews_id new) (same_text a b) refl
          own other alone
          (λ e. gone b rs (ap (λ t. has_alias t rs) (sym (same_text-eq r.alias b e)) ∙ s.1))
          (moved b rs s.3)
    where
      own : same_text r.alias a ≡ true → same_text a b ≡ same_text r.alias b
      own e = ap (λ t. same_text t b) (sym (same_text-eq r.alias a e))

      other : same_text r.alias a ≡ false → same_text r.alias b ≡ true → same_text a b ≡ false
      other e k =
          ap (λ t. same_text a t) (sym (same_text-eq r.alias b k)) ∙ same_text_comm a r.alias ∙ e

      alone : same_text r.alias a ≡ true → has_alias a rs ≡ false
      alone e = ap (λ t. has_alias t rs) (sym (same_text-eq r.alias a e)) ∙ s.1

      go :
          (y x c ab : Bool)
          → same_text r.ews_id new ≡ c
          → (y ≡ true → ab ≡ x)
          → (y ≡ false → x ≡ true → ab ≡ false)
          → (y ≡ true → has_alias a rs ≡ false)
          → (x ≡ true → id_of b (rows_after rs) ≡ none)
          → id_of b (rows_after rs)
            ≡ (if ab && has_alias a rs then some new else unless_new new (id_of b rs))
          → (if c && not y
              then id_of b (rows_after rs)
              else if x
              then some (if y then new else r.ews_id)
              else id_of b (rows_after rs))
            ≡ (if ab && (y || has_alias a rs)
                then some new
                else unless_new new (if x then some r.ews_id else id_of b rs))
      go true true true true q f g h k e = refl
      go true true false true q f g h k e = refl
      go true true c false q f g h k e = absurd (true≢false (sym (f refl)))
      go true false true false q f g h k e = e
      go true false false false q f g h k e = e
      go true false c true q f g h k e = absurd (true≢false (f refl))
      go false true c true q f g h k e = absurd (true≢false (g refl refl))
      go false true true false q f g h k e =
          k refl ∙ sym (if_true (same_text r.ews_id new) none (some r.ews_id) q)
      go false true false false q f g h k e =
          sym (if_false (same_text r.ews_id new) none (some r.ews_id) q)
      go false false true ab q f g h k e = e
      go false false false ab q f g h k e = e

-- Without a storage error `rebind` is the move of the abstract table that an alias map is: the alias
-- of the old id, if there is one, stands for the new id from now on, an alias that stood for the new
-- id stands for nothing, every other alias keeps its id; and the alias is what `rebind` returns.
pub rebind-move :
    (now : ℤ) (old new : Text) (changekey : Option Text) (t : Table)
    → Sound t.rows
    → ((rebind false now old new changekey t).0 ≡ alias_at (find old t.rows))
      × ((b : Text)
          → view (rebind false now old new changekey t).1 b
            ≡ move new (alias_at (find old t.rows)) (view t) b)
unfolding rebind
rebind-move now old new changekey t s = go (find old t.rows) refl
  where
    in_use : (r : Alias) → find old t.rows ≡ some r → has_alias r.alias t.rows ≡ true
    in_use r e = find-has_alias old t.rows r e

    go :
        (f : Option Alias)
        → find old t.rows ≡ f
        → ((rebind_found now new changekey t f).0 ≡ alias_at f)
          × ((b : Text)
              → view (rebind_found now new changekey t f).1 b ≡ move new (alias_at f) (view t) b)
    go none e = (refl, λ b. refl)
    go (some r) e = (
      refl,
      λ b. moved now new changekey r.alias b t.rows s ∙ used (same_text r.alias b) b (in_use r e),
    )
      where
        used :
            (c : Bool) (b : Text)
            → has_alias r.alias t.rows ≡ true
            → (if c && has_alias r.alias t.rows then some new else unless_new new (id_of b t.rows))
              ≡ (if c then some new else unless_new new (id_of b t.rows))
        used true b k =
            if_true (has_alias r.alias t.rows) (some new) (unless_new new (id_of b t.rows)) k
        used false b k = refl
