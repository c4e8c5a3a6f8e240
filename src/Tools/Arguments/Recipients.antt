-- ===== src/Tools/Arguments/Recipients.antt =====
-- The recipients that `_recipient_guard` of ewsmcp/tools/base.py lets pass.
use mathlib.Core.Bool.{false≢true}
use exchange_mcp.Prelude.{
  ◌≡◌, refl, Bool, true, false, not, ◌&&◌, ◌||◌, Option, none, some, List, [], ◌∷◌, All,
  if◌then◌else◌,
}
use exchange_mcp.Text.{Text}
use exchange_mcp.Tools.Errors.{recipient_blocked, ToolError, tool_error}
use exchange_mcp.Tools.Arguments.{any_match, non_empty, blocked, recipient_guard}

module _ (matches : Text → Text → Bool) (deny allow : List Text) where
  -- No pattern of the denylist matches, and one of the allowlist does, if there is one.
  abbrev pub Admitted : Text → Type 0
  Admitted r =
      (any_match matches r deny ≡ false)
      × (non_empty allow ≡ true → any_match matches r allow ≡ true)

  not_blocked-Admitted : (r : Text) → blocked matches deny allow r ≡ false → Admitted r
  not_blocked-Admitted r =
      go (any_match matches r deny) (non_empty allow) (any_match matches r allow)
    where
      go : (b c d : Bool) → (b || (c && not d)) ≡ false → (b ≡ false) × (c ≡ true → d ≡ true)
      go true c d h = cc
      go false true true h = (refl, λ e. refl)
      go false true false h = cc
      go false false d h = (refl, λ e. absurd (false≢true e))

  pub recipient_guard-Admitted :
      (rs : List Text) → recipient_guard matches deny allow rs ≡ none → All Admitted rs
  unfolding recipient_guard
  recipient_guard-Admitted [] h = tt
  recipient_guard-Admitted (r ∷ rs) h =
      let (free, later) =
        go (blocked matches deny allow r) (recipient_guard matches deny allow rs) h in
      (not_blocked-Admitted r free, recipient_guard-Admitted rs later)
    where
      go :
          (b : Bool) (o : Option ToolError)
          → (if b then some (tool_error recipient_blocked) else o) ≡ none
          → (b ≡ false) × (o ≡ none)
      go true o h = cc
      go false o h = (refl, h)
