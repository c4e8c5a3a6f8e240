-- ===== src/Tools/Dispatch/Passed.antt =====
-- The gates of the dispatcher of ewsmcp/tools/base.py that a call passes.
use mathlib.Core.Bool.{false≢true}
use exchange_mcp.Prelude.{
  ◌≡◌, refl, Bool, true, false, not, ◌&&◌, Option, none, some, List, All, ltb, if◌then◌else◌,
}
use exchange_mcp.Prelude.Int.{ltb_ℤ}
use exchange_mcp.Tools.Errors.{ToolError}
use exchange_mcp.Tools.Arguments.{Args, split_list, recipients}
use exchange_mcp.Tools.Arguments.Recipients.{Admitted, recipient_guard-Admitted}
use exchange_mcp.Text.{Text}
use exchange_mcp.Tools.Calls.{
  tier_rank, needed_rank, Settings, Services, Tool, Moment, Server, is_send,
}
use exchange_mcp.Tools.Dispatch.{or_else, gates}

module _ {W R : Type 0} (sv : Services W) (st : Settings) (t : Tool W R) where
  abbrev pub AllAdmitted : List Text → Type 0
  AllAdmitted rs = All (Admitted sv.matches (split_list st.denylist) (split_list st.allowlist)) rs

  -- The policy admits the call: sending is on, the tier suffices, the circuit is closed, the
  -- connection is there if it is needed, and so is every recipient.
  abbrev pub Passed : Moment → Args → Server W → Type 0
  Passed m args s =
      (is_send t.class ≡ true → st.send_enabled ≡ true)
      × (ltb (tier_rank st.tier) (needed_rank t.class) ≡ false)
      × (ltb_ℤ m.circuit s.open_until ≡ false)
      × (t.requires_ews ≡ true → m.connecting ≡ false)
      × AllAdmitted (recipients args)

  or_else-none :
      (b : Bool) (e : ToolError) (o : Option ToolError)
      → or_else (if b then some e else none) o ≡ none
      → (b ≡ false) × (o ≡ none)
  or_else-none true e o h = cc
  or_else-none false e o h = (refl, h)

  implied : (x y : Bool) → (x && not y) ≡ false → x ≡ true → y ≡ true
  implied x true h e = refl
  implied true false h e = cc
  implied false false h e = absurd (false≢true e)

  denied : (x y : Bool) → (x && y) ≡ false → x ≡ true → y ≡ false
  denied x false h e = refl
  denied true true h e = cc
  denied false true h e = absurd (false≢true e)

  pub gates-Passed :
      (m : Moment) (args : Args) (s : Server W) → gates sv st t m args s ≡ none → Passed m args s
  unfolding gates
  gates-Passed m args s h =
      let (sending, h1) = or_else-none (is_send t.class && not st.send_enabled) _ _ h in
      let (tiered, h2) = or_else-none (ltb (tier_rank st.tier) (needed_rank t.class)) _ _ h1 in
      let (closed, h3) = or_else-none (ltb_ℤ m.circuit s.open_until) _ _ h2 in
      let (warm, h4) = or_else-none (t.requires_ews && m.connecting) _ _ h3 in
      (
        implied (is_send t.class) st.send_enabled sending,
        tiered,
        closed,
        denied t.requires_ews m.connecting warm,
        recipient_guard-Admitted sv.matches (split_list st.denylist) (split_list st.allowlist)
            (recipients args) h4,
      )
