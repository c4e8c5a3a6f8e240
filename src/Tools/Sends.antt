-- ===== src/Tools/Sends.antt =====
-- ewsmcp/tools/writes.py: the receipts of the sends, by idempotency key, and `send_draft`. What Exchange
-- does with the draft is a function on a world.
pub mod Replay
pub mod Meanwhile
pub mod Capped
use exchange_mcp.Prelude.{
  ℕ, zero, suc, Bool, true, false, not, Option, none, some, List, [], ◌∷◌, ◌⊎◌, inl, inr,
  if◌then◌else◌, leb, length, select,
}
use exchange_mcp.Prelude.Int.{ℤ, pos, ◌-ℤ◌, ltb_ℤ}
use exchange_mcp.Text.{Text, same_text}
use exchange_mcp.Tools.Errors.{validation, Exn, tool, tool_error}
use exchange_mcp.Tools.Arguments.{filled}

-- A receipt of `_IDEMPOTENT_SENDS`.
pub record Receipt (R : Type 0) : Type 0 where
  pub draft_id : Text
  pub result : R
  pub ts : ℤ

abbrev pub Memo : Type 0 → Type 0
Memo R = List (Text × Receipt R)

-- A result, and whether it is a replay.
pub data Sent (R : Type 0) : Type 0 where
  sent : R → Sent R
  replayed : R → Sent R

-- A key that is given and not empty.
abbrev pub keyed : Option Text → Option Text
keyed none = none
keyed (some k) = if filled k then some k else none

module _ {R : Type 0} where
  -- _IDEMPOTENCY_TTL_S
  abbrev pub expired : ℤ → Receipt R → Bool
  expired now r = ltb_ℤ (pos 172800) (now -ℤ r.ts)

  abbrev pub unexpired : ℤ → Memo R → Memo R
  unexpired now m = select (λ e. not (expired now e.1)) m

  abbrev pub lookup : Text → Memo R → Option (Receipt R)
  lookup key [] = none
  lookup key ((k, r) ∷ rest) =
      let later = lookup key rest in if same_text k key then some r else later

  -- `_idempotency_get`
  unfoldable pub idempotency_get : ℤ → Text → Memo R → Option (Receipt R) × Memo R
  unfolding ◌-ℤ◌
  idempotency_get now key m = (lookup key (unexpired now m), unexpired now m)

  -- The key of the first oldest receipt.
  abbrev pub oldest_of : Text → ℤ → Memo R → Text
  oldest_of k t [] = k
  oldest_of k t ((k', r) ∷ rest) =
      let kept = oldest_of k t rest in
      let moved = oldest_of k' r.ts rest in if ltb_ℤ r.ts t then moved else kept

  abbrev pub without_key : Text → Memo R → Memo R
  without_key key [] = []
  without_key key ((k, r) ∷ rest) =
      let later = without_key key rest in if same_text k key then later else (k, r) ∷ later

  abbrev pub evict : Memo R → Memo R
  evict [] = []
  evict ((k, r) ∷ rest) = without_key (oldest_of k r.ts rest) ((k, r) ∷ rest)

  -- `while len(…) >= _IDEMPOTENCY_MAX`; every turn drops a receipt, so their number is fuel enough.
  unfoldable pub trim : ℕ → Memo R → Memo R
  trim zero m = m
  trim (suc fuel) m = let rest = trim fuel (evict m) in if leb 512 (length m) then rest else m

  abbrev pub assign : Text → Receipt R → Memo R → Memo R
  assign key r [] = (key, r) ∷ []
  assign key r ((k, x) ∷ rest) =
      let later = assign key r rest in if same_text k key then (k, r) ∷ rest else (k, x) ∷ later

  -- `_idempotency_put`
  unfoldable pub idempotency_put : Text → Receipt R → Memo R → Memo R
  unfolding trim
  idempotency_put key r m = assign key r (trim (length m) m)

  abbrev pub same_draft : Text → Option (Receipt R) → Bool
  same_draft draft none = false
  same_draft draft (some r) = same_text r.draft_id draft

  abbrev pub confirm_unless : Text → Option (Receipt R) × Memo R → Bool × Memo R
  confirm_unless draft (found, m) = (not (same_draft draft found), m)

  abbrev pub confirm_for : ℤ → Text → Memo R → Option Text → Bool × Memo R
  confirm_for now draft m none = (true, m)
  confirm_for now draft m (some k) = confirm_unless draft (idempotency_get now k m)

  -- `_send_confirm_needed`, of the id that the caller gave.
  unfoldable pub send_confirm_needed : ℤ → Text → Option Text → Memo R → Bool × Memo R
  unfolding idempotency_get
  send_confirm_needed now draft key m = confirm_for now draft m (keyed key)

  module _ {W : Type 0} (send : Text → W → (Exn ⊎ R) × W) where
    abbrev pub Outcome : Type 0
    Outcome = (Exn ⊎ Sent R) × (Memo R × W)

    abbrev pub recorded : ℤ → Text → Option Text → Memo R → (Exn ⊎ R) × W → Outcome
    recorded now draft key m (inl e, w) = (inl e, (m, w))
    recorded now draft none m (inr r, w) = (inr (sent r), (m, w))
    recorded now draft (some k) m (inr r, w) =
        (inr (sent r), (idempotency_put k (record { draft_id = draft; result = r; ts = now }) m, w))

    abbrev pub prior_or_send : ℤ → Text → Option Text → W → Option (Receipt R) × Memo R → Outcome
    prior_or_send now draft key w (none, m) = recorded now draft key m (send draft w)
    prior_or_send now draft key w (some r, m) =
        if same_text r.draft_id draft
        then (inr (replayed r.result), (m, w))
        else (inl (tool (tool_error validation)), (m, w))

    abbrev pub send_keyed : ℤ → ℤ → Text → W → Memo R → Option Text → Outcome
    send_keyed now after draft w m none = recorded after draft none m (send draft w)
    send_keyed now after draft w m (some k) =
        prior_or_send after draft (some k) w (idempotency_get now k m)

    -- `_send_draft`, of the resolved id; `after` is the clock behind the send.
    unfoldable pub send_draft : ℤ → ℤ → Text → Option Text → Memo R → W → Outcome
    unfolding idempotency_get idempotency_put
    send_draft now after draft key m w = send_keyed now after draft w m (keyed key)
