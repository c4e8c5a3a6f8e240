-- ===== src/Tools/Sends/Replay.antt =====
-- What a second send with the same key does, by ewsmcp/tools/writes.py.
use mathlib.Core.Bool.{true≢false}
use exchange_mcp.Prelude.{
  ◌≡◌, refl, sym, ap, ◌∙◌, Bool, true, false, not, Option, none, some, [], ◌∷◌, ◌⊎◌, inl, inr,
  if◌then◌else◌, if_true, if_false,
}
use exchange_mcp.Prelude.Int.{ℤ}
use exchange_mcp.Text.{Text, same_text, same_text_refl, same_of}
use exchange_mcp.Tools.Arguments.{filled}
use exchange_mcp.Tools.Errors.{validation, Exn, tool, tool_error}
use exchange_mcp.Tools.Sends.{
  Receipt, Memo, replayed, expired, unexpired, lookup, idempotency_get, assign, same_draft, keyed,
  confirm_for, send_confirm_needed, Outcome, prior_or_send, send_keyed, send_draft,
}

some_eq : {R : Type 0} {x y : Receipt R} → some x ≡ some y → x ≡ y
some_eq h = cc

module _ {R : Type 0} where
  pub assign-lookup :
      (key : Text) (r : Receipt R) (m : Memo R) → lookup key (assign key r m) ≡ some r
  assign-lookup key r [] = if_true (same_text key key) (some r) none (same_text_refl key)
  assign-lookup key r ((k, x) ∷ rest) = go (same_text k key) refl (assign-lookup key r rest)
    where
      go :
          (b : Bool)
          → same_text k key ≡ b
          → lookup key (assign key r rest) ≡ some r
          → lookup key (if b then (k, r) ∷ rest else (k, x) ∷ assign key r rest) ≡ some r
      go true e h = if_true (same_text k key) (some r) (lookup key rest) e
      go false e h = if_false (same_text k key) (some x) (lookup key (assign key r rest)) e ∙ h

  -- A receipt that has not expired is found after those that have are dropped.
  pub lookup-unexpired :
      (now : ℤ) (key : Text) (m : Memo R) (r : Receipt R)
      → lookup key m ≡ some r
      → expired now r ≡ false
      → lookup key (unexpired now m) ≡ some r
  lookup-unexpired now key [] r h e = h
  lookup-unexpired now key ((k, x) ∷ rest) r h e =
      go (same_text k key) refl h (expired now x) refl (lookup-unexpired now key rest r)
    where
      go :
          (b : Bool)
          → same_text k key ≡ b
          → (if b then some x else lookup key rest) ≡ some r
          → (c : Bool) → expired now x ≡ c
          → (lookup key rest ≡ some r
              → expired now r ≡ false
              → lookup key (unexpired now rest) ≡ some r)
          → lookup key (if not c then (k, x) ∷ unexpired now rest else unexpired now rest) ≡ some r
      go true s h' true d f = absurd (true≢false (sym d ∙ ap (expired now) (some_eq h') ∙ e))
      go true s h' false d f =
          if_true (same_text k key) (some x) (lookup key (unexpired now rest)) s ∙ h'
      go false s h' true d f = f h' e
      go false s h' false d f =
          if_false (same_text k key) (some x) (lookup key (unexpired now rest)) s ∙ f h' e

  -- The receipt stands for the key and the draft, and has not expired.
  abbrev pub Standing : ℤ → Text → Text → Memo R → Receipt R → Type 0
  Standing now key draft m r =
      (lookup key m ≡ some r) × (expired now r ≡ false) × (r.draft_id ≡ draft)

  module _ {W : Type 0} (send : Text → W → (Exn ⊎ R) × W) where
    -- What a keyed send finds.
    prior-replayed :
        (now after : ℤ) (key draft : Text) (m : Memo R) (w : W) (r : Receipt R)
        → filled key ≡ true
        → lookup key (unexpired now m) ≡ some r
        → send_draft send now after draft (some key) m w ≡ (
            if same_text r.draft_id draft
            then (inr (replayed r.result), (unexpired now m, w))
            else (inl (tool (tool_error validation)), (unexpired now m, w)))
    unfolding send_draft idempotency_get
    prior-replayed now after key draft m w r k h =
        ap (send_keyed send now after draft w m) (if_true (filled key) (some key) none k)
        ∙ ap (λ f. prior_or_send send after draft (some key) w (f, unexpired now m)) h

    -- As long as a receipt stands, a send with its key does not reach Exchange: for the same draft it
    -- answers the recorded result as a replay, and for another one it is a validation error.
    pub send_draft-Standing :
        (now after : ℤ) (key draft other : Text) (m : Memo R) (w : W) (r : Receipt R)
        → filled key ≡ true
        → Standing now key draft m r
        → (send_draft send now after draft (some key) m w
            ≡ (inr (replayed r.result), (unexpired now m, w)))
          × (same_text draft other ≡ false
              → send_draft send now after other (some key) m w
                ≡ (inl (tool (tool_error validation)), (unexpired now m, w)))
    send_draft-Standing now after key draft other m w r k (found, fresh, own) =
        let kept = lookup-unexpired now key m r found fresh in
        (
          prior-replayed now after key draft m w r k kept
              ∙ if_true (same_text r.draft_id draft) (inr (replayed r.result), (unexpired now m, w))
                  (inl (tool (tool_error validation)), (unexpired now m, w))
                  (same_of r.draft_id draft own),
          λ differs.
              prior-replayed now after key other m w r k kept
              ∙ if_false (same_text r.draft_id other)
                  (inr (replayed r.result), (unexpired now m, w))
                  (inl (tool (tool_error validation)), (unexpired now m, w))
                  (ap (λ t. same_text t other) own ∙ differs),
        )

    -- A send that is spared its confirmation does not reach Exchange, if no time passes between the two
    -- looks at the receipts.
    pub spared-Unsent :
        (now after : ℤ) (draft : Text) (key : Option Text) (m : Memo R) (w : W)
        → (send_confirm_needed now draft key m).0 ≡ false
        → (send_draft send now after draft key m w).1.1 ≡ w
    unfolding send_confirm_needed send_draft idempotency_get
    spared-Unsent now after draft key m w = go (keyed key)
      where
        either :
            (b : Bool) (x y : Outcome send) → x.1.1 ≡ w → y.1.1 ≡ w → (if b then x else y).1.1 ≡ w
        either true x y h k = h
        either false x y h k = k

        found :
            (f : Option (Receipt R)) (k : Text)
            → not (same_draft draft f) ≡ false
            → (prior_or_send send after draft (some k) w (f, unexpired now m)).1.1 ≡ w
        found none k h = absurd (true≢false h)
        found (some r) k h =
            either (same_text r.draft_id draft) (inr (replayed r.result), (unexpired now m, w))
              (inl (tool (tool_error validation)), (unexpired now m, w)) refl refl

        go :
            (o : Option Text)
            → (confirm_for now draft m o).0 ≡ false
            → (send_keyed send now after draft w m o).1.1 ≡ w
        go none h = absurd (true≢false h)
        go (some k) h = found (lookup k (unexpired now m)) k h
