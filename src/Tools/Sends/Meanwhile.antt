-- ===== src/Tools/Sends/Meanwhile.antt =====
-- A receipt of ewsmcp/tools/writes.py while other keyed sends look at the receipts and add theirs.
use exchange_mcp.Prelude.{
  ℕ, zero, suc, ◌+◌, ◌≤◌, arith, ◌≡◌, refl, sym, ap, ◌∙◌, Bool, true, false, not, Option, none,
  some, List, [], ◌∷◌, ◌⊎◌, inr, if◌then◌else◌, if_true, if_false, leb, length, All,
}
use exchange_mcp.Prelude.Int.{ℤ}
use exchange_mcp.Text.{Text, same_text, same_text-eq}
use exchange_mcp.Tools.Arguments.{filled}
use exchange_mcp.Tools.Errors.{Exn}
use exchange_mcp.Tools.Sends.{
  Receipt, Memo, sent, replayed, expired, unexpired, lookup, idempotency_get, trim, assign,
  idempotency_put, recorded, prior_or_send, send_keyed, send_draft,
}
use exchange_mcp.Tools.Sends.Replay.{assign-lookup, lookup-unexpired, send_draft-Standing}
use exchange_mcp.Tools.Sends.Capped.{assign-le}

-- What another call does to the receipts: a look at some time, or a receipt of its own.
pub data Event (R : Type 0) : Type 0 where
  looked : ℤ → Text → Event R
  recorded_as : Text → Receipt R → Event R

module _ {R : Type 0} where
  abbrev pub meanwhile : List (Event R) → Memo R → Memo R
  meanwhile [] m = m
  meanwhile (looked now key ∷ es) m = meanwhile es (idempotency_get now key m).1
  meanwhile (recorded_as key r ∷ es) m = meanwhile es (idempotency_put key r m)

  -- The event leaves the receipt of the key alone: it looks before the receipt has expired, or
  -- records another key.
  abbrev pub Leaves : Text → Receipt R → Event R → Type 0
  Leaves key r (looked now k) = expired now r ≡ false
  Leaves key r (recorded_as k r') = same_text k key ≡ false

  -- With room for one more, nothing is evicted.
  trim-room : (fuel : ℕ) (m : Memo R) → leb 512 (length m) ≡ false → trim fuel m ≡ m
  unfolding trim
  trim-room zero m h = refl
  trim-room (suc fuel) m h = if_false (leb 512 (length m)) _ m h

  idempotency_put-room :
      (key : Text) (r : Receipt R) (m : Memo R)
      → suc (length m) ≤ 512
      → idempotency_put key r m ≡ assign key r m
  unfolding idempotency_put
  idempotency_put-room key r m h = ap (assign key r) (trim-room (length m) m (ground (arith, h)))

  assign-other :
      (k key : Text) (x : Receipt R) (m : Memo R)
      → same_text k key ≡ false
      → lookup key (assign k x m) ≡ lookup key m
  assign-other k key x [] h = if_false (same_text k key) (some x) none h
  assign-other k key x ((j, y) ∷ rest) h = go (same_text j k) refl (assign-other k key x rest h)
    where
      after : Bool → Memo R
      after b = if b then (j, x) ∷ rest else (j, y) ∷ assign k x rest

      own : same_text j k ≡ true → same_text j key ≡ false
      own e = ap (λ (t : Text). same_text t key) (same_text-eq j k e) ∙ h

      go :
          (b : Bool)
          → same_text j k ≡ b
          → lookup key (assign k x rest) ≡ lookup key rest
          → lookup key (after b) ≡ lookup key ((j, y) ∷ rest)
      go true e later =
          if_false (same_text j key) (some x) (lookup key rest) (own e)
          ∙ sym (if_false (same_text j key) (some y) (lookup key rest) (own e))
      go false e later =
          ap (λ (o : Option (Receipt R)). if same_text j key then some y else o) later

  unexpired-le : (now : ℤ) (m : Memo R) → length (unexpired now m) ≤ length m
  unexpired-le now [] = omega arith
  unexpired-le now ((k, r) ∷ rest) = go (not (expired now r)) (unexpired-le now rest)
    where
      go :
          (b : Bool)
          → length (unexpired now rest) ≤ length rest
          → length (if b then (k, r) ∷ unexpired now rest else unexpired now rest)
            ≤ suc (length rest)
      go true h = omega arith
      go false h = omega arith

  -- The receipt is still there, as long as there is room for a receipt of every event.
  meanwhile-lookup :
      (es : List (Event R)) (key : Text) (r : Receipt R) (m : Memo R)
      → lookup key m ≡ some r
      → All (Leaves key r) es
      → length m + length es ≤ 512
      → lookup key (meanwhile es m) ≡ some r
  unfolding idempotency_get
  meanwhile-lookup [] key r m h k room = h
  meanwhile-lookup (looked now j ∷ es) key r m h k room =
      meanwhile-lookup es key r (unexpired now m) (lookup-unexpired now key m r h k.0) k.1
        (omega (arith, unexpired-le now m, room))
  meanwhile-lookup (recorded_as j x ∷ es) key r m h k room =
      let put : idempotency_put j x m ≡ assign j x m =
        idempotency_put-room j x m (omega (arith, room)) in
      let fits : length (idempotency_put j x m) ≤ suc (length m) = rw put (assign-le j x m) in
      meanwhile-lookup es key r (idempotency_put j x m)
        (ap (lookup key) put ∙ (assign-other j key x m k.0 ∙ h)) k.1 (omega (arith, fits, room))

  module _ {W : Type 0} (send : Text → W → (Exn ⊎ R) × W) where
    -- A keyed send that reaches Exchange is made once: after it come any looks at the receipts and
    -- any receipts of other keys, as many as there is room for under 512; as long as the send's own
    -- receipt has not expired at any look, the next call with the key and the draft answers the
    -- same result as a replay and leaves the world as it is. Past 512 receipts the oldest is evicted,
    -- expired or not, and nothing is claimed.
    pub send_draft-Once :
        (now after now' after' : ℤ) (key draft : Text) (m : Memo R) (w w' w'' : W) (result : R)
        (es : List (Event R))
        → filled key ≡ true
        → lookup key (unexpired now m) ≡ none
        → send draft w ≡ (inr result, w')
        → let r : Receipt R = record { draft_id = draft; result = result; ts = after } in
          let memo = idempotency_put key r (unexpired now m) in
          expired now' r ≡ false
          → All (Leaves key r) es
          → length memo + length es ≤ 512
          → (send_draft send now after draft (some key) m w ≡ (inr (sent result), (memo, w')))
            × (send_draft send now' after' draft (some key) (meanwhile es memo) w''
                ≡ (inr (replayed result), (unexpired now' (meanwhile es memo), w'')))
    unfolding send_draft idempotency_get idempotency_put
    send_draft-Once now after now' after' key draft m w w' w'' result es k new done fresh leaves
          room =
        let r : Receipt R = record { draft_id = draft; result = result; ts = after } in
        let kept = unexpired now m in
        let memo = idempotency_put key r kept in
        (
          ap (send_keyed send now after draft w m) (if_true (filled key) (some key) none k)
              ∙ ap (λ f. prior_or_send send after draft (some key) w (f, kept)) new
              ∙ ap (recorded send after draft (some key) kept) done,
          (send_draft-Standing send now' after' key draft draft (meanwhile es memo) w'' r k (
            meanwhile-lookup es key r memo (assign-lookup key r (trim (length kept) kept)) leaves
                room,
            fresh,
            refl,
          )).0,
        )
