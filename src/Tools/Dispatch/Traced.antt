-- ===== src/Tools/Dispatch/Traced.antt =====
-- What a call of the dispatcher of ewsmcp/tools/base.py leaves of the window of sends and of the
-- count of failures, each stage of the call by itself.
use exchange_mcp.Prelude.{
  String, suc, ◌≤◌, ◌<◌, arith, ◌≡◌, refl, Bool, true, false, Option, none, some, [], ◌∷◌, ◌⊎◌, inl,
  inr, if◌then◌else◌, leb,
}
use exchange_mcp.Prelude.Int.{ℤ, ◌+ℤ◌}
use exchange_mcp.Files.Confirm.{Token, Verdict, Consumed, verify_token, consume_token}
use exchange_mcp.Tools.Errors
use exchange_mcp.Tools.Errors.{Code, rate_capped, validation, ToolError, Exn, tool, error_of}
use exchange_mcp.Tools.Arguments.{Args, resolve_ids, split_list, recipient_guard}
use exchange_mcp.Tools.Calls.{
  Content, Settings, Services, Tool, Moment, Server, Response, answer, preview_token, error, Gate,
  proceed, preview_first, stop, part_args,
}
use exchange_mcp.Tools.Dispatch.{
  note_failure, fail, counts_for_circuit, target_of, content_recipients, content_hash_of,
  consumed_gate, verdict_gate, token_gate, guarded_content, content_gate, hook_gate, confirm_gate,
}

-- The codes that count for the circuit: those of an upstream that fails.
abbrev pub IsUpstream : Code → Type 0
IsUpstream Errors.upstream_unavailable = Unit
IsUpstream Errors.upstream_error = Unit
IsUpstream Errors.throttled = Unit
IsUpstream _ = ⊥

counts_for_circuit-IsUpstream :
    (c : Code)
    → ((counts_for_circuit c ≡ true) × IsUpstream c)
      ⊎ ((counts_for_circuit c ≡ false) × (IsUpstream c → ⊥))
counts_for_circuit-IsUpstream Errors.validation = inr (refl, λ h. h)
counts_for_circuit-IsUpstream Errors.auth_failed = inr (refl, λ h. h)
counts_for_circuit-IsUpstream Errors.tier_blocked = inr (refl, λ h. h)
counts_for_circuit-IsUpstream Errors.kill_switch = inr (refl, λ h. h)
counts_for_circuit-IsUpstream Errors.recipient_blocked = inr (refl, λ h. h)
counts_for_circuit-IsUpstream Errors.confirm_invalid = inr (refl, λ h. h)
counts_for_circuit-IsUpstream Errors.not_found = inr (refl, λ h. h)
counts_for_circuit-IsUpstream Errors.throttled = inl (refl, tt)
counts_for_circuit-IsUpstream Errors.rate_capped = inr (refl, λ h. h)
counts_for_circuit-IsUpstream Errors.upstream_unavailable = inl (refl, tt)
counts_for_circuit-IsUpstream Errors.upstream_error = inl (refl, tt)
counts_for_circuit-IsUpstream Errors.daemon_unavailable = inr (refl, λ h. h)
counts_for_circuit-IsUpstream Errors.backend_unavailable = inr (refl, λ h. h)
counts_for_circuit-IsUpstream Errors.internal = inr (refl, λ h. h)

-- An exception of the libraries, by its name and text one of the upstream.
abbrev pub Counts : Exn → Type 0
Counts (tool e) = ⊥
Counts Exn.contract = ⊥
Counts (Exn.other name message) = IsUpstream (error_of (Exn.other name message)).code

module _ {W : Type 0} (st : Settings) where
  -- One failure more, or, at the threshold, an open circuit and a new count; else neither changes.
  abbrev pub Noted : ℤ → Exn → Server W → Server W → Type 0
  Noted now e s s' =
      (Counts e
        × (((suc s.failures < st.failure_threshold)
              × (s'.failures ≡ suc s.failures)
              × (s'.open_until ≡ s.open_until))
            ⊎ ((st.failure_threshold ≤ suc s.failures)
                × (s'.failures ≡ 0)
                × (s'.open_until ≡ now +ℤ st.open_seconds))))
      ⊎ ((Counts e → ⊥) × (s'.failures ≡ s.failures) × (s'.open_until ≡ s.open_until))

  note_failure-Noted :
      (now : ℤ) (e : Exn) (s : Server W) → Counts e → Noted now e s (note_failure st now s)
  unfolding note_failure
  note_failure-Noted now e s c = inl (c, go (leb st.failure_threshold (suc s.failures)) refl)
    where
      below :
          leb st.failure_threshold (suc s.failures) ≡ false → suc s.failures < st.failure_threshold
      below k = ground arith

      reached :
          leb st.failure_threshold (suc s.failures) ≡ true → st.failure_threshold ≤ suc s.failures
      reached k = ground arith

      go :
          (b : Bool)
          → leb st.failure_threshold (suc s.failures) ≡ b
          → let s' =
              (if b
                then record s { failures = 0; open_until = now +ℤ st.open_seconds }
                else record s { failures = suc s.failures }) in
            ((suc s.failures < st.failure_threshold)
              × (s'.failures ≡ suc s.failures)
              × (s'.open_until ≡ s.open_until))
            ⊎ ((st.failure_threshold ≤ suc s.failures)
                × (s'.failures ≡ 0)
                × (s'.open_until ≡ now +ℤ st.open_seconds))
      go true k = inr (reached k, refl, refl)
      go false k = inl (below k, refl, refl)

  pub fail-Noted : (now : ℤ) (e : Exn) (s : Server W) → Noted now e s (fail st now e s)
  fail-Noted now (tool e) s = inr ((λ h. h), refl, refl)
  fail-Noted now Exn.contract s = inr ((λ h. h), refl, refl)
  fail-Noted now (Exn.other name message) s =
      go (counts_for_circuit (error_of e).code) (counts_for_circuit-IsUpstream (error_of e).code)
    where
      e : Exn
      e = Exn.other name message

      go :
          (b : Bool)
          → (((b ≡ true) × Counts e) ⊎ ((b ≡ false) × (Counts e → ⊥)))
          → Noted now e s (if b then note_failure st now s else s)
      go true (inl (k, c)) = note_failure-Noted now e s c
      go true (inr (k, c)) = cc
      go false (inl (k, c)) = cc
      go false (inr (k, c)) = inr (c, refl, refl)

module _ {W R : Type 0} (sv : Services W) (st : Settings) (t : Tool W R) where
  -- What the gate of the confirmation raises: an error of its own, or what the preview raised.
  abbrev pub OfGate : Args → W → Exn → Type 0
  OfGate args w e =
      ((te : ToolError) × (e ≡ tool te))
      ⊎ ((hook : (Args → W → Exn ⊎ Content)) × (t.preview ≡ some hook) × (hook args w ≡ inl e))

  abbrev pub GateStops : Args → W → Gate → Type 0
  GateStops args w (proceed cs) = Unit
  GateStops args w (preview_first token) = Unit
  GateStops args w (stop e cs) = OfGate args w e

  verdict_gate-Stops :
      (now : ℤ) (token : Token) (cs : Consumed) (args : Args) (w : W) (v : Verdict)
      → GateStops args w (verdict_gate sv st t now token cs v)
  verdict_gate-Stops now token cs args w Verdict.ok =
      consumed (consume_token sv.codec now st.default_ttl token cs)
    where
      consumed : (r : (Bool × Consumed)) → GateStops args w (consumed_gate sv st t r)
      consumed (true, kept) = tt
      consumed (false, kept) = inl (_, refl)
  verdict_gate-Stops now token cs args w Verdict.malformed = inl (_, refl)
  verdict_gate-Stops now token cs args w Verdict.bad_signature = inl (_, refl)
  verdict_gate-Stops now token cs args w Verdict.expired = inl (_, refl)
  verdict_gate-Stops now token cs args w Verdict.stale = inl (_, refl)

  token_gate-Stops :
      (now : ℤ) (token : Option Token) (cs : Consumed) (args : Args) (w : W) (target chash : String)
      → GateStops args w (token_gate sv st t now token cs target chash)
  unfolding token_gate
  token_gate-Stops now none cs args w target chash = tt
  token_gate-Stops now (some token) cs args w target chash =
      verdict_gate-Stops now token cs args w
        (verify_token sv.codec st.secret now token st.mailbox t.name target chash)

  content_gate-Stops :
      (now : ℤ) (token : Option Token) (args : Args) (cs : Consumed) (w : W)
      (hook : Args → W → Exn ⊎ Content)
      → t.preview ≡ some hook
      → (r : Exn ⊎ Content) → hook args w ≡ r
      → GateStops args w (content_gate sv st t now token args cs r)
  content_gate-Stops now token args cs w hook own (inl e) h = inr (hook, own, h)
  content_gate-Stops now token args cs w hook own (inr c) h = guarded (
      recipient_guard sv.matches (split_list st.denylist) (split_list st.allowlist)
        (content_recipients sv st t c))
    where
      next : Gate
      next =
          token_gate sv st t now token cs (sv.to_string (target_of args))
            (content_hash_of sv st t c)

      guarded : (g : Option ToolError) → GateStops args w (guarded_content sv st t g next cs)
      guarded none =
          token_gate-Stops now token cs args w (sv.to_string (target_of args))
            (content_hash_of sv st t c)
      guarded (some e) = inl (e, refl)

  pub confirm_gate-Stops :
      (now : ℤ) (token : Option Token) (args : Args) (s : Server W)
      → GateStops args s.world (confirm_gate sv st t now token args s)
  unfolding confirm_gate
  confirm_gate-Stops now token args s = go (t.confirm args s.world) t.preview refl
    where
      go :
          (b : Bool) (hook : Option (Args → W → Exn ⊎ Content))
          → t.preview ≡ hook
          → GateStops args s.world
              (if b then hook_gate sv st t now token args s hook else proceed s.consumed)
      go true none own =
          token_gate-Stops now token s.consumed args s.world "-" (sv.hash (part_args args ∷ []))
      go true (some hook) own =
          content_gate-Stops now token args s.consumed s.world hook own (hook args s.world) refl
      go false hook own = tt

  -- The handler ran on the resolved arguments, and ended so.
  abbrev pub Handled : Args → W → Exn ⊎ R → W → Type 0
  Handled args w r w' =
      (args' : Args) × (resolve_ids (sv.resolve w) args ≡ some args')
      × (t.handler args' w ≡ (r, w'))

  -- Where the exception that ends a call comes from.
  abbrev pub Origin : Args → W → Exn → W → Type 0
  Origin args w e w' = ((w' ≡ w) × OfGate args w e) ⊎ Handled args w (inl e) w'

  -- The count of failures and the circuit after a call: anew after the handler's success, as they
  -- were after a preview, and as the exception says that ended the call.
  abbrev pub Counted : Moment → Args → Server W → Response R × Server W → Type 0
  Counted m args s (answer r, s') =
      Handled args s.world (inr r) s'.world × (s'.failures ≡ 0) × (s'.open_until ≡ s.open_until)
  Counted m args s (preview_token token, s') =
      (s'.failures ≡ s.failures) × (s'.open_until ≡ s.open_until)
  Counted m args s (error e, s') =
      (exn : Exn) × (e ≡ error_of exn)
      × Origin args s.world exn s'.world
      × Noted st m.failure exn s s'

  pub failing-Counted :
      (m : Moment) (args : Args) (s : Server W) (te : ToolError)
      → Counted m args s (error (error_of (tool te)), fail st m.failure (tool te) s)
  failing-Counted m args s te =
      (tool te, refl, inl (refl, inl (te, refl)), fail-Noted st m.failure (tool te) s)
