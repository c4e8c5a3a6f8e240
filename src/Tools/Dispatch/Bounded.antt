-- ===== src/Tools/Dispatch/Bounded.antt =====
-- What every call of the dispatcher of ewsmcp/tools/base.py does to the limits and the audit.
use exchange_mcp.Prelude.{
  ℕ, suc, ◌≤◌, ◌<◌, arith, ◌≡◌, refl, ap, Bool, true, false, ◌&&◌, Option, none, some, List, [],
  ◌∷◌, ◌++◌, ◌⊎◌, inl, inr, if◌then◌else◌, leb, length, length-append,
}
use exchange_mcp.Prelude.Int.{ℤ, ◌+ℤ◌}
use exchange_mcp.Files.Confirm.{Token}
use exchange_mcp.Tools.Errors.{validation, ToolError, tool_error, Exn, tool, error_of}
use exchange_mcp.Tools.Arguments.{Args, without, get, resolve_ids}
use exchange_mcp.Tools.Calls.{
  Settings, Services, Tool, Moment, Server, Response, Gate, proceed, preview_first, stop, is_send,
}
use exchange_mcp.Tools.Dispatch.Traced.{Counted}
use exchange_mcp.Tools.Dispatch.Stages.{
  record_call-Counted, Sent, after_gates-Sent, after_gates-Counted,
}
use exchange_mcp.Tools.Dispatch.Window.{Guarded, RecentOf-shorter, rate_guard-Guarded}
use exchange_mcp.Tools.Dispatch.{
  rate_guard, note_failure, fail, is_upstream, counts_for_circuit, gates, confirm_gate, handled,
  run_handler, after_rate, execute, after_gate, after_gates, token_of, result_of, dispatch,
}

-- `_SEND_TIMES` within the cap, if there is one.
abbrev pub WithinCap : ℕ → List ℤ → Type 0
WithinCap cap sends = 1 ≤ cap → length sends ≤ cap

rate_guard-WithinCap :
    (cap : ℕ) (now : ℤ) (sends : List ℤ)
    → WithinCap cap sends
    → WithinCap cap (rate_guard cap now sends).1
rate_guard-WithinCap cap now sends h =
    go (rate_guard cap now sends) (rate_guard-Guarded cap now sends)
  where
    go : (x : (Option ToolError × List ℤ)) → Guarded cap now sends x → WithinCap cap x.1
    go x (inl (uncapped, admitted, same)) k = omega (arith, uncapped)
    go x (inr (inl (set, recent, full, capped))) k =
        omega (arith, RecentOf-shorter now sends x.1 recent, h k)
    go x (inr (inr (kept, recent, room, sent, admitted))) k =
        omega (arith, ap length sent, length-append kept (now ∷ []), room)

module _ {W R : Type 0} (sv : Services W) (st : Settings) (t : Tool W R) where
  -- The sends within the cap, and the failures short of the threshold.
  abbrev pub Bounded : Server W → Type 0
  Bounded s = WithinCap st.max_sends s.sends × (s.failures < st.failure_threshold)

  -- What a stage keeps before the audit is written.
  abbrev pub Keeps : Server W → Server W → Type 0
  Keeps s s' = (s'.audit ≡ s.audit) × (Bounded s → Bounded s')

  fail-Keeps : (now : ℤ) (e : Exn) (s : Server W) → Keeps s (fail st now e s)
  unfolding note_failure
  fail-Keeps now e s = go (is_upstream e && counts_for_circuit (error_of e).code)
    where
      count :
          (c : Bool)
          → leb st.failure_threshold (suc s.failures) ≡ c
          → Keeps s (
              if c
              then record s { failures = 0; open_until = now +ℤ st.open_seconds }
              else record s { failures = suc s.failures })
      count true k = (refl, λ h. (h.0, omega (arith, h.1)))
      count false k = (refl, λ h. (h.0, ground (arith, k)))

      go : (b : Bool) → Keeps s (if b then note_failure st now s else s)
      go true = count (leb st.failure_threshold (suc s.failures)) refl
      go false = (refl, λ h. h)

  handled-Keeps :
      (m : Moment) (s : Server W) (x : (Exn ⊎ R) × W) → Keeps s (handled sv st t m s x).1
  handled-Keeps m s (inl e, w) = fail-Keeps m.failure e (record s { world = w })
  handled-Keeps m s (inr r, w) = (refl, λ h. (h.0, omega (arith, h.1)))

  run_handler-Keeps :
      (m : Moment) (s : Server W) (o : Option Args) → Keeps s (run_handler sv st t m s o).1
  run_handler-Keeps m s none = fail-Keeps m.failure (tool (tool_error validation)) s
  run_handler-Keeps m s (some args) = handled-Keeps m s (t.handler args s.world)

  after_rate-Keeps :
      (m : Moment) (args : Args) (s : Server W) (x : (Option ToolError × List ℤ))
      → (WithinCap st.max_sends s.sends → WithinCap st.max_sends x.1)
      → Keeps s (after_rate sv st t m args s x).1
  after_rate-Keeps m args s (some e, sends) cap =
      let (same, keep) = fail-Keeps m.failure (tool e) (record s { sends = sends }) in
      (same, λ h. keep (cap h.0, h.1))
  after_rate-Keeps m args s (none, sends) cap =
      let (same, keep) =
        run_handler-Keeps m (record s { sends = sends }) (resolve_ids (sv.resolve s.world) args) in
      (same, λ h. keep (cap h.0, h.1))

  execute-Keeps : (m : Moment) (args : Args) (s : Server W) → Keeps s (execute sv st t m args s).1
  execute-Keeps m args s = go (is_send t.class)
    where
      go :
          (b : Bool)
          → Keeps s
              (after_rate sv st t m args s
                (if b then rate_guard st.max_sends m.rate s.sends else (none, s.sends))).1
      go true =
          after_rate-Keeps m args s (rate_guard st.max_sends m.rate s.sends)
            (rate_guard-WithinCap st.max_sends m.rate s.sends)
      go false = after_rate-Keeps m args s (none, s.sends) (λ h. h)

  after_gate-Keeps :
      (m : Moment) (args : Args) (s : Server W) (g : Gate)
      → Keeps s (after_gate sv st t m args s g).1
  after_gate-Keeps m args s (proceed cs) = execute-Keeps m args (record s { consumed = cs })
  after_gate-Keeps m args s (preview_first token) = (refl, λ h. h)
  after_gate-Keeps m args s (stop e cs) = fail-Keeps m.failure e (record s { consumed = cs })

  after_gates-Keeps :
      (m : Moment) (args : Args) (token : Option Token) (s : Server W) (o : Option ToolError)
      → Keeps s (after_gates sv st t m args token s o).1
  after_gates-Keeps m args token s (some e) = fail-Keeps m.failure (tool e) s
  after_gates-Keeps m args token s none =
      after_gate-Keeps m args s (confirm_gate sv st t m.token token args s)

  -- What the call of these arguments left of `s`: one more audit entry, of this tool and this answer;
  -- both limits, if they stood; and the sends and the failures that its course asks for.
  abbrev pub Accounted : Moment → Args → Server W → Response R × Server W → Type 0
  Accounted m args s x =
      (x.1.audit
        ≡ s.audit
          ++ (record { tool = t.name; class = t.class; outcome = result_of sv st t x.0 } ∷ []))
      × (Bounded s → Bounded x.1)
      × Sent sv st t m s x
      × Counted sv st t m args s x

  -- Whatever its answer, a call adds exactly one entry to the audit, with the tool's name, its class
  -- and the outcome that the answer has, and keeps the sends of the last hour within the cap, where
  -- there is one, and the failures short of the circuit's threshold. If the handler of a tool that
  -- sends runs under a cap, fewer sends than the cap lie within the last hour, and what is left of
  -- the window is those and this one; where they reach the cap, the call is refused as rate_capped
  -- and the world stays. An answer is the handler's on the resolved arguments and starts the count
  -- of failures anew; an error is the dispatcher's own, the preview's or the handler's, and one of
  -- the upstream counts one failure more, or opens the circuit at the threshold; nothing else
  -- changes the count or the circuit.
  pub dispatch-Accounted :
      (m : Moment) (kwargs : Args) (s : Server W)
      → Accounted m (without "confirm_token" kwargs) s (dispatch sv st t m kwargs s)
  unfolding dispatch
  dispatch-Accounted m kwargs s =
      let args = without "confirm_token" kwargs in
      let token = token_of sv st t (get "confirm_token" kwargs) in
      let x = after_gates sv st t m args token s (gates sv st t m args s) in
      let (same, keep) = after_gates-Keeps m args token s (gates sv st t m args s) in
      (
        ap
            (λ a.
              a
              ++ (record { tool = t.name; class = t.class; outcome = result_of sv st t x.0 } ∷ []))
            same,
        keep,
        after_gates-Sent sv st t m args token s (gates sv st t m args s),
        record_call-Counted sv st t m args s x
            (after_gates-Counted sv st t m args token s (gates sv st t m args s)),
      )
