-- ===== src/Tools/Dispatch/Stages.antt =====
-- The window of sends and the count of failures, through the stages of a call of the dispatcher of
-- ewsmcp/tools/base.py.
use exchange_mcp.Prelude.{
  ◌≤◌, ◌<◌, ◌≡◌, refl, ap, sym, ◌∙◌, Bool, true, false, Option, none, some, List, [], ◌∷◌, ◌++◌,
  ◌⊎◌, inl, inr, if◌then◌else◌, length,
}
use exchange_mcp.Prelude.Int.{ℤ}
use exchange_mcp.Files.Confirm.{Token}
use exchange_mcp.Tools.Errors.{rate_capped, validation, ToolError, tool_error, Exn, error_of}
use exchange_mcp.Tools.Arguments.{Args, resolve_ids}
use exchange_mcp.Tools.Calls.{
  Settings, Services, Tool, Moment, Server, Response, answer, preview_token, error, Gate, proceed,
  preview_first, stop, is_send,
}
use exchange_mcp.Tools.Dispatch.{
  rate_guard, confirm_gate, handled, run_handler, after_rate, execute, after_gate, after_gates,
  record_call,
}
use exchange_mcp.Tools.Dispatch.Authorised.{fail-Same}
use exchange_mcp.Tools.Dispatch.Traced.{
  failing-Counted, fail-Noted, GateStops, confirm_gate-Stops, Counted,
}
use exchange_mcp.Tools.Dispatch.Window.{Guarded, RecentOf, rate_guard-Guarded}

module _ {W R : Type 0} (sv : Services W) (st : Settings) (t : Tool W R) where
  handled-Counted :
      (m : Moment) (args args' : Args) (s : Server W)
      → resolve_ids (sv.resolve s.world) args ≡ some args'
      → (x : ((Exn ⊎ R) × W)) → t.handler args' s.world ≡ x
      → Counted sv st t m args s (handled sv st t m s x)
  handled-Counted m args args' s resolved (inl e, w) h = (
    e,
    refl,
    inr (
      args',
      resolved,
      h
          ∙ ap (λ (v : W). (inl e, v))
              (sym (fail-Same sv st t m.failure e (record s { world = w })).0),
    ),
    fail-Noted st m.failure e (record s { world = w }),
  )
  handled-Counted m args args' s resolved (inr r, w) h = ((args', resolved, h), refl, refl)

  run_handler-Counted :
      (m : Moment) (args : Args) (s : Server W) (o : Option Args)
      → resolve_ids (sv.resolve s.world) args ≡ o
      → Counted sv st t m args s (run_handler sv st t m s o)
  run_handler-Counted m args s none e = failing-Counted sv st t m args s (tool_error validation)
  run_handler-Counted m args s (some args') e =
      handled-Counted m args args' s e (t.handler args' s.world) refl

  after_rate-Counted :
      (m : Moment) (args : Args) (s : Server W) (x : (Option ToolError × List ℤ))
      → Counted sv st t m args s (after_rate sv st t m args s x)
  after_rate-Counted m args s (some e, sends) = failing-Counted sv st t m args s e
  after_rate-Counted m args s (none, sends) =
      run_handler-Counted m args (record s { sends = sends })
        (resolve_ids (sv.resolve s.world) args) refl

  after_gate-Counted :
      (m : Moment) (args : Args) (s : Server W) (g : Gate)
      → GateStops sv st t args s.world g
      → Counted sv st t m args s (after_gate sv st t m args s g)
  after_gate-Counted m args s (proceed cs) k =
      after_rate-Counted m args (record s { consumed = cs }) _
  after_gate-Counted m args s (preview_first token) k = (refl, refl)
  after_gate-Counted m args s (stop e cs) k = (
    e,
    refl,
    inl ((fail-Same sv st t m.failure e (record s { consumed = cs })).0, k),
    fail-Noted st m.failure e (record s { consumed = cs }),
  )

  pub after_gates-Counted :
      (m : Moment) (args : Args) (token : Option Token) (s : Server W) (o : Option ToolError)
      → Counted sv st t m args s (after_gates sv st t m args token s o)
  after_gates-Counted m args token s (some e) = failing-Counted sv st t m args s e
  after_gates-Counted m args token s none =
      after_gate-Counted m args s (confirm_gate sv st t m.token token args s)
        (confirm_gate-Stops sv st t m.token token args s)

  -- The audit is not looked at.
  pub record_call-Counted :
      (m : Moment) (args : Args) (s : Server W) (x : (Response R × Server W))
      → Counted sv st t m args s x
      → Counted sv st t m args s (record_call sv st t x)
  record_call-Counted m args s (answer r, s') h = h
  record_call-Counted m args s (preview_token token, s') h = h
  record_call-Counted m args s (error e, s') h = h

  -- The sends after a call: as they were, if its handler did not run, it is no send, or there is no
  -- cap; those of the last hour, if they reach the cap and the call is refused; else those of the
  -- last hour and this one.
  abbrev pub Unsent : Server W → Response R × Server W → Type 0
  Unsent s x =
      (x.1.sends ≡ s.sends)
      × ((x.1.world ≡ s.world) ⊎ ((st.max_sends ≡ 0) ⊎ (is_send t.class ≡ false)))

  abbrev pub AnswersCapped : Response R → Type 0
  AnswersCapped (answer r) = ⊥
  AnswersCapped (preview_token token) = ⊥
  AnswersCapped (error e) = e.code ≡ rate_capped

  abbrev pub Capped : Moment → Server W → Response R × Server W → Type 0
  Capped m s x =
      (is_send t.class ≡ true)
      × (1 ≤ st.max_sends)
      × RecentOf m.rate s.sends x.1.sends
      × (st.max_sends ≤ length x.1.sends)
      × (x.1.world ≡ s.world)
      × AnswersCapped x.0

  abbrev pub Recorded : Moment → Server W → Response R × Server W → Type 0
  Recorded m s x =
      (is_send t.class ≡ true)
      × ((kept : List ℤ) × RecentOf m.rate s.sends kept
          × (length kept < st.max_sends)
          × (x.1.sends ≡ kept ++ (m.rate ∷ [])))

  abbrev pub Sent : Moment → Server W → Response R × Server W → Type 0
  Sent m s x = Unsent s x ⊎ (Capped m s x ⊎ Recorded m s x)

  run_handler-sends :
      (m : Moment) (s : Server W) (o : Option Args) → (run_handler sv st t m s o).1.sends ≡ s.sends
  run_handler-sends m s none = refl
  run_handler-sends m s (some args) = go (t.handler args s.world)
    where
      go : (x : ((Exn ⊎ R) × W)) → (handled sv st t m s x).1.sends ≡ s.sends
      go (inl e, w) = (fail-Same sv st t m.failure e (record s { world = w })).2
      go (inr r, w) = refl

  rated-Sent :
      (m : Moment) (args : Args) (s : Server W) (x : (Option ToolError × List ℤ))
      → is_send t.class ≡ true
      → Guarded st.max_sends m.rate s.sends x
      → Sent m s (after_rate sv st t m args s x)
  unfolding error_of
  rated-Sent m args s (none, sends) k (inl (uncapped, admitted, same)) =
      inl (run_handler-sends m _ _ ∙ same, inr (inl uncapped))
  rated-Sent m args s (some e, sends) k (inl (uncapped, admitted, same)) = cc
  rated-Sent m args s (none, sends) k (inr (inl (set, recent, full, capped))) = absurd capped
  rated-Sent m args s (some e, sends) k (inr (inl (set, recent, full, capped))) =
      inr (inl (k, set, recent, full, refl, capped))
  rated-Sent m args s (none, sends) k (inr (inr (kept, recent, room, sent, admitted))) =
      inr (inr (k, (kept, recent, room, run_handler-sends m _ _ ∙ sent)))
  rated-Sent m args s (some e, sends) k (inr (inr (kept, recent, room, sent, admitted))) = cc

  execute-Sent : (m : Moment) (args : Args) (s : Server W) → Sent m s (execute sv st t m args s)
  execute-Sent m args s = go (is_send t.class) refl
    where
      go :
          (b : Bool)
          → is_send t.class ≡ b
          → Sent m s (
              after_rate sv st t m args s
                (if b then rate_guard st.max_sends m.rate s.sends else (none, s.sends)))
      go true k =
          rated-Sent m args s (rate_guard st.max_sends m.rate s.sends) k
            (rate_guard-Guarded st.max_sends m.rate s.sends)
      go false k = inl (run_handler-sends m _ _, inr (inr k))

  after_gate-Sent :
      (m : Moment) (args : Args) (s : Server W) (g : Gate)
      → Sent m s (after_gate sv st t m args s g)
  after_gate-Sent m args s (proceed cs) = execute-Sent m args (record s { consumed = cs })
  after_gate-Sent m args s (preview_first token) = inl (refl, inl refl)
  after_gate-Sent m args s (stop e cs) =
      let same = fail-Same sv st t m.failure e (record s { consumed = cs }) in
      inl (same.2, inl same.0)

  pub after_gates-Sent :
      (m : Moment) (args : Args) (token : Option Token) (s : Server W) (o : Option ToolError)
      → Sent m s (after_gates sv st t m args token s o)
  after_gates-Sent m args token s (some e) = inl (refl, inl refl)
  after_gates-Sent m args token s none =
      after_gate-Sent m args s (confirm_gate sv st t m.token token args s)
