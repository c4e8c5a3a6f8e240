-- ===== src/Tools/Dispatch/Authorised.antt =====
-- When the dispatcher of ewsmcp/tools/base.py lets a handler run.
use mathlib.Core.Bool.{false≢true}
use exchange_mcp.Prelude.{
  ◌<◌, length, suc, leb, String, ◌≡◌, refl, ap, Bool, true, false, ◌&&◌, Option, none, some, List,
  [], ◌∷◌, ◌⊎◌, inl, inr, if◌then◌else◌,
}
use exchange_mcp.Prelude.Int.{ℤ, ◌+ℤ◌}
use exchange_mcp.Files.Confirm.{
  Token, Verdict, ok, malformed, bad_signature, expired, stale, Consumed, verify_token,
  consume_token,
}
use exchange_mcp.Tools.Errors.{validation, tool_error, ToolError, Exn, tool, error_of}
use exchange_mcp.Tools.Arguments.{Args, without, get, split_list, recipient_guard, resolve_ids}
use exchange_mcp.Tools.Arguments.Recipients.{recipient_guard-Admitted}
use exchange_mcp.Tools.Calls.{
  Content, part_args, Settings, Services, Tool, Moment, Server, Gate, proceed, preview_first, stop,
  is_send,
}
use exchange_mcp.Tools.Dispatch.{
  target_of, rate_guard, note_failure, fail, is_upstream, counts_for_circuit, gates,
  content_recipients, content_hash_of, consumed_gate, verdict_gate, token_gate, guarded_content,
  content_gate, hook_gate, confirm_gate, handled, run_handler, after_rate, execute, after_gate,
  after_gates, token_of, dispatch,
}
use exchange_mcp.Tools.Dispatch.Window
use exchange_mcp.Tools.Dispatch.Window.{RecentOf, IsRateCapped, rate_guard-Guarded}
use exchange_mcp.Tools.Dispatch.Passed.{AllAdmitted, Passed, gates-Passed}

module _ {W R : Type 0} (sv : Services W) (st : Settings) (t : Tool W R) where
  -- A token that verifies against the target and the content, and had not been spent.
  abbrev pub Spendable : ℤ → Option Token → Consumed → String → String → Type 0
  Spendable now token cs target chash =
      (tok : Token) × (token ≡ some tok)
      × (verify_token sv.codec st.secret now tok st.mailbox t.name target chash ≡ ok)
      × ((consume_token sv.codec now st.default_ttl tok cs).0 ≡ true)

  abbrev pub ConfirmedBy :
      ℤ → Option Token → Args → Server W → Option (Args → W → Exn ⊎ Content) → Type 0
  ConfirmedBy now token args s none =
      Spendable now token s.consumed "-" (sv.hash (part_args args ∷ []))
  ConfirmedBy now token args s (some hook) =
      (c : Content) × (hook args s.world ≡ inr c)
      × AllAdmitted sv st t (content_recipients sv st t c)
      × Spendable now token s.consumed (sv.to_string (target_of args)) (content_hash_of sv st t c)

  token_gate-Spendable :
      (now : ℤ) (token : Option Token) (cs : Consumed) (target chash : String) (cs' : Consumed)
      → token_gate sv st t now token cs target chash ≡ proceed cs'
      → Spendable now token cs target chash
  unfolding token_gate
  token_gate-Spendable now none cs target chash cs' h = cc
  token_gate-Spendable now (some tok) cs target chash cs' h =
      go (verify_token sv.codec st.secret now tok st.mailbox t.name target chash) refl h
    where
      spent :
          (v : (Bool × Consumed))
          → consume_token sv.codec now st.default_ttl tok cs ≡ v
          → consumed_gate sv st t v ≡ proceed cs'
          → (consume_token sv.codec now st.default_ttl tok cs).0 ≡ true
      spent (true, kept) e k = ap (λ r. r.0) e
      spent (false, kept) e k = cc

      go :
          (v : Verdict)
          → verify_token sv.codec st.secret now tok st.mailbox t.name target chash ≡ v
          → verdict_gate sv st t now tok cs v ≡ proceed cs'
          → Spendable now (some tok) cs target chash
      go ok e k = (tok, refl, e, spent (consume_token sv.codec now st.default_ttl tok cs) refl k)
      go malformed e k = cc
      go bad_signature e k = cc
      go expired e k = cc
      go stale e k = cc

  content_gate-ConfirmedBy :
      (now : ℤ) (token : Option Token) (args : Args) (s : Server W)
      (hook : Args → W → Exn ⊎ Content) (x : Exn ⊎ Content) (cs' : Consumed)
      → hook args s.world ≡ x
      → content_gate sv st t now token args s.consumed x ≡ proceed cs'
      → ConfirmedBy now token args s (some hook)
  content_gate-ConfirmedBy now token args s hook (inl e) cs' hx h = cc
  content_gate-ConfirmedBy now token args s hook (inr c) cs' hx h =
      go
        (recipient_guard sv.matches (split_list st.denylist) (split_list st.allowlist)
          (content_recipients sv st t c))
        refl h
    where
      go :
          (g : Option ToolError)
          → recipient_guard sv.matches
              (split_list st.denylist)
              (split_list st.allowlist)
              (content_recipients sv st t c)
            ≡ g
          → guarded_content sv st t g
              (token_gate sv st t now token s.consumed
                (sv.to_string (target_of args))
                (content_hash_of sv st t c))
              s.consumed
            ≡ proceed cs'
          → ConfirmedBy now token args s (some hook)
      go none e k = (
        c,
        hx,
        recipient_guard-Admitted sv.matches (split_list st.denylist) (split_list st.allowlist)
            (content_recipients sv st t c) e,
        token_gate-Spendable now token s.consumed (sv.to_string (target_of args))
            (content_hash_of sv st t c) cs' k,
      )
      go (some x) e k = cc

  confirm_gate-ConfirmedBy :
      (now : ℤ) (token : Option Token) (args : Args) (s : Server W) (cs' : Consumed)
      → confirm_gate sv st t now token args s ≡ proceed cs'
      → t.confirm args s.world ≡ true
      → ConfirmedBy now token args s t.preview
  unfolding confirm_gate
  confirm_gate-ConfirmedBy now token args s cs' h = go (t.confirm args s.world) t.preview h
    where
      go :
          (b : Bool) (hook : Option (Args → W → Exn ⊎ Content))
          → (if b then hook_gate sv st t now token args s hook else proceed s.consumed)
            ≡ proceed cs'
          → b ≡ true
          → ConfirmedBy now token args s hook
      go true none k e =
          token_gate-Spendable now token s.consumed "-" (sv.hash (part_args args ∷ [])) cs' k
      go true (some f) k e = content_gate-ConfirmedBy now token args s f (f args s.world) cs' refl k
      go false hook k e = cc

  -- A failure changes neither the world nor the audit.
  pub fail-Same :
      (now : ℤ) (e : Exn) (s : Server W)
      → ((fail st now e s).world ≡ s.world)
        × ((fail st now e s).audit ≡ s.audit)
        × ((fail st now e s).sends ≡ s.sends)
  unfolding note_failure
  fail-Same now e s =
      go (is_upstream e && counts_for_circuit (error_of e).code)
        (leb st.failure_threshold (suc s.failures))
    where
      go :
          (b c : Bool)
          → let s' =
              (if b
                then (if c
                    then record s { failures = 0; open_until = now +ℤ st.open_seconds }
                    else record s { failures = suc s.failures })
                else s) in
            (s'.world ≡ s.world) × (s'.audit ≡ s.audit) × (s'.sends ≡ s.sends)
      go true true = (refl, refl, refl)
      go true false = (refl, refl, refl)
      go false c = (refl, refl, refl)

  handled-world :
      (m : Moment) (s : Server W) (x : (Exn ⊎ R) × W) → (handled sv st t m s x).1.world ≡ x.1
  handled-world m s (inl e, w) = (fail-Same m.failure e (record s { world = w })).0
  handled-world m s (inr r, w) = refl

  -- The handler made `w`, of the resolved arguments.
  abbrev pub Ran : Option Args → W → W → Type 0
  Ran o w0 w = (args' : Args) × (o ≡ some args') × (w ≡ (t.handler args' w0).1)

  run_handler-Ran :
      (m : Moment) (s : Server W) (o : Option Args)
      → ((run_handler sv st t m s o).1.world ≡ s.world)
        ⊎ Ran o s.world (run_handler sv st t m s o).1.world
  run_handler-Ran m s none = inl (fail-Same m.failure (tool (tool_error validation)) s).0
  run_handler-Ran m s (some args) = inr (args, refl, handled-world m s (t.handler args s.world))

  abbrev Rated : Option ToolError × List ℤ → Type 0
  Rated x = x.0 ≡ none

  -- There is no cap, or fewer sends than it lie within the last hour.
  abbrev pub BelowCap : Moment → Server W → Type 0
  BelowCap m s =
      (st.max_sends ≡ 0)
      ⊎ ((kept : List ℤ) × RecentOf m.rate s.sends kept × (length kept < st.max_sends))

  Rated-BelowCap :
      (m : Moment) (s : Server W) → Rated (rate_guard st.max_sends m.rate s.sends) → BelowCap m s
  Rated-BelowCap m s =
      go (rate_guard st.max_sends m.rate s.sends) (rate_guard-Guarded st.max_sends m.rate s.sends)
    where
      refused : (o : Option ToolError) → IsRateCapped o → o ≡ none → BelowCap m s
      refused none k e = absurd k
      refused (some err) k e = cc

      go :
          (x : (Option ToolError × List ℤ))
          → Window.Guarded st.max_sends m.rate s.sends x
          → Rated x
          → BelowCap m s
      go x (inl (uncapped, none_set, same)) e = inl uncapped
      go x (inr (inl (set, recent, full, capped))) e = refused x.0 capped e
      go x (inr (inr (kept, recent, room, sent, admitted))) e = inr (kept, recent, room)

  after_rate-Ran :
      (m : Moment) (args : Args) (s : Server W) (x : (Option ToolError × List ℤ))
      → ((after_rate sv st t m args s x).1.world ≡ s.world)
        ⊎ (Rated x
            × Ran
                (resolve_ids (sv.resolve s.world) args)
                s.world
                (after_rate sv st t m args s x).1.world)
  after_rate-Ran m args s (some e, sends) =
      inl (fail-Same m.failure (tool e) (record s { sends = sends })).0
  after_rate-Ran m args s (none, sends) =
      go (run_handler-Ran m (record s { sends = sends }) (resolve_ids (sv.resolve s.world) args))
    where
      go : {A B : Type 0} → A ⊎ B → A ⊎ (Rated (none, sends) × B)
      go (inl e) = inl e
      go (inr r) = inr (refl, r)

  -- The call passed the rate cap, if it sends, and its handler made the world.
  abbrev pub Executed : Moment → Args → Server W → W → Type 0
  Executed m args s w =
      (is_send t.class ≡ true → BelowCap m s)
      × Ran (resolve_ids (sv.resolve s.world) args) s.world w

  execute-Executed :
      (m : Moment) (args : Args) (s : Server W)
      → ((execute sv st t m args s).1.world ≡ s.world)
        ⊎ Executed m args s (execute sv st t m args s).1.world
  execute-Executed m args s = go (is_send t.class)
    where
      gate : Bool → Option ToolError × List ℤ
      gate b = if b then rate_guard st.max_sends m.rate s.sends else (none, s.sends)

      both :
          (b : Bool) {A B : Type 0} → A ⊎ (Rated (gate b) × B) → A ⊎ ((b ≡ true → BelowCap m s) × B)
      both b (inl e) = inl e
      both true (inr (rated, r)) = inr ((λ e. Rated-BelowCap m s rated), r)
      both false (inr (rated, r)) = inr ((λ e. absurd (false≢true e)), r)

      go :
          (b : Bool)
          → ((after_rate sv st t m args s (gate b)).1.world ≡ s.world)
            ⊎ ((b ≡ true → BelowCap m s)
                × Ran
                    (resolve_ids (sv.resolve s.world) args)
                    s.world
                    (after_rate sv st t m args s (gate b)).1.world)
      go b = both b (after_rate-Ran m args s (gate b))

  -- Everything that a call which runs its handler has passed.
  abbrev pub Authorised : Moment → Args → Option Token → Server W → W → Type 0
  Authorised m args token s w =
      Passed sv st t m args s
      × (t.confirm args s.world ≡ true → ConfirmedBy m.token token args s t.preview)
      × Executed m args s w

  abbrev pub Guarded : Moment → Args → Option Token → Server W → W → Type 0
  Guarded m args token s w = (w ≡ s.world) ⊎ Authorised m args token s w

  after_gate-Guarded :
      (m : Moment) (args : Args) (token : Option Token) (s : Server W)
      → gates sv st t m args s ≡ none
      → (g : Gate) → confirm_gate sv st t m.token token args s ≡ g
      → Guarded m args token s (after_gate sv st t m args s g).1.world
  after_gate-Guarded m args token s hg (proceed cs) hc =
      go (execute-Executed m args (record s { consumed = cs }))
    where
      go :
          {A B : Type 0}
          → A ⊎ B
          → A
            ⊎ (Passed sv st t m args s
                × (t.confirm args s.world ≡ true → ConfirmedBy m.token token args s t.preview)
                × B)
      go (inl e) = inl e
      go (inr x) =
          inr (
            gates-Passed sv st t m args s hg,
            confirm_gate-ConfirmedBy m.token token args s cs hc,
            x,
          )
  after_gate-Guarded m args token s hg (preview_first tok) hc = inl refl
  after_gate-Guarded m args token s hg (stop e cs) hc =
      inl (fail-Same m.failure e (record s { consumed = cs })).0

  after_gates-Guarded :
      (m : Moment) (args : Args) (token : Option Token) (s : Server W) (o : Option ToolError)
      → gates sv st t m args s ≡ o
      → Guarded m args token s (after_gates sv st t m args token s o).1.world
  after_gates-Guarded m args token s (some e) h = inl (fail-Same m.failure (tool e) s).0
  after_gates-Guarded m args token s none h =
      after_gate-Guarded m args token s h (confirm_gate sv st t m.token token args s) refl

  -- A call leaves the world as it was, or it has passed every gate, its handler has run on the
  -- resolved arguments, a send found the sends of the last hour below the cap, if there is one, and, where the tool asks to confirm, the
  -- call brought an unspent token that verifies for this tool, target and current content, whose
  -- recipients the policy admits.
  pub dispatch-Authorised :
      (m : Moment) (kwargs : Args) (s : Server W)
      → Guarded m
          (without "confirm_token" kwargs)
          (token_of sv st t (get "confirm_token" kwargs))
          s
          (dispatch sv st t m kwargs s).1.world
  unfolding dispatch
  dispatch-Authorised m kwargs s =
      let args = without "confirm_token" kwargs in
      after_gates-Guarded m args (token_of sv st t (get "confirm_token" kwargs)) s
        (gates sv st t m args s) refl
