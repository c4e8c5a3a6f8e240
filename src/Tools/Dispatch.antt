-- ===== src/Tools/Dispatch.antt =====
-- ewsmcp/tools/base.py: the dispatcher. A tool's handler, its preview hook and its test whether to
-- confirm are functions on a world `W`; the hashes, the codec of the tokens, `fnmatch` and the alias
-- table are `Services`. The texts of the answers, the counters and the audit's detail are left out.
pub mod Passed
pub mod Authorised
pub mod Bounded
pub mod Window
pub mod Traced
pub mod Stages
use exchange_mcp.Prelude.{
  ℕ, suc, ◌+◌, String, Bool, true, false, not, ◌&&◌, Option, none, some, List, [], ◌∷◌, ◌++◌, ◌⊎◌,
  inl, inr, if◌then◌else◌, leb, ltb, length, ◌==◌,
}
use exchange_mcp.Prelude.Int.{ℤ, pos, ◌+ℤ◌, ◌-ℤ◌, ltb_ℤ}
use exchange_mcp.Text.{Text, codes}
use exchange_mcp.Files.Confirm.{Token, Verdict, Consumed, make_token, verify_token, consume_token}
use exchange_mcp.Files.Confirm
use exchange_mcp.Tools.Errors.{
  Code, validation, tier_blocked, kill_switch, confirm_invalid, throttled, rate_capped,
  upstream_unavailable, upstream_error, ToolError, tool_error, Exn, tool, error_of,
}
use exchange_mcp.Tools.Arguments.{
  Args, Value, text, get, without, addresses, recipients, split_list, recipient_guard, resolve_ids,
  filled,
}
use exchange_mcp.Tools.Calls.{
  is_send, needed_rank, tier_rank, Content, Settings, Services, Tool, Moment, Result, Server,
  Response, Gate, part_text, part_list, part_args, done, phase1, failed, answer, preview_token,
  error, proceed, preview_first, stop,
}

abbrev pub or_else : Option ToolError → Option ToolError → Option ToolError
or_else none next = next
or_else (some e) next = some e

-- An argument that is there and not empty; an id is a text by the schemas.
abbrev pub truthy : Option Value → Option Text
truthy none = none
truthy (some (text t)) = if filled t then some t else none
truthy (some v) = none

abbrev pub first_of : Option Text → Option Text → Option Text
first_of none next = next
first_of (some t) next = some t

abbrev pub or_dash : Option Text → Text
or_dash none = codes "-"
or_dash (some t) = t

-- `draft_id`, `event_id` or `id`
unfoldable pub target_of : Args → Text
unfolding get
target_of args = or_dash (
    first_of (truthy (get "draft_id" args))
      (first_of (truthy (get "event_id" args)) (truthy (get "id" args))))

-- The window of `_rate_guard`.
unfoldable pub recent_sends : ℤ → List ℤ → List ℤ
recent_sends now [] = []
recent_sends now (t ∷ ts) =
    let rest = recent_sends now ts in if ltb_ℤ (pos 3600) (now -ℤ t) then rest else t ∷ ts

abbrev pub retry_in : ℤ → List ℤ → Option ℤ
retry_in now [] = none
retry_in now (t ∷ ts) = some (pos 3600 -ℤ (now -ℤ t))

-- `_rate_guard`: the refusal, if any, and the window that it leaves, with this send in it if it is
-- admitted.
unfoldable pub rate_guard : ℕ → ℤ → List ℤ → Option ToolError × List ℤ
unfolding recent_sends
rate_guard cap now sends =
    let window = recent_sends now sends in
    if cap == 0
    then (none, sends)
    else if leb cap (length window)
    then (some (record { code = rate_capped; retry_after = retry_in now window }), window)
    else (none, window ++ (now ∷ []))

abbrev pub counts_for_circuit : Code → Bool
counts_for_circuit upstream_unavailable = true
counts_for_circuit upstream_error = true
counts_for_circuit throttled = true
counts_for_circuit _ = false

-- Only an exception that is no ToolError, TypeError or ValueError counts.
abbrev pub is_upstream : Exn → Bool
is_upstream (Exn.other name message) = true
is_upstream _ = false

module _ {W : Type 0} where
  -- A failure of the libraries; at the threshold the circuit opens and the count starts anew.
  unfoldable pub note_failure : Settings → ℤ → Server W → Server W
  note_failure st now s =
      let n = suc s.failures in
      if leb st.failure_threshold n
      then record s { failures = 0; open_until = now +ℤ st.open_seconds }
      else record s { failures = n }

  abbrev pub fail : Settings → ℤ → Exn → Server W → Server W
  fail st now e s =
      if is_upstream e && counts_for_circuit (error_of e).code then note_failure st now s else s

  module _ {R : Type 0} (sv : Services W) (st : Settings) (t : Tool W R) where
    -- Kill-switch, tier, circuit, cold gate and the recipients of the arguments.
    unfoldable pub gates : Moment → Args → Server W → Option ToolError
    unfolding recipients split_list recipient_guard
    gates m args s =
        or_else
          (if is_send t.class && not st.send_enabled then some (tool_error kill_switch) else none)
          (or_else
            (if ltb (tier_rank st.tier) (needed_rank t.class)
              then some (tool_error tier_blocked)
              else none)
            (or_else
              (if ltb_ℤ m.circuit s.open_until
                then some (record {
                  code = upstream_unavailable;
                  retry_after = some (s.open_until -ℤ m.circuit);
                })
                else none)
              (or_else
                (if t.requires_ews && m.connecting
                  then some (record { code = upstream_unavailable; retry_after = m.next_retry })
                  else none)
                (recipient_guard sv.matches (split_list st.denylist) (split_list st.allowlist)
                  (recipients args)))))

    abbrev pub content_recipients : Content → List Text
    content_recipients c = addresses c.to ++ (addresses c.cc ++ addresses c.bcc)

    -- What the token binds: the resolved content, or the literal arguments.
    abbrev pub content_hash_of : Content → String
    content_hash_of c = sv.hash (
        part_text c.subject
        ∷ part_list (sv.sorted c.to)
        ∷ part_list (sv.sorted c.cc)
        ∷ part_list (sv.sorted c.bcc)
        ∷ part_text c.body
        ∷ [])

    abbrev pub consumed_gate : Bool × Consumed → Gate
    consumed_gate (true, cs) = proceed cs
    consumed_gate (false, cs) = stop (tool (tool_error confirm_invalid)) cs

    abbrev pub verdict_gate : ℤ → Token → Consumed → Verdict → Gate
    verdict_gate now token cs Verdict.ok =
        consumed_gate (consume_token sv.codec now st.default_ttl token cs)
    verdict_gate now token cs _ = stop (tool (tool_error confirm_invalid)) cs

    -- `if not token` … `verify_token` … `consume_token`
    unfoldable pub token_gate : ℤ → Option Token → Consumed → String → String → Gate
    unfolding make_token verify_token consume_token
    token_gate now none cs target chash =
        preview_first (make_token sv.codec st.secret now st.ttl st.mailbox t.name target chash)
    token_gate now (some token) cs target chash =
        verdict_gate now token cs
          (verify_token sv.codec st.secret now token st.mailbox t.name target chash)

    abbrev pub guarded_content : Option ToolError → Gate → Consumed → Gate
    guarded_content none next cs = next
    guarded_content (some e) next cs = stop (tool e) cs

    abbrev pub content_gate : ℤ → Option Token → Args → Consumed → Exn ⊎ Content → Gate
    content_gate now token args cs (inl e) = stop e cs
    content_gate now token args cs (inr c) =
        guarded_content
          (recipient_guard sv.matches (split_list st.denylist) (split_list st.allowlist)
            (content_recipients c))
          (token_gate now token cs (sv.to_string (target_of args)) (content_hash_of c)) cs

    -- `_confirm_gate`
    abbrev pub hook_gate :
        ℤ → Option Token → Args → Server W → Option (Args → W → Exn ⊎ Content) → Gate
    hook_gate now token args s none =
        token_gate now token s.consumed "-" (sv.hash (part_args args ∷ []))
    hook_gate now token args s (some hook) =
        content_gate now token args s.consumed (hook args s.world)

    unfoldable pub confirm_gate : ℤ → Option Token → Args → Server W → Gate
    unfolding token_gate target_of
    confirm_gate now token args s =
        if t.confirm args s.world then hook_gate now token args s t.preview else proceed s.consumed

    -- The answer, and the server but for its audit.
    abbrev pub failing : Moment → Exn → Server W → Response R × Server W
    failing m e s = (error (error_of e), fail st m.failure e s)

    abbrev pub handled : Moment → Server W → (Exn ⊎ R) × W → Response R × Server W
    handled m s (inl e, w) = failing m e (record s { world = w })
    handled m s (inr r, w) = (answer r, record s { world = w; failures = 0 })

    abbrev pub run_handler : Moment → Server W → Option Args → Response R × Server W
    run_handler m s none = failing m (tool (tool_error validation)) s
    run_handler m s (some args) = handled m s (t.handler args s.world)

    abbrev pub after_rate :
        Moment → Args → Server W → Option ToolError × List ℤ → Response R × Server W
    after_rate m args s (some e, sends) = failing m (tool e) (record s { sends = sends })
    after_rate m args s (none, sends) =
        run_handler m (record s { sends = sends }) (resolve_ids (sv.resolve s.world) args)

    -- The call will execute: the send rate, the ids, the handler.
    abbrev pub execute : Moment → Args → Server W → Response R × Server W
    execute m args s =
        after_rate m args s
          (if is_send t.class then rate_guard st.max_sends m.rate s.sends else (none, s.sends))

    abbrev pub after_gate : Moment → Args → Server W → Gate → Response R × Server W
    after_gate m args s (proceed cs) = execute m args (record s { consumed = cs })
    after_gate m args s (preview_first token) = (preview_token token, s)
    after_gate m args s (stop e cs) = failing m e (record s { consumed = cs })

    abbrev pub token_of : Option Value → Option Token
    token_of none = none
    token_of (some (text t)) = if filled t then some (sv.read_token (text t)) else none
    token_of (some v) = some (sv.read_token v)

    abbrev pub after_gates :
        Moment → Args → Option Token → Server W → Option ToolError → Response R × Server W
    after_gates m args token s (some e) = failing m (tool e) s
    after_gates m args token s none = after_gate m args s (confirm_gate m.token token args s)

    abbrev pub result_of : Response R → Result
    result_of (answer r) = done
    result_of (preview_token token) = phase1
    result_of (error e) = failed e.code

    -- The `finally`: one audit record.
    abbrev pub record_call : Response R × Server W → Response R × Server W
    record_call (r, s) = (
      r,
      record s {
        audit = s.audit ++ (record { tool = t.name; class = t.class; outcome = result_of r } ∷ []);
      },
    )

    -- `dispatch`
    unfoldable pub dispatch : Moment → Args → Server W → Response R × Server W
    unfolding gates confirm_gate rate_guard resolve_ids without get
    dispatch m kwargs s =
        let args = without "confirm_token" kwargs in
        let token = token_of (get "confirm_token" kwargs) in
        record_call (after_gates m args token s (gates m args s))
