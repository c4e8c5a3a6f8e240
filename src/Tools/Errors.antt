-- ===== src/Tools/Errors.antt =====
-- ewsmcp/errors.py: the codes of a failure, and what an exception of the libraries becomes. Of a
-- ToolError the code and the delay are kept; its message and hint are for the reader.
use exchange_mcp.Prelude.{ℕ, Bool, ◌||◌, Option, none, some, [], ◌∷◌, ◌++◌, if◌then◌else◌}
use exchange_mcp.Prelude.Int.{ℤ, pos}
use exchange_mcp.Text.{Text, codes, lower, starts_with}

-- HTTP_BY_CODE
pub data Code : Type 0 where
  validation auth_failed tier_blocked kill_switch recipient_blocked confirm_invalid : Code
  not_found throttled rate_capped upstream_unavailable upstream_error : Code
  daemon_unavailable backend_unavailable internal : Code

unfoldable pub http_status : Code → ℕ
http_status validation = 400
http_status auth_failed = 401
http_status tier_blocked = 403
http_status kill_switch = 403
http_status recipient_blocked = 403
http_status confirm_invalid = 409
http_status not_found = 404
http_status throttled = 429
http_status rate_capped = 429
http_status upstream_unavailable = 503
http_status upstream_error = 502
http_status daemon_unavailable = 503
http_status backend_unavailable = 503
http_status internal = 500

pub record ToolError : Type 0 where
  pub code : Code
  pub retry_after : Option ℤ

abbrev pub tool_error : Code → ToolError
tool_error c = record { code = c; retry_after = none }

-- An exception: a ToolError, a TypeError or ValueError, or any other, with its class and its text.
pub data Exn : Type 0 where
  tool : ToolError → Exn
  contract : Exn
  other : Text → Text → Exn

-- `part in s`
unfoldable pub contains : Text → Text → Bool
contains part [] = starts_with part []
contains part (c ∷ s) = starts_with part (c ∷ s) || contains part s

unfoldable pub classify : Text → ToolError
unfolding contains
classify lowered =
    if contains (codes "errorserverbusy") lowered
      || (contains (codes "back off") lowered || contains (codes "ratelimit") lowered)
    then record { code = throttled; retry_after = some (pos 60) }
    else if contains (codes "erroritemnotfound") lowered
        || contains (codes "errorinvalidid") lowered
    then tool_error not_found
    else if contains (codes "unauthorized") lowered
        || (contains (codes "401") lowered || contains (codes "invalid credentials") lowered)
    then tool_error auth_failed
    else if contains (codes "connection") lowered
        || (contains (codes "timeout") lowered
            || (contains (codes "timed out") lowered
                || (contains (codes "transport") lowered || contains (codes "auth type") lowered)))
    then record { code = upstream_unavailable; retry_after = some (pos 30) }
    else tool_error upstream_error

-- What the `except` clauses of the dispatcher make of an exception: `map_exception` for the last.
unfoldable pub error_of : Exn → ToolError
unfolding classify
error_of (tool e) = e
error_of contract = tool_error validation
error_of (other name message) = classify (lower (name ++ (32 ∷ message)))
