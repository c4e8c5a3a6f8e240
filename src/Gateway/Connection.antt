-- ===== src/Gateway/Connection.antt =====
-- ewsmcp/gateway/connection.py: the state of the connection, its warmup loop and its heartbeat. What
-- the client answers, the delays and the clock are inputs; the tasks of asyncio are a field.
pub mod Recovery
use exchange_mcp.Prelude.{
  ℕ, suc, ◌*◌, ◌%◌, min, Bool, true, false, not, ◌||◌, Option, none, some, List, [], ◌∷◌,
  if◌then◌else◌, take, ◌==◌,
}
use exchange_mcp.Prelude.Int.{ℤ, pos, ◌-ℤ◌, max_ℤ}
use exchange_mcp.Text.{Text, codes}

pub data State : Type 0 where
  connecting warm degraded : State

-- The task that is alive: none, a warmup loop with its backoff, a heartbeat.
pub data Task : Type 0 where
  idle heartbeat : Task
  warmup : ℕ → Task

pub record Config : Type 0 where
  pub initial_backoff : ℕ
  pub max_backoff : ℕ
  pub heartbeat_seconds : ℕ
  pub has_on_warm : Bool

-- `resets` and `fired` count the calls of `client.reset` and of the callback.
pub record Manager : Type 0 where
  pub state : State
  pub attempts : ℕ
  pub last_error : Option Text
  pub last_success : Option ℤ
  pub next_retry : Option ℤ
  pub task : Task
  pub stopped : Bool
  pub on_warm_fired : Bool
  pub resets : ℕ
  pub fired : ℕ

-- `test_connection`: its answer, with `last_connection_error`, or what it raises.
pub data Attempt : Type 0 where
  connected : Attempt
  refused : Option Text → Attempt
  raised : Text → Attempt

-- `_probe`: no account and the answer of `test_connection`, a refreshed account, or what is raised.
pub data Probe : Type 0 where
  untried : Bool → Probe
  refreshed : Probe
  failed : Text → Probe

unfoldable pub new_manager : Manager
new_manager = record {
  state = connecting;
  attempts = 0;
  last_error = none;
  last_success = none;
  next_retry = none;
  task = idle;
  stopped = false;
  on_warm_fired = false;
  resets = 0;
  fired = 0;
}

-- `_mark_warm`
abbrev pub mark_warm : ℤ → Manager → Manager
mark_warm now m = record m {
  state = warm;
  last_success = some now;
  next_retry = none;
  last_error = none;
}

-- `_mark_failure`
abbrev pub mark_failure : Text → Manager → Manager
mark_failure error m = record m { attempts = suc m.attempts; last_error = some (take 500 error) }

abbrev pub error_or : Option Text → Text
error_or none = codes "connection test returned False"
error_or (some []) = codes "connection test returned False"
error_or (some (c ∷ s)) = c ∷ s

-- `_try_connect`
unfoldable pub try_connect : Attempt → Manager → Bool × Manager
try_connect connected m = (true, m)
try_connect (refused e) m = (false, mark_failure (error_or e) m)
try_connect (raised e) m = (false, mark_failure e m)

-- `_fire_on_warm`
unfoldable pub fire_on_warm : Config → Manager → Manager
fire_on_warm cfg m =
    if not cfg.has_on_warm || m.on_warm_fired
    then m
    else record m { on_warm_fired = true; fired = suc m.fired }

-- `_start_heartbeat`; the warmup loop returns after it.
unfoldable pub start_heartbeat : Config → Manager → Manager
start_heartbeat cfg m = record m {
  task = if cfg.heartbeat_seconds == 0 || m.stopped then idle else heartbeat;
}

-- The recovery ladder: a reset at every third failure.
abbrev pub recover : Manager → Manager
recover m = if m.attempts % 3 == 0 then record m { resets = suc m.resets } else m

-- `delay` is below the backoff and `now` the clock behind the attempt.
abbrev pub retry : Config → ℤ → ℕ → Manager → Manager
retry cfg retry_at backoff m = record (recover m) {
  next_retry = some retry_at;
  task = warmup (min (backoff * 2) cfg.max_backoff);
}

abbrev pub after_attempt : Config → ℤ → ℕ → Bool × Manager → Manager
after_attempt cfg now backoff (true, m) = start_heartbeat cfg (fire_on_warm cfg (mark_warm now m))
after_attempt cfg now backoff (false, m) = retry cfg now backoff m

-- One turn of `_warmup_loop`. The time is that of the success, or that of the next attempt.
unfoldable pub warmup_turn : Config → Attempt → ℤ → ℕ → Manager → Manager
unfolding try_connect fire_on_warm start_heartbeat
warmup_turn cfg attempt now backoff m =
    let turn = after_attempt cfg now backoff (try_connect attempt m) in
    if m.stopped then record m { task = idle } else turn

unfoldable pub probe : Probe → Manager → Bool × Manager
probe (untried b) m = (b, m)
probe refreshed m = (true, m)
probe (failed e) m = (false, mark_failure e m)

abbrev pub after_probe : Config → ℤ → Bool × Manager → Manager
after_probe cfg now (true, m) = mark_warm now m
after_probe cfg now (false, m) = record m { state = degraded; task = warmup cfg.initial_backoff }

-- One turn of `_heartbeat_loop`.
unfoldable pub heartbeat_turn : Config → Probe → ℤ → Manager → Manager
unfolding probe
heartbeat_turn cfg p now m =
    let turn = after_probe cfg now (probe p m) in
    if m.stopped then record m { task = idle } else turn

-- `start`, and `stop`, which cancels the tasks.
unfoldable pub start : Config → Manager → Manager
start cfg m = record m { task = warmup cfg.initial_backoff }

unfoldable pub stop : Manager → Manager
stop m = record m { stopped = true; task = idle }

-- What the event loop may do next, once the daemon has started the manager.
pub data Event : Type 0 where
  stopping : Event
  attempted : Attempt → ℤ → Event
  probed : Probe → ℤ → Event

abbrev pub turn_of : Config → Attempt → ℤ → Task → Manager → Manager
turn_of cfg attempt now (warmup backoff) m = warmup_turn cfg attempt now backoff m
turn_of cfg attempt now idle m = m
turn_of cfg attempt now heartbeat m = m

abbrev pub beat_of : Config → Probe → ℤ → Task → Manager → Manager
beat_of cfg p now heartbeat m = heartbeat_turn cfg p now m
beat_of cfg p now idle m = m
beat_of cfg p now (warmup backoff) m = m

-- An event of a task that is not alive changes nothing.
unfoldable pub step : Config → Event → Manager → Manager
unfolding warmup_turn heartbeat_turn stop
step cfg stopping m = stop m
step cfg (attempted attempt now) m = turn_of cfg attempt now m.task m
step cfg (probed p now) m = beat_of cfg p now m.task m

unfoldable pub run : Config → List Event → Manager → Manager
unfolding step
run cfg [] m = m
run cfg (e ∷ es) m = run cfg es (step cfg e m)

abbrev pub age_of : ℤ → Option ℤ → Option ℤ
age_of now none = none
age_of now (some t) = some (now -ℤ t)

abbrev pub retry_in : ℤ → State → Option ℤ → Option ℤ
retry_in now warm t = none
retry_in now connecting none = none
retry_in now degraded none = none
retry_in now connecting (some t) = some (max_ℤ (pos 0) (t -ℤ now))
retry_in now degraded (some t) = some (max_ℤ (pos 0) (t -ℤ now))

pub record Status : Type 0 where
  pub state : State
  pub attempts : ℕ
  pub last_error : Option Text
  pub last_success_age : Option ℤ
  pub next_retry_in : Option ℤ

unfoldable pub status : ℤ → Manager → Status
unfolding ◌-ℤ◌
status now m = record {
  state = m.state;
  attempts = m.attempts;
  last_error = m.last_error;
  last_success_age = age_of now m.last_success;
  next_retry_in = retry_in now m.state m.next_retry;
}
