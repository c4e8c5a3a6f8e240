-- ===== src/Gateway/Connection/Recovery.antt =====
-- The warmup loop of ewsmcp/gateway/connection.py over failed attempts and the first success.
use exchange_mcp.Prelude.{
  ℕ, suc, ◌+◌, ◌*◌, ◌/◌, ◌%◌, ◌≤◌, min, max, arith, ◌≡◌, refl, ap, Bool, true, false, not, ◌||◌,
  none, some, List, [], ◌∷◌, ◌++◌, if◌then◌else◌, length, ◌==◌,
}
use exchange_mcp.Prelude.Int.{ℤ}
use exchange_mcp.Text.{Text}
use exchange_mcp.Gateway.Connection.{
  connecting, warm, Task, idle, heartbeat, warmup, Config, Manager, Attempt, connected, refused,
  raised, Event, attempted, new_manager, start, mark_warm, mark_failure, error_or, try_connect,
  retry, fire_on_warm, start_heartbeat, warmup_turn, turn_of, run, step,
}

abbrev pub Failure : Attempt → Type 0
Failure connected = ⊥
Failure (refused e) = Unit
Failure (raised e) = Unit

-- The attempts of a run that all fail, with the times of the next ones.
abbrev pub Failures : List (Attempt × ℤ) → Type 0
Failures [] = Unit
Failures (a ∷ tries) = Failure a.0 × Failures tries

abbrev pub events : List (Attempt × ℤ) → List Event
events [] = []
events (a ∷ tries) = attempted a.0 a.1 ∷ events tries

-- A loop that is alive after `n` failures, with a reset at every third one.
abbrev pub Trying : Config → ℕ → Manager → Type 0
Trying cfg n m =
    ((backoff : ℕ) × (m.task ≡ warmup backoff)
      × (backoff ≤ max cfg.initial_backoff cfg.max_backoff))
    × (m.state ≡ connecting)
    × (m.stopped ≡ false)
    × (m.on_warm_fired ≡ false)
    × (m.attempts ≡ n)
    × (m.resets ≡ n / 3)
    × (m.fired ≡ 0)

third : (n a r : ℕ) → a ≡ n → r ≡ n / 3 → suc a % 3 == 0 ≡ true → suc r ≡ suc n / 3
third n a r h k e = ground arith

not_third : (n a r : ℕ) → a ≡ n → r ≡ n / 3 → suc a % 3 == 0 ≡ false → r ≡ suc n / 3
not_third n a r h k e = ground arith

module _ (cfg : Config) where
  start-Trying : Trying cfg 0 (start cfg new_manager)
  unfolding start new_manager
  start-Trying = ((cfg.initial_backoff, refl, omega arith), refl, refl, refl, refl, refl, refl)

  retry-Trying :
      (n : ℕ) (m : Manager) (error : Text) (now : ℤ) (backoff : ℕ)
      → Trying cfg n m
      → Trying cfg (suc n) (retry cfg now backoff (mark_failure error m))
  retry-Trying n m error now backoff (task, state, stopped, unfired, attempts, resets, fired) =
      go (suc m.attempts % 3 == 0) refl
    where
      go :
          (b : Bool)
          → suc m.attempts % 3 == 0 ≡ b
          → Trying cfg
              (suc n)
              (record (if b
                then record (mark_failure error m) { resets = suc m.resets }
                else mark_failure error m) {
                  next_retry = some now;
                  task = warmup (min (backoff * 2) cfg.max_backoff);
                })
      go true e = (
        (min (backoff * 2) cfg.max_backoff, refl, omega arith),
        state,
        stopped,
        unfired,
        omega (arith, attempts),
        third n m.attempts m.resets attempts resets e,
        fired,
      )
      go false e = (
        (min (backoff * 2) cfg.max_backoff, refl, omega arith),
        state,
        stopped,
        unfired,
        omega (arith, attempts),
        not_third n m.attempts m.resets attempts resets e,
        fired,
      )

  alive :
      (P : Manager → Type 0) (b : Bool) (x y : Manager) → b ≡ false → P y → P (if b then x else y)
  alive P true x y e h = cc
  alive P false x y e h = h

  warmup_turn-Trying :
      (n : ℕ) (m : Manager) (a : Attempt) (now : ℤ) (backoff : ℕ)
      → Failure a
      → Trying cfg n m
      → Trying cfg (suc n) (warmup_turn cfg a now backoff m)
  unfolding warmup_turn try_connect
  warmup_turn-Trying n m connected now backoff f h = absurd f
  warmup_turn-Trying n m (refused e) now backoff f h =
      alive (Trying cfg (suc n)) m.stopped (record m { task = idle })
        (retry cfg now backoff (mark_failure (error_or e) m)) h.2
        (retry-Trying n m (error_or e) now backoff h)
  warmup_turn-Trying n m (raised e) now backoff f h =
      alive (Trying cfg (suc n)) m.stopped (record m { task = idle })
        (retry cfg now backoff (mark_failure e m)) h.2 (retry-Trying n m e now backoff h)

  -- An attempt of a loop that is alive is a turn of it.
  attempted-turn :
      (P : Manager → Type 0) (a : Attempt) (now : ℤ) (m : Manager) (t : Task) (backoff : ℕ)
      → t ≡ warmup backoff
      → ((b : ℕ) → P (warmup_turn cfg a now b m))
      → P (turn_of cfg a now t m)
  attempted-turn P a now m idle backoff e k = cc
  attempted-turn P a now m heartbeat backoff e k = cc
  attempted-turn P a now m (warmup b) backoff e k = k b

  step-Trying :
      (n : ℕ) (m : Manager) (a : Attempt) (now : ℤ)
      → Failure a
      → Trying cfg n m
      → Trying cfg (suc n) (step cfg (attempted a now) m)
  unfolding step
  step-Trying n m a now f h =
      attempted-turn (Trying cfg (suc n)) a now m m.task h.0.0 h.0.1
        (λ b. warmup_turn-Trying n m a now b f h)

  -- What the first success leaves.
  abbrev pub Settled : ℕ → ℤ → Manager → Type 0
  Settled n now m =
      (m.state ≡ warm)
      × (m.task ≡ (if cfg.heartbeat_seconds == 0 then idle else heartbeat))
      × (m.last_success ≡ some now)
      × (m.last_error ≡ none)
      × (m.next_retry ≡ none)
      × (m.attempts ≡ n)
      × (m.resets ≡ n / 3)
      × (m.fired ≡ (if cfg.has_on_warm then 1 else 0))

  beating :
      (b s : Bool)
      → s ≡ false
      → (if b || s then idle else heartbeat) ≡ (if b then idle else heartbeat)
  beating true s e = refl
  beating false true e = cc
  beating false false e = refl

  settles :
      (n : ℕ) (m : Manager) (now : ℤ)
      → m.stopped ≡ false
      → m.on_warm_fired ≡ false
      → m.attempts ≡ n
      → m.resets ≡ n / 3
      → m.fired ≡ 0
      → Settled n now (start_heartbeat cfg (fire_on_warm cfg (mark_warm now m)))
  unfolding start_heartbeat fire_on_warm
  settles n m now e u a r f = go cfg.has_on_warm m.on_warm_fired u
    where
      base : Manager
      base = mark_warm now m

      task : Task
      task = if cfg.heartbeat_seconds == 0 then idle else heartbeat

      fired_by : Bool → ℕ
      fired_by w = if w then 1 else 0

      go :
          (w b : Bool)
          → b ≡ false
          → let m' =
              (if not w || b
                then base
                else record base { on_warm_fired = true; fired = suc base.fired }) in
            let m'' = record m' {
              task = if cfg.heartbeat_seconds == 0 || m'.stopped then idle else heartbeat;
            } in
            (m''.state ≡ warm)
            × (m''.task ≡ task)
            × (m''.last_success ≡ some now)
            × (m''.last_error ≡ none)
            × (m''.next_retry ≡ none)
            × (m''.attempts ≡ n)
            × (m''.resets ≡ n / 3)
            × (m''.fired ≡ fired_by w)
      go w true k = cc
      go true false k =
          (refl, beating (cfg.heartbeat_seconds == 0) m.stopped e, refl, refl, refl, a, r, ap suc f)
      go false false k =
          (refl, beating (cfg.heartbeat_seconds == 0) m.stopped e, refl, refl, refl, a, r, f)

  warmup_turn-Settled :
      (n : ℕ) (m : Manager) (now : ℤ) (backoff : ℕ)
      → Trying cfg n m
      → Settled n now (warmup_turn cfg connected now backoff m)
  unfolding warmup_turn try_connect
  warmup_turn-Settled n m now backoff (task, state, stopped, unfired, attempts, resets, fired) =
      alive (Settled n now) m.stopped (record m { task = idle })
        (start_heartbeat cfg (fire_on_warm cfg (mark_warm now m))) stopped
        (settles n m now stopped unfired attempts resets fired)

  recount : (n k : ℕ) (m : Manager) → k ≡ n → Trying cfg n m → Trying cfg k m
  recount n k m e h = rw e h

  from_Trying :
      (n k : ℕ) (m : Manager) (tries : List (Attempt × ℤ)) (now : ℤ)
      → Trying cfg n m
      → Failures tries
      → k ≡ n + length tries
      → Settled k now (run cfg (events tries ++ (attempted connected now ∷ [])) m)
  unfolding run step
  from_Trying n k m [] now h f e =
      attempted-turn (Settled k now) connected now m m.task h.0.0 h.0.1
        (λ b. warmup_turn-Settled k m now b (recount n k m (omega (arith, e)) h))
  from_Trying n k m (a ∷ tries) now h f e =
      from_Trying (suc n) k (step cfg (attempted a.0 a.1) m) tries now
        (step-Trying n m a.0 a.1 f.0 h) f.1 (omega (arith, e))

  -- However many attempts fail, the loop lives on, and the first success makes the connection warm:
  -- with the time of that success, no error and no retry left, all failures counted, a reset for
  -- every third of them, the heartbeat begun if it is configured, and the callback fired once if
  -- there is one.
  pub run-Settled :
      (tries : List (Attempt × ℤ)) (now : ℤ)
      → Failures tries
      → Settled
          (length tries)
          now
          (run cfg (events tries ++ (attempted connected now ∷ [])) (start cfg new_manager))
  run-Settled tries now f =
      from_Trying 0 (length tries) (start cfg new_manager) tries now start-Trying f (omega arith)
