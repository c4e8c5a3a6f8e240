-- ===== src/Archive/Delete/LastMile.antt =====
-- The last-mile checks of one batch of ewsmcp/archive/delete.py.
use exchange_mcp.Prelude.{
  ℕ, ◌+◌, String, ◌≡◌, refl, ◌∙◌, sym, Bool, true, false, ◌&&◌, inl, inr, Option, none, some, List,
  [], ◌∷◌, ◌++◌, arith, if◌then◌else◌, Bool-cases, option_str_eq, length, select, All, Aligned,
}
use mathlib.Core.List.{append-nil}
use mathlib.Core.Path.{subst}
use exchange_mcp.Store.Rows.{Message, Store}
use exchange_mcp.Archive.Files.{passed, truthy}
use exchange_mcp.Archive.Delete.{
  World, Environment, Sifted, BatchOutcome, Fetched, missing, item, Verdict, done, is_passed,
  copy_problem, try_demote, unusable_copies, judge, record_verdict, delete_batch, requeue,
  persist_batch, persist_skips, ids_of, Reason,
}
use exchange_mcp.Archive.Delete.Run.{
  LoopState, Flow, continue, stop, is_stale, persisted, after_requeue, requeued_batch,
  after_gateway, gateway_failed, call_gateway, batch_step, step,
}

-- The two last-mile checks of a row of one batch of rows: on its copy, and on the item that the
-- gateway answered at the row's own place among those whose copies had passed.
pub record LastMile (env : Environment) (rows : List Message) (row : Message) : Type 0 where
  pub store : Store
  pub copy : copy_problem env store row ≡ passed
  pub before : Store
  pub fetched : List Fetched
  pub reply : env.gateway ≡ some fetched
  pub live_changekey : Option String
  pub own : Aligned row (item live_changekey none) (unusable_copies env rows before).batch fetched
  pub known : (truthy row.captured_changekey && truthy live_changekey) ≡ true
  pub unchanged : option_str_eq live_changekey row.captured_changekey ≡ true

abbrev pub Copied : Environment → Message → Type 0
Copied env row = (s : Store) × (copy_problem env s row ≡ passed)

is_passed-eq :
    (env : Environment) (s : Store) (row : Message)
    → is_passed (copy_problem env s row) ≡ true
    → copy_problem env s row ≡ passed
is_passed-eq env s row h = ground arith

-- What stays in a batch has a copy that passed.
unusable_copies-Copied :
    (env : Environment) (P : Message → Type 0) (rows : List Message) (s : Store)
    → All P rows
    → All (λ row. P row × Copied env row) (unusable_copies env rows s).batch
unfolding unusable_copies
unusable_copies-Copied env P [] s h = tt
unusable_copies-Copied env P (row ∷ rows) s h =
    elim (Bool-cases (is_passed (copy_problem env s row))) [
      | inl good ↦
          rw good ((h.0, (s, is_passed-eq env s row good)), unusable_copies-Copied env P rows s h.1)
      | inr bad ↦ rw bad (unusable_copies-Copied env P rows (try_demote env row.ews_id s) h.1)
    ]

abbrev pub Justified : Environment → List Message → (Message → Type 0) → String → Type 0
Justified env chunk P i = (row : Message) × (row.ews_id ≡ i) × P row × LastMile env chunk row

-- A verdict to delete comes of an item with the captured changekey, whose `delete()` did not raise.
abbrev Unchanged : Message → Fetched → Type 0
Unchanged row f =
    (ck : Option String) × (f ≡ item ck none)
    × ((truthy row.captured_changekey && truthy ck) ≡ true)
    × (option_str_eq ck row.captured_changekey ≡ true)

judge-Unchanged : (row : Message) (f : Fetched) → judge row f ≡ done → Unchanged row f
unfolding judge
judge-Unchanged row (missing e) h = cc
judge-Unchanged row (item ck none) h = (ck, refl, ground arith, ground arith)
judge-Unchanged row (item ck (some e)) h = ground arith

module _ (env : Environment) (P : Message → Type 0) (chunk : List Message) (before : Store)
    (fetched : List Fetched) (reply : env.gateway ≡ some fetched) where
  -- What stands together in what is left of the batch and the answer, does so in the whole.
  abbrev Within : List Message → List Fetched → Type 0
  Within rows fs =
      (row : Message) (f : Fetched)
      → Aligned row f rows fs
      → Aligned row f (unusable_copies env chunk before).batch fetched

  done-Justified :
      (row : Message) (f : Fetched)
      → P row × Copied env row
      → Aligned row f (unusable_copies env chunk before).batch fetched
      → Unchanged row f
      → Justified env chunk P row.ews_id
  done-Justified row f h place (ck, e, known, unchanged) = (
    row,
    refl,
    h.0,
    record {
      store = h.1.0;
      copy = h.1.1;
      before = before;
      fetched = fetched;
      reply = reply;
      live_changekey = ck;
      own = subst (λ g. Aligned row g (unusable_copies env chunk before).batch fetched) e place;
      known = known;
      unchanged = unchanged;
    },
  )

  delete_batch-Justified :
      (rows : List Message) (fs : List Fetched)
      → Within rows fs
      → All (λ row. P row × Copied env row) rows
      → All (Justified env chunk P) (delete_batch rows fs).done
  unfolding delete_batch
  delete_batch-Justified [] [] place h = tt
  delete_batch-Justified [] (f ∷ fs) place h = tt
  delete_batch-Justified (row ∷ rows) [] place h = tt
  delete_batch-Justified (row ∷ rows) (f ∷ fs) place h =
      verdict (judge row f) refl
        (delete_batch-Justified rows fs (λ r g a. place r g (Aligned.there a)) h.1)
    where
      out : BatchOutcome
      out = delete_batch rows fs

      verdict :
          (v : Verdict)
          → judge row f ≡ v
          → All (Justified env chunk P) out.done
          → All (Justified env chunk P) (record_verdict row.ews_id v out).done
      verdict Verdict.done e ih =
          (done-Justified row f h.0 (place row f Aligned.here) (judge-Unchanged row f e), ih)
      verdict (Verdict.skipped r) e ih = ih

abbrev pub flow_world : Flow → World
flow_world (continue st w) = w
flow_world (stop st w) = w
flow_world (Flow.raised w) = w

upstream-persist_batch :
    (env : Environment) (ids : List String) (w : World)
    → (persist_batch env ids w).1.upstream ≡ w.upstream
unfolding persist_batch
upstream-persist_batch env ids w = ground arith

upstream-after_requeue :
    (env : Environment) (ids : List String) (st : LoopState) (w : World)
    → (flow_world (after_requeue env ids st w)).upstream ≡ w.upstream
unfolding after_requeue
upstream-after_requeue env [] st w = refl
upstream-after_requeue env (i ∷ is) st w =
    outcome (persist_batch env (i ∷ is) w) ∙ upstream-persist_batch env (i ∷ is) w
  where
    outcome :
        (r : Option (List String) × World)
        → (flow_world
            (persisted (i ∷ is) (record st { deleted = st.deleted + length (i ∷ is) }) r)).upstream
          ≡ r.1.upstream
    outcome (none, w') = refl
    outcome (some us, w') = refl

upstream-requeued_batch :
    (env : Environment) (ids : List String) (st : LoopState) (w : World) (r : Option ℕ × Store)
    → (flow_world (requeued_batch env ids st w r)).upstream ≡ w.upstream
upstream-requeued_batch env ids st w (none, s) = refl
upstream-requeued_batch env ids st w (some n, s) =
    upstream-after_requeue env ids (record st { requeued = st.requeued + n })
      (record w { store = s })

upstream-persist_skips :
    (pairs : List (String × Reason)) (w : World) → (persist_skips pairs w).upstream ≡ w.upstream
unfolding persist_skips
upstream-persist_skips pairs w = refl

upstream-after_gateway :
    (env : Environment) (rows : List Message) (sifted : Sifted) (out : BatchOutcome)
    (st : LoopState) (w : World)
    → (flow_world (after_gateway env rows sifted out st w)).upstream ≡ w.upstream
unfolding after_gateway
upstream-after_gateway env rows sifted out st w =
    let w' : World = persist_skips (sifted.bad ++ out.reasons) w in
    upstream-requeued_batch env out.done _ w'
      (requeue env (ids_of (select is_stale out.reasons)) (env.others w'.store))
    ∙ upstream-persist_skips (sifted.bad ++ out.reasons) w

-- The ids that a flow added to those deleted upstream are all justified.
abbrev pub Adds : (String → Type 0) → List String → Flow → Type 0
Adds J base f = (new : List String) × ((flow_world f).upstream ≡ base ++ new) × All J new

pub Adds-nothing :
    (J : String → Type 0) (base : List String) (f : Flow)
    → (flow_world f).upstream ≡ base
    → Adds J base f
Adds-nothing J base f e = ([], e ∙ sym (append-nil base), tt)

Adds-if :
    (J : String → Type 0) (base : List String) (b : Bool) (f g : Flow)
    → Adds J base f
    → Adds J base g
    → Adds J base (if b then f else g)
Adds-if J base true f g h k = h
Adds-if J base false f g h k = k

call_gateway-Adds :
    (env : Environment) (P : Message → Type 0) (rows : List Message) (before : Store)
    (reply : Option (List Fetched)) (st : LoopState) (w : World)
    → env.gateway ≡ reply
    → All P rows
    → Adds
        (Justified env rows P)
        w.upstream
        (call_gateway env rows (unusable_copies env rows before) reply st w)
call_gateway-Adds env P rows before none st w e h =
    let sifted : Sifted = unusable_copies env rows before in
    Adds-nothing (Justified env rows P) w.upstream (gateway_failed sifted st w)
      (upstream-persist_skips sifted.bad w)
call_gateway-Adds env P rows before (some fetched) st w e h =
    let sifted : Sifted = unusable_copies env rows before in
    let out : BatchOutcome = delete_batch sifted.batch fetched in
    let w' : World = record w { upstream = w.upstream ++ out.done } in
    let just : All (Justified env rows P) out.done =
      delete_batch-Justified env P rows before fetched e sifted.batch fetched (λ row f a. a)
        (unusable_copies-Copied env P rows before h) in
    Adds-if (Justified env rows P) w.upstream out.complete _ _
      (out.done, upstream-after_gateway env rows sifted out st w', just)
      (out.done, upstream-persist_skips sifted.bad w', just)

pub step-Adds :
    (env : Environment) (P : Message → Type 0) (rows : List Message) (st : LoopState) (w : World)
    → All P rows
    → Adds (Justified env rows P) w.upstream (step env rows st w)
unfolding step
step-Adds env P rows st w h = batch (unusable_copies env rows w.store).batch
  where
    sifted : Sifted
    sifted = unusable_copies env rows w.store

    st' : LoopState
    st' = record st { reasons = st.reasons ++ sifted.bad; failed = st.failed + length sifted.bad }

    w' : World
    w' = record w { store = sifted.store }

    batch :
        (b : List Message)
        → Adds (Justified env rows P) w.upstream (batch_step env rows sifted b st' w')
    batch [] =
        Adds-nothing (Justified env rows P) w.upstream
          (continue (record st' { processed = st'.processed + length rows })
            (persist_skips sifted.bad w'))
          (upstream-persist_skips sifted.bad w')
    batch (row ∷ rest) = call_gateway-Adds env P rows w.store env.gateway st' w' refl h
