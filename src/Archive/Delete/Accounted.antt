-- ===== src/Archive/Delete/Accounted.antt =====
-- The counts of a batch of the deleter of ewsmcp/archive/delete.py.
use exchange_mcp.Prelude.{
  ℕ, suc, ◌+◌, ◌≤◌, String, ◌≡◌, refl, Bool, true, false, Option, none, some, List, [], ◌∷◌, arith,
  inl, inr, ◌++◌, Bool-cases, length, if◌then◌else◌, select,
}
use exchange_mcp.Store.Rows.{Message, Store}
use exchange_mcp.Store.Archive.{demote_to_captured}
use exchange_mcp.Archive.Delete.{
  World, Environment, Sifted, BatchOutcome, Fetched, Verdict, is_passed, copy_problem, try_demote,
  unusable_copies, judge, add_to, record_verdict, delete_batch, requeue, persist_batch,
  persist_skips, ids_of,
}
use exchange_mcp.Archive.Delete.Run.{
  LoopState, Flow, continue, stop, is_stale, after_requeue, after_gateway, call_gateway, persisted,
  requeued_batch, batch_step, step,
}

pub length-sifted :
    (env : Environment) (rows : List Message) (s : Store)
    → length (unusable_copies env rows s).bad + length (unusable_copies env rows s).batch
      ≡ length rows
unfolding unusable_copies
length-sifted env [] s = omega arith
length-sifted env (row ∷ rows) s = elim (Bool-cases (is_passed (copy_problem env s row))) [
  | inl good ↦ rw good (omega (arith, length-sifted env rows s))
  | inr bad ↦ rw bad (omega (arith, length-sifted env rows (try_demote env row.ews_id s)))
]

-- Every item that was paired has a verdict.
pub length-delete_batch :
    (rows : List Message) (fetched : List Fetched)
    → (delete_batch rows fetched).complete ≡ true
    → length (delete_batch rows fetched).done + length (delete_batch rows fetched).reasons
      ≡ length rows
unfolding delete_batch
length-delete_batch [] [] h = omega arith
length-delete_batch [] (f ∷ fetched) h = cc
length-delete_batch (row ∷ rows) [] h = cc
length-delete_batch (row ∷ rows) (f ∷ fetched) h =
    verdict (judge row f) h (length-delete_batch rows fetched)
  where
    out : BatchOutcome
    out = delete_batch rows fetched

    verdict :
        (v : Verdict)
        → (record_verdict row.ews_id v out).complete ≡ true
        → (out.complete ≡ true → length out.done + length out.reasons ≡ length rows)
        → length (record_verdict row.ews_id v out).done
            + length (record_verdict row.ews_id v out).reasons
          ≡ suc (length rows)
    verdict Verdict.done c ih = omega (arith, ih c)
    verdict (Verdict.skipped r) c ih = omega (arith, ih c)

abbrev pub Balanced : LoopState → Type 0
Balanced st = st.deleted + st.failed ≡ st.processed

-- A flow whose counts balance, and that has a verdict for all of `n` rows, or for some of them.
-- It raises only where a demotion does.
abbrev pub DemotionRaises : Environment → Type 0
DemotionRaises env = (i : String) × (env.demote_down i ≡ true)

abbrev pub Accounted : Environment → ℕ → Flow → Type 0
Accounted env n (continue st w) = Balanced st × (st.processed ≡ n)
Accounted env n (stop st w) = Balanced st × (st.processed ≤ n)
Accounted env n (Flow.raised w) = DemotionRaises env

pub Accounted-if :
    (env : Environment) (n : ℕ) (b : Bool) (f g : Flow)
    → (b ≡ true → Accounted env n f)
    → (b ≡ false → Accounted env n g)
    → Accounted env n (if b then f else g)
Accounted-if env n true f g h k = h refl
Accounted-if env n false f g h k = k refl

pub persisted-Accounted :
    (env : Environment) (done : List String) (st : LoopState) (r : Option (List String) × World)
    (n : ℕ)
    → Balanced st
    → st.processed ≡ n
    → Accounted env n (persisted done st r)
persisted-Accounted env done st (none, w) n h k = (h, omega arith)
persisted-Accounted env done st (some us, w) n h k = (h, k)

pub after_requeue-Accounted :
    (env : Environment) (done : List String) (st : LoopState) (w : World) (n : ℕ)
    → st.deleted + length done + st.failed ≡ n
    → st.processed ≡ n
    → Accounted env n (after_requeue env done st w)
unfolding after_requeue
after_requeue-Accounted env [] st w n h k = (omega arith, k)
after_requeue-Accounted env (i ∷ is) st w n h k =
    persisted-Accounted env (i ∷ is) (record st { deleted = st.deleted + length (i ∷ is) })
      (persist_batch env (i ∷ is) w) n (omega arith) k

-- What stops `_requeue` is a demotion that raises.
pub requeue-raises :
    (env : Environment) (ids : List String) (s : Store)
    → (requeue env ids s).0 ≡ none
    → DemotionRaises env
unfolding requeue
requeue-raises env [] s h = cc
requeue-raises env (i ∷ ids) s h = elim (Bool-cases (env.demote_down i)) [
  | inl down ↦ (i, down)
  | inr up ↦
      requeue-raises env ids (demote_to_captured i s).0
        (rest (requeue env ids (demote_to_captured i s).0).0 (rw up at h))
]
  where
    rest : (t : Option ℕ) → add_to (demote_to_captured i s).1 t ≡ none → t ≡ none
    rest none e = refl
    rest (some m) e = cc

pub requeued_batch-Accounted :
    (env : Environment) (done : List String) (st : LoopState) (w : World) (r : Option ℕ × Store)
    (n : ℕ)
    → (r.0 ≡ none → DemotionRaises env)
    → st.deleted + length done + st.failed ≡ n
    → st.processed ≡ n
    → Accounted env n (requeued_batch env done st w r)
requeued_batch-Accounted env done st w (none, s) n d h k = d refl
requeued_batch-Accounted env done st w (some m, s) n d h k =
    after_requeue-Accounted env done (record st { requeued = st.requeued + m })
      (record w { store = s }) n h k

pub after_gateway-Accounted :
    (env : Environment) (rows : List Message) (sifted : Sifted) (out : BatchOutcome)
    (st : LoopState) (w : World)
    → st.deleted + st.failed + length out.done + length out.reasons ≡ st.processed + length rows
    → Accounted env (st.processed + length rows) (after_gateway env rows sifted out st w)
unfolding after_gateway
after_gateway-Accounted env rows sifted out st w h =
    requeued_batch-Accounted env out.done st' w'
      (requeue env (ids_of (select is_stale out.reasons)) (env.others w'.store))
      (st.processed + length rows) (requeue-raises env _ (env.others w'.store)) (omega arith) refl
  where
    st' : LoopState
    st' = record st {
      processed = st.processed + length rows;
      reasons = st.reasons ++ out.reasons;
      failed = st.failed + length out.reasons;
    }

    w' : World
    w' = persist_skips (sifted.bad ++ out.reasons) w

-- `st` has counted the refused rows of the chunk, but not moved `processed` past them.
pub call_gateway-Accounted :
    (env : Environment) (rows : List Message) (sifted : Sifted) (reply : Option (List Fetched))
    (st : LoopState) (w : World)
    → length sifted.bad + length sifted.batch ≡ length rows
    → st.deleted + st.failed ≡ st.processed + length sifted.bad
    → Accounted env (st.processed + length rows) (call_gateway env rows sifted reply st w)
call_gateway-Accounted env rows sifted none st w size h = (h, omega arith)
call_gateway-Accounted env rows sifted (some fetched) st w size h =
    Accounted-if env (st.processed + length rows) (delete_batch sifted.batch fetched).complete _ _
      (λ all.
        after_gateway-Accounted env rows sifted (delete_batch sifted.batch fetched) st _
          (omega (arith, length-delete_batch sifted.batch fetched all)))
      (λ short. (h, omega arith))

pub batch_step-Accounted :
    (env : Environment) (rows : List Message) (sifted : Sifted) (batch : List Message)
    (st : LoopState) (w : World)
    → length sifted.bad + length sifted.batch ≡ length rows
    → length sifted.bad + length batch ≡ length rows
    → st.deleted + st.failed ≡ st.processed + length sifted.bad
    → Accounted env (st.processed + length rows) (batch_step env rows sifted batch st w)
batch_step-Accounted env rows sifted [] st w size same h = (omega arith, refl)
batch_step-Accounted env rows sifted (row ∷ rest) st w size same h =
    call_gateway-Accounted env rows sifted env.gateway st w size h

pub step-Accounted :
    (env : Environment) (rows : List Message) (st : LoopState) (w : World)
    → Balanced st
    → Accounted env (st.processed + length rows) (step env rows st w)
unfolding step
step-Accounted env rows st w h =
    let size = length-sifted env rows w.store in
    batch_step-Accounted env rows (unusable_copies env rows w.store)
      (unusable_copies env rows w.store).batch _ _ size size (omega arith)
