-- ===== src/Archive/Verify/Counts.antt =====
-- The counters of `Verifier.run` of ewsmcp/archive/verify.py.
use exchange_mcp.Prelude.{
  ℕ, suc, ◌+◌, String, ◌≡◌, refl, Bool, true, false, Option, none, some, List, [], ◌∷◌,
  if◌then◌else◌, length, ◌==◌, ap, arith,
}
use exchange_mcp.Store.Rows.{Message, Store}
use exchange_mcp.Store.Archive.{captured_rows, mark_verified, reset_to_live}
use exchange_mcp.Archive.Verify.{
  Environment, Fetched, Verdict, Mismatch, Pairs, Outcome, pair_up, add_to, evaluate, apply, run,
  run_rows, then_count, add_failed, add_verified, add_reset, add_missed,
}
use exchange_mcp.Archive.Verify

total : Outcome → ℕ
total o = o.verified + o.reset + o.failed

-- The pass returned, every one of `n` rows counted once, with a reason for each reset.
abbrev pub Counted : ℕ → Option Outcome → Type 0
Counted n none = ⊥
Counted n (some o) = (o.verified + o.reset + o.failed ≡ n) × (length o.reasons ≡ o.reset)

count_one :
    (n : ℕ) (i : String) (m : Mismatch) (r : Option Outcome × Store)
    → Counted n r.0
    → Counted (suc n) (then_count add_failed r).0
      × Counted (suc n) (then_count add_verified r).0
      × Counted (suc n) (then_count (add_reset i m) r).0
count_one n i m (none, s) h = absurd h
count_one n i m (some o, s) h =
    ((omega (arith, h.0), h.1), (omega (arith, h.0), h.1), (omega (arith, h.0), omega (arith, h.1)))

choose :
    (n : ℕ) (b : Bool) (f g : Outcome → Outcome) (r : Option Outcome × Store)
    → Counted n (then_count f r).0
    → Counted n (then_count g r).0
    → Counted n (then_count (if b then f else g) r).0
choose n true f g r h k = h
choose n false f g r h k = k

unless_down :
    (n : ℕ) (b : Bool)
    → b ≡ false
    → (s : Store) (r : Option Outcome × Store) → Counted n r.0
    → Counted n (if b then (none, s) else r).0
unless_down n true h s r k = cc
unless_down n false h s r k = k

apply-Counted :
    (env : Environment)
    → ((i : String) → env.write_down i ≡ false)
    → (vs : List (String × Verdict)) (s : Store) → Counted (length vs) (apply env vs s).0
unfolding apply
apply-Counted env up [] s = (refl, refl)
apply-Counted env up ((i, Verdict.failed e) ∷ vs) s =
    (count_one (length vs) i Mismatch.changekey_changed (apply env vs s)
      (apply-Counted env up vs s)).0
apply-Counted env up ((i, Verdict.ok) ∷ vs) s =
    let w = mark_verified env.now i s in
    let rest = apply env vs w.0 in
    let k = count_one (length vs) i Mismatch.changekey_changed rest (apply-Counted env up vs w.0) in
    unless_down (suc (length vs)) (env.write_down i) (up i) s _
      (choose _ (w.1 == 0) add_failed add_verified rest k.0 k.1)
apply-Counted env up ((i, Verdict.mismatch m) ∷ vs) s =
    let w = reset_to_live i s in
    let rest = apply env vs w.0 in
    let k = count_one (length vs) i m rest (apply-Counted env up vs w.0) in
    unless_down (suc (length vs)) (env.write_down i) (up i) s _
      (choose _ (w.1 == 0) add_failed (add_reset i m) rest k.0 k.2)

abbrev Paired : ℕ → Option Pairs → Type 0
Paired n none = ⊥
Paired n (some ps) = length ps.pairs + ps.missed ≡ n

add_to-Paired :
    (n : ℕ) (row : Message) (f : Fetched) (ps : Option Pairs)
    → Paired n ps
    → Paired (suc n) (add_to row f ps)
add_to-Paired n row f none h = absurd h
add_to-Paired n row (Fetched.missing e) (some ps) h = omega (arith, h)
add_to-Paired n row (Fetched.item ck) (some ps) h = omega (arith, h)

pair_up-Paired :
    (rows : List Message) (fs : List Fetched)
    → length rows ≡ length fs
    → Paired (length rows) (pair_up rows fs)
unfolding pair_up
pair_up-Paired [] [] h = refl
pair_up-Paired [] (f ∷ fs) h = absurd (omega (arith, h))
pair_up-Paired (row ∷ rows) [] h = absurd (omega (arith, h))
pair_up-Paired (row ∷ rows) (f ∷ fs) h =
    add_to-Paired (length rows) row f (pair_up rows fs) (pair_up-Paired rows fs (omega (arith, h)))

length-evaluate :
    (env : Environment) (s : Store) (pairs : List (Message × Option String))
    → length (evaluate env s pairs) ≡ length pairs
unfolding evaluate
length-evaluate env s [] = refl
length-evaluate env s ((row, ck) ∷ pairs) = ap suc (length-evaluate env s pairs)

add_missed-Counted :
    (n k : ℕ) (r : Option Outcome × Store)
    → Counted k r.0
    → {t : ℕ} → k + n ≡ t
    → Counted t (then_count (add_missed n) r).0
add_missed-Counted n k (none, s) h e = absurd h
add_missed-Counted n k (some o, s) h e = (omega (arith, h.0, e), h.1)

run_pairs-Counted :
    (env : Environment)
    → ((i : String) → env.write_down i ≡ false)
    → (s : Store) (n : ℕ) (ps : Option Pairs) → Paired n ps
    → Counted n (Verify.run_pairs env s ps).0
run_pairs-Counted env up s n none h = absurd h
run_pairs-Counted env up s n (some ps) h =
    add_missed-Counted ps.missed (length (evaluate env s ps.pairs)) _
      (apply-Counted env up (evaluate env s ps.pairs) (env.others s))
      (omega (arith, h, length-evaluate env s ps.pairs))

-- The gateway's reply has one item for each of the `n` ids asked for.
abbrev pub Answers : ℕ → Option (List Fetched) → Type 0
Answers n none = ⊥
Answers n (some fs) = n ≡ length fs

run_fetched-Counted :
    (env : Environment)
    → ((i : String) → env.write_down i ≡ false)
    → (rows : List Message) (s : Store) (fs : Option (List Fetched)) → Answers (length rows) fs
    → Counted (length rows) (Verify.run_fetched env rows fs s).0
run_fetched-Counted env up rows s none h = absurd h
run_fetched-Counted env up rows s (some fs) h =
    run_pairs-Counted env up s (length rows) (pair_up rows fs) (pair_up-Paired rows fs h)

run_rows-Counted :
    (env : Environment)
    → ((i : String) → env.write_down i ≡ false)
    → (rows : List Message) (s : Store) → Answers (length rows) env.gateway
    → Counted (length rows) (run_rows env rows s).0
run_rows-Counted env up [] s h = (refl, refl)
run_rows-Counted env up (row ∷ rows) s h = run_fetched-Counted env up (row ∷ rows) s env.gateway h

-- If the gateway answers for every captured row of the batch and the store's writes do not raise,
-- the pass returns, verified + reset + failed is the number of rows, and each reset has a reason.
pub run-Counted :
    (env : Environment)
    → ((i : String) → env.write_down i ≡ false)
    → (limit : ℕ) (s : Store) → Answers (length (captured_rows limit s)) env.gateway
    → Counted (length (captured_rows limit s)) (run env limit s).0
unfolding run
run-Counted env up limit s h = run_rows-Counted env up (captured_rows limit s) s h
