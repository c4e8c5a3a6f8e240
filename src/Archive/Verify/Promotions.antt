-- ===== src/Archive/Verify/Promotions.antt =====
-- What `Verifier.run` of ewsmcp/archive/verify.py does to the store.
use exchange_mcp.Prelude.{
  ℕ, String, ◌≡◌, refl, Bool, true, false, Option, none, some, List, [], ◌∷◌, if◌then◌else◌, ◌⊎◌,
  inl, inr, All, option_str_eq, ◌&&◌, Aligned, sym,
}
use mathlib.Core.Path.{subst}
use exchange_mcp.Store.Rows.{Message, Store}
use exchange_mcp.Store.Archive.{captured_rows, mark_verified, reset_to_live}
use exchange_mcp.Store.Writes.{Write, write, write_all}
use exchange_mcp.Archive.Files.{Check, check_copy, truthy}
use exchange_mcp.Archive.Verify
use exchange_mcp.Archive.Verify.{
  Environment, Fetched, missing, item, add_to, Verdict, Mismatch, Pairs, Outcome, pair_up, evaluate,
  apply, judge, run, run_rows, run_pairs, run_fetched, then_count, sha_text, inventory,
}

-- A row of the pass with the item that the gateway answered at its place: the changekeys are
-- there and equal, and the copy passes all its checks.
abbrev pub Sound : Environment → ℕ → Store → String → Type 0
Sound env limit s i =
    (row : Message) × (live_ck : Option String) × (fetched : List Fetched) × (env.gateway
      ≡ some fetched)
    × Aligned row (item live_ck) (captured_rows limit s) fetched
    × (row.ews_id ≡ i)
    × ((truthy row.captured_changekey && truthy live_ck) ≡ true)
    × (option_str_eq live_ck row.captured_changekey ≡ true)
    × (check_copy env.disk (sha_text row.mime_sha256) (inventory env s i) ≡ Check.passed)

-- The writes that the verifier may make: a promotion of a sound row, or a reset.
abbrev pub Permitted : Environment → ℕ → Store → Write → Type 0
Permitted env limit s (Write.verify now i) = (now ≡ env.now) × Sound env limit s i
Permitted env limit s (Write.reset i) = Unit
Permitted env limit s _ = ⊥

-- The store `t` comes from `s'` by permitted writes.
abbrev pub Reached : Environment → ℕ → Store → Store → Store → Type 0
Reached env limit s s' t =
    (ws : List Write) × (t ≡ write_all ws s') × All (Permitted env limit s) ws

-- Which verdicts promote.
abbrev Justified : Environment → ℕ → Store → String × Verdict → Type 0
Justified env limit s (i, Verdict.ok) = Sound env limit s i
Justified env limit s (i, v) = Unit

verdict_of-Justified :
    (env : Environment) (limit : ℕ) (s : Store) (i : String) (c : Check)
    → (c ≡ Check.passed → Sound env limit s i)
    → Justified env limit s (i, Verify.verdict_of c)
verdict_of-Justified env limit s i Check.passed h = h refl
verdict_of-Justified env limit s i (Check.problem p) h = tt
verdict_of-Justified env limit s i (Check.raised e) h = tt

-- The place of a row with its item, among the rows of the pass and the gateway's answer.
abbrev Placed : Environment → ℕ → Store → Message → Option String → Type 0
Placed env limit s row ck =
    (fetched : List Fetched) × (env.gateway ≡ some fetched)
    × Aligned row (item ck) (captured_rows limit s) fetched

judge-Justified :
    (env : Environment) (limit : ℕ) (s : Store) (row : Message) (ck : Option String)
    → Placed env limit s row ck
    → Justified env limit s (row.ews_id, judge env s row ck)
unfolding judge
judge-Justified env limit s row ck (fetched, reply, place) =
    go (truthy row.captured_changekey && truthy ck) refl (option_str_eq ck row.captured_changekey)
      refl
  where
    go :
        (a : Bool)
        → (truthy row.captured_changekey && truthy ck) ≡ a
        → (b : Bool) → option_str_eq ck row.captured_changekey ≡ b
        → Justified env limit s (
          row.ews_id,
          if a
              then if b
                then Verify.verdict_of
                    (check_copy env.disk (sha_text row.mime_sha256) (inventory env s row.ews_id))
                else Verdict.mismatch Mismatch.changekey_changed
              else Verdict.mismatch Mismatch.changekey_unavailable,
        )
    go true ea true eb =
        verdict_of-Justified env limit s row.ews_id
          (check_copy env.disk (sha_text row.mime_sha256) (inventory env s row.ews_id))
          (λ h. (row, ck, fetched, reply, place, refl, ea, eb, h))
    go true ea false eb = tt
    go false ea b eb = tt

evaluate-Justified :
    (env : Environment) (limit : ℕ) (s : Store) (pairs : List (Message × Option String))
    → All (λ p. Placed env limit s p.0 p.1) pairs
    → All (Justified env limit s) (evaluate env s pairs)
unfolding evaluate
evaluate-Justified env limit s [] h = tt
evaluate-Justified env limit s ((row, ck) ∷ pairs) h =
    (judge-Justified env limit s row ck h.0, evaluate-Justified env limit s pairs h.1)

-- Each pair of `pair_up` stands at one place of the rows and of the items.
abbrev PairsOf : (Message → Option String → Type 0) → Option Pairs → Type 0
PairsOf P none = Unit
PairsOf P (some ps) = All (λ p. P p.0 p.1) ps.pairs

pair_up-Aligned :
    (P : Message → Option String → Type 0) (rows : List Message) (fs : List Fetched)
    → ((row : Message) (ck : Option String) → Aligned row (item ck) rows fs → P row ck)
    → PairsOf P (pair_up rows fs)
unfolding pair_up
pair_up-Aligned P [] [] h = tt
pair_up-Aligned P [] (f ∷ fs) h = tt
pair_up-Aligned P (row ∷ rows) [] h = tt
pair_up-Aligned P (row ∷ rows) (f ∷ fs) h =
    go f (λ ck e. h row ck (subst (λ g. Aligned row g (row ∷ rows) (f ∷ fs)) e Aligned.here))
      (pair_up rows fs) (pair_up-Aligned P rows fs (λ r ck a. h r ck (Aligned.there a)))
  where
    go :
        (g : Fetched)
        → ((ck : Option String) → g ≡ item ck → P row ck)
        → (ps : Option Pairs) → PairsOf P ps
        → PairsOf P (add_to row g ps)
    go g k none h = tt
    go (missing e) k (some ps) h = h
    go (item ck) k (some ps) h = (k ck refl, h)

-- Counting leaves the store alone.
Reached-count :
    (env : Environment) (limit : ℕ) (s s' : Store) (f : Outcome → Outcome)
    (r : Option Outcome × Store)
    → Reached env limit s s' r.1
    → Reached env limit s s' (then_count f r).1
Reached-count env limit s s' f (none, t) h = h
Reached-count env limit s s' f (some o, t) h = h

Reached-if :
    (env : Environment) (limit : ℕ) (s s' : Store) (b : Bool) (r : Option Outcome × Store)
    → Reached env limit s s' r.1
    → Reached env limit s s' (if b then (none, s') else r).1
unfolding write_all
Reached-if env limit s s' true r h = ([], refl, tt)
Reached-if env limit s s' false r h = h

Reached-after :
    (env : Environment) (limit : ℕ) (s s' t : Store) (w : Write)
    → Permitted env limit s w
    → Reached env limit s (write w s') t
    → Reached env limit s s' t
unfolding write_all
Reached-after env limit s s' t w p (ws, e, ps) = (w ∷ ws, e, (p, ps))

apply-Reached :
    (env : Environment) (limit : ℕ) (s : Store) (vs : List (String × Verdict)) (s' : Store)
    → All (Justified env limit s) vs
    → Reached env limit s s' (apply env vs s').1
unfolding apply write write_all
apply-Reached env limit s [] s' h = ([], refl, tt)
apply-Reached env limit s ((i, Verdict.failed e) ∷ vs) s' h =
    Reached-count env limit s s' _ (apply env vs s') (apply-Reached env limit s vs s' h.1)
apply-Reached env limit s ((i, Verdict.ok) ∷ vs) s' h =
    let t = (mark_verified env.now i s').0 in
    Reached-if env limit s s' (env.write_down i) _ (
      Reached-count env limit s s' _ (apply env vs t) (
        Reached-after env limit s s' _ (Write.verify env.now i) (refl, h.0)
          (apply-Reached env limit s vs t h.1)))
apply-Reached env limit s ((i, Verdict.mismatch m) ∷ vs) s' h =
    let t = (reset_to_live i s').0 in
    Reached-if env limit s s' (env.write_down i) _ (
      Reached-count env limit s s' _ (apply env vs t)
        (Reached-after env limit s s' _ (Write.reset i) tt (apply-Reached env limit s vs t h.1)))

-- What the pass leaves: the store as it was, or what `others` made of it and then its own writes.
abbrev pub Passed : Environment → ℕ → Store → Store → Type 0
Passed env limit s t = (t ≡ s) ⊎ Reached env limit s (env.others s) t

run_pairs-Passed :
    (env : Environment) (limit : ℕ) (s : Store) (ps : Option Pairs)
    → PairsOf (Placed env limit s) ps
    → Passed env limit s (run_pairs env s ps).1
run_pairs-Passed env limit s none h = inl refl
run_pairs-Passed env limit s (some ps) h = inr (
    Reached-count env limit s (env.others s) _ (apply env (evaluate env s ps.pairs) (env.others s))
      (apply-Reached env limit s (evaluate env s ps.pairs) (env.others s)
        (evaluate-Justified env limit s ps.pairs h)))

run_rows-Passed :
    (env : Environment) (limit : ℕ) (s : Store) (rows : List Message)
    → captured_rows limit s ≡ rows
    → Passed env limit s (run_rows env rows s).1
run_rows-Passed env limit s [] e = inl refl
run_rows-Passed env limit s (row ∷ rows) e = fetched env.gateway refl
  where
    fetched :
        (fs : Option (List Fetched))
        → env.gateway ≡ fs
        → Passed env limit s (run_fetched env (row ∷ rows) fs s).1
    fetched none g = inl refl
    fetched (some fs) g = run_pairs-Passed env limit s (pair_up (row ∷ rows) fs) (
        pair_up-Aligned (Placed env limit s) (row ∷ rows) fs
          (λ r ck a. (fs, g, subst (λ rs. Aligned r (item ck) rs fs) (sym e) a)))

-- Whatever the gateway, the disk and the database do, the pass leaves the store alone, or makes a
-- sequence of writes that are resets and promotions, and promotes only captured rows of the pass
-- for which the item that the gateway answered at the row's own place shows the changekey that was
-- captured, and whose copy passes every check.
pub run-Passed :
    (env : Environment) (limit : ℕ) (s : Store) → Passed env limit s (run env limit s).1
unfolding run
run-Passed env limit s = run_rows-Passed env limit s (captured_rows limit s) refl
