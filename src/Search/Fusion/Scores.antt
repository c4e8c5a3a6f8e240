-- ===== src/Search/Fusion/Scores.antt =====
-- The scores of the fused ranking of ewsmcp/semantic.py, against their definition as a sum.
use mathlib.Core.Bool.{false≢true}
use mathlib.Core.Path.{subst}
use exchange_mcp.Prelude.{
  ℕ, suc, ◌+◌, String, ◌≡◌, refl, sym, ◌∙◌, ap, Bool, true, false, List, [], ◌∷◌, mem_str,
  if◌then◌else◌, if_true, if_false, str_eq, str_eq-eq, str_eq_refl, str_eq_apart, All, All-if,
  All-map, both_false,
}
use exchange_mcp.Search.Fusion.{
  Score, Scored, plus, bump, above, add_rank, add_ranking, add_rankings, before, insert_scored,
  ranked, rrf,
}
use exchange_mcp.Search.Fusion.Order.{
  idents, mem_any, Distinct, Ranked, mem-rrf, rrf-Distinct, Ranked-ranked, Distinct-add_rankings,
}

-- `acc` and 1 / (k + rank) for each place of the id in the ranking.
abbrev pub sum_ranks : ℕ → ℕ → String → List String → Score → Score
sum_ranks k rank i [] acc = acc
sum_ranks k rank i (j ∷ ids) acc =
    sum_ranks k (suc rank) i ids (if str_eq j i then plus (k + rank) acc else acc)

abbrev pub sum_rankings : ℕ → String → List (List String) → Score → Score
sum_rankings k i [] acc = acc
sum_rankings k i (r ∷ rs) acc = sum_rankings k i rs (sum_ranks k 1 i r acc)

-- The sum of 1 / (k + rank) over the places of the id in the rankings.
abbrev pub score_of : ℕ → List (List String) → String → Score
score_of k rs i = sum_rankings k i rs (0, 1)

-- No id has a higher score than the one before it.
abbrev pub NotAbove : (String → Score) → String → List String → Type 0
NotAbove score i [] = Unit
NotAbove score i (j ∷ ids) = above (score j) (score i) ≡ false

abbrev pub Falling : (String → Score) → List String → Type 0
Falling score [] = Unit
Falling score (i ∷ ids) = NotAbove score i ids × Falling score ids

-- The score of the id in the table, 0 if it is not there.
abbrev score_in : String → List Scored → Score
score_in i [] = (0, 1)
score_in i (e ∷ es) = if str_eq e.ident i then e.score else score_in i es

score_in-add_rank :
    (k rank : ℕ) (i j : String) (es : List Scored)
    → score_in i (add_rank k rank j es)
      ≡ (if str_eq j i then plus (k + rank) (score_in i es) else score_in i es)
unfolding add_rank
score_in-add_rank k rank i j [] = refl
score_in-add_rank k rank i j (e ∷ es) = go (str_eq e.ident j) refl (score_in-add_rank k rank i j es)
  where
    own :
        (b : Bool)
        → (if b then plus (k + rank) e.score else score_in i es) ≡ (
            if b
            then plus (k + rank) (if b then e.score else score_in i es)
            else if b
            then e.score
            else score_in i es)
    own true = refl
    own false = refl

    other :
        (a b : Bool)
        → (a ≡ true → b ≡ false)
        → (if a then e.score else if b then plus (k + rank) (score_in i es) else score_in i es) ≡ (
            if b
            then plus (k + rank) (if a then e.score else score_in i es)
            else if a
            then e.score
            else score_in i es)
    other true true h = absurd (false≢true (sym (h refl)))
    other true false h = refl
    other false true h = refl
    other false false h = refl

    go :
        (b : Bool)
        → str_eq e.ident j ≡ b
        → score_in i (add_rank k rank j es)
          ≡ (if str_eq j i then plus (k + rank) (score_in i es) else score_in i es)
        → score_in i (if b then bump (k + rank) e ∷ es else e ∷ add_rank k rank j es) ≡ (
            if str_eq j i
            then plus (k + rank) (if str_eq e.ident i then e.score else score_in i es)
            else if str_eq e.ident i
            then e.score
            else score_in i es)
    go true h ih =
        subst
          (λ (x : String). (if str_eq e.ident i then plus (k + rank) e.score else score_in i es) ≡ (
            if str_eq x i
            then plus (k + rank) (if str_eq e.ident i then e.score else score_in i es)
            else if str_eq e.ident i
            then e.score
            else score_in i es))
          (str_eq-eq e.ident j h) (own (str_eq e.ident i))
    go false h ih =
        ap (λ s. if str_eq e.ident i then e.score else s) ih
        ∙ other (str_eq e.ident i) (str_eq j i) (λ q.
          str_eq_apart i j (ap (λ (x : String). str_eq x j) (sym (str_eq-eq e.ident i q)) ∙ h))

score_in-add_ranking :
    (k rank : ℕ) (i : String) (ids : List String) (es : List Scored)
    → score_in i (add_ranking k rank ids es) ≡ sum_ranks k rank i ids (score_in i es)
unfolding add_ranking
score_in-add_ranking k rank i [] es = refl
score_in-add_ranking k rank i (j ∷ ids) es =
    score_in-add_ranking k (suc rank) i ids (add_rank k rank j es)
    ∙ ap (sum_ranks k (suc rank) i ids) (score_in-add_rank k rank i j es)

score_in-add_rankings :
    (k : ℕ) (i : String) (rs : List (List String)) (es : List Scored)
    → score_in i (add_rankings k rs es) ≡ sum_rankings k i rs (score_in i es)
unfolding add_rankings
score_in-add_rankings k i [] es = refl
score_in-add_rankings k i (r ∷ rs) es =
    score_in-add_rankings k i rs (add_ranking k 1 r es)
    ∙ ap (sum_rankings k i rs) (score_in-add_ranking k 1 i r es)

-- Each entry has the score that `f` gives its id.
abbrev Scores : (String → Score) → List Scored → Type 0
Scores f es = All (λ (e : Scored). e.score ≡ f e.ident) es

elsewhere :
    (i : String) (es : List Scored)
    → mem_str i (idents es) ≡ false
    → All (λ (e : Scored). str_eq i e.ident ≡ false) es
elsewhere i [] h = tt
elsewhere i (e ∷ es) h =
    let p = both_false (str_eq e.ident i) (mem_str i (idents es)) h in
    (str_eq_apart e.ident i p.0, elsewhere i es p.1)

score_in-Scores : (es : List Scored) → Distinct (idents es) → Scores (λ i. score_in i es) es
score_in-Scores [] d = tt
score_in-Scores (e ∷ es) d = (
  sym (if_true (str_eq e.ident e.ident) _ _ (str_eq_refl e.ident)),
  later es (elsewhere e.ident es d.0) (score_in-Scores es d.1),
)
  where
    later :
        (fs : List Scored)
        → All (λ (f : Scored). str_eq e.ident f.ident ≡ false) fs
        → Scores (λ i. score_in i es) fs
        → Scores (λ i. score_in i (e ∷ es)) fs
    later [] a h = tt
    later (f ∷ fs) a h = (h.0 ∙ sym (if_false (str_eq e.ident f.ident) _ _ a.0), later fs a.1 h.1)

Scores-eq :
    (f g : String → Score)
    → ((i : String) → f i ≡ g i)
    → (es : List Scored) → Scores f es
    → Scores g es
Scores-eq f g h es s = All-map _ _ (λ (e : Scored) p. p ∙ h e.ident) es s

Scores-insert_scored :
    (f : String → Score) (e : Scored) (es : List Scored)
    → e.score ≡ f e.ident
    → Scores f es
    → Scores f (insert_scored e es)
unfolding insert_scored
Scores-insert_scored f e [] h s = (h, tt)
Scores-insert_scored f e (g ∷ gs) h s =
    All-if (λ (d : Scored). d.score ≡ f d.ident) (before e g) (e ∷ g ∷ gs) (g ∷ insert_scored e gs)
      (h, s) (s.0, Scores-insert_scored f e gs h s.1)

Scores-ranked : (f : String → Score) (es : List Scored) → Scores f es → Scores f (ranked es)
unfolding ranked
Scores-ranked f [] s = tt
Scores-ranked f (e ∷ es) s = Scores-insert_scored f e (ranked es) s.0 (Scores-ranked f es s.1)

Falling-idents :
    (f : String → Score) (es : List Scored) → Ranked es → Scores f es → Falling f (idents es)
Falling-idents f [] r s = tt
Falling-idents f (e ∷ []) r s = (tt, tt)
Falling-idents f (e ∷ g ∷ gs) r s = (
  ap (λ p. above p (f e.ident)) (sym s.1.0) ∙ ap (λ p. above g.score p) (sym s.0) ∙ r.0,
  Falling-idents f (g ∷ gs) r.1 s.1,
)

-- The fusion of rankings has the ids of all of them, each once, and by falling score, where the
-- score of an id is the sum of 1 / (k + rank) over its places in the rankings: none has a higher
-- score than the id before it.
pub rrf-Falling :
    (k : ℕ) (rs : List (List String))
    → ((i : String) → mem_str i (rrf k rs) ≡ mem_any i rs)
      × Distinct (rrf k rs)
      × Falling (score_of k rs) (rrf k rs)
unfolding rrf
rrf-Falling k rs =
    let table = add_rankings k rs [] in
    let scores =
      Scores-eq (λ i. score_in i table) (score_of k rs) (λ i. score_in-add_rankings k i rs []) table
        (score_in-Scores table (Distinct-add_rankings k rs [] tt)) in
    (
      mem-rrf k rs,
      rrf-Distinct k rs,
      Falling-idents (score_of k rs) (ranked table) (Ranked-ranked table)
          (Scores-ranked (score_of k rs) table scores),
    )
