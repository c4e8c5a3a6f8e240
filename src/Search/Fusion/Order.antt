-- ===== src/Search/Fusion/Order.antt =====
-- The order and the members of the fused ranking of ewsmcp/semantic.py.
use exchange_mcp.Prelude.{
  ℕ, suc, ◌+◌, String, ◌≡◌, refl, sym, ◌∙◌, ap, Bool, true, false, ◌||◌, List, [], ◌∷◌, map,
  mem_str, if◌then◌else◌, str_eq, str_eq-eq, str_eq_apart, arith, or_false, both_false,
}
use exchange_mcp.Search.Fusion.{
  Scored, bump, add_rank, add_ranking, add_rankings, higher, before, insert_scored, ranked, rrf,
}

abbrev pub idents : List Scored → List String
idents = map (λ (e : Scored). e.ident)

-- The id is in one of the rankings.
abbrev pub mem_any : String → List (List String) → Bool
mem_any i [] = false
mem_any i (r ∷ rs) = mem_str i r || mem_any i rs

abbrev pub Distinct : List String → Type 0
Distinct [] = Unit
Distinct (i ∷ ids) = (mem_str i ids ≡ false) × Distinct ids

-- No entry has a higher score than the one before it.
abbrev pub Follows : Scored → List Scored → Type 0
Follows e [] = Unit
Follows e (f ∷ fs) = higher f e ≡ false

abbrev pub Ranked : List Scored → Type 0
Ranked [] = Unit
Ranked (e ∷ es) = Follows e es × Ranked es

or_swap : (a b c : Bool) → (a || (b || c)) ≡ (b || (a || c))
or_swap a b c = ground arith

or_assoc : (a b c : Bool) → (a || (b || c)) ≡ ((a || b) || c)
or_assoc a b c = ground arith

or_again : (a m : Bool) → (a || m) ≡ ((a || m) || a)
or_again a m = ground arith

neither : (a b : Bool) → a ≡ false → b ≡ false → (a || b) ≡ false
neither a b x y = ground arith

mem-insert_scored :
    (i : String) (e : Scored) (es : List Scored)
    → mem_str i (idents (insert_scored e es)) ≡ (str_eq e.ident i || mem_str i (idents es))
unfolding insert_scored
mem-insert_scored i e [] = refl
mem-insert_scored i e (f ∷ fs) = go (before e f) (mem-insert_scored i e fs)
  where
    go :
        (b : Bool)
        → mem_str i (idents (insert_scored e fs)) ≡ (str_eq e.ident i || mem_str i (idents fs))
        → mem_str i (idents (if b then e ∷ f ∷ fs else f ∷ insert_scored e fs))
          ≡ (str_eq e.ident i || (str_eq f.ident i || mem_str i (idents fs)))
    go true h = refl
    go false h = ap (λ c. str_eq f.ident i || c) h ∙ or_swap (str_eq f.ident i) (str_eq e.ident i) _

mem-ranked :
    (i : String) (es : List Scored) → mem_str i (idents (ranked es)) ≡ mem_str i (idents es)
unfolding ranked
mem-ranked i [] = refl
mem-ranked i (e ∷ es) =
    mem-insert_scored i e (ranked es) ∙ ap (λ c. str_eq e.ident i || c) (mem-ranked i es)

mem-add_rank :
    (k rank : ℕ) (i j : String) (es : List Scored)
    → mem_str i (idents (add_rank k rank j es)) ≡ (mem_str i (idents es) || str_eq j i)
unfolding add_rank
mem-add_rank k rank i j [] = or_false (str_eq j i)
mem-add_rank k rank i j (e ∷ es) = go (str_eq e.ident j) refl (mem-add_rank k rank i j es)
  where
    go :
        (b : Bool)
        → str_eq e.ident j ≡ b
        → mem_str i (idents (add_rank k rank j es)) ≡ (mem_str i (idents es) || str_eq j i)
        → mem_str i (idents (if b then bump (k + rank) e ∷ es else e ∷ add_rank k rank j es))
          ≡ ((str_eq e.ident i || mem_str i (idents es)) || str_eq j i)
    go true h ih =
        or_again (str_eq e.ident i) (mem_str i (idents es))
        ∙ ap (λ (x : String). (str_eq e.ident i || mem_str i (idents es)) || str_eq x i)
            (str_eq-eq e.ident j h)
    go false h ih = ap (λ c. str_eq e.ident i || c) ih ∙ or_assoc (str_eq e.ident i) _ _

Distinct-insert_scored :
    (e : Scored) (es : List Scored)
    → mem_str e.ident (idents es) ≡ false
    → Distinct (idents es)
    → Distinct (idents (insert_scored e es))
unfolding insert_scored
Distinct-insert_scored e [] h d = (refl, tt)
Distinct-insert_scored e (f ∷ fs) h d =
    go (before e f) (Distinct-insert_scored e fs (both_false (str_eq f.ident e.ident) _ h).1 d.1)
  where
    go :
        (b : Bool)
        → Distinct (idents (insert_scored e fs))
        → Distinct (idents (if b then e ∷ f ∷ fs else f ∷ insert_scored e fs))
    go true k = (h, d)
    go false k = (
      mem-insert_scored f.ident e fs
          ∙ neither _ _ (str_eq_apart f.ident e.ident (both_false (str_eq f.ident e.ident) _ h).0)
              d.0,
      k,
    )

Distinct-ranked : (es : List Scored) → Distinct (idents es) → Distinct (idents (ranked es))
unfolding ranked
Distinct-ranked [] d = tt
Distinct-ranked (e ∷ es) d =
    Distinct-insert_scored e (ranked es) (mem-ranked e.ident es ∙ d.0) (Distinct-ranked es d.1)

Distinct-add_rank :
    (k rank : ℕ) (i : String) (es : List Scored)
    → Distinct (idents es)
    → Distinct (idents (add_rank k rank i es))
unfolding add_rank
Distinct-add_rank k rank i [] d = (refl, tt)
Distinct-add_rank k rank i (e ∷ es) d =
    go (str_eq e.ident i) refl (Distinct-add_rank k rank i es d.1)
  where
    go :
        (b : Bool)
        → str_eq e.ident i ≡ b
        → Distinct (idents (add_rank k rank i es))
        → Distinct (idents (if b then bump (k + rank) e ∷ es else e ∷ add_rank k rank i es))
    go true h r = d
    go false h r =
        (mem-add_rank k rank e.ident i es ∙ neither _ _ d.0 (str_eq_apart e.ident i h), r)

before-higher : (e f : Scored) → before e f ≡ true → higher f e ≡ false
before-higher e f = ground arith

after-higher : (e f : Scored) → before e f ≡ false → higher e f ≡ false
after-higher e f = ground arith

Follows-insert_scored :
    (f e : Scored) (fs : List Scored)
    → higher e f ≡ false
    → Follows f fs
    → Follows f (insert_scored e fs)
unfolding insert_scored
Follows-insert_scored f e [] h k = h
Follows-insert_scored f e (g ∷ gs) h k = go (before e g)
  where
    go : (b : Bool) → Follows f (if b then e ∷ g ∷ gs else g ∷ insert_scored e gs)
    go true = h
    go false = k

Ranked-insert_scored : (e : Scored) (es : List Scored) → Ranked es → Ranked (insert_scored e es)
unfolding insert_scored
Ranked-insert_scored e [] h = (tt, tt)
Ranked-insert_scored e (f ∷ fs) h = go (before e f) refl (Ranked-insert_scored e fs h.1)
  where
    go :
        (b : Bool)
        → before e f ≡ b
        → Ranked (insert_scored e fs)
        → Ranked (if b then e ∷ f ∷ fs else f ∷ insert_scored e fs)
    go true k r = (before-higher e f k, h)
    go false k r = (Follows-insert_scored f e fs (after-higher e f k) h.0, r)

pub Ranked-ranked : (es : List Scored) → Ranked (ranked es)
unfolding ranked
Ranked-ranked [] = tt
Ranked-ranked (e ∷ es) = Ranked-insert_scored e (ranked es) (Ranked-ranked es)

mem-add_ranking :
    (k rank : ℕ) (i : String) (ids : List String) (es : List Scored)
    → mem_str i (idents (add_ranking k rank ids es)) ≡ (mem_str i (idents es) || mem_str i ids)
unfolding add_ranking
mem-add_ranking k rank i [] es = sym (or_false (mem_str i (idents es)))
mem-add_ranking k rank i (j ∷ ids) es =
    mem-add_ranking k (suc rank) i ids (add_rank k rank j es)
    ∙ ap (λ c. c || mem_str i ids) (mem-add_rank k rank i j es)
    ∙ sym (or_assoc (mem_str i (idents es)) (str_eq j i) (mem_str i ids))

mem-add_rankings :
    (k : ℕ) (i : String) (rs : List (List String)) (es : List Scored)
    → mem_str i (idents (add_rankings k rs es)) ≡ (mem_str i (idents es) || mem_any i rs)
unfolding add_rankings
mem-add_rankings k i [] es = sym (or_false (mem_str i (idents es)))
mem-add_rankings k i (r ∷ rs) es =
    mem-add_rankings k i rs (add_ranking k 1 r es)
    ∙ ap (λ c. c || mem_any i rs) (mem-add_ranking k 1 i r es)
    ∙ sym (or_assoc (mem_str i (idents es)) (mem_str i r) (mem_any i rs))

Distinct-add_ranking :
    (k rank : ℕ) (ids : List String) (es : List Scored)
    → Distinct (idents es)
    → Distinct (idents (add_ranking k rank ids es))
unfolding add_ranking
Distinct-add_ranking k rank [] es d = d
Distinct-add_ranking k rank (i ∷ ids) es d =
    Distinct-add_ranking k (suc rank) ids _ (Distinct-add_rank k rank i es d)

pub Distinct-add_rankings :
    (k : ℕ) (rs : List (List String)) (es : List Scored)
    → Distinct (idents es)
    → Distinct (idents (add_rankings k rs es))
unfolding add_rankings
Distinct-add_rankings k [] es d = d
Distinct-add_rankings k (r ∷ rs) es d =
    Distinct-add_rankings k rs _ (Distinct-add_ranking k 1 r es d)

pub mem-rrf : (k : ℕ) (rs : List (List String)) (i : String) → mem_str i (rrf k rs) ≡ mem_any i rs
unfolding rrf
mem-rrf k rs i = mem-ranked i (add_rankings k rs []) ∙ mem-add_rankings k i rs []

pub rrf-Distinct : (k : ℕ) (rs : List (List String)) → Distinct (rrf k rs)
unfolding rrf
rrf-Distinct k rs = Distinct-ranked _ (Distinct-add_rankings k rs [] tt)
