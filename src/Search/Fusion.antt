-- ===== src/Search/Fusion.antt =====
-- `rrf` and `SemanticIndex.hybrid_search` of ewsmcp/semantic.py. A score is a fraction, exactly; the
-- source adds floats.
pub mod Order
pub mod Scores
pub mod Page
use Prim.Native.Nat.{Ordering}
use Prim.Native.String.{compare}
use exchange_mcp.Prelude.{
  ℕ, suc, ◌+◌, ◌*◌, min, max, String, Bool, true, false, Option, none, some, List, [], ◌∷◌, map,
  take, drop, select, mem_str, if◌then◌else◌, ltb, str_eq,
}
use exchange_mcp.Store.Rows.{Message, Store, find_row}

-- A fraction.
abbrev pub Score : Type 0
Score = ℕ × ℕ

-- An id of `scores`, with its place in `first_seen`.
pub record Scored : Type 0 where
  pub ident : String
  pub score : Score
  pub first : ℕ

-- score + 1 / d
abbrev pub plus : ℕ → Score → Score
plus d (n, m) = (n * d + m, m * d)

abbrev pub bump : ℕ → Scored → Scored
bump d e = record e { score = plus d e.score }

-- An id that is new has the score 0.
unfoldable pub add_rank : ℕ → ℕ → String → List Scored → List Scored
add_rank k rank i [] = record { ident = i; score = plus (k + rank) (0, 1); first = rank } ∷ []
add_rank k rank i (e ∷ es) =
    let rest = add_rank k rank i es in if str_eq e.ident i then bump (k + rank) e ∷ es else e ∷ rest

-- One ranking, from the rank of its first id.
unfoldable pub add_ranking : ℕ → ℕ → List String → List Scored → List Scored
unfolding add_rank
add_ranking k rank [] es = es
add_ranking k rank (i ∷ ids) es = add_ranking k (suc rank) ids (add_rank k rank i es)

unfoldable pub add_rankings : ℕ → List (List String) → List Scored → List Scored
unfolding add_ranking
add_rankings k [] es = es
add_rankings k (r ∷ rs) es = add_rankings k rs (add_ranking k 1 r es)

abbrev pub above : Score → Score → Bool
above (n, m) (p, q) = ltb (p * m) (n * q)

abbrev pub higher : Scored → Scored → Bool
higher a b = above a.score b.score

abbrev not_above : Ordering → Bool
not_above Ordering.lt = true
not_above Ordering.eq = true
not_above Ordering.gt = false

-- The key (-score, first_seen, id); ids compare by their code points.
abbrev pub before : Scored → Scored → Bool
before a b =
    if higher a b
    then true
    else if higher b a
    then false
    else if ltb a.first b.first
    then true
    else if ltb b.first a.first
    then false
    else not_above (compare a.ident b.ident)

unfoldable pub insert_scored : Scored → List Scored → List Scored
insert_scored e [] = e ∷ []
insert_scored e (f ∷ fs) =
    let rest = insert_scored e fs in if before e f then e ∷ f ∷ fs else f ∷ rest

-- `sorted(scores, key=…)`, with the scores
unfoldable pub ranked : List Scored → List Scored
unfolding insert_scored
ranked [] = []
ranked (e ∷ es) = insert_scored e (ranked es)

unfoldable pub rrf : ℕ → List (List String) → List String
unfolding add_rankings ranked
rrf k rankings = map (λ (e : Scored). e.ident) (ranked (add_rankings k rankings []))

-- What the two halves answer for a limit, the vector half `none` where it raises, and whether a
-- filter other than that for calendar items is set.
pub record Halves : Type 0 where
  pub keyword : ℕ → List String
  pub vector : ℕ → Option (List String)
  pub structured : Bool

abbrev pub fused_ids : List String → Option (List String) → List String
fused_ids kws none = kws
fused_ids kws (some []) = kws
fused_ids kws (some (v ∷ vs)) = rrf 60 (kws ∷ (v ∷ vs) ∷ [])

abbrev pub is_degraded : Option (List String) → Bool
is_degraded none = true
is_degraded (some vs) = false

abbrev pub cons_found : Option Message → List Message → List Message
cons_found none ms = ms
cons_found (some m) ms = m ∷ ms

-- `[by_id[i] for i in window if i in by_id]`
abbrev pub found_rows : List String → Store → List Message
found_rows [] s = []
found_rows (i ∷ ids) s = cons_found (find_row i s.messages) (found_rows ids s)

abbrev pub depth : ℕ → ℕ → ℕ
depth limit offset = min 100 (max (limit + offset) 1 * 5)

unfoldable pub window : Halves → ℕ → ℕ → List String
unfolding rrf
window h limit offset =
    let kws = h.keyword (depth limit offset) in
    let ids = fused_ids kws (h.vector (depth limit offset)) in
    take limit (drop offset (if h.structured then select (λ i. mem_str i kws) ids else ids))

unfoldable pub hybrid_search : Halves → ℕ → ℕ → Store → List Message × Bool
unfolding window
hybrid_search h limit offset s =
    (found_rows (window h limit offset) s, is_degraded (h.vector (depth limit offset)))
