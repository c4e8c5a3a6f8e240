-- ===== src/Search/Fusion/Page.antt =====
-- What a page of the hybrid search of ewsmcp/semantic.py holds.
use mathlib.Core.Path.{subst}
use exchange_mcp.Prelude.{
  map, ◌≢◌, if_false, ℕ, suc, ◌≤◌, String, ◌≡◌, refl, sym, ◌∙◌, ap, Bool, true, false, not, ◌&&◌,
  ◌||◌, Option, none, some, List, [], ◌∷◌, length, length-take, take, drop, select, mem_str,
  if◌then◌else◌, if_true, str_eq_refl, str_eq-eq, All, All-map, All-take, All-drop, All-select_self,
  arith, or_left, or_right, or_false, is_some,
}
use exchange_mcp.Store.Rows.{Message, Store, find_row, has_id}
use exchange_mcp.Search.Fusion.{
  Halves, rrf, fused_ids, is_degraded, cons_found, found_rows, depth, window, hybrid_search,
}
use exchange_mcp.Search.Fusion.Order.{mem-rrf}

abbrev pub in_vector : String → Option (List String) → Bool
in_vector i none = false
in_vector i (some vs) = mem_str i vs

-- A keyword hit or, where no filter is set, a hit of the vector half.
abbrev pub is_hit : Halves → ℕ → String → Bool
is_hit h d i = mem_str i (h.keyword d) || (not h.structured && in_vector i (h.vector d))

abbrev pub ids_in : List Message → List String
ids_in ms = map (λ (m : Message). m.ews_id) ms

-- The hits of the vector half, none if it raises.
abbrev pub list_of : Option (List String) → List String
list_of none = []
list_of (some vs) = vs

-- The ids of the list are in it.
mem_self : (ids : List String) → All (λ i. mem_str i ids ≡ true) ids
mem_self [] = tt
mem_self (i ∷ ids) = (
  or_left _ (mem_str i ids) (str_eq_refl i),
  All-map _ _ (λ j e. or_right _ (mem_str j ids) e) ids (mem_self ids),
)

fused-hits :
    (kws : List String) (o : Option (List String))
    → All (λ i. (mem_str i kws || in_vector i o) ≡ true) (fused_ids kws o)
fused-hits kws none = All-map _ _ (λ i e. or_left _ false e) kws (mem_self kws)
fused-hits kws (some []) = All-map _ _ (λ i e. or_left _ false e) kws (mem_self kws)
fused-hits kws (some (v ∷ vs)) =
    All-map _ _
      (λ i e.
        ap (λ c. mem_str i kws || c) (sym (or_false (mem_str i (v ∷ vs))))
        ∙ sym (mem-rrf 60 (kws ∷ (v ∷ vs) ∷ []) i)
        ∙ e)
      (rrf 60 (kws ∷ (v ∷ vs) ∷ [])) (mem_self (rrf 60 (kws ∷ (v ∷ vs) ∷ [])))

filtered-hits :
    (b : Bool) (kws ids : List String) (o : Option (List String))
    → All (λ i. (mem_str i kws || in_vector i o) ≡ true) ids
    → All
        (λ i. (mem_str i kws || (not b && in_vector i o)) ≡ true)
        (if b then select (λ i. mem_str i kws) ids else ids)
filtered-hits true kws ids o h =
    All-map _ _ (λ i e. or_left _ false e) _ (All-select_self (λ i. mem_str i kws) ids)
filtered-hits false kws ids o h = h

select_self :
    (kws ids : List String)
    → All (λ i. mem_str i kws ≡ true) ids
    → select (λ i. mem_str i kws) ids ≡ ids
select_self kws [] h = refl
select_self kws (i ∷ ids) h =
    if_true (mem_str i kws) _ _ h.0 ∙ ap (λ js. i ∷ js) (select_self kws ids h.1)

module _ (P : String → Type 0) where
  abbrev Found : Option Message → Type 0
  Found none = Unit
  Found (some m) = P m.ews_id

  find_row-Found : (i : String) (ms : List Message) → P i → Found (find_row i ms)
  find_row-Found i [] h = tt
  find_row-Found i (m ∷ ms) h = go (has_id i m) refl (find_row i ms) (find_row-Found i ms h)
    where
      go :
          (b : Bool)
          → has_id i m ≡ b
          → (o : Option Message) → Found o
          → Found (if b then some m else o)
      go true e o k = subst P (sym (str_eq-eq m.ews_id i e)) h
      go false e o k = k

  -- The rows are among the ids, and no more than they are.
  found_rows-All :
      (ids : List String) (s : Store)
      → All P ids
      → All (λ m. P m.ews_id) (found_rows ids s) × (length (found_rows ids s) ≤ length ids)
  found_rows-All [] s h = (tt, omega arith)
  found_rows-All (i ∷ ids) s h =
      go (find_row i s.messages) (find_row-Found i s.messages h.0) (found_rows-All ids s h.1)
    where
      go :
          (o : Option Message)
          → Found o
          → All (λ m. P m.ews_id) (found_rows ids s) × (length (found_rows ids s) ≤ length ids)
          → All (λ m. P m.ews_id) (cons_found o (found_rows ids s))
            × (length (cons_found o (found_rows ids s)) ≤ suc (length ids))
      go none k r = (r.0, omega (arith, r.1))
      go (some m) k r = ((k, r.0), omega (arith, r.1))

-- The mail is in the store.
abbrev pub is_stored : Store → String → Bool
is_stored s i = mem_str i (ids_in s.messages)

-- The ids of a page, cut out of a ranking.
abbrev pub paged : ℕ → ℕ → Store → List String → List String
paged limit offset s ids = select (is_stored s) (take limit (drop offset ids))

found-ids :
    (i : String) (ms rest : List Message)
    → ids_in (cons_found (find_row i ms) rest)
      ≡ (if mem_str i (ids_in ms) then i ∷ ids_in rest else ids_in rest)
found-ids i [] rest = refl
found-ids i (m ∷ ms) rest = go (has_id i m) refl (found-ids i ms rest)
  where
    go :
        (b : Bool)
        → has_id i m ≡ b
        → ids_in (cons_found (find_row i ms) rest)
          ≡ (if mem_str i (ids_in ms) then i ∷ ids_in rest else ids_in rest)
        → ids_in (cons_found (if b then some m else find_row i ms) rest)
          ≡ (if b || mem_str i (ids_in ms) then i ∷ ids_in rest else ids_in rest)
    go true e h = ap (λ (j : String). j ∷ ids_in rest) (str_eq-eq m.ews_id i e)
    go false e h = h

-- The rows are those of the ids that are stored, in their order.
found_rows-ids :
    (ids : List String) (s : Store) → ids_in (found_rows ids s) ≡ select (is_stored s) ids
found_rows-ids [] s = refl
found_rows-ids (i ∷ ids) s =
    found-ids i s.messages (found_rows ids s)
    ∙ ap (λ js. if is_stored s i then i ∷ js else js) (found_rows-ids ids s)

-- A page has at most `limit` rows, each a keyword hit or, if no filter is set, a hit of the vector
-- half; it is called degraded exactly if that half raises. Its mails are all those in the store that
-- a window of `limit` behind `offset` has, in their order: a window of the keyword hits if the
-- vector half raises or has no hit, else of the fused ranking or, if a filter is set, of the
-- keyword hits in it.
pub hybrid_search-Hits :
    (h : Halves) (limit offset : ℕ) (s : Store)
    → let r = hybrid_search h limit offset s in
      let kws = h.keyword (depth limit offset) in
      let vs = list_of (h.vector (depth limit offset)) in
      All (λ m. is_hit h (depth limit offset) m.ews_id ≡ true) r.0
      × (length r.0 ≤ limit)
      × (r.1 ≡ not (is_some (h.vector (depth limit offset))))
      × (vs ≡ [] → ids_in r.0 ≡ paged limit offset s kws)
      × (vs ≢ []
          → h.structured ≡ false
          → ids_in r.0 ≡ paged limit offset s (rrf 60 (kws ∷ vs ∷ [])))
      × (vs ≢ []
          → h.structured ≡ true
          → ids_in r.0
            ≡ paged limit offset s (select (λ i. mem_str i kws) (rrf 60 (kws ∷ vs ∷ []))))
unfolding hybrid_search window
hybrid_search-Hits h limit offset s =
    let d = depth limit offset in
    let kws = h.keyword d in
    let ids = fused_ids kws (h.vector d) in
    let kept = filtered-hits h.structured kws ids (h.vector d) (fused-hits kws (h.vector d)) in
    let r =
      found_rows-All (λ i. is_hit h d i ≡ true) (window h limit offset) s
        (All-take _ limit _ (All-drop _ offset _ kept)) in
    (
      r.0,
      omega (arith, r.1, length-take limit (drop offset (filtered kws ids))),
      flag (h.vector d),
      λ e. page kws (plain (h.vector d) kws e),
      λ e f. page kws (if_false h.structured _ _ f ∙ both (h.vector d) kws e),
      λ e f.
          page kws (
            if_true h.structured _ _ f
            ∙ ap (select (λ i. mem_str i kws)) (both (h.vector d) kws e)),
    )
  where
    filtered : List String → List String → List String
    filtered kws ids = if h.structured then select (λ i. mem_str i kws) ids else ids

    page :
        {js : List String} (kws : List String)
        → filtered kws (fused_ids kws (h.vector (depth limit offset))) ≡ js
        → ids_in (
            found_rows
              (take limit
                (drop offset (filtered kws (fused_ids kws (h.vector (depth limit offset))))))
              s)
          ≡ paged limit offset s js
    page kws e = found_rows-ids _ s ∙ ap (paged limit offset s) e

    both :
        (o : Option (List String)) (kws : List String)
        → list_of o ≢ []
        → fused_ids kws o ≡ rrf 60 (kws ∷ list_of o ∷ [])
    both none kws n = absurd (n refl)
    both (some []) kws n = absurd (n refl)
    both (some (v ∷ vs)) kws n = refl

    flag : (o : Option (List String)) → is_degraded o ≡ not (is_some o)
    flag none = refl
    flag (some vs) = refl

    unfiltered :
        (b : Bool) (kws : List String) → (if b then select (λ i. mem_str i kws) kws else kws) ≡ kws
    unfiltered true kws = select_self kws kws (mem_self kws)
    unfiltered false kws = refl

    plain :
        (o : Option (List String)) (kws : List String)
        → list_of o ≡ []
        → filtered kws (fused_ids kws o) ≡ kws
    plain none kws e = unfiltered h.structured kws
    plain (some []) kws e = unfiltered h.structured kws
    plain (some (v ∷ vs)) kws e = cc
