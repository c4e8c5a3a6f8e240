-- ===== src/Store/Chunks/Repaired.antt =====
-- What `update_bodies` of ewsmcp/cache/store.py does to a row whose text changes.
use mathlib.Core.Bool.{true≢false}
use exchange_mcp.Prelude.{
  String, ◌≡◌, refl, sym, ◌∙◌, ap, Bool, true, false, not, ◌&&◌, Option, none, some, List, [], ◌∷◌,
  ◌⊎◌, inl, inr, if◌then◌else◌, str_eq, str_eq-eq, str_eq_refl, mem_str, is_some, All, All-map,
  All-select_self, or_left, or_right, arith,
}
use exchange_mcp.Prelude.Int.{ℤ}
use exchange_mcp.Store.Rows.{Message, Chunk, Store, has_id, update_where, delete_where}
use exchange_mcp.Store.Chunks.{
  of_message, Repair, repair_row, restamp, coalesce_text, requeues, repair_rows, update_bodies,
  unembedded,
}
use exchange_mcp.Store.Chunks.Clean.{Without, IsClean}
use exchange_mcp.Store.Chunks.Backlog.{update_bodies-IsClean}

-- Two lists of the same length, row by row.
abbrev pub Rowwise : (Message → Message → Type 0) → List Message → List Message → Type 0
Rowwise R [] [] = Unit
Rowwise R [] (n ∷ ns) = ⊥
Rowwise R (m ∷ ms) [] = ⊥
Rowwise R (m ∷ ms) (n ∷ ns) = R m n × Rowwise R ms ns

-- A row whose text changed has no stamp, and is on the list.
abbrev Queued : List String → Message → Message → Type 0
Queued ids m n =
    (n.ews_id ≡ m.ews_id)
    × (is_some m.embedded_at ≡ false → is_some n.embedded_at ≡ false)
    × ((n.body_clean ≡ m.body_clean)
        ⊎ ((is_some n.embedded_at ≡ false) × (mem_str m.ews_id ids ≡ true)))

restamp-none :
    (b : Option String) (old : String) (stamp : Option ℤ)
    → is_some stamp ≡ false
    → is_some (restamp b old stamp) ≡ false
restamp-none none old stamp h = h
restamp-none (some b) old stamp h = go (str_eq old b)
  where
    go : (c : Bool) → is_some (if c then stamp else none) ≡ false
    go true = h
    go false = refl

-- One repair keeps the text, or takes the stamp away and asks for the row.
repair_row-Queued :
    (r : Repair) (m : Message)
    → ((repair_row r m).body_clean ≡ m.body_clean)
      ⊎ ((is_some (repair_row r m).embedded_at ≡ false)
          × ((is_some r.body && unembedded (repair_row r m)) ≡ true))
repair_row-Queued r m = go r.body
  where
    go :
        (b : Option String)
        → (coalesce_text b m.body_clean ≡ m.body_clean)
          ⊎ ((is_some (restamp b m.body_clean m.embedded_at) ≡ false)
              × ((is_some b && not (is_some (restamp b m.body_clean m.embedded_at))) ≡ true))
    go none = inl refl
    go (some b) = test (str_eq m.body_clean b) refl
      where
        test :
            (c : Bool)
            → str_eq m.body_clean b ≡ c
            → (b ≡ m.body_clean)
              ⊎ ((is_some (if c then m.embedded_at else none) ≡ false)
                  × (not (is_some (if c then m.embedded_at else none)) ≡ true))
        test true e = inl (sym (str_eq-eq m.body_clean b e))
        test false e = inr (refl, refl)

-- The rows that a repair asks for are returned by its statement.
abbrev Asked : Repair → Bool → Message → Type 0
Asked r q m =
    has_id r.ews_id m ≡ true → (is_some r.body && unembedded (repair_row r m)) ≡ true → q ≡ true

requeues-Asked : (r : Repair) (ms : List Message) → All (Asked r (requeues r ms)) ms
unfolding requeues
requeues-Asked r [] = tt
requeues-Asked r (m ∷ ms) = (
  (λ e f. or_left _ (requeues r ms) (both _ _ e f)),
  All-map _ _ (λ n h e f. or_right _ (requeues r ms) (h e f)) ms (requeues-Asked r ms),
)
  where
    both : (a b : Bool) → a ≡ true → b ≡ true → (a && b) ≡ true
    both a b x y = ground arith

abbrev noted : Bool → String → List String → List String
noted q i ids = if q then i ∷ ids else ids

mem-noted :
    (q : Bool) (i x : String) (ids : List String)
    → mem_str x ids ≡ true
    → mem_str x (noted q i ids) ≡ true
mem-noted true i x ids h = or_right (str_eq i x) (mem_str x ids) h
mem-noted false i x ids h = h

mem-own :
    (q : Bool) (m : Message) (i : String) (ids : List String)
    → has_id i m ≡ true
    → q ≡ true
    → mem_str m.ews_id (noted q i ids) ≡ true
mem-own true m i ids e h =
    or_left (str_eq i m.ews_id) (mem_str m.ews_id ids)
      (ap (λ (j : String). str_eq i j) (str_eq-eq m.ews_id i e) ∙ str_eq_refl i)
mem-own false m i ids e h = absurd (true≢false (sym h))

step-Queued :
    (r : Repair) (q : Bool) (ids : List String) (m n : Message)
    → Asked r q m
    → Queued ids (if has_id r.ews_id m then repair_row r m else m) n
    → Queued (noted q r.ews_id ids) m n
step-Queued r q ids m n asked = go (has_id r.ews_id m) refl
  where
    later :
        (m1 : Message)
        → m1.ews_id ≡ m.ews_id
        → (is_some m.embedded_at ≡ false → is_some m1.embedded_at ≡ false)
        → (m1.body_clean ≡ m.body_clean)
          ⊎ ((is_some m1.embedded_at ≡ false) × (mem_str m.ews_id (noted q r.ews_id ids) ≡ true))
        → Queued ids m1 n
        → Queued (noted q r.ews_id ids) m n
    later m1 i keep (inr c) k = (k.0 ∙ i, (λ h. k.1 (keep h)), inr (k.1 c.0, c.1))
    later m1 i keep (inl same) (own, kept, inl e) = (own ∙ i, (λ h. kept (keep h)), inl (e ∙ same))
    later m1 i keep (inl same) (own, kept, inr d) = (
      own ∙ i,
      (λ h. kept (keep h)),
      inr (
        d.0,
        mem-noted q r.ews_id m.ews_id ids (ap (λ (j : String). mem_str j ids) (sym i) ∙ d.1),
      ),
    )

    go :
        (b : Bool)
        → has_id r.ews_id m ≡ b
        → Queued ids (if b then repair_row r m else m) n
        → Queued (noted q r.ews_id ids) m n
    go false e k = later m refl (λ h. h) (inl refl) k
    go true e k =
        later (repair_row r m) refl (restamp-none r.body m.body_clean m.embedded_at)
          (elim (repair_row-Queued r m) [
            | inl h ↦ inl h
            | inr h ↦ inr (h.0, mem-own q m r.ews_id ids e (asked e h.1))
          ])
          k

rows-Queued :
    (r : Repair) (q : Bool) (ids : List String) (ms ns : List Message)
    → All (Asked r q) ms
    → Rowwise (Queued ids) (update_where (has_id r.ews_id) (repair_row r) ms) ns
    → Rowwise (Queued (noted q r.ews_id ids)) ms ns
rows-Queued r q ids [] [] a h = tt
rows-Queued r q ids [] (n ∷ ns) a h = h
rows-Queued r q ids (m ∷ ms) [] a h = h
rows-Queued r q ids (m ∷ ms) (n ∷ ns) a h =
    (step-Queued r q ids m n a.0 h.0, rows-Queued r q ids ms ns a.1 h.1)

Queued-same : (ms : List Message) → Rowwise (Queued []) ms ms
Queued-same [] = tt
Queued-same (m ∷ ms) = ((refl, (λ h. h), inl refl), Queued-same ms)

repair_rows-Queued :
    (rs : List Repair) (s : Store)
    → Rowwise (Queued (repair_rows rs s).requeued) s.messages (repair_rows rs s).store.messages
unfolding repair_rows
repair_rows-Queued [] s = Queued-same s.messages
repair_rows-Queued (r ∷ rs) s =
    let s1 : Store = record s {
      messages = update_where (has_id r.ews_id) (repair_row r) s.messages;
    } in
    rows-Queued r (requeues r s.messages) (repair_rows rs s1).requeued s.messages
      (repair_rows rs s1).store.messages (requeues-Asked r s.messages) (repair_rows-Queued rs s1)

-- A row keeps its id, and if its text changed it has neither a stamp nor a chunk.
abbrev pub Requeued : List Chunk → Message → Message → Type 0
Requeued chunks m n =
    (n.ews_id ≡ m.ews_id)
    × ((n.body_clean ≡ m.body_clean) ⊎ ((is_some n.embedded_at ≡ false) × Without m.ews_id chunks))

cleared :
    (i : String) (ids : List String) (chunks : List Chunk)
    → mem_str i ids ≡ true
    → Without i (delete_where (λ c. mem_str c.message_ews_id ids) chunks)
cleared i ids chunks h =
    All-map _ _ (λ c e. other c e (of_message i c) refl) _
      (All-select_self (λ c. not (mem_str c.message_ews_id ids)) chunks)
  where
    other :
        (c : Chunk)
        → not (mem_str c.message_ews_id ids) ≡ true
        → (b : Bool) → of_message i c ≡ b
        → b ≡ false
    other c e true f = absurd (
        true≢false (
          sym e
          ∙ ap (λ (j : String). not (mem_str j ids)) (str_eq-eq c.message_ews_id i f)
          ∙ ap not h))
    other c e false f = refl

Queued-Requeued :
    (ids : List String) (chunks : List Chunk) (ms ns : List Message)
    → Rowwise (Queued ids) ms ns
    → Rowwise (Requeued (delete_where (λ c. mem_str c.message_ews_id ids) chunks)) ms ns
Queued-Requeued ids chunks [] [] h = tt
Queued-Requeued ids chunks [] (n ∷ ns) h = h
Queued-Requeued ids chunks (m ∷ ms) [] h = h
Queued-Requeued ids chunks (m ∷ ms) (n ∷ ns) h = (go h.0, Queued-Requeued ids chunks ms ns h.1)
  where
    go : Queued ids m n → Requeued (delete_where (λ c. mem_str c.message_ews_id ids) chunks) m n
    go (own, kept, inl e) = (own, inl e)
    go (own, kept, inr d) = (own, inr (d.0, cleared m.ews_id ids chunks d.1))

-- If no message on the embedding backlog has chunks, none has after `update_bodies`. It keeps the
-- rows and their ids, and a row whose text changed has lost its stamp and its chunks.
pub update_bodies-Requeued :
    (repairs : List Repair) (s : Store)
    → IsClean s
    → let t = (update_bodies repairs s).0 in
      IsClean t × Rowwise (Requeued t.chunks) s.messages t.messages
unfolding update_bodies
update_bodies-Requeued repairs s h =
    let p = repair_rows repairs s in
    (
      update_bodies-IsClean repairs s h,
      Queued-Requeued p.requeued p.store.chunks s.messages p.store.messages
          (repair_rows-Queued repairs s),
    )
