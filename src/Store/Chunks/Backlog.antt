-- ===== src/Store/Chunks/Backlog.antt =====
-- The embedding backlog of ewsmcp/cache/store.py and the chunks of its messages.
use mathlib.Core.Bool.{false≢true}
use exchange_mcp.Prelude.{
  ℕ, suc, ◌+◌, String, ◌≡◌, refl, sym, ◌∙◌, ap, Bool, true, false, not, ◌&&◌, ◌||◌, Option, none,
  some, List, [], ◌∷◌, ◌⊎◌, inl, inr, if◌then◌else◌, str_eq, str_eq_refl, str_eq-eq, mem_str,
  is_some, All, All-map, All-select, All-select_self, arith, count, length,
}
use exchange_mcp.Prelude.Int.{ℤ}
use exchange_mcp.Store.Rows.{Message, Chunk, Store, has_id, update_where, delete_where}
use exchange_mcp.Store.Chunks.{
  Repair, repair_row, restamp, requeues, repair_rows, update_bodies, unembedded, embedding_backlog,
  embedded_count,
}
use exchange_mcp.Store.Chunks.Clean.{CleanRow, IsClean}

-- In the middle of `update_bodies`: a row without a stamp may also be on the list to requeue.
abbrev PendingRow : List Chunk → List String → Message → Type 0
PendingRow chunks pending m = CleanRow chunks m ⊎ (mem_str m.ews_id pending ≡ true)

mem-head :
    (i : String) (b : Bool) (m : Message) (pending : List String)
    → has_id i m ≡ b
    → b ≡ true
    → mem_str m.ews_id (i ∷ pending) ≡ true
mem-head i b m pending e k =
    ap (λ (c : Bool). c || mem_str m.ews_id pending)
      (ap (λ (j : String). str_eq i j) (str_eq-eq m.ews_id i (e ∙ k)) ∙ str_eq_refl i)

mem-later :
    (i x : String) (pending : List String)
    → mem_str x pending ≡ true
    → mem_str x (i ∷ pending) ≡ true
mem-later i x pending h = or_true (str_eq i x) (mem_str x pending) h
  where
    or_true : (a b : Bool) → b ≡ true → (a || b) ≡ true
    or_true a b e = ground arith

PendingRow-later :
    (chunks : List Chunk) (i : String) (pending : List String) (m : Message)
    → PendingRow chunks pending m
    → PendingRow chunks (i ∷ pending) m
PendingRow-later chunks i pending m (inl k) = inl k
PendingRow-later chunks i pending m (inr k) = inr (mem-later i m.ews_id pending k)

-- A repair that requeues: the rows that it touches are the id's own.
requeued-Pending :
    (r : Repair) (chunks : List Chunk) (pending : List String) (ms : List Message)
    → All (PendingRow chunks pending) ms
    → All
        (PendingRow chunks (r.ews_id ∷ pending))
        (update_where (has_id r.ews_id) (repair_row r) ms)
requeued-Pending r chunks pending [] h = tt
requeued-Pending r chunks pending (m ∷ ms) h =
    (one (has_id r.ews_id m) refl, requeued-Pending r chunks pending ms h.1)
  where
    one :
        (b : Bool)
        → has_id r.ews_id m ≡ b
        → PendingRow chunks (r.ews_id ∷ pending) (if b then repair_row r m else m)
    one true e = inr (mem-head r.ews_id true m pending e refl)
    one false e = PendingRow-later chunks r.ews_id pending m h.0

-- A row that is not requeued keeps its stamp, or has one.
restamped :
    (body : Option String) (old : String) (stamp : Option ℤ)
    → (is_some body && not (is_some (restamp body old stamp))) ≡ false
    → (restamp body old stamp ≡ stamp) ⊎ (is_some (restamp body old stamp) ≡ true)
restamped none old stamp h = inl refl
restamped (some body) old stamp h = inr (not_false (is_some (restamp (some body) old stamp)) h)
  where
    not_false : (b : Bool) → not b ≡ false → b ≡ true
    not_false b e = ground arith

repair_row-Pending :
    (r : Repair) (chunks : List Chunk) (pending : List String) (m : Message)
    → (is_some r.body && unembedded (repair_row r m)) ≡ false
    → PendingRow chunks pending m
    → PendingRow chunks pending (repair_row r m)
repair_row-Pending r chunks pending m e (inr k) = inr k
repair_row-Pending r chunks pending m e (inl (inr k)) = inl (inr k)
repair_row-Pending r chunks pending m e (inl (inl k)) =
    elim (restamped r.body m.body_clean m.embedded_at e) [
      | inl same ↦ inl (inl (ap (λ (o : Option ℤ). is_some o) same ∙ k))
      | inr stamped ↦ inl (inl stamped)
    ]

kept-Pending :
    (r : Repair) (chunks : List Chunk) (pending : List String) (ms : List Message)
    → requeues r ms ≡ false
    → All (PendingRow chunks pending) ms
    → All (PendingRow chunks pending) (update_where (has_id r.ews_id) (repair_row r) ms)
unfolding requeues
kept-Pending r chunks pending [] e h = tt
kept-Pending r chunks pending (m ∷ ms) e h =
    (one (has_id r.ews_id m) e, kept-Pending r chunks pending ms (second _ (requeues r ms) e) h.1)
  where
    second : (a b : Bool) → (a || b) ≡ false → b ≡ false
    second a b k = ground arith

    flagged : (c d : Bool) → ((true && c) || d) ≡ false → c ≡ false
    flagged c d k = ground arith

    one :
        (b : Bool)
        → ((b && (is_some r.body && unembedded (repair_row r m))) || requeues r ms) ≡ false
        → PendingRow chunks pending (if b then repair_row r m else m)
    one true k = repair_row-Pending r chunks pending m (flagged _ (requeues r ms) k) h.0
    one false k = h.0

step-Pending :
    (r : Repair) (chunks : List Chunk) (pending : List String) (ms : List Message) (b : Bool)
    → requeues r ms ≡ b
    → All (PendingRow chunks pending) ms
    → All
        (PendingRow chunks (if b then r.ews_id ∷ pending else pending))
        (update_where (has_id r.ews_id) (repair_row r) ms)
step-Pending r chunks pending ms true e h = requeued-Pending r chunks pending ms h
step-Pending r chunks pending ms false e h = kept-Pending r chunks pending ms e h

-- A row that is on one of two lists.
abbrev EitherRow : List Chunk → List String → List String → Message → Type 0
EitherRow chunks pending more m = PendingRow chunks pending m ⊎ (mem_str m.ews_id more ≡ true)

EitherRow-if :
    (chunks : List Chunk) (i : String) (pending more : List String) (b : Bool) (m : Message)
    → EitherRow chunks (if b then i ∷ pending else pending) more m
    → EitherRow chunks pending (if b then i ∷ more else more) m
EitherRow-if chunks i pending more false m h = h
EitherRow-if chunks i pending more true m (inr k) = inr (mem-later i m.ews_id more k)
EitherRow-if chunks i pending more true m (inl (inl k)) = inl (inl k)
EitherRow-if chunks i pending more true m (inl (inr k)) = split (str_eq i m.ews_id) k
  where
    split :
        (c : Bool)
        → (c || mem_str m.ews_id pending) ≡ true
        → PendingRow chunks pending m ⊎ ((c || mem_str m.ews_id more) ≡ true)
    split true e = inr refl
    split false e = inl (inr e)

repair_rows-Either :
    (rs : List Repair) (pending : List String) (s : Store)
    → All (PendingRow s.chunks pending) s.messages
    → All (EitherRow s.chunks pending (repair_rows rs s).requeued) (repair_rows rs s).store.messages
      × ((repair_rows rs s).store.chunks ≡ s.chunks)
unfolding repair_rows
repair_rows-Either [] pending s h = (All-map _ _ (λ m k. inl k) s.messages h, refl)
repair_rows-Either (r ∷ rs) pending s h =
    let t : Store = record s {
      messages = update_where (has_id r.ews_id) (repair_row r) s.messages;
    } in
    let b = requeues r s.messages in
    let rest =
      repair_rows-Either rs (if b then r.ews_id ∷ pending else pending) t
        (step-Pending r s.chunks pending s.messages b refl h) in
    (
      All-map _ _ (λ m k. EitherRow-if s.chunks r.ews_id pending (repair_rows rs t).requeued b m k)
          (repair_rows rs t).store.messages rest.0,
      rest.1,
    )

-- Dropping the chunks of the rows on the list leaves none of theirs.
dropped-Clean :
    (requeued : List String) (chunks : List Chunk) (m : Message)
    → EitherRow chunks [] requeued m
    → CleanRow (delete_where (λ c. mem_str c.message_ews_id requeued) chunks) m
dropped-Clean requeued chunks m (inl (inl (inl k))) = inl k
dropped-Clean requeued chunks m (inl (inl (inr k))) =
    inr (All-select _ (λ c. not (mem_str c.message_ews_id requeued)) chunks k)
dropped-Clean requeued chunks m (inl (inr k)) = absurd (false≢true k)
dropped-Clean requeued chunks m (inr k) = inr (
    All-map _ _ (λ c e. other c (str_eq c.message_ews_id m.ews_id) refl e) _
      (All-select_self (λ (c : Chunk). not (mem_str c.message_ews_id requeued)) chunks))
  where
    other :
        (c : Chunk) (b : Bool)
        → str_eq c.message_ews_id m.ews_id ≡ b
        → not (mem_str c.message_ews_id requeued) ≡ true
        → b ≡ false
    other c true e h = absurd (
        false≢true (
          sym (
            ap (λ (j : String). not (mem_str j requeued)) (str_eq-eq c.message_ews_id m.ews_id e)
            ∙ ap not k)
          ∙ h))
    other c false e h = refl

-- If no message on the embedding backlog has chunks, none has after `update_bodies`: a row whose
-- text changed loses its stamp and its chunks together.
pub update_bodies-IsClean :
    (repairs : List Repair) (s : Store) → IsClean s → IsClean (update_bodies repairs s).0
unfolding update_bodies
update_bodies-IsClean repairs s h =
    let p = repair_rows repairs s in
    let (rows, same) = repair_rows-Either repairs [] s (All-map _ _ (λ m k. inl k) s.messages h) in
    All-map _ _ (λ m k. rw same (dropped-Clean p.requeued s.chunks m k)) p.store.messages rows

-- Every message is either on the backlog or counted as embedded.
pub backlog-embedded : (s : Store) → embedding_backlog s + embedded_count s ≡ length s.messages
unfolding embedding_backlog embedded_count
backlog-embedded s = go s.messages
  where
    one :
        (b : Bool) (x y n : ℕ)
        → x + y ≡ n
        → (if not b then suc x else x) + (if b then suc y else y) ≡ suc n
    one true x y n e = omega (arith, e)
    one false x y n e = omega (arith, e)

    go :
        (ms : List Message)
        → count unembedded ms + count (λ m. is_some m.embedded_at) ms ≡ length ms
    go [] = refl
    go (m ∷ ms) = one (is_some m.embedded_at) _ _ (length ms) (go ms)
