-- ===== src/Bridge/Arrival/Order.antt =====
-- The order of the sweeps and pages of ewsmcp/bridge/arrival.py.
use mathlib.Core.Bool.{false≢true}
use exchange_mcp.Prelude.{
  ap, not, option_str_eq, str_eq-eq, ℕ, suc, ◌≤◌, ◌<◌, String, ◌≡◌, refl, Bool, true, false, ◌⊎◌,
  inl, inr, Option, none, some, List, [], ◌∷◌, if◌then◌else◌, str_eq, str_eq_refl, All, All-map,
  All-if, All-take, All-select_self, length, length-take, select, take, leb, arith, zero,
}
use exchange_mcp.Prelude.Int.{ℤ}
use exchange_mcp.Store.Rows.{Message}
use exchange_mcp.Bridge.Arrival.{
  Arrival, Ledger, or_id, of_id, find_arrival, moved, pending, upsert_arrival, arrive, sweep,
  insert_seq, by_seq, served, page,
}

-- What a sweep at `now` may make of the ledger whose next value was `start`: an arrival is an old
-- one, or has a new sequence together with a new time.
abbrev pub Moved : ℕ → ℤ → Arrival → Type 0
Moved start now a = (a.seq < start) ⊎ ((start ≤ a.seq) × (a.first_seen ≡ now))

-- The message `i` has a sequence behind `start`.
abbrev pub Fresh : ℕ → String → List Arrival → Type 0
Fresh start i arrivals = (a : Arrival) × (find_arrival i arrivals ≡ some a) × (start ≤ a.seq)

module _ (start : ℕ) (now : ℤ) where
  upsert-Moved :
      (seq : ℕ)
      → start ≤ seq
      → (m : Message) (arrivals : List Arrival) → All (Moved start now) arrivals
      → All (Moved start now) (upsert_arrival now seq m arrivals)
  unfolding upsert_arrival
  upsert-Moved seq h m [] k = (inr (h, refl), tt)
  upsert-Moved seq h m (a ∷ rest) k =
      All-if _ (of_id m.ews_id a) _ _ (inr (h, refl), k.1) (k.0, upsert-Moved seq h m rest k.1)

  upsert-Below :
      (seq : ℕ) (m : Message) (arrivals : List Arrival)
      → All (λ a. a.seq < seq) arrivals
      → All (λ a. a.seq < suc seq) (upsert_arrival now seq m arrivals)
  unfolding upsert_arrival
  upsert-Below seq m [] k = (omega arith, tt)
  upsert-Below seq m (a ∷ rest) k =
      All-if _ (of_id m.ews_id a) _ _ (omega arith, All-map _ _ (λ b h. omega (arith, h)) rest k.1)
        (omega (arith, k.0), upsert-Below seq m rest k.1)

  upsert-Fresh :
      (seq : ℕ)
      → start ≤ seq
      → (m : Message) (arrivals : List Arrival)
      → Fresh start m.ews_id (upsert_arrival now seq m arrivals)
  unfolding upsert_arrival
  upsert-Fresh seq h m [] = first (str_eq m.ews_id m.ews_id) (str_eq_refl m.ews_id)
    where
      new : Arrival
      new = record {
        ews_id = m.ews_id;
        seq = seq;
        changekey = m.changekey;
        first_seen = now;
        first_arrival = now;
        chat_id = some (or_id m.conversation_id m.ews_id);
      }

      first :
          (b : Bool)
          → b ≡ true
          → (a : Arrival) × ((if b then some new else none) ≡ some a) × (start ≤ a.seq)
      first true e = (new, refl, h)
      first false e = absurd (false≢true e)
  upsert-Fresh seq h m (a ∷ rest) = go (of_id m.ews_id a) refl (upsert-Fresh seq h m rest)
    where
      after : Arrival
      after = record a { seq = seq; changekey = m.changekey; first_seen = now }

      go :
          (b : Bool)
          → of_id m.ews_id a ≡ b
          → Fresh start m.ews_id (upsert_arrival now seq m rest)
          → Fresh start m.ews_id (if b then after ∷ rest else a ∷ upsert_arrival now seq m rest)
      go true e k = (after, rw e refl, h)
      go false e k = (k.0, rw e k.1, k.2)

  -- Another message's arrival does not take the sequence away.
  upsert-keeps :
      (seq : ℕ)
      → start ≤ seq
      → (m : Message) (i : String) (arrivals : List Arrival) → Fresh start i arrivals
      → Fresh start i (upsert_arrival now seq m arrivals)
  unfolding upsert_arrival
  upsert-keeps seq h m i [] k = cc
  upsert-keeps seq h m i (a ∷ rest) (x, found, le) =
      go (of_id m.ews_id a) (of_id i a) refl found (λ e. upsert-keeps seq h m i rest (x, e, le))
    where
      after : Arrival
      after = record a { seq = seq; changekey = m.changekey; first_seen = now }

      go :
          (b c : Bool)
          → of_id i a ≡ c
          → (if c then some a else find_arrival i rest) ≡ some x
          → (find_arrival i rest ≡ some x → Fresh start i (upsert_arrival now seq m rest))
          → Fresh start i (if b then after ∷ rest else a ∷ upsert_arrival now seq m rest)
      go true true e f ih = (after, rw e refl, h)
      go true false e f ih = (x, rw e f, le)
      go false true e f ih = (x, rw e f, le)
      go false false e f ih = let k = ih f in (k.0, rw e k.1, k.2)

  arrive-Moved :
      (ms : List Message) (l : Ledger)
      → start ≤ l.next_seq
      → All (Moved start now) l.arrivals
      → All (Moved start now) (arrive now ms l).arrivals
  unfolding arrive
  arrive-Moved [] l h k = k
  arrive-Moved (m ∷ ms) l h k =
      arrive-Moved ms _ (omega (arith, h)) (upsert-Moved l.next_seq h m l.arrivals k)

  arrive-Below :
      (ms : List Message) (l : Ledger)
      → All (λ a. a.seq < l.next_seq) l.arrivals
      → All (λ a. a.seq < (arrive now ms l).next_seq) (arrive now ms l).arrivals
  unfolding arrive
  arrive-Below [] l k = k
  arrive-Below (m ∷ ms) l k = arrive-Below ms _ (upsert-Below l.next_seq m l.arrivals k)

  arrive-keeps :
      (i : String) (ms : List Message) (l : Ledger)
      → start ≤ l.next_seq
      → Fresh start i l.arrivals
      → Fresh start i (arrive now ms l).arrivals
  unfolding arrive
  arrive-keeps i [] l h k = k
  arrive-keeps i (m ∷ ms) l h k =
      arrive-keeps i ms _ (omega (arith, h)) (upsert-keeps l.next_seq h m i l.arrivals k)

  arrive-Fresh :
      (ms : List Message) (l : Ledger)
      → start ≤ l.next_seq
      → All (λ m. Fresh start m.ews_id (arrive now ms l).arrivals) ms
  unfolding arrive
  arrive-Fresh [] l h = tt
  arrive-Fresh (m ∷ ms) l h =
      let next : Ledger = record {
        arrivals = upsert_arrival now l.next_seq m l.arrivals;
        next_seq = suc l.next_seq;
      } in
      (
        arrive-keeps m.ews_id ms next (omega (arith, h)) (upsert-Fresh l.next_seq h m l.arrivals),
        arrive-Fresh ms next (omega (arith, h)),
      )

-- Every arrival of the mail has another changekey; it may have none.
abbrev pub IsNewOrMoved : List Arrival → Message → Type 0
IsNewOrMoved arrivals m =
    All (λ a. a.ews_id ≡ m.ews_id → option_str_eq a.changekey m.changekey ≡ false) arrivals

pending-IsNewOrMoved :
    (m : Message) (arrivals : List Arrival)
    → IsNewOrMoved arrivals m
    → moved m.changekey (find_arrival m.ews_id arrivals) ≡ true
pending-IsNewOrMoved m [] h = refl
pending-IsNewOrMoved m (a ∷ rest) h = go (of_id m.ews_id a) refl (pending-IsNewOrMoved m rest h.1)
  where
    go :
        (b : Bool)
        → of_id m.ews_id a ≡ b
        → moved m.changekey (find_arrival m.ews_id rest) ≡ true
        → moved m.changekey (if b then some a else find_arrival m.ews_id rest) ≡ true
    go true e ih = ap not (h.0 (str_eq-eq a.ews_id m.ews_id e))
    go false e ih = ih

All-selected :
    (P : Message → Type 0) (p : Message → Bool) (ms : List Message)
    → All P (select p ms)
    → All (λ m. p m ≡ true → P m) ms
All-selected P p [] h = tt
All-selected P p (m ∷ ms) h = go (p m) (All-selected P p ms) h
  where
    go :
        (b : Bool)
        → (All P (select p ms) → All (λ n. p n ≡ true → P n) ms)
        → All P (if b then m ∷ select p ms else select p ms)
        → (b ≡ true → P m) × All (λ n. p n ≡ true → P n) ms
    go true ih k = ((λ e. k.0), ih k.1)
    go false ih k = ((λ e. absurd (false≢true e)), ih k)

-- `order` loses no mail.
abbrev pub Complete : (List Message → List Message) → Type 1
Complete order = (P : Message → Type 0) (ms : List Message) → All P (order ms) → All P ms

-- If every sequence of the ledger is below the next one, that holds after a sweep too; each mail of
-- the store that has no arrival, or none with its changekey, has a sequence that no cursor has
-- passed; and an arrival has a new sequence only together with a new time. The order of the sweep
-- does not matter, as long as it loses no mail.
pub sweep-Fresh :
    (order : List Message → List Message) (now : ℤ) (messages : List Message) (l : Ledger)
    → Complete order
    → All (λ a. a.seq < l.next_seq) l.arrivals
    → All
        (λ a. a.seq < (sweep order now messages l).0.next_seq)
        (sweep order now messages l).0.arrivals
      × All
          (λ m.
            IsNewOrMoved l.arrivals m
            → Fresh l.next_seq m.ews_id (sweep order now messages l).0.arrivals)
          messages
      × All (Moved l.next_seq now) (sweep order now messages l).0.arrivals
unfolding sweep pending
sweep-Fresh order now messages l complete h =
    let found = order (select (pending l.arrivals) messages) in
    let fresh = All-selected _ (pending l.arrivals) messages (
      complete _ (select (pending l.arrivals) messages)
        (arrive-Fresh l.next_seq now found l (omega arith))) in
    (
      arrive-Below l.next_seq now found l h,
      All-map _ _ (λ m f k. f (pending-IsNewOrMoved m l.arrivals k)) messages fresh,
      arrive-Moved l.next_seq now found l (omega arith) (All-map _ _ (λ a k. inl k) l.arrivals h),
    )

-- Every sequence is at most those behind it.
abbrev pub Ascending : List Arrival → Type 0
Ascending [] = Unit
Ascending (a ∷ rest) = All (λ b. a.seq ≤ b.seq) rest × Ascending rest

pub All-insert_seq :
    (P : Arrival → Type 0) (a : Arrival) (bs : List Arrival)
    → P a
    → All P bs
    → All P (insert_seq a bs)
unfolding insert_seq
All-insert_seq P a [] h k = (h, tt)
All-insert_seq P a (b ∷ bs) h k =
    All-if P (leb a.seq b.seq) _ _ (h, k) (k.0, All-insert_seq P a bs h k.1)

pub All-by_seq : (P : Arrival → Type 0) (bs : List Arrival) → All P bs → All P (by_seq bs)
unfolding by_seq
All-by_seq P [] h = tt
All-by_seq P (b ∷ bs) h = All-insert_seq P b (by_seq bs) h.0 (All-by_seq P bs h.1)

insert_seq-Ascending :
    (a : Arrival) (bs : List Arrival) → Ascending bs → Ascending (insert_seq a bs)
unfolding insert_seq
insert_seq-Ascending a [] h = (tt, tt)
insert_seq-Ascending a (b ∷ bs) h = go (leb a.seq b.seq) refl (insert_seq-Ascending a bs h.1)
  where
    le : (m n : ℕ) → leb m n ≡ true → m ≤ n
    le m n e = ground arith

    ge : (m n : ℕ) → leb m n ≡ false → n ≤ m
    ge m n e = ground arith

    go :
        (c : Bool)
        → leb a.seq b.seq ≡ c
        → Ascending (insert_seq a bs)
        → Ascending (if c then a ∷ b ∷ bs else b ∷ insert_seq a bs)
    go true e k =
        let first = le a.seq b.seq e in
        ((first, All-map _ _ (λ x y. omega (arith, y, first)) bs h.0), h)
    go false e k = (All-insert_seq _ a bs (ge a.seq b.seq e) h.0, k)

pub by_seq-Ascending : (bs : List Arrival) → Ascending (by_seq bs)
unfolding by_seq
by_seq-Ascending [] = tt
by_seq-Ascending (b ∷ bs) = insert_seq-Ascending b (by_seq bs) (by_seq-Ascending bs)

take-Ascending : (n : ℕ) (bs : List Arrival) → Ascending bs → Ascending (take n bs)
take-Ascending zero bs h = tt
take-Ascending (suc n) [] h = tt
take-Ascending (suc n) (b ∷ bs) h = (All-take _ n bs h.0, take-Ascending n bs h.1)

-- A page holds at most `limit` arrivals, in ascending sequence, each of them behind the cursor,
-- within the bound and with a mail in the store.
pub page-Ascending :
    (cursor : Option ℕ) (until : Option ℤ) (limit : ℕ) (messages : List Message) (l : Ledger)
    → Ascending (page cursor until limit messages l)
      × All (λ a. served cursor until messages a ≡ true) (page cursor until limit messages l)
      × (length (page cursor until limit messages l) ≤ limit)
unfolding page
page-Ascending cursor until limit messages l =
    let rows = select (served cursor until messages) l.arrivals in
    (
      take-Ascending limit (by_seq rows) (by_seq-Ascending rows),
      All-take _ limit (by_seq rows)
          (All-by_seq _ rows (All-select_self (served cursor until messages) l.arrivals)),
      omega (arith, length-take limit (by_seq rows)),
    )
