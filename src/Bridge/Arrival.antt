-- ===== src/Bridge/Arrival.antt =====
-- ewsmcp/bridge/arrival.py: the ledger of arrivals. `order` is where the planner evaluates
-- `nextval`; a sweep runs alone, under its advisory lock.
pub mod Order
pub mod Rest
use exchange_mcp.Prelude.{
  ℕ, suc, String, Bool, true, not, ◌&&◌, Option, none, some, List, [], ◌∷◌, if◌then◌else◌, str_eq,
  option_str_eq, is_some, select, take, length, ltb, leb, max,
}
use exchange_mcp.Prelude.Int.{ℤ, leb_ℤ}
use exchange_mcp.Store.Rows.{Message, find_row}

-- A row of `ews.bridge_arrival`.
pub record Arrival : Type 0 where
  pub ews_id : String
  pub seq : ℕ
  pub changekey : Option String
  pub first_seen : ℤ
  pub first_arrival : ℤ
  pub chat_id : Option String

-- The rows, and the next value of `ews.bridge_arrival_seq`.
pub record Ledger : Type 0 where
  pub arrivals : List Arrival
  pub next_seq : ℕ

abbrev pub of_id : String → Arrival → Bool
of_id i a = str_eq a.ews_id i

abbrev pub find_arrival : String → List Arrival → Option Arrival
find_arrival i [] = none
find_arrival i (a ∷ more) = let rest = find_arrival i more in if of_id i a then some a else rest

-- `a.ews_id IS NULL OR a.changekey IS DISTINCT FROM m.changekey`
abbrev pub moved : Option String → Option Arrival → Bool
moved changekey none = true
moved changekey (some a) = not (option_str_eq a.changekey changekey)

unfoldable pub pending : List Arrival → Message → Bool
pending arrivals m = moved m.changekey (find_arrival m.ews_id arrivals)

abbrev pub or_id : Option String → String → String
or_id none i = i
or_id (some c) i = c

-- ON CONFLICT: the sequence, the changekey and `first_seen` move together, and nothing else.
unfoldable pub upsert_arrival : ℤ → ℕ → Message → List Arrival → List Arrival
upsert_arrival now seq m [] =
    record {
      ews_id = m.ews_id;
      seq = seq;
      changekey = m.changekey;
      first_seen = now;
      first_arrival = now;
      chat_id = some (or_id m.conversation_id m.ews_id);
    }
    ∷ []
upsert_arrival now seq m (a ∷ rest) =
    let later = upsert_arrival now seq m rest in
    if of_id m.ews_id a
    then record a { seq = seq; changekey = m.changekey; first_seen = now } ∷ rest
    else a ∷ later

unfoldable pub arrive : ℤ → List Message → Ledger → Ledger
unfolding upsert_arrival
arrive now [] l = l
arrive now (m ∷ ms) l =
    arrive now ms
      (record { arrivals = upsert_arrival now l.next_seq m l.arrivals; next_seq = suc l.next_seq })

-- `sweep`: the new ledger and the row count.
unfoldable pub sweep : (List Message → List Message) → ℤ → List Message → Ledger → Ledger × ℕ
unfolding pending arrive
sweep order now messages l =
    let found = order (select (pending l.arrivals) messages) in (arrive now found l, length found)

-- `coalesce(max(seq), 0)`
unfoldable pub head : List Arrival → ℕ
head [] = 0
head (a ∷ rest) = max a.seq (head rest)

abbrev pub after : Option ℕ → ℕ → Bool
after none seq = true
after (some cursor) seq = ltb cursor seq

abbrev pub within : Option ℤ → ℤ → Bool
within none seen = true
within (some until) seen = leb_ℤ seen until

unfoldable pub insert_seq : Arrival → List Arrival → List Arrival
insert_seq a [] = a ∷ []
insert_seq a (b ∷ bs) =
    let rest = insert_seq a bs in if leb a.seq b.seq then a ∷ b ∷ bs else b ∷ rest

-- ORDER BY a.seq ASC
unfoldable pub by_seq : List Arrival → List Arrival
unfolding insert_seq
by_seq [] = []
by_seq (a ∷ rest) = insert_seq a (by_seq rest)

abbrev pub served : Option ℕ → Option ℤ → List Message → Arrival → Bool
served cursor until messages a =
    after cursor a.seq && (within until a.first_seen && is_some (find_row a.ews_id messages))

-- `page`: the arrivals whose mail is joined to them.
unfoldable pub page : Option ℕ → Option ℤ → ℕ → List Message → Ledger → List Arrival
unfolding by_seq
page cursor until limit messages l =
    take limit (by_seq (select (served cursor until messages) l.arrivals))
