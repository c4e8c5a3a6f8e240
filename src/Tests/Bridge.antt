-- ===== src/Tests/Bridge.antt =====
-- The bridge's requests on small inputs.
use exchange_mcp.Prelude.{ℕ, ◌≡◌, refl, arith, String, none, some, List, [], ◌∷◌, select}
use exchange_mcp.Prelude.Int.{pos}
use exchange_mcp.Text.{codes, strip, lstrip}
use exchange_mcp.Text.Decimal.{int, parse_signed, parse_on}
use exchange_mcp.Store.Rows.{Message}
use exchange_mcp.Bridge.Arrival.{Arrival, Ledger, by_seq, served, pending, insert_seq}
use exchange_mcp.Bridge.App.{App, Instant, Request, parse_limit, parse_time, guard}
use exchange_mcp.Bridge.App.Walk.{walk, walk_complete}
use exchange_mcp.Tests.Data.{live_row}

abbrev arrival : String → ℕ → Arrival
arrival i seq = record {
  ews_id = i;
  seq = seq;
  changekey = some "ck1";
  first_seen = pos 10;
  first_arrival = pos 10;
  chat_id = none;
}

abbrev ledger : Ledger
ledger = record { arrivals = arrival "m1" 7 ∷ arrival "m2" 4 ∷ []; next_seq = 8 }

abbrev mails : List Message
mails = live_row "m1" 100 ∷ live_row "m2" 200 ∷ []

abbrev app : App
app = record {
  token = codes "t";
  generation = 3;
  from_iso = λ s. Instant.unreadable;
  order = λ ms. ms;
}

abbrev request : Request
request = record {
  authorization = codes "Bearer t";
  since = none;
  until = none;
  limit = some (codes "1");
}

walk_complete_example :
    walk app mails (pos 50) request 2 none ledger
    ≡ by_seq (select (served none none mails) ledger.arrivals)
unfolding guard parse_limit parse_time pending by_seq insert_seq int parse_signed parse_on strip
    lstrip
walk_complete_example =
    walk_complete app mails (pos 50) request 2 none 1 ledger (refl, refl, refl, refl, refl)
      ((refl, tt), (tt, tt)) (omega arith)
