-- ===== src/Bridge/App.antt =====
-- ewsmcp/bridge/app.py: the parameters of a request, the answers to `messages` and `health`, and the
-- contacts. Tokens are compared as bytes; `datetime.fromisoformat` is a parameter. An arrival stands for
-- the message that is made of it.
pub mod Cursor
pub mod Walk
use exchange_mcp.Prelude.{
  ℕ, suc, Bool, false, Option, none, some, List, [], ◌∷◌, ◌++◌, ◌⊎◌, inl, inr, if◌then◌else◌, min,
  ◌==◌, drop,
}
use exchange_mcp.Prelude.Int.{ℤ, pos, negsuc, ◌-ℤ◌, ltb_ℤ}
use exchange_mcp.Text.{Text, codes, same_text, starts_with, split_on}
use exchange_mcp.Text.Decimal.{print, int}
use exchange_mcp.Store.Rows.{Message}
use exchange_mcp.Bridge.Arrival.{Arrival, Ledger, sweep, page}

-- `_Bad`, with its status and code.
pub data Bad : Type 0 where
  unauthorized bad_cursor cursor_generation bad_request : Bad

abbrev pub status_of : Bad → ℕ
status_of unauthorized = 401
status_of _ = 400

-- `datetime.fromisoformat`: no date, one without an offset, or a time.
pub data Instant : Type 0 where
  unreadable naive : Instant
  at : ℤ → Instant

abbrev pub same_number : ℤ → ℕ → Bool
same_number (pos m) n = m == n
same_number (negsuc m) n = false

abbrev pub cursor_of : ℕ → Option ℤ → Option ℤ → Bad ⊎ Option ℤ
cursor_of gen (some cursor_gen) (some seq) =
    if same_number cursor_gen gen then inr (some seq) else inl cursor_generation
cursor_of gen none seq = inl bad_cursor
cursor_of gen (some cursor_gen) none = inl bad_cursor

abbrev pub cursor_parts : ℕ → List Text → Bad ⊎ Option ℤ
cursor_parts gen (version ∷ g ∷ s ∷ []) =
    if same_text version (codes "v1") then cursor_of gen (int g) (int s) else inl bad_cursor
cursor_parts gen [] = inl bad_cursor
cursor_parts gen (v ∷ []) = inl bad_cursor
cursor_parts gen (v ∷ g ∷ []) = inl bad_cursor
cursor_parts gen (v ∷ g ∷ s ∷ t ∷ ts) = inl bad_cursor

-- `_parse_cursor`
unfoldable pub parse_cursor : Option Text → ℕ → Bad ⊎ Option ℤ
unfolding int split_on
parse_cursor none gen = inr none
parse_cursor (some []) gen = inr none
parse_cursor (some (c ∷ s)) gen = cursor_parts gen (split_on b':' (c ∷ s))

abbrev pub time_of : Instant → Bad ⊎ Option ℤ
time_of unreadable = inl bad_request
time_of naive = inl bad_request
time_of (at t) = inr (some t)

-- `_parse_time`
unfoldable pub parse_time : (Text → Instant) → Option Text → Bad ⊎ Option ℤ
parse_time from_iso none = inr none
parse_time from_iso (some []) = inr none
parse_time from_iso (some (c ∷ s)) = time_of (from_iso (c ∷ s))

abbrev pub limit_of : Option ℤ → Bad ⊎ ℕ
limit_of none = inl bad_request
limit_of (some (negsuc n)) = inl bad_request
limit_of (some (pos n)) = if n == 0 then inl bad_request else inr (min n 500)

-- `_parse_limit`, with PAGE_LIMIT
unfoldable pub parse_limit : Option Text → Bad ⊎ ℕ
unfolding int
parse_limit none = inr 500
parse_limit (some s) = limit_of (int s)

-- `str` of a whole number.
abbrev pub print_int : ℤ → Text
print_int (pos n) = print n
print_int (negsuc n) = b'-' ∷ print (suc n)

-- f"v1:{gen}:{seq}"
unfoldable pub cursor : ℕ → ℤ → Text
unfolding print
cursor gen seq = codes "v1:" ++ (print gen ++ (b':' ∷ print_int seq))

-- The parameters of a request and its Authorization header.
pub record Request : Type 0 where
  pub authorization : Text
  pub since : Option Text
  pub until : Option Text
  pub limit : Option Text

pub record Page : Type 0 where
  pub messages : List Arrival
  pub next : Text

-- What the daemon was started with, and the generation of its database.
pub record App : Type 0 where
  pub token : Text
  pub generation : ℕ
  pub from_iso : Text → Instant
  pub order : List Message → List Message

-- `build_app` refuses an empty token.
abbrev pub build_app : App → Option App
build_app a = if same_text a.token [] then none else some a

-- `guard`
unfoldable pub guard : App → Text → Bool
guard a header =
    same_text (if starts_with (codes "Bearer ") header then drop 7 header else []) a.token

-- A sequence is at least 0, so a negative cursor is behind none of them.
abbrev pub behind : Option ℤ → Option ℕ
behind none = none
behind (some (pos n)) = some n
behind (some (negsuc n)) = none

abbrev pub or_zero : Option ℤ → ℤ
or_zero none = pos 0
or_zero (some n) = n

-- The sequence of the last row, or the cursor that was given.
abbrev pub last_seq : ℤ → List Arrival → ℤ
last_seq given [] = given
last_seq given (a ∷ rest) = last_seq (pos a.seq) rest

abbrev pub answer : App → Option ℤ → List Arrival → Page
answer a given rows = record {
  messages = rows;
  next = cursor a.generation (last_seq (or_zero given) rows);
}

module _ (a : App) (mails : List Message) where
  abbrev pub paged : Ledger → Option ℤ → ℕ → Ledger → Bad ⊎ Option ℤ → (Bad ⊎ Page) × Ledger
  paged l until limit l' (inl e) = (inl e, l)
  paged l until limit l' (inr given) =
      (inr (answer a given (page (behind given) until limit mails l')), l')

  abbrev pub timed : ℤ → Option Text → ℕ → Ledger → Bad ⊎ Option ℤ → (Bad ⊎ Page) × Ledger
  timed now since limit l (inl e) = (inl e, l)
  timed now since limit l (inr until) =
      paged l until limit (sweep a.order now mails l).0 (parse_cursor since a.generation)

  abbrev pub limited : ℤ → Request → Ledger → Bad ⊎ ℕ → (Bad ⊎ Page) × Ledger
  limited now q l (inl e) = (inl e, l)
  limited now q l (inr limit) = timed now q.since limit l (parse_time a.from_iso q.until)

  -- `messages`: a refused request leaves the ledger as it was.
  unfoldable pub messages : ℤ → Request → Ledger → (Bad ⊎ Page) × Ledger
  unfolding guard parse_limit parse_time parse_cursor sweep page cursor
  messages now q l =
      let served = limited now q l (parse_limit q.limit) in
      if guard a q.authorization then served else (inl unauthorized, l)

-- Whether the source is connected, and the detail.
pub data Health : Type 0 where
  never_synced connected : Health
  stale : ℤ → Health

-- `health`, with STALE_AFTER_SECONDS, of the newest `as_of` of `ews.sync_state`.
unfoldable pub health : ℤ → Option ℤ → Health
unfolding ◌-ℤ◌
health now none = never_synced
health now (some as_of) = if ltb_ℤ (pos 900) (now -ℤ as_of) then stale (now -ℤ as_of) else connected

-- A row of the query of `contacts`, with the key that `mapping.identity` makes.
pub record Contact : Type 0 where
  pub native_id : Text
  pub key : Text
  pub name : Text

abbrev pub name_or : Option Text → Text → Text
name_or none email = email
name_or (some []) email = email
name_or (some (c ∷ s)) email = c ∷ s

abbrev pub contact_of : Option Text → Text × Option Text → List Contact → List Contact
contact_of none row rest = rest
contact_of (some key) (email, name) rest =
    record { native_id = email; key = key; name = name_or name email } ∷ rest

-- The loop of `contacts`: an address without a key is left out.
unfoldable pub contacts : (Text → Option Text) → List (Text × Option Text) → List Contact
contacts identity [] = []
contacts identity (row ∷ rows) = contact_of (identity row.0) row (contacts identity rows)
