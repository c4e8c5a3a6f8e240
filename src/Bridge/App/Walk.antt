-- ===== src/Bridge/App/Walk.antt =====
-- A consumer of the `messages` route of ewsmcp/bridge/app.py, which sends back each page's cursor.
use exchange_mcp.Prelude.{
  ℕ, zero, suc, ◌≤◌, min, ◌≡◌, refl, sym, ap, ◌∙◌, arith, Bool, true, false, ◌&&◌, Option, none,
  some, List, [], ◌∷◌, ◌++◌, ◌⊎◌, inl, inr, if◌then◌else◌, if_true, All, All-select_self, select,
  take, drop, length, length-drop, take-append-drop, ltb, is_some, ◌==◌,
}
use exchange_mcp.Prelude.Int.{ℤ, pos, negsuc}
use exchange_mcp.Text.{Text}
use exchange_mcp.Text.Decimal.{int}
use exchange_mcp.Store.Rows.{Message, find_row}
use exchange_mcp.Bridge.Arrival.{
  Arrival, Ledger, pending, sweep, arrive, after, within, served, by_seq, page,
}
use exchange_mcp.Bridge.Arrival.Rest.{
  Distinct, Strict, by_seq-Strict, select-Strict, by_seq-select, select-and, select-narrow, last_of,
  past, last_of-page, select-past_page,
}
use exchange_mcp.Bridge.App.{
  Bad, bad_request, Request, Page, App, parse_limit, limit_of, parse_time, parse_cursor, behind,
  or_zero, last_seq, answer, cursor, guard, paged, timed, limited, messages,
}
use exchange_mcp.Bridge.App.Cursor.{parse_cursor-cursor}

module _ (a : App) (mails : List Message) (now : ℤ) (q : Request) where
  abbrev pub collect : (Bad ⊎ Page) × Ledger → (Text → Ledger → List Arrival) → List Arrival
  collect (inl e, l) go = []
  collect (inr p, l) go = p.messages ++ go p.next l

  -- At most `fuel` requests, the first with the cursor `since`.
  unfoldable pub walk : ℕ → Option Text → Ledger → List Arrival
  walk zero since l = []
  walk (suc fuel) since l =
      collect (messages a mails now (record q { since = since }) l)
        (λ next l'. walk fuel (some next) l')

  -- The arrivals behind a cursor, in their order.
  abbrev stream : Option ℤ → List Arrival → Option ℤ → List Arrival
  stream until arrivals given = by_seq (select (served (behind given) until mails) arrivals)

  abbrev joined : Option ℤ → Arrival → Bool
  joined until b = within until b.first_seen && is_some (find_row b.ews_id mails)

  abbrev after_given : Option ℤ → Arrival → Bool
  after_given given b = after (behind given) b.seq

  -- The stream from the beginning of time, before a cursor cuts it.
  abbrev whole : Option ℤ → List Arrival → List Arrival
  whole until arrivals = select (joined until) (by_seq arrivals)

  stream-whole :
      (until : Option ℤ) (arrivals : List Arrival) (given : Option ℤ)
      → stream until arrivals given ≡ select (after_given given) (whole until arrivals)
  stream-whole until arrivals given =
      by_seq-select (served (behind given) until mails) arrivals
      ∙ select-and (after_given given) (joined until) (by_seq arrivals)

  last_seq-pos : (d : ℕ) (bs : List Arrival) → last_seq (pos d) bs ≡ pos (last_of d bs)
  last_seq-pos d [] = refl
  last_seq-pos d (b ∷ bs) = last_seq-pos b.seq bs

  wider :
      (given : Option ℤ) (x : Arrival)
      → after_given (some (or_zero given)) x ≡ true
      → after_given given x ≡ true
  wider none x h = refl
  wider (some n) x h = h

  after_mono : (g : Option ℕ) (m n : ℕ) → m ≤ n → after g m ≡ true → after g n ≡ true
  after_mono none m n h k = refl
  after_mono (some c) m n h k = ground arith

  past-lt : (m n : ℕ) → ltb m n ≡ true → m ≤ n
  past-lt m n h = ground arith

  -- Where a page of the rows behind `given` says to resume, the rest of them is served.
  resume :
      (n : ℕ) (given : Option ℤ) (rows : List Arrival)
      → 1 ≤ n
      → Strict rows
      → select
          (after_given (some (last_seq (or_zero given) (take n (select (after_given given) rows)))))
          rows
        ≡ drop n (select (after_given given) rows)
  resume zero given rows h s = absurd (omega arith)
  resume (suc n) given rows h s =
      go (select (after_given given) rows) refl (select-Strict (after_given given) rows s)
        (All-select_self (after_given given) rows)
    where
      go :
          (found : List Arrival)
          → select (after_given given) rows ≡ found
          → Strict found
          → All (λ b. after_given given b ≡ true) found
          → select (after_given (some (last_seq (or_zero given) (take (suc n) found)))) rows
            ≡ drop (suc n) found
      go [] e t k =
          sym (
            select-narrow (after_given (some (or_zero given))) (after_given given) (wider given)
              rows)
          ∙ ap (select (after_given (some (or_zero given)))) e
      go (x ∷ xs) e t k =
          let end = last_of x.seq (take n xs) in
          ap (λ z. select (after_given (some z)) rows) (last_seq-pos x.seq (take n xs))
          ∙ sym (
              select-narrow (past end) (after_given given)
                (λ y r.
                  after_mono (behind given) x.seq y.seq
                    (omega (arith, last_of-page n x xs t, past-lt end y.seq r)) k.0)
                rows)
          ∙ ap (select (past end)) e
          ∙ select-past_page n x xs t

  abbrev number_of : Bad ⊎ ℕ → ℕ
  number_of (inl e) = 0
  number_of (inr n) = n

  one : (m : ℕ) → m == 0 ≡ false → 1 ≤ min m 500
  one m e = ground arith

  stream-next :
      (until : Option ℤ) (limit : ℕ) (arrivals : List Arrival) (given : Option ℤ)
      → 1 ≤ limit
      → Distinct arrivals
      → stream until arrivals
          (some (last_seq (or_zero given) (take limit (stream until arrivals given))))
        ≡ drop limit (stream until arrivals given)
  stream-next until limit arrivals given h d =
      ap (λ xs. stream until arrivals (some (last_seq (or_zero given) (take limit xs))))
        (stream-whole until arrivals given)
      ∙ stream-whole until arrivals (
          some (
            last_seq (or_zero given)
              (take limit (select (after_given given) (whole until arrivals)))))
      ∙ resume limit given (whole until arrivals) h
          (select-Strict (joined until) (by_seq arrivals) (by_seq-Strict arrivals d))
      ∙ ap (drop limit) (sym (stream-whole until arrivals given))

  limit_of-pos : (o : Option ℤ) (n : ℕ) → limit_of o ≡ inr n → 1 ≤ n
  limit_of-pos none n h = cc
  limit_of-pos (some (negsuc m)) n h = cc
  limit_of-pos (some (pos m)) n h = go (m == 0) refl h
    where
      go :
          (b : Bool) → m == 0 ≡ b → (if b then inl bad_request else inr (min m 500)) ≡ inr n → 1 ≤ n
      go true e k = cc
      go false e k = omega (arith, one m e, ap number_of k)

  parse_limit-pos : (s : Option Text) (n : ℕ) → parse_limit s ≡ inr n → 1 ≤ n
  unfolding parse_limit
  parse_limit-pos none n h = omega (arith, ap number_of h)
  parse_limit-pos (some s) n h = limit_of-pos (int s) n h

  -- The request is of the bridge's owner and well formed, and no mail is new since the last sweep.
  abbrev pub Polls : Option ℤ → ℕ → Ledger → Type 0
  Polls until limit l =
      (guard a q.authorization ≡ true)
      × (parse_limit q.limit ≡ inr limit)
      × (parse_time a.from_iso q.until ≡ inr until)
      × (a.order [] ≡ [])
      × (select (pending l.arrivals) mails ≡ [])

  sweep-same :
      (l : Ledger)
      → a.order [] ≡ []
      → select (pending l.arrivals) mails ≡ []
      → (sweep a.order now mails l).0 ≡ l
  unfolding sweep arrive
  sweep-same l o e = ap (λ ms. arrive now (a.order ms) l) e ∙ ap (λ ms. arrive now ms l) o

  messages-answer :
      (until : Option ℤ) (limit : ℕ) (l : Ledger) (since : Option Text) (given : Option ℤ)
      → Polls until limit l
      → parse_cursor since a.generation ≡ inr given
      → messages a mails now (record q { since = since }) l
        ≡ (inr (answer a given (page (behind given) until limit mails l)), l)
  unfolding messages
  messages-answer until limit l since given (owner, limited', timed', o, none_new) c =
      let q' = record q { since = since } in
      if_true (guard a q.authorization) (limited a mails now q' l (parse_limit q.limit))
        (inl Bad.unauthorized, l) owner
      ∙ ap (limited a mails now q' l) limited'
      ∙ ap (timed a mails now since limit l) timed'
      ∙ ap (λ l'. paged a mails l until limit l' (parse_cursor since a.generation))
          (sweep-same l o none_new)
      ∙ ap (paged a mails l until limit l) c

  short : (xs : List Arrival) → length xs ≤ 0 → xs ≡ []
  short [] h = refl
  short (x ∷ xs) h = absurd (omega arith)

  walk-stream :
      (fuel : ℕ) (until : Option ℤ) (limit : ℕ) (l : Ledger) (since : Option Text)
      (given : Option ℤ)
      → Polls until limit l
      → Distinct l.arrivals
      → parse_cursor since a.generation ≡ inr given
      → length (stream until l.arrivals given) ≤ fuel
      → walk fuel since l ≡ stream until l.arrivals given
  unfolding walk page cursor
  walk-stream zero until limit l since given p d c h = sym (short (stream until l.arrivals given) h)
  walk-stream (suc fuel) until limit l since given p d c h =
      let rows = stream until l.arrivals given in
      let next = last_seq (or_zero given) (take limit rows) in
      let one_more = parse_limit-pos q.limit limit p.1 in
      let rest = stream-next until limit l.arrivals given one_more d in
      ap (λ x. collect x (λ n l'. walk fuel (some n) l'))
        (messages-answer until limit l since given p c)
      ∙ ap (λ xs. take limit rows ++ xs)
          (walk-stream fuel until limit l (some (cursor a.generation next)) (some next) p d
              (parse_cursor-cursor a.generation next)
              (omega (arith, h, one_more, ap length rest, length-drop limit rows))
            ∙ rest)
      ∙ take-append-drop limit rows

  -- A consumer that starts without a cursor and sends back the one of each page is served every
  -- arrival within its bound whose mail is in the store, each exactly once and in ascending sequence,
  -- if it makes at least as many requests as there are such arrivals. Its token and parameters are
  -- good, the sequences are distinct, and no mail has moved since the last sweep; the size of a page
  -- does not matter.
  pub walk_complete :
      (fuel : ℕ) (until : Option ℤ) (limit : ℕ) (l : Ledger)
      → Polls until limit l
      → Distinct l.arrivals
      → length (by_seq (select (served none until mails) l.arrivals)) ≤ fuel
      → walk fuel none l ≡ by_seq (select (served none until mails) l.arrivals)
  unfolding parse_cursor
  walk_complete fuel until limit l p d h = walk-stream fuel until limit l none none p d refl h
