-- ===== src/Archive/Embed/Budget.antt =====
-- The budget of the drainer of ewsmcp/archive/embed.py.
use exchange_mcp.Prelude.{
  ℕ, zero, suc, ◌+◌, ◌-◌, ◌≤◌, min, Bool, true, false, Option, none, some, List, [], ◌∷◌, length,
  if◌then◌else◌, ◌==◌, arith, length-take, ◌≡◌, refl, select,
}
use exchange_mcp.Store.Rows.{Message, Store}
use exchange_mcp.Store.Chunks.{unembedded_messages, unembedded, latest_first}
use exchange_mcp.Archive.Embed.{Index, Progress, drain, drain_page, after_index, start}

-- The loop ended with at most `n` rows handed over.
abbrev pub Within : ℕ → Option Progress → Type 0
Within n none = ⊥
Within n (some p) = p.handed ≤ n

Within-if :
    (n : ℕ) (b : Bool) (r t : Option Progress × Store)
    → Within n r.0
    → Within n t.0
    → Within n (if b then r else t).0
Within-if n true r t h k = h
Within-if n false r t h k = k

unembedded_messages-length : (n : ℕ) (s : Store) → length (unembedded_messages n s) ≤ n
unfolding unembedded_messages
unembedded_messages-length n s =
    omega (arith, length-take n (latest_first (select unembedded s.messages)))

module _ (index : Index) (page : ℕ) (query_down : ℕ → Bool) where
  after_index-Within :
      (n : ℕ) (next : Progress → Store → Option Progress × Store) (rows : List Message)
      (p : Progress)
      → p.handed + length rows ≤ n
      → ((q : Progress) (s : Store) → q.handed ≡ p.handed + length rows → Within n (next q s).0)
      → (r : Option ℕ × Store) → Within n (after_index index page query_down next rows p r).0
  after_index-Within n next rows p h k (none, s) = h
  after_index-Within n next rows p h k (some done, s) =
      let q : Progress = record p {
        embedded = p.embedded + done;
        handed = p.handed + length rows;
      } in
      Within-if n (done == 0) (some q, s) (next q s) h (k q s refl)

  drain_page-Within :
      (n : ℕ) (next : ℕ → Progress → Store → Option Progress × Store) (k budget : ℕ)
      (rows : List Message) (p : Progress) (s : Store)
      → p.handed + budget ≤ n
      → length rows ≤ budget
      → ((b : ℕ) (q : Progress) (t : Store)
          → q.handed + b ≤ n
          → suc b ≤ budget
          → Within n (next b q t).0)
      → Within n (drain_page index page query_down next k budget rows p s).0
  drain_page-Within n next k budget [] p s h l ih = omega (arith, h)
  drain_page-Within n next k budget (row ∷ rows) p s h l ih =
      after_index-Within n (next (budget - length (row ∷ rows))) (row ∷ rows) p
        (omega (arith, h, l))
        (λ q t e. ih (budget - length (row ∷ rows)) q t (omega (arith, e, h, l)) (omega (arith, l)))
        (index k (row ∷ rows) s)

  pub drain-Within :
      (fuel n k budget : ℕ) (p : Progress) (s : Store)
      → budget ≤ fuel
      → p.handed + budget ≤ n
      → Within n (drain index page query_down fuel k budget p s).0
  unfolding drain
  drain-Within fuel n k zero p s f h = omega (arith, h)
  drain-Within zero n k (suc budget) p s f h = absurd (omega (arith, f))
  drain-Within (suc fuel) n k (suc budget) p s f h =
      Within-if n (query_down k) _ _ (omega (arith, h)) (
        drain_page-Within n (λ b p' s'. drain index page query_down fuel (suc k) b p' s') k
          (suc budget) _ p s h (omega (arith, unembedded_messages-length (min page (suc budget)) s))
          (λ b q t e l. drain-Within fuel n (suc k) b q t (omega (arith, l, f)) e))

  -- Whatever the index and the store answer, the loop of the drainer ends within as many passes as
  -- its budget, and hands the index at most that many rows.
  pub drain-ends :
      (budget : ℕ) (s : Store)
      → Within budget (drain index page query_down budget 0 budget start s).0
  drain-ends budget s = drain-Within budget budget 0 budget start s (omega arith) (omega arith)
