-- ===== src/Archive/Embed.antt =====
-- ewsmcp/archive/embed.py: the drainer of the embedding backlog. The index is a parameter: what
-- its k-th call answers for a page of rows, and what it leaves of the store.
pub mod Budget
use exchange_mcp.Prelude.{
  ℕ, zero, suc, ◌+◌, ◌-◌, min, max, Bool, true, false, Option, none, some, List, [], ◌∷◌, length,
  if◌then◌else◌, ◌==◌,
}
use exchange_mcp.Store.Rows.{Message, Store}
use exchange_mcp.Store.Chunks.{unembedded_messages, embedding_backlog}

abbrev pub Index : Type 0
Index = ℕ → List Message → Store → Option ℕ × Store

-- `handed` counts the rows given to the index; `error` is the message of the `except`.
pub record Progress : Type 0 where
  pub embedded : ℕ
  pub handed : ℕ
  pub error : Bool

module _ (index : Index) (page : ℕ) (query_down : ℕ → Bool) where
  abbrev pub after_index :
      (Progress → Store → Option Progress × Store)
      → List Message
      → Progress
      → Option ℕ × Store
      → Option Progress × Store
  after_index next rows p (none, s) =
      (some (record p { handed = p.handed + length rows; error = true }), s)
  after_index next rows p (some done, s) =
      let p' : Progress = record p {
        embedded = p.embedded + done;
        handed = p.handed + length rows;
      } in
      let rest = next p' s in if done == 0 then (some p', s) else rest

  abbrev pub drain_page :
      (ℕ → Progress → Store → Option Progress × Store)
      → ℕ
      → ℕ
      → List Message
      → Progress
      → Store
      → Option Progress × Store
  drain_page next k budget [] p s = (some p, s)
  drain_page next k budget (row ∷ rows) p s =
      after_index (next (budget - length (row ∷ rows))) (row ∷ rows) p (index k (row ∷ rows) s)

  -- `while budget > 0`; `none`: out of fuel. `k` counts the passes.
  unfoldable pub drain : ℕ → ℕ → ℕ → Progress → Store → Option Progress × Store
  unfolding unembedded_messages
  drain fuel k zero p s = (some p, s)
  drain zero k (suc budget) p s = (none, s)
  drain (suc fuel) k (suc budget) p s =
      let rest =
        drain_page (λ b p' s'. drain fuel (suc k) b p' s') k (suc budget)
          (unembedded_messages (min page (suc budget)) s) p s in
      if query_down k then (some (record p { error = true }), s) else rest

abbrev pub start : Progress
start = record { embedded = 0; handed = 0; error = false }

pub record Outcome : Type 0 where
  pub embedded : ℕ
  pub backlog : ℕ
  pub error : Bool

abbrev pub outcome_of : Option Progress × Store → Option Outcome × Store
outcome_of (none, s) = (none, s)
outcome_of (some p, s) =
    (some (record { embedded = p.embedded; backlog = embedding_backlog s; error = p.error }), s)

abbrev pub budget_of : ℕ → Option ℕ → ℕ
budget_of page none = page
budget_of page (some limit) = limit

-- `EmbedWorker.run`, whose page is `max(1, page)`; the budget is fuel enough.
unfoldable pub run : Option Index → ℕ → (ℕ → Bool) → Option ℕ → Store → Option Outcome × Store
unfolding drain embedding_backlog
run none page query_down limit s =
    (some (record { embedded = 0; backlog = embedding_backlog s; error = false }), s)
run (some index) page query_down limit s =
    let budget = budget_of (max 1 page) limit in
    outcome_of (drain index (max 1 page) query_down budget 0 budget start s)
