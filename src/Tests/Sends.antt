-- ===== src/Tests/Sends.antt =====
-- Keyed sends on small inputs. The world counts the mails that were sent.
use exchange_mcp.Prelude.{List, arith, ℕ, suc, ◌≡◌, refl, false, some, [], ◌∷◌, ◌⊎◌, inr}
use exchange_mcp.Prelude.Int.{pos, ◌-ℤ◌}
use exchange_mcp.Text.{Text, codes}
use exchange_mcp.Tools.Errors.{Exn}
use exchange_mcp.Tools.Sends.{
  trim, Receipt, Memo, sent, replayed, unexpired, idempotency_get, idempotency_put,
  send_confirm_needed, send_draft,
}
use exchange_mcp.Tools.Sends.Meanwhile.{Event, looked, recorded_as, meanwhile, send_draft-Once}

abbrev deliver : Text → ℕ → (Exn ⊎ ℕ) × ℕ
deliver draft w = (inr w, suc w)

abbrev receipt : Receipt ℕ
receipt = record { draft_id = codes "d1"; result = 0; ts = pos 101 }

abbrev memo : Memo ℕ
memo = (codes "k1", receipt) ∷ []

-- The receipt lapses between the two looks, and the spared send reaches Exchange.
lapsed :
    ((send_confirm_needed (pos 172901) (codes "d1") (some (codes "k1")) memo).0 ≡ false)
    × ((send_draft deliver (pos 172902) (pos 172903) (codes "d1") (some (codes "k1")) memo 1).1.1
        ≡ 2)
unfolding send_confirm_needed send_draft idempotency_get ◌-ℤ◌
lapsed = (refl, refl)

-- Another key is sent and looked for before the replay.
abbrev other : Receipt ℕ
other = record { draft_id = codes "d2"; result = 7; ts = pos 150 }

abbrev events : List (Event ℕ)
events = looked (pos 140) (codes "k2") ∷ recorded_as (codes "k2") other ∷ []

abbrev recorded_memo : Memo ℕ
recorded_memo = idempotency_put (codes "k1") receipt (unexpired (pos 100) [])

send_draft-Once_example :
    (send_draft deliver (pos 100) (pos 101) (codes "d1") (some (codes "k1")) [] 0
      ≡ (inr (sent 0), (recorded_memo, 1)))
    × (send_draft deliver
          (pos 200)
          (pos 201)
          (codes "d1")
          (some (codes "k1"))
          (meanwhile events recorded_memo)
          2
        ≡ (inr (replayed 0), (unexpired (pos 200) (meanwhile events recorded_memo), 2)))
unfolding ◌-ℤ◌ idempotency_put trim
send_draft-Once_example =
    send_draft-Once deliver (pos 100) (pos 101) (pos 200) (pos 201) (codes "k1") (codes "d1") [] 0 1
      2 0 events refl refl refl refl (refl, (refl, tt)) (omega arith)
