-- ===== src/Tests/Links.antt =====
-- Upload links, confirm tokens, and the pages of the bridge on small inputs.
use exchange_mcp.Prelude.{
  ℕ, ◌<◌, ◌≡◌, refl, arith, Bool, false, none, some, List, [], ◌∷◌, All, leb, ◌&&◌, ◌||◌, ◌==◌,
}
use exchange_mcp.Prelude.Int.{pos, ◌+ℤ◌}
use exchange_mcp.Text.{Text, codes, mem_text, split_on}
use exchange_mcp.Store.Rows.{Message}
use exchange_mcp.Files.Uploads.{World, Link, redeem, safe_name, mint, substitute, lstrip, rstrip}
use exchange_mcp.Files.Uploads.Once.{Once, redeem-Once}
use exchange_mcp.Files.Uploads.Names.{Plain, Fronted, safe_name-Plain}
use exchange_mcp.Files.Confirm.{
  Payload, Codec, Token, stale, make_token, verify_token, consume_token,
}
use exchange_mcp.Files.Confirm.Binding.{
  Authentic, make_token-verify, verify_token-Authentic, consume_token-once, consume_all,
}
use exchange_mcp.Bridge.Mapping.{Row, Parsed, fold_rows}
use exchange_mcp.Bridge.Mapping.Members.{members_of, occurs, fold_rows-members}
use exchange_mcp.Bridge.Arrival.{Ledger, sweep}
use exchange_mcp.Bridge.Arrival.Order.{Fresh, IsNewOrMoved, Moved, sweep-Fresh}
use exchange_mcp.Tests.Data.{sha_a, live_row}

-- ASCII's part of `\w`.
abbrev is_word : ℕ → Bool
is_word c =
    (leb b'a' c && leb c b'z')
    || ((leb b'A' c && leb c b'Z') || ((leb b'0' c && leb c b'9') || c == b'_'))

abbrev world : World
world =
    mint is_word (pos 100) sha_a (codes "../a b.pdf") (pos 60)
      (record { links = λ t. Link.absent; uploads = λ n. none })

minted_name : safe_name is_word (codes "../.a  b.pdf") ≡ codes "a_b.pdf"
unfolding safe_name split_on substitute lstrip rstrip
minted_name = refl

redeem-Once_example :
    Once is_word sha_a
      (1 ∷ 2 ∷ [])
      world
      (redeem is_word (pos 120) false false sha_a (1 ∷ 2 ∷ []) world)
redeem-Once_example = redeem-Once is_word sha_a (pos 120) false false (1 ∷ 2 ∷ []) world

safe_name-Plain_example :
    Plain is_word refl (safe_name is_word (codes "../a b"))
    × Fronted is_word refl (safe_name is_word (codes "../a b"))
safe_name-Plain_example =
    safe_name-Plain is_word refl
      (refl, (refl, (refl, (refl, (refl, (refl, (refl, (refl, (refl, (refl, tt))))))))))
      (codes "../a b")

-- A codec for one payload, enough for a run.
abbrev preview : Payload
preview = record {
  mailbox = "me";
  action = "send";
  target_id = "d1";
  chash = "h1";
  expiry = pos 700;
}

abbrev codec : Codec
codec = record {
  to_json = λ p. "{}";
  from_json = λ s. some preview;
  to_base64 = λ s. s;
  from_base64 = λ s. some s;
  sign = λ key raw. key;
}

abbrev token : Token
token = Token.halves "{}" "secret"

make_token-verify_example :
    verify_token codec "secret"
      (pos 200)
      (make_token codec "secret" (pos 100) (pos 600) "me" "send" "d1" "h1")
      "me"
      "send"
      "d2"
      "h1"
    ≡ stale
unfolding ◌+ℤ◌
make_token-verify_example =
    make_token-verify codec "secret" (pos 100) (pos 600) (pos 200) "me" "send" "d1" "h1" "me" "send"
      "d2" "h1" refl refl

verify_token-Authentic_example : Authentic codec "secret" (pos 200) token "me" "send" "d1" "h1"
unfolding verify_token
verify_token-Authentic_example =
    verify_token-Authentic codec "secret" (pos 200) "me" "send" "d1" "h1" token refl

abbrev other_token : Token
other_token = Token.whole "unreadable"

consume_token-once_example :
    (consume_token codec (pos 300) (pos 600) token (
      consume_all codec
        (pos 600)
        ((pos 250, other_token) ∷ [])
        (consume_token codec (pos 200) (pos 600) token []).1)).0
    ≡ false
unfolding consume_token
consume_token-once_example =
    consume_token-once codec (pos 600) (pos 200) (pos 300) token ((pos 250, other_token) ∷ []) []
      refl (refl, tt) refl

abbrev loads : Text → Parsed
loads s = Parsed.entries []

abbrev row : Row
row = record {
  native_id = codes "c1";
  subject = none;
  sender_email = some (codes "a@b");
  to_json = none;
}

fold_rows-members_example :
    mem_text
      (codes "a@b")
      (members_of (codes "c1") (fold_rows (λ s. s) (λ s. s) loads (row ∷ []) []))
    ≡ (false || occurs (λ s. s) (λ s. s) loads (codes "a@b") (codes "c1") (row ∷ []))
fold_rows-members_example =
    fold_rows-members (λ s. s) (λ s. s) loads (codes "a@b") (codes "c1") (row ∷ []) []

abbrev ledger : Ledger
ledger = record {
  arrivals =
      record {
        ews_id = "m1";
        seq = 4;
        changekey = some "old";
        first_seen = pos 10;
        first_arrival = pos 10;
        chat_id = none;
      }
      ∷ [];
  next_seq = 5;
}

abbrev mails : List Message
mails = live_row "m1" 100 ∷ live_row "m2" 200 ∷ []

sweep-Fresh_example :
    All
      (λ a. a.seq < (sweep (λ ms. ms) (pos 50) mails ledger).0.next_seq)
      (sweep (λ ms. ms) (pos 50) mails ledger).0.arrivals
    × All
        (λ m.
          IsNewOrMoved ledger.arrivals m
          → Fresh 5 m.ews_id (sweep (λ ms. ms) (pos 50) mails ledger).0.arrivals)
        mails
    × All (Moved 5 (pos 50)) (sweep (λ ms. ms) (pos 50) mails ledger).0.arrivals
sweep-Fresh_example = sweep-Fresh (λ ms. ms) (pos 50) mails ledger (λ P ms h. h) (omega arith, tt)
