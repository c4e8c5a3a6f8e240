-- ===== src/Files/Confirm.antt =====
-- ewsmcp/confirm.py: confirm tokens. A token is its payload's text and a signature; the JSON and
-- base64 codecs and the keyed hash are parameters. Times are whole seconds.
pub mod Binding
use exchange_mcp.Prelude.{
  String, Bool, true, false, not, ◌&&◌, Option, none, some, List, ◌∷◌, if◌then◌else◌, str_eq,
  mem_str, select, map,
}
use exchange_mcp.Prelude.Int.{ℤ, ◌+ℤ◌, ltb_ℤ}

-- The keys `m`, `a`, `t`, `c` and `e`.
pub record Payload : Type 0 where
  pub mailbox : String
  pub action : String
  pub target_id : String
  pub chash : String
  pub expiry : ℤ

-- What `rsplit(".", 1)` makes of a token: no dot in it, or its two halves.
pub data Token : Type 0 where
  whole : String → Token
  halves : String → String → Token

pub data Verdict : Type 0 where
  ok malformed bad_signature expired stale : Verdict

-- JSON and URL-safe base64 with their inverses, `none` where those raise; `sign` is the
-- hexadecimal HMAC of a text under a secret.
pub record Codec : Type 0 where
  pub to_json : Payload → String
  pub from_json : String → Option Payload
  pub to_base64 : String → String
  pub from_base64 : String → Option String
  pub sign : String → String → String

-- `_secret`: the explicit one, the environment's, or the process's; an empty text is none.
abbrev pub given : Option String → Option String
given none = none
given (some s) = if str_eq s "" then none else some s

unfoldable pub secret_of : Option String → Option String → String → String
secret_of explicit environment process = elim (given explicit) [
  | some s ↦ s
  | none ↦ elim (given environment) [ some s ↦ s | none ↦ process ]
]

unfoldable pub make_token : Codec → String → ℤ → ℤ → String → String → String → String → Token
make_token codec secret now ttl mailbox action target_id chash =
    let raw = codec.to_json (record {
      mailbox = mailbox;
      action = action;
      target_id = target_id;
      chash = chash;
      expiry = now +ℤ ttl;
    }) in
    halves (codec.to_base64 raw) (codec.sign secret raw)

abbrev pub same_binding : Payload → String → String → String → String → Bool
same_binding p mailbox action target_id chash =
    str_eq p.mailbox mailbox
    && (str_eq p.action action && (str_eq p.target_id target_id && str_eq p.chash chash))

abbrev pub verify_payload : Bool → ℤ → String → String → String → String → Payload → Verdict
verify_payload signed now mailbox action target_id chash p =
    if not signed
    then bad_signature
    else if ltb_ℤ p.expiry now
    then expired
    else if same_binding p mailbox action target_id chash
    then ok
    else stale

abbrev pub verify_parsed : Bool → ℤ → String → String → String → String → Option Payload → Verdict
verify_parsed signed now mailbox action target_id chash none = malformed
verify_parsed signed now mailbox action target_id chash (some p) =
    verify_payload signed now mailbox action target_id chash p

abbrev pub verify_decoded :
    Codec → String → ℤ → String → String → String → String → String → Option String → Verdict
verify_decoded codec secret now sig mailbox action target_id chash none = malformed
verify_decoded codec secret now sig mailbox action target_id chash (some raw) =
    verify_parsed (str_eq (codec.sign secret raw) sig) now mailbox action target_id chash
      (codec.from_json raw)

unfoldable pub verify_token :
    Codec → String → ℤ → Token → String → String → String → String → Verdict
verify_token codec secret now (whole s) mailbox action target_id chash = malformed
verify_token codec secret now (halves b64 sig) mailbox action target_id chash =
    verify_decoded codec secret now sig mailbox action target_id chash (codec.from_base64 b64)

-- `_CONSUMED`: the signatures that are spent, with the end of each record.
abbrev pub Consumed : Type 0
Consumed = List (String × ℤ)

abbrev pub live_records : ℤ → Consumed → Consumed
live_records now cs = select (λ c. not (ltb_ℤ c.1 now)) cs

abbrev pub signature_of : Token → String
signature_of (whole s) = s
signature_of (halves b64 sig) = sig

abbrev pub parsed : Codec → Option String → Option Payload
parsed codec none = none
parsed codec (some raw) = codec.from_json raw

abbrev pub expiry_or : ℤ → Option Payload → ℤ
expiry_or default none = default
expiry_or default (some p) = p.expiry

-- The token's own expiry, or the longest that one minted now would have.
abbrev pub horizon : Codec → ℤ → ℤ → Token → ℤ
horizon codec now ttl (whole s) = expiry_or (now +ℤ ttl) (parsed codec (codec.from_base64 s))
horizon codec now ttl (halves b64 sig) =
    expiry_or (now +ℤ ttl) (parsed codec (codec.from_base64 b64))

-- `consume_token`; `ttl` is DEFAULT_TTL_SECONDS.
unfoldable pub consume_token : Codec → ℤ → ℤ → Token → Consumed → Bool × Consumed
consume_token codec now ttl token cs =
    let kept = live_records now cs in
    let sig = signature_of token in
    if mem_str sig (map (λ c. c.0) kept)
    then (false, kept)
    else (true, (sig, horizon codec now ttl token) ∷ kept)
