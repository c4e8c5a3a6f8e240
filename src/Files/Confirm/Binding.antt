-- ===== src/Files/Confirm/Binding.antt =====
-- What a confirm token of ewsmcp/confirm.py stands for.
use mathlib.Core.Bool.{false≢true}
use exchange_mcp.Prelude.{
  List, [], ap, ◌∙◌, ◌⊎◌, inl, inr, All, if_true, or_left, or_right, String, ◌≡◌, refl, sym, Bool,
  true, false, not, ◌&&◌, Option, none, some, ◌∷◌, if◌then◌else◌, str_eq, str_eq_refl, str_eq-eq,
  mem_str, map,
}
use exchange_mcp.Prelude.Int.{ℤ, ◌+ℤ◌, ltb_ℤ}
use exchange_mcp.Files.Confirm.{
  Payload, Token, halves, whole, ok, bad_signature, expired, stale, Codec, make_token, verify_token,
  verify_decoded, verify_parsed, verify_payload, same_binding, Consumed, consume_token,
  live_records, signature_of, horizon,
}

abbrev pub minted_payload : ℤ → ℤ → String → String → String → String → Payload
minted_payload minted ttl m a t c = record {
  mailbox = m;
  action = a;
  target_id = t;
  chash = c;
  expiry = minted +ℤ ttl;
}

-- A token minted with a codec that reads back the payload it wrote is authentic: it is refused as
-- expired after its time, as stale for any other mailbox, action, target or content, and else
-- accepted.
pub make_token-verify :
    (codec : Codec) (secret : String) (minted ttl now : ℤ) (m a t c m' a' t' c' : String)
    → codec.from_json (codec.to_json (minted_payload minted ttl m a t c))
      ≡ some (minted_payload minted ttl m a t c)
    → codec.from_base64 (codec.to_base64 (codec.to_json (minted_payload minted ttl m a t c)))
      ≡ some (codec.to_json (minted_payload minted ttl m a t c))
    → verify_token codec secret now (make_token codec secret minted ttl m a t c) m' a' t' c' ≡ (
        if ltb_ℤ (minted +ℤ ttl) now
        then expired
        else if str_eq m m' && (str_eq a a' && (str_eq t t' && str_eq c c'))
        then ok
        else stale)
unfolding make_token verify_token
make_token-verify codec secret minted ttl now m a t c m' a' t' c' json base64 = rw base64 (
    rw json (
      rw (str_eq_refl (codec.sign secret (codec.to_json (minted_payload minted ttl m a t c))))
        refl))

-- What an accepted token carries.
abbrev pub Authentic : Codec → String → ℤ → Token → String → String → String → String → Type 0
Authentic codec secret now (whole s) m a t c = ⊥
Authentic codec secret now (halves b64 sig) m a t c =
    (raw : String) × (p : Payload) × (codec.from_base64 b64 ≡ some raw)
    × (codec.from_json raw ≡ some p)
    × (str_eq (codec.sign secret raw) sig ≡ true)
    × (ltb_ℤ p.expiry now ≡ false)
    × (p.mailbox ≡ m)
    × (p.action ≡ a)
    × (p.target_id ≡ t)
    × (p.chash ≡ c)

module _ (codec : Codec) (secret : String) (now : ℤ) (m a t c : String) where
  payload-ok :
      (signed : Bool) (p : Payload)
      → verify_payload signed now m a t c p ≡ ok
      → (signed ≡ true) × (ltb_ℤ p.expiry now ≡ false) × (same_binding p m a t c ≡ true)
  payload-ok signed p = go signed (ltb_ℤ p.expiry now) (same_binding p m a t c)
    where
      go :
          (x y z : Bool)
          → (if not x then bad_signature else if y then expired else if z then ok else stale) ≡ ok
          → (x ≡ true) × (y ≡ false) × (z ≡ true)
      go true false true h = (refl, refl, refl)
      go true false false h = cc
      go true true z h = cc
      go false y z h = cc

  all_four :
      (w x y z : Bool)
      → (w && (x && (y && z))) ≡ true
      → (w ≡ true) × (x ≡ true) × (y ≡ true) × (z ≡ true)
  all_four true true true true h = (refl, refl, refl, refl)
  all_four true true true false h = absurd (false≢true h)
  all_four true true false z h = absurd (false≢true h)
  all_four true false y z h = absurd (false≢true h)
  all_four false x y z h = absurd (false≢true h)

  verify_parsed-Authentic :
      (b64 sig raw : String)
      → codec.from_base64 b64 ≡ some raw
      → (o : Option Payload) → codec.from_json raw ≡ o
      → verify_parsed (str_eq (codec.sign secret raw) sig) now m a t c o ≡ ok
      → Authentic codec secret now (halves b64 sig) m a t c
  verify_parsed-Authentic b64 sig raw e none f h = cc
  verify_parsed-Authentic b64 sig raw e (some p) f h =
      let (signed, fresh, bound) = payload-ok (str_eq (codec.sign secret raw) sig) p h in
      let (em, ea, et, ec) =
        all_four (str_eq p.mailbox m) (str_eq p.action a) (str_eq p.target_id t) (str_eq p.chash c)
          bound in
      (
        raw,
        p,
        e,
        f,
        signed,
        fresh,
        str_eq-eq p.mailbox m em,
        str_eq-eq p.action a ea,
        str_eq-eq p.target_id t et,
        str_eq-eq p.chash c ec,
      )

  -- Only a token whose payload is signed under the secret, has not expired and names exactly this
  -- mailbox, action, target and content is accepted.
  pub verify_token-Authentic :
      (token : Token)
      → verify_token codec secret now token m a t c ≡ ok
      → Authentic codec secret now token m a t c
  unfolding verify_token
  verify_token-Authentic (whole s) h = cc
  verify_token-Authentic (halves b64 sig) h = decoded (codec.from_base64 b64) refl h
    where
      decoded :
          (o : Option String)
          → codec.from_base64 b64 ≡ o
          → verify_decoded codec secret now sig m a t c o ≡ ok
          → Authentic codec secret now (halves b64 sig) m a t c
      decoded none e k = cc
      decoded (some raw) e k = verify_parsed-Authentic b64 sig raw e (codec.from_json raw) refl k

-- The registry has the signature with the end of its record.
abbrev Holds : String → ℤ → Consumed → Type 0
Holds sig end [] = ⊥
Holds sig end (r ∷ rs) = (r ≡ (sig, end)) ⊎ Holds sig end rs

-- The calls that follow, each at its time.
abbrev pub consume_all : Codec → ℤ → List (ℤ × Token) → Consumed → Consumed
consume_all codec ttl [] cs = cs
consume_all codec ttl (c ∷ calls) cs =
    consume_all codec ttl calls (consume_token codec c.0 ttl c.1 cs).1

Holds-live_records :
    (sig : String) (end now : ℤ) (cs : Consumed)
    → ltb_ℤ end now ≡ false
    → Holds sig end cs
    → Holds sig end (live_records now cs)
Holds-live_records sig end now [] e h = h
Holds-live_records sig end now (r ∷ rs) e h =
    go (ltb_ℤ r.1 now) refl h (Holds-live_records sig end now rs e)
  where
    go :
        (b : Bool)
        → ltb_ℤ r.1 now ≡ b
        → (r ≡ (sig, end)) ⊎ Holds sig end rs
        → (Holds sig end rs → Holds sig end (live_records now rs))
        → Holds sig end (if not b then r ∷ live_records now rs else live_records now rs)
    go true f (inl k) ih =
        absurd (false≢true (sym e ∙ ap (λ (q : String × ℤ). ltb_ℤ q.1 now) (sym k) ∙ f))
    go true f (inr k) ih = ih k
    go false f (inl k) ih = inl k
    go false f (inr k) ih = inr (ih k)

abbrev either : Bool → Consumed → Consumed → Bool × Consumed
either b kept new = if b then (false, kept) else (true, new)

module _ (codec : Codec) (ttl : ℤ) where
  consume_token-Holds :
      (sig : String) (end now : ℤ) (token : Token) (cs : Consumed)
      → ltb_ℤ end now ≡ false
      → Holds sig end cs
      → Holds sig end (consume_token codec now ttl token cs).1
  unfolding consume_token
  consume_token-Holds sig end now token cs e h =
      go (mem_str (signature_of token) (map (λ (r : String × ℤ). r.0) (live_records now cs)))
    where
      kept : Holds sig end (live_records now cs)
      kept = Holds-live_records sig end now cs e h

      go :
          (b : Bool)
          → Holds sig end
              (either b
                (live_records now cs)
                ((signature_of token, horizon codec now ttl token) ∷ live_records now cs)).1
      go true = kept
      go false = inr kept

  consume_all-Holds :
      (sig : String) (end : ℤ) (calls : List (ℤ × Token)) (cs : Consumed)
      → All (λ (c : ℤ × Token). ltb_ℤ end c.0 ≡ false) calls
      → Holds sig end cs
      → Holds sig end (consume_all codec ttl calls cs)
  consume_all-Holds sig end [] cs e h = h
  consume_all-Holds sig end (c ∷ calls) cs e h =
      consume_all-Holds sig end calls (consume_token codec c.0 ttl c.1 cs).1 e.1
        (consume_token-Holds sig end c.0 c.1 cs e.0 h)

  Holds-mem :
      (sig : String) (end : ℤ) (cs : Consumed)
      → Holds sig end cs
      → mem_str sig (map (λ (r : String × ℤ). r.0) cs) ≡ true
  Holds-mem sig end [] h = absurd h
  Holds-mem sig end (r ∷ rs) (inl k) =
      or_left (str_eq r.0 sig) _ (ap (λ (q : String × ℤ). str_eq q.0 sig) k ∙ str_eq_refl sig)
  Holds-mem sig end (r ∷ rs) (inr k) = or_right (str_eq r.0 sig) _ (Holds-mem sig end rs k)

  first-Holds :
      (now : ℤ) (token : Token) (cs : Consumed)
      → (consume_token codec now ttl token cs).0 ≡ true
      → Holds
          (signature_of token)
          (horizon codec now ttl token)
          (consume_token codec now ttl token cs).1
  unfolding consume_token
  first-Holds now token cs =
      go (mem_str (signature_of token) (map (λ (r : String × ℤ). r.0) (live_records now cs)))
    where
      new : Consumed
      new = (signature_of token, horizon codec now ttl token) ∷ live_records now cs

      go :
          (b : Bool)
          → (either b (live_records now cs) new).0 ≡ true
          → Holds
              (signature_of token)
              (horizon codec now ttl token)
              (either b (live_records now cs) new).1
      go true h = absurd (false≢true h)
      go false h = inl refl

  held-refused :
      (later end : ℤ) (token : Token) (cs : Consumed)
      → ltb_ℤ end later ≡ false
      → Holds (signature_of token) end cs
      → (consume_token codec later ttl token cs).0 ≡ false
  unfolding consume_token
  held-refused later end token cs e h =
      ap (λ (r : Bool × Consumed). r.0)
        (if_true
          (mem_str (signature_of token) (map (λ (r : String × ℤ). r.0) (live_records later cs)))
          (false, live_records later cs)
          (true, (signature_of token, horizon codec later ttl token) ∷ live_records later cs)
          (Holds-mem (signature_of token) end (live_records later cs)
            (Holds-live_records (signature_of token) end later cs e h)))

  -- A token that was consumed is refused, whatever tokens are consumed in between, as long as its
  -- record stands: until its own expiry, or the default time to live if it cannot be read.
  pub consume_token-once :
      (now later : ℤ) (token : Token) (calls : List (ℤ × Token)) (cs : Consumed)
      → (consume_token codec now ttl token cs).0 ≡ true
      → All (λ (c : ℤ × Token). ltb_ℤ (horizon codec now ttl token) c.0 ≡ false) calls
      → ltb_ℤ (horizon codec now ttl token) later ≡ false
      → (consume_token codec later ttl token
          (consume_all codec ttl calls (consume_token codec now ttl token cs).1)).0
        ≡ false
  consume_token-once now later token calls cs h times e =
      held-refused later (horizon codec now ttl token) token
        (consume_all codec ttl calls (consume_token codec now ttl token cs).1) e
        (consume_all-Holds (signature_of token) (horizon codec now ttl token) calls
          (consume_token codec now ttl token cs).1 times (first-Holds now token cs h))
