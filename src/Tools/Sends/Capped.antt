-- ===== src/Tools/Sends/Capped.antt =====
-- The number of receipts that ewsmcp/tools/writes.py keeps.
use exchange_mcp.Prelude.{
  ℕ, zero, suc, ◌≤◌, ◌<◌, ◌≡◌, refl, arith, Bool, true, false, ◌||◌, [], ◌∷◌, if◌then◌else◌, leb,
  length, or_left, or_right,
}
use exchange_mcp.Prelude.Int.{ℤ, ltb_ℤ}
use exchange_mcp.Text.{Text, same_text, same_text_refl}
use exchange_mcp.Tools.Sends.{
  Receipt, Memo, oldest_of, without_key, evict, trim, assign, idempotency_put,
}

module _ {R : Type 0} where
  abbrev has_key : Text → Memo R → Bool
  has_key key [] = false
  has_key key ((k, r) ∷ rest) = same_text k key || has_key key rest

  without_key-le : (key : Text) (m : Memo R) → length (without_key key m) ≤ length m
  without_key-le key [] = omega arith
  without_key-le key ((k, r) ∷ rest) = go (same_text k key) (without_key-le key rest)
    where
      go :
          (b : Bool)
          → length (without_key key rest) ≤ length rest
          → length (if b then without_key key rest else (k, r) ∷ without_key key rest)
            ≤ suc (length rest)
      go true h = omega arith
      go false h = omega arith

  without_key-lt :
      (key : Text) (m : Memo R) → has_key key m ≡ true → length (without_key key m) < length m
  without_key-lt key [] h = cc
  without_key-lt key ((k, r) ∷ rest) h =
      go (same_text k key) h (without_key-le key rest) (without_key-lt key rest)
    where
      go :
          (b : Bool)
          → (b || has_key key rest) ≡ true
          → length (without_key key rest) ≤ length rest
          → (has_key key rest ≡ true → length (without_key key rest) < length rest)
          → length (if b then without_key key rest else (k, r) ∷ without_key key rest)
            < suc (length rest)
      go true e le lt = omega (arith, le)
      go false e le lt = omega (arith, lt e)

  -- The oldest receipt is the first one or among the others.
  oldest_of-has :
      (k : Text) (t : ℤ) (m : Memo R)
      → (same_text k (oldest_of k t m) || has_key (oldest_of k t m) m) ≡ true
  oldest_of-has k t [] = or_left (same_text k k) false (same_text_refl k)
  oldest_of-has k t ((k', r) ∷ rest) =
      go (ltb_ℤ r.ts t) (oldest_of-has k t rest) (oldest_of-has k' r.ts rest)
    where
      skip : (a b c : Bool) → (a || c) ≡ true → (a || (b || c)) ≡ true
      skip true b c h = refl
      skip false b c h = or_right b c h

      go :
          (b : Bool)
          → (same_text k (oldest_of k t rest) || has_key (oldest_of k t rest) rest) ≡ true
          → (same_text k' (oldest_of k' r.ts rest) || has_key (oldest_of k' r.ts rest) rest) ≡ true
          → (let old = (if b then oldest_of k' r.ts rest else oldest_of k t rest) in
              (same_text k old || (same_text k' old || has_key old rest)))
            ≡ true
      go true kept moved = or_right (same_text k (oldest_of k' r.ts rest)) _ moved
      go false kept moved =
          skip (same_text k (oldest_of k t rest)) (same_text k' (oldest_of k t rest))
            (has_key (oldest_of k t rest) rest) kept

  evict-lt : (m : Memo R) → 1 ≤ length m → length (evict m) < length m
  evict-lt [] h = absurd (omega arith)
  evict-lt ((k, r) ∷ rest) h =
      without_key-lt (oldest_of k r.ts rest) ((k, r) ∷ rest) (oldest_of-has k r.ts rest)

  trim-lt : (fuel : ℕ) (m : Memo R) → length m ≤ fuel → length (trim fuel m) < 512
  unfolding trim
  trim-lt zero m h = omega arith
  trim-lt (suc fuel) m h =
      go (leb 512 (length m)) refl (λ k. trim-lt fuel (evict m) (omega (arith, h, evict-lt m k)))
    where
      go :
          (b : Bool)
          → leb 512 (length m) ≡ b
          → (1 ≤ length m → length (trim fuel (evict m)) < 512)
          → length (if b then trim fuel (evict m) else m) < 512
      go true e f = f (ground arith)
      go false e f = ground arith

  pub assign-le :
      (key : Text) (r : Receipt R) (m : Memo R) → length (assign key r m) ≤ suc (length m)
  assign-le key r [] = omega arith
  assign-le key r ((k, x) ∷ rest) = go (same_text k key) (assign-le key r rest)
    where
      go :
          (b : Bool)
          → length (assign key r rest) ≤ suc (length rest)
          → length (if b then (k, r) ∷ rest else (k, x) ∷ assign key r rest)
            ≤ suc (suc (length rest))
      go true h = omega arith
      go false h = omega arith

  -- Whatever was kept, at most 512 receipts are after a new one: the loop that evicts the oldest ends,
  -- and leaves room for it.
  pub idempotency_put-le :
      (key : Text) (r : Receipt R) (m : Memo R) → length (idempotency_put key r m) ≤ 512
  unfolding idempotency_put
  idempotency_put-le key r m =
      omega (arith, assign-le key r (trim (length m) m), trim-lt (length m) m (omega arith))
