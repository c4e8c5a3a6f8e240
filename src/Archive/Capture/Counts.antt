-- ===== src/Archive/Capture/Counts.antt =====
-- The counters of a batch of ewsmcp/archive/capture.py.
use exchange_mcp.Prelude.{
  ℕ, suc, ◌+◌, String, ◌≡◌, refl, Bool, true, false, Option, none, some, List, [], ◌∷◌, length,
  arith, if◌then◌else◌,
}
use exchange_mcp.Archive.Capture.{Environment, World, Fetched, capture_one}
use exchange_mcp.Archive.Capture.Batch.{
  Tally, capture_batch, then_tally, count_capture, count_too_large, capture_item, over,
}

-- The batch returned, with one verdict for each of `n` ids.
abbrev pub Tallied : ℕ → Option Tally → Type 0
Tallied n none = ⊥
Tallied n (some t) = t.captured + t.failed + length t.too_large ≡ n

then-Tallied :
    (n : ℕ) (i : String) (b : Bool) (r : Option Tally × World)
    → Tallied n r.0
    → Tallied (suc n) (then_tally (count_capture b) r).0
      × Tallied (suc n) (then_tally (count_too_large i) r).0
then-Tallied n i b (none, w) h = absurd h
then-Tallied n i true (some t, w) h = (omega (arith, h), omega (arith, h))
then-Tallied n i false (some t, w) h = (omega (arith, h), omega (arith, h))

Tallied-if :
    (n : ℕ) (b : Bool) (r s : Option Tally × World)
    → Tallied n r.0
    → Tallied n s.0
    → Tallied n (if b then r else s).0
Tallied-if n true r s h k = h
Tallied-if n false r s h k = k

capture_item-Tallied :
    (env : Environment) (max_bytes : ℕ) (i : String) (f : Fetched)
    (next : World → Option Tally × World) (n : ℕ)
    → ((w : World) → Tallied n (next w).0)
    → (w : World) → Tallied (suc n) (capture_item env max_bytes i f next w).0
capture_item-Tallied env max_bytes i (Fetched.missing e) next n h w =
    (then-Tallied n i false (next w) (h w)).0
capture_item-Tallied env max_bytes i (Fetched.item it) next n h w =
    let one = capture_one env i it w in
    Tallied-if (suc n) (over max_bytes it.size) _ _ (then-Tallied n i false (next w) (h w)).1
      (then-Tallied n i one.0 (next one.1) (h one.1)).0

-- If the gateway answers for every id, the batch returns whatever fails in it, and captured +
-- failed + too large is the number of ids.
pub capture_batch-Tallied :
    (env : Environment) (max_bytes : ℕ) (ids : List String) (fs : List Fetched)
    → length ids ≡ length fs
    → (w : World) → Tallied (length ids) (capture_batch env max_bytes ids fs w).0
unfolding capture_batch
capture_batch-Tallied env max_bytes [] [] e w = refl
capture_batch-Tallied env max_bytes [] (f ∷ fs) e w = absurd (omega (arith, e))
capture_batch-Tallied env max_bytes (i ∷ ids) [] e w = absurd (omega (arith, e))
capture_batch-Tallied env max_bytes (i ∷ ids) (f ∷ fs) e w =
    capture_item-Tallied env max_bytes i f (λ w'. capture_batch env max_bytes ids fs w')
      (length ids) (λ w'. capture_batch-Tallied env max_bytes ids fs (omega (arith, e)) w') w
