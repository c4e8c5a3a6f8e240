-- ===== src/Archive/Capture/Batch.antt =====
-- `_capture_batch` and `run` of ewsmcp/archive/capture.py.
use exchange_mcp.Prelude.{
  ℕ, suc, ◌*◌, String, Bool, true, false, not, ◌&&◌, Option, none, some, List, [], ◌∷◌, ◌++◌,
  if◌then◌else◌, length, ltb, ◌==◌, take, map,
}
use exchange_mcp.Store.Rows.{Message}
use exchange_mcp.Store.Archive.{Selection, archive_candidates, archive_candidate_count}
use exchange_mcp.Archive.Capture.{Environment, World, Fetched, missing, item, capture_one}

pub record Tally : Type 0 where
  pub captured : ℕ
  pub failed : ℕ
  pub too_large : List String

abbrev pub over : ℕ → Option ℕ → Bool
over max_bytes none = false
over max_bytes (some size) = not (size == 0) && ltb max_bytes size

abbrev pub count_capture : Bool → Tally → Tally
count_capture true t = record t { captured = suc t.captured }
count_capture false t = record t { failed = suc t.failed }

abbrev pub count_too_large : String → Tally → Tally
count_too_large i t = record t { too_large = i ∷ t.too_large }

abbrev pub then_tally : (Tally → Tally) → Option Tally × World → Option Tally × World
then_tally f (none, w) = (none, w)
then_tally f (some t, w) = (some (f t), w)

-- One item, then the rest.
abbrev pub capture_item :
    Environment
    → ℕ
    → String
    → Fetched
    → (World → Option Tally × World)
    → World
    → Option Tally × World
capture_item env max_bytes raw_id (missing e) next w = then_tally (count_capture false) (next w)
capture_item env max_bytes raw_id (item it) next w =
    let (ok, w') = capture_one env raw_id it w in
    if over max_bytes it.size
    then then_tally (count_too_large raw_id) (next w)
    else then_tally (count_capture ok) (next w')

-- `_capture_batch`; `none`: `zip(…, strict=True)` raises after the shorter of the two.
unfoldable pub capture_batch :
    Environment → ℕ → List String → List Fetched → World → Option Tally × World
unfolding capture_one
capture_batch env max_bytes [] [] w =
    (some (record { captured = 0; failed = 0; too_large = [] }), w)
capture_batch env max_bytes [] (f ∷ fs) w = (none, w)
capture_batch env max_bytes (i ∷ ids) [] w = (none, w)
capture_batch env max_bytes (i ∷ ids) (f ∷ fs) w =
    capture_item env max_bytes i f (λ w'. capture_batch env max_bytes ids fs w') w

pub record Outcome : Type 0 where
  pub candidates : ℕ
  pub captured : ℕ
  pub failed : ℕ
  pub too_large : ℕ
  pub sample : List String
  pub stopped : Bool

abbrev pub with_tally : Outcome → Option Tally × World → Option Outcome × World
with_tally out (none, w) = (none, w)
with_tally out (some t, w) = (
  some (record out {
    captured = t.captured;
    failed = t.failed;
    too_large = length t.too_large;
    sample = out.sample ++ t.too_large;
  }),
  w,
)

abbrev pub capture_fetched :
    Environment
    → ℕ
    → List Message
    → Option (List Fetched)
    → Outcome
    → World
    → Option Outcome × World
capture_fetched env max_bytes rows none out w = (none, w)
capture_fetched env max_bytes rows (some fs) out w =
    with_tally out (capture_batch env max_bytes (map (λ m. m.ews_id) rows) fs w)

abbrev pub capture_rows :
    Environment → ℕ → Bool → Bool → List Message → Outcome → World → Option Outcome × World
capture_rows env max_mb dry_run disk_full [] out w = (some out, w)
capture_rows env max_mb true disk_full (row ∷ rows) out w = (some out, w)
capture_rows env max_mb false true (row ∷ rows) out w = (some (record out { stopped = true }), w)
capture_rows env max_mb false false (row ∷ rows) out w =
    capture_fetched env (max_mb * 1_048_576) (row ∷ rows) env.gateway out w

-- `Capturer.run`: the selection, the dry run, the free space, the batch.
unfoldable pub run :
    (String → String)
    → Environment
    → ℕ
    → Selection
    → ℕ
    → Bool
    → Bool
    → World
    → Option Outcome × World
unfolding archive_candidates archive_candidate_count capture_batch
run fold_category env max_mb sel limit dry_run disk_full w =
    let rows = archive_candidates fold_category sel limit w.store in
    capture_rows env max_mb dry_run disk_full rows
      (record {
        candidates = archive_candidate_count fold_category sel w.store;
        captured = 0;
        failed = 0;
        too_large = 0;
        sample = map (λ m. m.ews_id) (take 10 rows);
        stopped = false;
      })
      w
