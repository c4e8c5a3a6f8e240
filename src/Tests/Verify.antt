-- ===== src/Tests/Verify.antt =====
-- A pass of the verifier over two captured rows, one of which changed upstream.
use exchange_mcp.Prelude.{ℕ, ◌≡◌, refl, false, Option, none, some, List, [], ◌∷◌}
use exchange_mcp.Prelude.Int.{pos}
use exchange_mcp.Store.Rows.{Store, order_by}
use exchange_mcp.Store.Archive.{captured_rows, mark_verified, reset_to_live, attachments_for}
use exchange_mcp.Archive.Files.{is_sha, check_copy}
use exchange_mcp.Archive.Verify.{Environment, Outcome, item, judge, evaluate, apply, pair_up, run}
use exchange_mcp.Archive.Verify.Counts.{Counted, run-Counted}
use exchange_mcp.Archive.Verify.Promotions.{Passed, run-Passed}
use exchange_mcp.Tests.Data.{captured_row, store_of}

abbrev store : Store
store = store_of (captured_row "m1" 100 ∷ captured_row "m2" 200 ∷ [])

abbrev environment : Environment
environment = record {
  now = pos 1000;
  disk = record { mime = λ s. some s; blob = λ s. none };
  attachments_down = λ i. false;
  gateway = some (item (some "ck1") ∷ item (some "ck2") ∷ []);
  others = λ s. s;
  write_down = λ i. false;
}

abbrev counts_of : Option Outcome → List ℕ
counts_of none = []
counts_of (some o) = o.verified ∷ o.reset ∷ o.failed ∷ []

run_counts : counts_of (run environment 25 store).0 ≡ 1 ∷ 1 ∷ 0 ∷ []
unfolding run captured_rows order_by pair_up evaluate judge is_sha check_copy attachments_for apply
    mark_verified reset_to_live
run_counts = refl

run-Counted_example : Counted 2 (run environment 25 store).0
unfolding captured_rows order_by
run-Counted_example = run-Counted environment (λ i. refl) 25 store refl

run-Passed_example : Passed environment 25 store (run environment 25 store).1
run-Passed_example = run-Passed environment 25 store
