-- ===== src/Tests/Capture.antt =====
-- Captures of one message with an attachment, on a disk that works.
use exchange_mcp.Prelude.{String, ◌≡◌, refl, inl, true, false, none, some, [], ◌∷◌}
use exchange_mcp.Prelude.Int.{pos}
use exchange_mcp.Text.{Text}
use exchange_mcp.Archive.Files.{is_sha}
use exchange_mcp.Archive.Blobs.{Directory, Disk, write_verified, store_bytes}
use exchange_mcp.Archive.Blobs.Intact.{Intact, store_bytes-Intact}
use exchange_mcp.Store.Archive.{mark_captured, replace_attachments, reset_to_live}
use exchange_mcp.Archive.Capture.{Environment, World, Item, file, capture_one, store_parts}
use exchange_mcp.Archive.Capture.Whole.{Whole}
use exchange_mcp.Tests.Data.{sha_a, sha_b, live_row, store_of}

abbrev empty : Directory
empty = λ name. none

abbrev working : Disk
working = record { stored = λ bytes. some bytes; write_raises = false; replace_raises = false }

-- A hash for the two texts of the tests.
abbrev digest : Text → String
digest [] = sha_a
digest (c ∷ s) = sha_b

store_bytes-Intact_example : Intact digest (store_bytes digest working "tmp-1" (65 ∷ []) empty).1
unfolding is_sha
store_bytes-Intact_example =
    store_bytes-Intact digest working "tmp-1" refl (65 ∷ []) empty (λ n e. inl refl)

abbrev environment : Environment
environment = record {
  now = pos 1000;
  sha256 = digest;
  disk = λ bytes. working;
  tmp = λ sha. "tmp-1";
  mime_path = λ sha. sha;
  gateway = none;
  others = λ i s. s;
  mark_down = λ i. false;
  inventory_down = λ i. false;
  reset_down = λ i. false;
}

abbrev letter : Item
letter = record {
  size = some 10;
  mime_content = some [];
  changekey = some "ck1";
  parts = file (some "a.txt") none (some (65 ∷ [])) false ∷ [];
}

abbrev world : World
world = record {
  store = store_of (live_row "m1" 100 ∷ live_row "m2" 100 ∷ []);
  mimes = empty;
  blobs = empty;
}

capture_succeeds : (capture_one environment "m1" letter world).0 ≡ true
unfolding capture_one store_parts store_bytes write_verified is_sha mark_captured
    replace_attachments reset_to_live
capture_succeeds = refl
