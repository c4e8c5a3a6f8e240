-- ===== src/Tests/Downloads.antt =====
-- A download link for one file.
use exchange_mcp.Prelude.{true, false, [], ◌∷◌, ◌≡◌, refl}
use exchange_mcp.Prelude.Int.{pos}
use exchange_mcp.Text.{Text, codes}
use exchange_mcp.Files.Uploads.{is_token}
use exchange_mcp.Files.Downloads.{Target, Link, Links, served, redeem, allowed_root}
use exchange_mcp.Files.Downloads.Contained.{Contained, redeem-Contained}
use exchange_mcp.Tests.Data.{sha_a}

-- Paths whose text is one component under `/data/mime`.
abbrev resolve : Text → Target
resolve path = codes "data" ∷ codes "mime" ∷ path ∷ []

abbrev links : Links
links = λ t. Link.valid (record { path = codes "a.eml"; expires_at = pos 100; used = false })

redeem_serves :
    (redeem resolve (codes "data" ∷ []) (λ p. true) (pos 50) false sha_a links).0
    ≡ served (resolve (codes "a.eml"))
unfolding redeem is_token allowed_root
redeem_serves = refl

redeem-Contained_example :
    Contained resolve
      (codes "data" ∷ [])
      (λ p. true)
      sha_a
      (redeem resolve (codes "data" ∷ []) (λ p. true) (pos 50) false sha_a links)
redeem-Contained_example =
    redeem-Contained resolve (codes "data" ∷ []) (λ p. true) sha_a (pos 50) false links
