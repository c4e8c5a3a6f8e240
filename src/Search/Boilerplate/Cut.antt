-- ===== src/Search/Boilerplate/Cut.antt =====
-- What the harness of ewsmcp/boilerplate.py may take from a text.
use exchange_mcp.Prelude.{
  min, ℕ, zero, suc, ◌≤◌, ◌<◌, String, ◌≡◌, Option, none, some, List, [], ◌∷◌, take, if◌then◌else◌,
  All,
}
use exchange_mcp.Prelude.Int.{ℤ}
use exchange_mcp.Text.{Text, rstrip}
use exchange_mcp.Search.Boilerplate.{
  Paragraph, tail_start, Hit, Boundary, embedded_hits, allowed, Analysis,
}

abbrev Below : ℕ → Option ℕ → Type 0
Below n none = Unit
Below n (some i) = i < n

abbrev InRange : ℕ → List Hit → Type 0
InRange n hits = All (λ h. Below n h.paragraph_index) hits

abbrev least : Option ℕ → Option ℕ → Option ℕ
least none o = o
least (some c) none = some c
least (some c) (some i) = some (min c i)

-- The least index among the hits of the detectors that `drop` names.
abbrev pub first_hit : String → List Hit → Option ℕ
first_hit setting [] = none
first_hit setting (h ∷ hs) =
    least (if allowed setting h then h.paragraph_index else none) (first_hit setting hs)

-- The i-th paragraph of the list.
abbrev pub At : ℕ → List Paragraph → Paragraph → Type 0
At i [] p = ⊥
At zero (q ∷ qs) p = q ≡ p
At (suc i) (q ∷ qs) p = At i qs p

-- Without an index the text is whole; else it ends in front of that paragraph of the tail, which is
-- not in its first six tenths, and without the white space there.
abbrev pub EndsAt : Text → List Paragraph → Option ℕ → Text → Type 0
EndsAt text tail none t = t ≡ text
EndsAt text tail (some i) t =
    (p : Paragraph) × At i tail p × (tail_start text ≤ p.0) × (t ≡ rstrip (take p.0 text))

abbrev Late : Text → Paragraph → Type 0
Late text p = tail_start text ≤ p.0

module _ {Vector : Type 0} (cosine : Vector → Vector → ℤ) (minus_one threshold : ℤ) where
  module _ (splits : Text → List (ℕ × ℕ)) (embed : List Text → Option (List Vector))
      (refs : List (String × Vector)) (answer : List Text → Boundary) (setting : String) where
    abbrev pub near : List Text → Option (List Hit)
    near = embedded_hits cosine minus_one threshold embed refs

    -- The text ends in front of the first paragraph that was hit, if one was.
    abbrev pub Kept : Text → List Paragraph → Analysis → Type 0
    Kept text tail a =
        (t : Text) × (a.text ≡ some t) × EndsAt text tail (first_hit setting a.hits) t

    abbrev Ranged : ℕ → Option (List Hit) → Type 0
    Ranged n none = Unit
    Ranged n (some hits) = InRange n hits
