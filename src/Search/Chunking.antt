-- ===== src/Search/Chunking.antt =====
-- `chunk_text` of ewsmcp/embeddings.py.
use exchange_mcp.Prelude.{
  ℕ, max, Bool, true, false, ◌&&◌, Option, none, some, List, [], ◌∷◌, ◌++◌, if◌then◌else◌, ◌==◌,
  ◌≡◌, refl, All, arith,
}
use mathlib.Core.List.{reverse}
use exchange_mcp.Text.{Text, strip, is_space}
use exchange_mcp.Search.Slices.{slices, concat, Sized, slices-concat, slices-Sized}

abbrev newline : ℕ
newline = 10

unfoldable pub drop_newlines : Text → Text
drop_newlines [] = []
drop_newlines (c ∷ s) = let rest = drop_newlines s in if c == newline then rest else c ∷ s

-- `text.strip("\n")`
unfoldable pub strip_newlines : Text → Text
unfolding drop_newlines
strip_newlines s = reverse (drop_newlines (reverse (drop_newlines s)))

abbrev pub joined : Text → Text → Text
joined [] body = strip_newlines body
joined (c ∷ s) [] = strip_newlines (c ∷ s)
joined (c ∷ s) (d ∷ t) = (c ∷ s) ++ newline ∷ d ∷ t

-- An empty context counts as none.
abbrev pub with_context : Option Text → Text → Text
with_context none text = text
with_context (some []) text = text
with_context (some (c ∷ s)) text = text ++ newline ∷ newline ∷ c ∷ s

-- The text that is cut.
abbrev pub full_text : Text → Text → Option Text → Text
full_text subject body context = with_context context (joined (strip subject) body)

-- `not text.strip()`
abbrev pub blank : Text → Bool
blank [] = true
blank (c ∷ s) = is_space c && blank s

unfoldable pub chunk_text : Text → Text → ℕ → Option Text → List Text
unfolding slices strip strip_newlines
chunk_text subject body chunk_chars context =
    let text = full_text subject body context in
    if blank text then [] else slices (max 1 chunk_chars) text

-- The chunks of a mail are not empty, have at most the set length (one, if that is zero), and are,
-- one behind the other, the text that the source joins of the subject without the space around it,
-- the body and the context. A text of white space alone has none.
pub chunk_text-Cut :
    (subject body : Text) (chunk_chars : ℕ) (context : Option Text)
    → All (Sized (max 1 chunk_chars)) (chunk_text subject body chunk_chars context)
      × (concat (chunk_text subject body chunk_chars context)
          ≡ (if blank (full_text subject body context) then [] else full_text subject body context))
unfolding chunk_text
chunk_text-Cut subject body chunk_chars context =
    go (full_text subject body context) (blank (full_text subject body context))
  where
    go :
        (text : Text) (b : Bool)
        → All (Sized (max 1 chunk_chars)) (if b then [] else slices (max 1 chunk_chars) text)
          × (concat (if b then [] else slices (max 1 chunk_chars) text) ≡ (if b then [] else text))
    go text true = (tt, refl)
    go text false = (
      slices-Sized (max 1 chunk_chars) text (omega arith),
      slices-concat (max 1 chunk_chars) text (omega arith),
    )
