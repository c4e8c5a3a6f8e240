-- ===== src/Search/Slices.antt =====
-- `xs[i:i + size]` for `i` in `range(0, len(xs), size)`: the chunks and the batches of
-- ewsmcp/embeddings.py.
use exchange_mcp.Prelude.{
  ℕ, zero, suc, ◌≤◌, ◌≡◌, refl, ap, ◌∙◌, List, [], ◌∷◌, ◌++◌, length, take, drop, take-append-drop,
  length-take, length-drop, All, arith,
}

module _ {ℓ} {A : Type ℓ} where
  -- One unit of fuel for each element is enough, as each slice takes one at least.
  unfoldable pub slices_on : ℕ → ℕ → List A → List (List A)
  slices_on fuel size [] = []
  slices_on zero size (x ∷ xs) = []
  slices_on (suc fuel) size (x ∷ xs) = take size (x ∷ xs) ∷ slices_on fuel size (drop size (x ∷ xs))

  unfoldable pub slices : ℕ → List A → List (List A)
  unfolding slices_on
  slices size xs = slices_on (length xs) size xs

  abbrev pub concat : List (List A) → List A
  concat [] = []
  concat (xs ∷ xss) = xs ++ concat xss

  slices_on-concat :
      (fuel size : ℕ) (xs : List A)
      → 1 ≤ size
      → length xs ≤ fuel
      → concat (slices_on fuel size xs) ≡ xs
  unfolding slices_on
  slices_on-concat fuel size [] h f = refl
  slices_on-concat zero size (x ∷ xs) h f = absurd (omega (arith, f))
  slices_on-concat (suc fuel) zero (x ∷ xs) h f = absurd (omega (arith, h))
  slices_on-concat (suc fuel) (suc size) (x ∷ xs) h f =
      ap (λ ys. take (suc size) (x ∷ xs) ++ ys)
        (slices_on-concat fuel (suc size) (drop size xs) h (omega (arith, f, length-drop size xs)))
      ∙ take-append-drop (suc size) (x ∷ xs)

  pub slices-concat : (size : ℕ) (xs : List A) → 1 ≤ size → concat (slices size xs) ≡ xs
  unfolding slices
  slices-concat size xs h = slices_on-concat (length xs) size xs h (omega arith)

  -- A slice is not empty, and holds at most `size` elements.
  abbrev pub Sized : ℕ → List A → Type 0
  Sized size xs = (1 ≤ length xs) × (length xs ≤ size)

  slices_on-Sized :
      (fuel size : ℕ) (xs : List A) → 1 ≤ size → All (Sized size) (slices_on fuel size xs)
  unfolding slices_on
  slices_on-Sized fuel size [] h = tt
  slices_on-Sized zero size (x ∷ xs) h = tt
  slices_on-Sized (suc fuel) size (x ∷ xs) h =
      let l = length-take size (x ∷ xs) in
      ((omega (arith, l, h), omega (arith, l)), slices_on-Sized fuel size _ h)

  pub slices-Sized : (size : ℕ) (xs : List A) → 1 ≤ size → All (Sized size) (slices size xs)
  unfolding slices
  slices-Sized size xs h = slices_on-Sized (length xs) size xs h
