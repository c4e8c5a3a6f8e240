-- ===== src/Search/Gemini/Served.antt =====
-- The vectors that the embedder of ewsmcp/embeddings.py returns once the endpoint serves it.
use exchange_mcp.Prelude.{
  ℕ, zero, suc, ◌*◌, ◌≤◌, ◌≡◌, refl, sym, ap, ◌∙◌, ◌⊎◌, inl, inr, true, false, Option, none, some,
  List, [], ◌∷◌, map, map-append, length, arith, if_true, if_false, leb, All,
}
use exchange_mcp.Text.{Text}
use exchange_mcp.Search.Slices.{slices, concat, slices-concat}
use exchange_mcp.Search.Gemini.{
  Response, Outcome, Settings, is_transient, new_embedder, append_vectors, vectors_of, after_post,
  try_again, attempts, embed_batch, extend, embed_batches, embed,
}

module _ {Number : Type 0} (vector : Text → List Number) (dims : ℕ) where
  -- The response has the vectors of the texts, in their order.
  abbrev pub Good : List Text → Option (Response Number) → Type 0
  Good texts none = ⊥
  Good texts (some r) =
      (is_transient r.status ≡ false)
      × (leb 400 r.status ≡ false)
      × (vectors_of dims (length texts) r.embeddings ≡ some (map vector texts))

  -- A failure that may pass.
  abbrev pub Passing : Option (Response Number) → Type 0
  Passing none = Unit
  Passing (some r) = is_transient r.status ≡ true

  -- Within `left` requests from the `k`-th on, one is answered, and those before it fail in a way
  -- that may pass.
  abbrev pub Served : (ℕ → List Text → Option (Response Number)) → ℕ → ℕ → List Text → Type 0
  Served client zero k texts = ⊥
  Served client (suc left) k texts =
      Good texts (client k texts) ⊎ (Passing (client k texts) × Served client left (suc k) texts)

  module _ (client : ℕ → List Text → Option (Response Number)) (c : Settings) where
    again-map :
        (left delay k : ℕ) (texts : List Text) (o : Outcome Number)
        → Served client left k texts
        → o.vectors ≡ some (map vector texts)
        → (try_again left delay k o).vectors ≡ some (map vector texts)
    again-map zero delay k texts o h e = absurd h
    again-map (suc left) delay k texts o h e = e

    attempts-map :
        (left delay k : ℕ) (texts : List Text)
        → c.dims ≡ dims
        → Served client left k texts
        → (attempts client c left delay k texts).vectors ≡ some (map vector texts)
    unfolding attempts
    attempts-map zero delay k texts d h = absurd h
    attempts-map (suc left) delay k texts d h =
        go (client k texts) (attempts client c left (delay * 2) (suc k) texts)
          (attempts-map left (delay * 2) (suc k) texts d) h
      where
        go :
            (reply : Option (Response Number)) (o : Outcome Number)
            → (Served client left (suc k) texts → o.vectors ≡ some (map vector texts))
            → Good texts reply ⊎ (Passing reply × Served client left (suc k) texts)
            → (after_post client c left delay (suc k) texts o reply).vectors
              ≡ some (map vector texts)
        go none o ih (inl h) = absurd h
        go none o ih (inr h) = again-map left delay (suc k) texts o h.1 (ih h.1)
        go (some r) o ih (inl h) =
            ap (λ (x : Outcome Number). x.vectors)
              (if_false (is_transient r.status) _ _ h.0 ∙ if_false (leb 400 r.status) _ _ h.1)
            ∙ ap (λ n. vectors_of n (length texts) r.embeddings) d
            ∙ h.2
        go (some r) o ih (inr h) =
            ap (λ (x : Outcome Number). x.vectors) (if_true (is_transient r.status) _ _ h.0)
            ∙ again-map left delay (suc k) texts o h.1 (ih h.1)

    embed_batch-map :
        (k : ℕ) (texts : List Text)
        → c.dims ≡ dims
        → Served client c.max_attempts k texts
        → (embed_batch client c k texts).vectors ≡ some (map vector texts)
    unfolding embed_batch
    embed_batch-map k [] d h = refl
    embed_batch-map k (t ∷ texts) d h = attempts-map c.max_attempts c.base_delay k (t ∷ texts) d h

    embed_batches-map :
        (k : ℕ) (bs : List (List Text))
        → c.dims ≡ dims
        → ((k : ℕ) → All (λ texts. Served client c.max_attempts k texts) bs)
        → (embed_batches client c k bs).vectors ≡ some (map vector (concat bs))
    unfolding embed_batches
    embed_batches-map k [] d h = refl
    embed_batches-map k (b ∷ bs) d h =
        let o = embed_batch client c k b in
        let e = embed_batch-map k b d (h k).0 in
        ap (λ v. (extend client c (λ k'. embed_batches client c k' bs) o v).vectors) e
        ∙ ap (append_vectors (map vector b)) (embed_batches-map o.requests bs d (λ j. (h j).1))
        ∙ ap some (sym (map-append vector b (concat bs)))

  -- If the endpoint answers each batch within the set number of attempts, and fails only in ways
  -- that may pass before that, `embed` returns the vectors of the texts, in their order.
  pub embed-map :
      (client : ℕ → List Text → Option (Response Number)) (batch max_attempts base_delay k : ℕ)
      (texts : List Text)
      → let c = new_embedder dims batch max_attempts base_delay in
        ((k : ℕ) → All (λ b. Served client c.max_attempts k b) (slices c.batch texts))
        → (embed client c k texts).vectors ≡ some (map vector texts)
  unfolding embed
  embed-map client batch max_attempts base_delay k texts h =
      let c = new_embedder dims batch max_attempts base_delay in
      let big : 1 ≤ c.batch = omega arith in
      embed_batches-map client c k (slices c.batch texts) refl h
      ∙ ap (λ ts. some (map vector ts)) (slices-concat c.batch texts big)
