-- ===== src/Search/Gemini/Answers.antt =====
-- What the embedder of ewsmcp/embeddings.py answers, and how often it asks.
use exchange_mcp.Prelude.{
  ℕ, zero, suc, ◌+◌, ◌*◌, ◌≤◌, ◌≡◌, refl, sym, ap, ◌∙◌, Bool, true, false, Option, none, some, List,
  [], ◌∷◌, length, length-append, All, All-append, arith, if◌then◌else◌, leb, ◌==◌,
}
use exchange_mcp.Text.{Text}
use exchange_mcp.Search.Slices.{slices, concat, slices-concat}
use exchange_mcp.Search.Gemini.{
  Response, Outcome, Settings, is_transient, new_embedder, cons_vector, append_vectors, widths,
  vectors_of, after_post, try_again, attempts, embed_batch, extend, embed_batches, embed,
}

module _ {Number : Type 0} where
  -- If there are vectors, they are `n`, each of the width.
  abbrev pub Whole : ℕ → ℕ → Option (List (List Number)) → Type 0
  Whole dims n none = Unit
  Whole dims n (some vs) = (length vs ≡ n) × All (λ v. length v ≡ dims) vs

  widths-Whole :
      (dims : ℕ) (vs : List (Option (List Number))) → Whole dims (length vs) (widths dims vs)
  unfolding widths
  widths-Whole dims [] = (refl, tt)
  widths-Whole dims (none ∷ vs) = tt
  widths-Whole dims (some v ∷ vs) =
      test (length v == dims) refl (widths dims vs) (widths-Whole dims vs)
    where
      add :
          (o : Option (List (List Number)))
          → length v ≡ dims
          → Whole dims (length vs) o
          → Whole dims (suc (length vs)) (cons_vector v o)
      add none e h = tt
      add (some ws) e h = (ap suc h.0, (e, h.1))

      test :
          (b : Bool)
          → (length v == dims) ≡ b
          → (o : Option (List (List Number))) → Whole dims (length vs) o
          → Whole dims (suc (length vs)) (if b then cons_vector v o else none)
      test true e o h = add o (ground arith) h
      test false e o h = tt

  Whole-eq :
      (dims m n : ℕ) (o : Option (List (List Number))) → m ≡ n → Whole dims m o → Whole dims n o
  Whole-eq dims m n none e h = tt
  Whole-eq dims m n (some vs) e h = (h.0 ∙ e, h.1)

  Whole-none : (dims n : ℕ) (o : Option (List (List Number))) → o ≡ none → Whole dims n o
  Whole-none dims n none e = tt
  Whole-none dims n (some vs) e = cc

  vectors_of-Whole :
      (dims n : ℕ) (vs : Option (List (Option (List Number)))) → Whole dims n (vectors_of dims n vs)
  unfolding vectors_of
  vectors_of-Whole dims n none = tt
  vectors_of-Whole dims n (some vs) = test (length vs == n) refl (widths-Whole dims vs)
    where
      test :
          (b : Bool)
          → (length vs == n) ≡ b
          → Whole dims (length vs) (widths dims vs)
          → Whole dims n (if b then widths dims vs else none)
      test true e h = Whole-eq dims (length vs) n (widths dims vs) (ground arith) h
      test false e h = tt

  -- The vectors are whole, after at most so many requests in all.
  abbrev pub Answered : ℕ → ℕ → ℕ → Outcome Number → Type 0
  Answered dims n most o = Whole dims n o.vectors × (o.requests ≤ most)

  module _ (client : ℕ → List Text → Option (Response Number)) (c : Settings) where
    attempts-Answered :
        (left delay k : ℕ) (texts : List Text)
        → Answered c.dims (length texts) (k + left) (attempts client c left delay k texts)
    unfolding attempts
    attempts-Answered zero delay k texts = (tt, omega arith)
    attempts-Answered (suc left) delay k texts =
        go (client k texts) (attempts client c left (delay * 2) (suc k) texts)
          (attempts-Answered left (delay * 2) (suc k) texts)
      where
        again :
            (l : ℕ) (o : Outcome Number)
            → Answered c.dims (length texts) (suc k + l) o
            → Answered c.dims (length texts) (k + suc l) (try_again l delay (suc k) o)
        again zero o h = (tt, omega arith)
        again (suc l) o h = (h.0, omega (arith, h.1))

        status :
            (a b : Bool) (r : Response Number) (o : Outcome Number)
            → Answered c.dims (length texts) (suc k + left) o
            → Answered c.dims (length texts) (k + suc left) (
                if a
                then try_again left delay (suc k) o
                else if b
                then record { vectors = none; requests = suc k; pauses = [] }
                else record {
                  vectors = vectors_of c.dims (length texts) r.embeddings;
                  requests = suc k;
                  pauses = [];
                })
        status true b r o h = again left o h
        status false true r o h = (tt, omega arith)
        status false false r o h =
            (vectors_of-Whole c.dims (length texts) r.embeddings, omega arith)

        go :
            (reply : Option (Response Number)) (o : Outcome Number)
            → Answered c.dims (length texts) (suc k + left) o
            → Answered c.dims
                (length texts)
                (k + suc left)
                (after_post client c left delay (suc k) texts o reply)
        go none o h = again left o h
        go (some r) o h = status (is_transient r.status) (leb 400 r.status) r o h

    embed_batch-Answered :
        (k : ℕ) (texts : List Text)
        → Answered c.dims (length texts) (k + c.max_attempts) (embed_batch client c k texts)
    unfolding embed_batch
    embed_batch-Answered k [] = ((refl, tt), omega arith)
    embed_batch-Answered k (t ∷ texts) = attempts-Answered c.max_attempts c.base_delay k (t ∷ texts)

    append-Whole :
        (m n : ℕ) (vs : List (List Number)) (o : Option (List (List Number)))
        → Whole c.dims m (some vs)
        → Whole c.dims n o
        → Whole c.dims (m + n) (append_vectors vs o)
    append-Whole m n vs none h g = tt
    append-Whole m n vs (some ws) h g =
        (omega (arith, length-append vs ws, h.0, g.0), All-append _ vs ws h.1 g.1)

    extend-Answered :
        (m n most most' : ℕ) (next : ℕ → Outcome Number) (o : Outcome Number)
        → most ≤ most'
        → Answered c.dims m most o
        → ((k : ℕ) → k ≤ most → Answered c.dims n most' (next k))
        → Answered c.dims (m + n) most' (extend client c next o o.vectors)
    extend-Answered m n most most' next o l h ih = go o.vectors refl h.0
      where
        go :
            (v : Option (List (List Number)))
            → o.vectors ≡ v
            → Whole c.dims m v
            → Answered c.dims (m + n) most' (extend client c next o v)
        go none e w = (Whole-none c.dims (m + n) o.vectors e, omega (arith, l, h.1))
        go (some vs) e w =
            let r = ih o.requests h.1 in (append-Whole m n vs (next o.requests).vectors w r.0, r.1)

    embed_batches-Answered :
        (k most : ℕ) (bs : List (List Text))
        → k + c.max_attempts * length bs ≤ most
        → Answered c.dims (length (concat bs)) most (embed_batches client c k bs)
    unfolding embed_batches
    embed_batches-Answered k most [] l = ((refl, tt), omega (arith, l))
    embed_batches-Answered k most (b ∷ bs) l =
        let r =
          extend-Answered (length b) (length (concat bs)) (k + c.max_attempts) most
            (λ k'. embed_batches client c k' bs) (embed_batch client c k b) (omega (arith, l))
            (embed_batch-Answered k b)
            (λ k' h. embed_batches-Answered k' most bs (omega (arith, l, h))) in
        (Whole-eq c.dims _ _ _ (sym (length-append b (concat bs))) r.0, r.1)

  -- Whatever the endpoint answers, the vectors that `embed` returns are as many as the texts, and
  -- each has the width asked for; and it makes at most the set number of attempts for each batch.
  pub embed-Answered :
      (client : ℕ → List Text → Option (Response Number)) (dims batch max_attempts base_delay k : ℕ)
      (texts : List Text)
      → let c = new_embedder dims batch max_attempts base_delay in
        Answered dims
          (length texts)
          (k + c.max_attempts * length (slices c.batch texts))
          (embed client c k texts)
  unfolding embed
  embed-Answered client dims batch max_attempts base_delay k texts =
      let c = new_embedder dims batch max_attempts base_delay in
      let big : 1 ≤ c.batch = omega arith in
      let r = embed_batches-Answered client c k _ (slices c.batch texts) (omega arith) in
      (Whole-eq dims _ _ _ (ap length (slices-concat c.batch texts big)) r.0, r.1)
