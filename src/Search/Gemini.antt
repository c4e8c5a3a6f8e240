-- ===== src/Search/Gemini.antt =====
-- `GeminiEmbedder` of ewsmcp/embeddings.py. The endpoint is a parameter: what it answers to the k-th
-- request, for the texts in it.
pub mod Answers
pub mod Served
use exchange_mcp.Prelude.{
  ℕ, zero, suc, ◌+◌, ◌*◌, min, max, Bool, ◌||◌, Option, none, some, List, [], ◌∷◌, ◌++◌, length,
  if◌then◌else◌, ◌==◌, leb,
}
use exchange_mcp.Text.{Text}
use exchange_mcp.Search.Slices.{slices}

-- A response: its status and, if the body is JSON, its embeddings; one may have no list of values.
pub record Response (Number : Type 0) : Type 0 where
  pub status : ℕ
  pub embeddings : Option (List (Option (List Number)))

-- `_RETRY_STATUS`
abbrev pub is_transient : ℕ → Bool
is_transient status =
    status == 408
    || (status == 429 || (status == 500 || (status == 502 || (status == 503 || status == 504))))

pub record Settings : Type 0 where
  pub dims : ℕ
  pub batch : ℕ
  pub max_attempts : ℕ
  pub base_delay : ℕ

-- `__init__`, which clamps the batch and the number of attempts.
abbrev pub new_embedder : ℕ → ℕ → ℕ → ℕ → Settings
new_embedder dims batch max_attempts base_delay = record {
  dims = dims;
  batch = max 1 (min batch 100);
  max_attempts = max 1 max_attempts;
  base_delay = base_delay;
}

-- What a call did: its answer, where `none` is an `EmbeddingError`; the requests made so far; and
-- the pauses, the first first.
pub record Outcome (Number : Type 0) : Type 0 where
  pub vectors : Option (List (List Number))
  pub requests : ℕ
  pub pauses : List ℕ

module _ {Number : Type 0} where
  abbrev pub cons_vector : List Number → Option (List (List Number)) → Option (List (List Number))
  cons_vector v none = none
  cons_vector v (some vs) = some (v ∷ vs)

  -- Each one must be a list, and as wide as asked.
  unfoldable pub widths : ℕ → List (Option (List Number)) → Option (List (List Number))
  widths dims [] = some []
  widths dims (none ∷ vs) = none
  widths dims (some v ∷ vs) =
      let rest = widths dims vs in if length v == dims then cons_vector v rest else none

  -- `_vectors`
  unfoldable pub vectors_of :
      ℕ → ℕ → Option (List (Option (List Number))) → Option (List (List Number))
  unfolding widths
  vectors_of dims expected none = none
  vectors_of dims expected (some vs) = if length vs == expected then widths dims vs else none

  abbrev pub failed : ℕ → Outcome Number
  failed k = record { vectors = none; requests = k; pauses = [] }

  abbrev pub pause : ℕ → Outcome Number → Outcome Number
  pause delay o = record o { pauses = delay ∷ o.pauses }

  -- A failure that may pass: after the last attempt there is no pause.
  abbrev pub try_again : ℕ → ℕ → ℕ → Outcome Number → Outcome Number
  try_again zero delay k rest = failed k
  try_again (suc left) delay k rest = pause delay rest

  abbrev pub append_vectors :
      List (List Number) → Option (List (List Number)) → Option (List (List Number))
  append_vectors vs none = none
  append_vectors vs (some ws) = some (vs ++ ws)

  module _ (client : ℕ → List Text → Option (Response Number)) (c : Settings) where
    -- One turn of the loop, given the response and the turns to come; `none`: an `HTTPError`.
    abbrev pub after_post :
        ℕ → ℕ → ℕ → List Text → Outcome Number → Option (Response Number) → Outcome Number
    after_post left delay k texts rest none = try_again left delay k rest
    after_post left delay k texts rest (some r) =
        if is_transient r.status
        then try_again left delay k rest
        else if leb 400 r.status
        then failed k
        else record {
          vectors = vectors_of c.dims (length texts) r.embeddings;
          requests = k;
          pauses = [];
        }

    -- The attempts that are left.
    unfoldable pub attempts : ℕ → ℕ → ℕ → List Text → Outcome Number
    unfolding vectors_of
    attempts zero delay k texts = failed k
    attempts (suc left) delay k texts =
        after_post left delay (suc k) texts (attempts left (delay * 2) (suc k) texts)
          (client k texts)

    unfoldable pub embed_batch : ℕ → List Text → Outcome Number
    unfolding attempts
    embed_batch k [] = record { vectors = some []; requests = k; pauses = [] }
    embed_batch k (t ∷ texts) = attempts c.max_attempts c.base_delay k (t ∷ texts)

    -- `out.extend(...)`, unless the batch raised.
    abbrev pub extend :
        (ℕ → Outcome Number) → Outcome Number → Option (List (List Number)) → Outcome Number
    extend next o none = o
    extend next o (some vs) =
        let rest = next o.requests in
        record rest { vectors = append_vectors vs rest.vectors; pauses = o.pauses ++ rest.pauses }

    unfoldable pub embed_batches : ℕ → List (List Text) → Outcome Number
    unfolding embed_batch
    embed_batches k [] = record { vectors = some []; requests = k; pauses = [] }
    embed_batches k (b ∷ bs) =
        let o = embed_batch k b in extend (λ k'. embed_batches k' bs) o o.vectors

    unfoldable pub embed : ℕ → List Text → Outcome Number
    unfolding embed_batches slices
    embed k texts = embed_batches k (slices c.batch texts)
