-- ===== src/Search/Index.antt =====
-- The indexing half of `SemanticIndex` of ewsmcp/semantic.py, and the parent in a thread of
-- ewsmcp/cache/store.py.
pub mod Rows
pub mod Complete
pub mod Whole
use exchange_mcp.Prelude.{
  ℕ, suc, ◌+◌, min, max, String, Bool, true, false, not, ◌&&◌, ◌||◌, Option, none, some, List, [],
  ◌∷◌, ◌++◌, length, take, drop, select, if◌then◌else◌, ◌==◌, leb, ltb, str_eq,
}
use exchange_mcp.Prelude.Int.{ℤ, ltb_ℤ}
use exchange_mcp.Text.{Text, codes, strip, rstrip}
use exchange_mcp.Store.Rows.{Message, Chunk, Store, find_row}
use exchange_mcp.Store.Chunks.{replace_chunks}
use exchange_mcp.Search.Chunking.{chunk_text}

-- The settings, and what the harness, the embedder and the database answer: `analyse` on the n-th
-- row of the page, `embed` on the k-th call, both `none` where they raise. A vector is the text
-- handed to the `::vector` cast, and `spell` writes a text to its column.
pub record SemanticIndex : Type 0 where
  pub chunk_chars : ℕ
  pub batch : ℕ
  pub analyse : ℕ → String → Text → Option Text
  pub embed : ℕ → List Text → Option (List String)
  pub spell : Text → String
  pub id_after : String → String → Bool
  pub now : ℤ

-- `__init__`, which clamps the batch.
abbrev pub clamp_batch : ℕ → ℕ
clamp_batch batch = max 1 (min batch 100)

abbrev pub Planned : Type 0
Planned = String × List Text

abbrev earlier : Option ℤ → Option ℤ → Bool
earlier (some a) (some b) = ltb_ℤ a b
earlier none b = false
earlier (some a) none = false

-- `a = b` in SQL, which is not true for NULL.
abbrev same_thread : Option String → Option String → Bool
same_thread (some a) (some b) = str_eq a b
same_thread none b = false
same_thread (some a) none = false

module _ (x : SemanticIndex) where
  -- ORDER BY date_ts DESC, ews_id DESC LIMIT 1, of rows that have a date.
  abbrev before_row : Message → Message → Bool
  before_row m n =
      earlier m.date_ts n.date_ts
      || (not (earlier n.date_ts m.date_ts) && x.id_after n.ews_id m.ews_id)

  abbrev later_row : Message → Option Message → Option Message
  later_row m none = some m
  later_row m (some n) = if before_row m n then some n else some m

  unfoldable pub latest_row : List Message → Option Message
  latest_row [] = none
  latest_row (m ∷ ms) = later_row m (latest_row ms)

  abbrev parent_of : Store → Option Message → Option Message
  parent_of s none = none
  parent_of s (some m) = latest_row (
      select
        (λ p.
          same_thread p.conversation_id m.conversation_id
          && (earlier p.date_ts m.date_ts && not (str_eq p.ews_id m.ews_id)))
        s.messages)

  unfoldable pub parent_in_thread : String → Store → Option Message
  unfolding latest_row
  parent_in_thread i s = parent_of s (find_row i s.messages)

  -- `not row.get("conversation_id")`
  abbrev no_thread : Option String → Bool
  no_thread none = true
  no_thread (some c) = str_eq c ""

  abbrev context_of : Option Message → Option Text
  context_of none = none
  context_of (some p) = some (
      rstrip (
        codes "In reply to: "
        ++ strip (codes p.subject)
        ++ 10 ∷ strip (take 300 (codes p.body_clean))))

  unfoldable pub thread_context : Store → Message → Option Text
  unfolding parent_in_thread strip rstrip
  thread_context s m =
      if leb 600 (length (codes m.body_clean)) || no_thread m.conversation_id
      then none
      else context_of (parent_in_thread m.ews_id s)

  abbrev plan_row : Store → Message → Option Text → Option Planned
  plan_row s m none = none
  plan_row s m (some text) =
      some (m.ews_id, chunk_text (codes m.subject) text x.chunk_chars (thread_context s m))

  abbrev cons_plan : Option Planned → Option (List Planned) → Option (List Planned)
  cons_plan none ps = none
  cons_plan (some p) none = none
  cons_plan (some p) (some ps) = some (p ∷ ps)

  -- The first loop of `index_messages`; it writes nothing.
  unfoldable pub plan : ℕ → List Message → Store → Option (List Planned)
  unfolding thread_context chunk_text
  plan n [] s = some []
  plan n (m ∷ ms) s =
      cons_plan (plan_row s m (x.analyse n m.ews_id (codes m.body_clean))) (plan (suc n) ms s)

  abbrev pub chunk_row : ℕ → String → Text → String → Chunk
  chunk_row seq i text vec = record {
    message_ews_id = i;
    seq = seq;
    source = "body";
    text = x.spell text;
    embedding = vec;
  }

  -- `enumerate(zip(chunks, window))`
  abbrev pub chunk_rows : ℕ → String → List Text → List String → List Chunk
  chunk_rows seq i [] vs = []
  chunk_rows seq i (t ∷ ts) [] = []
  chunk_rows seq i (t ∷ ts) (v ∷ vs) = chunk_row seq i t v ∷ chunk_rows (suc seq) i ts vs

  abbrev pub texts_of : List Planned → List Text
  texts_of [] = []
  texts_of (p ∷ ps) = p.1 ++ texts_of ps

  abbrev pub ids_of : List Planned → List String
  ids_of [] = []
  ids_of (p ∷ ps) = p.0 ∷ ids_of ps

  unfoldable pub write_rows : List Planned → List String → Store → Store
  unfolding replace_chunks
  write_rows [] vs s = s
  write_rows (p ∷ ps) vs s =
      write_rows ps (drop (length p.1) vs)
        (replace_chunks x.now p.0 (chunk_rows 0 p.0 p.1 (take (length p.1) vs)) s)

  abbrev pub store_vectors :
      List Planned → Store → Option (List String) → Option (List String) × Store
  store_vectors pending s none = (none, s)
  store_vectors pending s (some vs) =
      if length vs == length (texts_of pending)
      then (some (ids_of pending), write_rows pending vs s)
      else (none, s)

  -- `_flush`, at the k-th call of the embedder.
  unfoldable pub flush : ℕ → List Planned → Store → Option (List String) × Store
  unfolding write_rows
  flush k pending s = store_vectors pending s (x.embed k (texts_of pending))

  abbrev pub after_flush :
      (List String → Store → Option ℕ × Store)
      → List String
      → Option (List String) × Store
      → Option ℕ × Store
  after_flush next done (none, s) = (none, s)
  after_flush next done (some ids, s) = next (done ++ ids) s

  abbrev pub is_full : List Planned → ℕ → List Text → Bool
  is_full [] size chunks = false
  is_full (p ∷ ps) size chunks = ltb x.batch (size + length chunks)

  abbrev pub last_flush : ℕ → List Planned → List String → Store → Option ℕ × Store
  last_flush k [] done s = (some (length done), s)
  last_flush k (p ∷ ps) done s = after_flush (λ d t. (some (length d), t)) done (flush k (p ∷ ps) s)

  -- The second loop: the mails to come, those pending with the number of their chunks, the calls
  -- made, and the ids done.
  unfoldable pub index_loop :
      List Planned → List Planned → ℕ → ℕ → List String → Store → Option ℕ × Store
  unfolding flush
  index_loop [] pending size k done s = last_flush k pending done s
  index_loop ((i, []) ∷ ps) pending size k done s =
      index_loop ps pending size k (done ++ i ∷ []) (replace_chunks x.now i [] s)
  index_loop ((i, t ∷ ts) ∷ ps) pending size k done s =
      let n = length (t ∷ ts) in
      let room = index_loop ps (pending ++ (i, t ∷ ts) ∷ []) (size + n) k done s in
      let full =
        after_flush (λ d s'. index_loop ps ((i, t ∷ ts) ∷ []) n (suc k) d s') done
          (flush k pending s) in
      if is_full pending size (t ∷ ts) then full else room

  abbrev pub index_planned : Store → Option (List Planned) → Option ℕ × Store
  index_planned s none = (none, s)
  index_planned s (some ps) = index_loop ps [] 0 0 [] s

  -- `none`: an exception.
  unfoldable pub index_messages : List Message → Store → Option ℕ × Store
  unfolding plan index_loop
  index_messages rows s = index_planned s (plan 0 rows s)
