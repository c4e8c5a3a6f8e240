-- ===== src/Store/Chunks/Clean.antt =====
-- What a rewrite of chunks in ewsmcp/cache/store.py keeps of the backlog.
use exchange_mcp.Prelude.{
  String, ◌≡◌, refl, Bool, true, false, not, some, List, [], ◌∷◌, ◌++◌, ◌⊎◌, inl, inr,
  if◌then◌else◌, str_eq, str_eq_apart, is_some, All, All-append, All-select, map,
}
use exchange_mcp.Prelude.Int.{ℤ}
use exchange_mcp.Store.Rows.{Message, Chunk, Store, has_id, update_where, delete_where}
use exchange_mcp.Store.Chunks.{of_message, replace_chunks}

-- No chunk belongs to the message `i`.
abbrev pub Without : String → List Chunk → Type 0
Without i chunks = All (λ c. of_message i c ≡ false) chunks

abbrev pub CleanRow : List Chunk → Message → Type 0
CleanRow chunks m = (is_some m.embedded_at ≡ true) ⊎ Without m.ews_id chunks

-- Every message is stamped, or has no chunks.
abbrev pub IsClean : Store → Type 0
IsClean s = All (CleanRow s.chunks) s.messages

pub Without-replaced :
    (i j : String) (old new : List Chunk)
    → str_eq j i ≡ false
    → Without j old
    → Without j (
        delete_where (of_message i) old ++ map (λ (c : Chunk). record c { message_ews_id = i }) new)
Without-replaced i j old new apart h =
    All-append _ _ _ (All-select _ (λ c. not (of_message i c)) old h) (fresh new)
  where
    fresh : (cs : List Chunk) → Without j (map (λ (c : Chunk). record c { message_ews_id = i }) cs)
    fresh [] = tt
    fresh (c ∷ cs) = (str_eq_apart j i apart, fresh cs)

-- `replace_chunks` keeps every message stamped or without chunks.
pub replace_chunks-IsClean :
    (now : ℤ) (i : String) (new : List Chunk) (s : Store)
    → IsClean s
    → IsClean (replace_chunks now i new s)
unfolding replace_chunks
replace_chunks-IsClean now i new s h = go s.messages h
  where
    stamp : Message → Message
    stamp m = record m { embedded_at = some now }

    after : List Chunk
    after =
        delete_where (of_message i) s.chunks
        ++ map (λ (c : Chunk). record c { message_ews_id = i }) new

    one :
        (m : Message) (b : Bool)
        → has_id i m ≡ b
        → CleanRow s.chunks m
        → CleanRow after (if b then stamp m else m)
    one m true e k = inl refl
    one m false e (inl k) = inl k
    one m false e (inr k) = inr (Without-replaced i m.ews_id s.chunks new e k)

    go :
        (ms : List Message)
        → All (CleanRow s.chunks) ms
        → All (CleanRow after) (update_where (has_id i) stamp ms)
    go [] k = tt
    go (m ∷ ms) k = (one m (has_id i m) refl k.0, go ms k.1)
