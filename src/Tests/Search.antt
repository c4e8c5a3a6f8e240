-- ===== src/Tests/Search.antt =====
-- The search of ewsmcp/embeddings.py, semantic.py and boilerplate.py on concrete inputs.
use Prim.Native.Char.{char}
use Prim.Native.String.{String}
use exchange_mcp.Prelude.{
  select, ◌≢◌, ℕ, zero, suc, ◌≡◌, refl, Bool, true, false, inl, inr, Option, none, some, List, [],
  ◌∷◌, map, All, if◌then◌else◌, ltb, ◌≤◌, length, mem_str, take,
}
use exchange_mcp.Prelude.Int.{ℤ, pos, negsuc}
use exchange_mcp.Text.{Text, codes}
use exchange_mcp.Store.Rows.{Message, Store}
use exchange_mcp.Search.Slices.{Sized, concat, slices}
use exchange_mcp.Search.Chunking.{chunk_text, chunk_text-Cut}
use exchange_mcp.Search.Gemini.{Response, vectors_of, embed, new_embedder}
use exchange_mcp.Search.Gemini.Answers.{Answered, embed-Answered}
use exchange_mcp.Search.Gemini.Served.{Served, embed-map}
use exchange_mcp.Search.Index.{SemanticIndex, index_messages, plan}
use exchange_mcp.Search.Index.Whole.{Indexed, index_messages-Indexed}
use exchange_mcp.Search.Fusion.{Halves, window, hybrid_search, rrf}
use exchange_mcp.Search.Fusion.Order.{mem_any, Distinct}
use exchange_mcp.Search.Fusion.Scores.{Falling, score_of, rrf-Falling}
use exchange_mcp.Search.Fusion.Page.{hybrid_search-Hits, is_hit, paged, ids_in, list_of}
use exchange_mcp.Search.Boilerplate.{Analysis, Hit, embedded_hits, analyse, Boundary}
use exchange_mcp.Search.Boilerplate.Cut.{near}
use exchange_mcp.Tests.Data.{live_row, store_of}

abbrev pieces : List Text
pieces = chunk_text (codes " Re ") (codes "a b c") 4 (some (codes "up"))

pieces_cut : pieces ≡ codes "Re\na" ∷ codes " b c" ∷ codes "\n\nup" ∷ []
unfolding chunk_text
pieces_cut = refl

chunk_text-Cut_example : All (Sized 4) pieces × (concat pieces ≡ codes "Re\na b c\n\nup")
unfolding chunk_text
chunk_text-Cut_example = chunk_text-Cut (codes " Re ") (codes "a b c") 4 (some (codes "up"))

-- An endpoint that is busy at every other request, and gives each text its first character.
abbrev letter : Text → List ℕ
letter [] = 0 ∷ []
letter (c ∷ t) = c ∷ []

abbrev answered : ℕ → List Text → Option (Response ℕ)
answered zero texts = none
answered (suc k) texts =
    some (record { status = 200; embeddings = some (map (λ t. some (letter t)) texts) })

abbrev three : List Text
three = codes "ab" ∷ codes "cd" ∷ codes "ef" ∷ []

embed_pauses : (embed answered (new_embedder 1 2 3 5) 0 three).pauses ≡ 5 ∷ []
unfolding embed
embed_pauses = refl

embed-Answered_example : Answered 1 3 6 (embed answered (new_embedder 1 2 3 5) 0 three)
unfolding slices
embed-Answered_example = embed-Answered answered 1 2 3 5 0 three

-- It fails at the first request only.
embed-map_example :
    (embed answered (new_embedder 1 2 3 5) 0 three).vectors ≡ some (map letter three)
unfolding slices vectors_of
embed-map_example = embed-map letter 1 answered 2 3 5 0 three (λ k. (first k, (second k, tt)))
  where
    first : (k : ℕ) → Served letter 1 answered 3 k (codes "ab" ∷ codes "cd" ∷ [])
    first zero = inr (tt, inl (refl, refl, refl))
    first (suc k) = inl (refl, refl, refl)

    second : (k : ℕ) → Served letter 1 answered 3 k (codes "ef" ∷ [])
    second zero = inr (tt, inl (refl, refl, refl))
    second (suc k) = inl (refl, refl, refl)

abbrev spell : Text → String
spell [] = String.[]
spell (c ∷ t) = String.◌∷◌ (char 120 tt) (spell t)

-- The embedder raises from its third call on.
abbrev index : SemanticIndex
index = record {
  chunk_chars = 3;
  batch = 2;
  analyse = λ n i text. some text;
  embed = λ k texts. if ltb k 2 then some (map spell texts) else none;
  spell = spell;
  id_after = λ a b. false;
  now = pos 9;
}

abbrev mails : List Message
mails = live_row "m1" 100 ∷ live_row "m2" 200 ∷ []

index_messages-Indexed_example :
    Indexed index spell mails
      (store_of mails)
      (index_messages index mails (store_of mails))
      (plan index 0 mails (store_of mails))
index_messages-Indexed_example = index_messages-Indexed index spell mails (store_of mails) honest
  where
    honest :
        (k : ℕ) (texts : List Text) (vs : List String)
        → (if ltb k 2 then some (map spell texts) else none) ≡ some vs
        → length vs ≡ length texts
        → vs ≡ map spell texts
    honest k texts vs e l = go (ltb k 2) e
      where
        go :
            (b : Bool)
            → (if b then some (map spell texts) else none) ≡ some vs
            → vs ≡ map spell texts
        go true h = cc
        go false h = cc

indexed_both : (index_messages index mails (store_of mails)).0 ≡ some 2
unfolding index_messages
indexed_both = refl

abbrev rankings : List (List String)
rankings = ("a" ∷ "b" ∷ []) ∷ ("b" ∷ "c" ∷ []) ∷ []

rrf-Falling_example :
    ((i : String) → mem_str i (rrf 60 rankings) ≡ mem_any i rankings)
    × Distinct (rrf 60 rankings)
    × Falling (score_of 60 rankings) (rrf 60 rankings)
rrf-Falling_example = rrf-Falling 60 rankings

rrf_shared : rrf 60 rankings ≡ "b" ∷ "a" ∷ "c" ∷ []
unfolding rrf
rrf_shared = refl

-- The sixth id of either ranking is the best of both, and a page of one row sees only five.
abbrev halves : Halves
halves = record {
  keyword = λ n. take n ("a" ∷ "b" ∷ "c" ∷ "d" ∷ "e" ∷ "both" ∷ []);
  vector = λ n. some (take n ("p" ∷ "q" ∷ "r" ∷ "s" ∷ "t" ∷ "both" ∷ []));
  structured = false;
}

page_repeats : (window halves 1 0 ≡ "a" ∷ []) × (window halves 1 1 ≡ "a" ∷ [])
unfolding window rrf
page_repeats = (refl, refl)

abbrev stored : Store
stored = store_of (live_row "b" 100 ∷ live_row "a" 200 ∷ [])

hybrid_search-Hits_example :
    let r = hybrid_search halves 3 0 stored in
    All (λ m. is_hit halves 15 m.ews_id ≡ true) r.0
    × (length r.0 ≤ 3)
    × (r.1 ≡ false)
    × (list_of (halves.vector 15) ≡ [] → ids_in r.0 ≡ paged 3 0 stored (halves.keyword 15))
    × (list_of (halves.vector 15) ≢ []
        → halves.structured ≡ false
        → ids_in r.0
          ≡ paged 3 0 stored (rrf 60 (halves.keyword 15 ∷ list_of (halves.vector 15) ∷ [])))
    × (list_of (halves.vector 15) ≢ []
        → halves.structured ≡ true
        → ids_in r.0
          ≡ paged 3 0 stored (
              select
                (λ i. mem_str i (halves.keyword 15))
                (rrf 60 (halves.keyword 15 ∷ list_of (halves.vector 15) ∷ []))))
hybrid_search-Hits_example = hybrid_search-Hits halves 3 0 stored

-- Four hundred letters, a blank line, and a paragraph that the cleaner names.
abbrev repeat : ℕ → Text → Text
repeat zero t = t
repeat (suc n) t = 97 ∷ repeat n t

abbrev letters : Text
letters = repeat 400 (codes "\n\nlegal")

abbrev splits : Text → List (ℕ × ℕ)
splits t = (400, 402) ∷ []

abbrev cosine : ℕ → ℕ → ℤ
cosine u v = pos 0

abbrev first_one : List Text → Boundary
first_one ps = Boundary.drop_from (pos 0)

abbrev near_none : List Text → Option (List Hit)
near_none = near cosine (negsuc 0) (pos 1) splits (λ ps. none) [] first_one "llm"

abbrev analysis : Analysis
analysis =
    analyse splits near_none first_one "llm" letters (some (record { budget = some 1; calls = 0 }))

legal_cut : analysis.text ≡ some (repeat 400 [])
unfolding analyse embedded_hits
legal_cut = refl
