-- ===== src/Search/Boilerplate.antt =====
-- ewsmcp/boilerplate.py, and the tail window of ewsmcp/bodyclean.py. The regular expression, the
-- cosine and the two remote services are parameters.
pub mod Cut
use exchange_mcp.Prelude.{
  ℕ, zero, suc, ◌-◌, ◌*◌, ◌/◌, String, Bool, true, false, ◌&&◌, ◌||◌, Option, none, some, List, [],
  ◌∷◌, ◌++◌, map, length, take, drop, select, if◌then◌else◌, ltb, leb, str_eq,
}
use exchange_mcp.Prelude.Int.{ℤ, pos, negsuc, ltb_ℤ, leb_ℤ}
use exchange_mcp.Text.{Text, strip, rstrip}
use exchange_mcp.Search.Chunking.{blank}

-- An offset, and the paragraph there.
abbrev pub Paragraph : Type 0
Paragraph = ℕ × Text

-- `_paragraphs`, given the start and the end of each match of `_PARA_SPLIT_RE`.
unfoldable pub paragraphs_from : Text → ℕ → List (ℕ × ℕ) → List Paragraph
paragraphs_from text p [] = if blank (drop p text) then [] else (p, drop p text) ∷ []
paragraphs_from text p (m ∷ ms) =
    let rest = paragraphs_from text m.1 ms in
    let chunk = take (m.0 - p) (drop p text) in if blank chunk then rest else (p, chunk) ∷ rest

-- `int(len(text) * TAIL_START_FRACTION)`
abbrev pub tail_start : Text → ℕ
tail_start text = length text * 6 / 10

-- `xs[-n:]`
abbrev last {ℓ} : {A : Type ℓ} → ℕ → List A → List A
last n xs = drop (length xs - n) xs

abbrev pub tail_of : Text → List Paragraph → List Paragraph
tail_of text paras =
    if ltb (length paras) 2
    then []
    else last 8 (select (λ (p : Paragraph). leb (tail_start text) p.0) (drop 1 paras))

unfoldable pub tail_paragraphs : (Text → List (ℕ × ℕ)) → Text → List Paragraph
unfolding paragraphs_from
tail_paragraphs splits text =
    if ltb (length text) 400 then [] else tail_of text (paragraphs_from text 0 (splits text))

-- `none`: the index -1 of an error.
pub record Hit : Type 0 where
  pub detector : String
  pub paragraph_index : Option ℕ

-- What `boundary` did: raised, sent no object with a reason, or answered without or with an index.
pub data Boundary : Type 0 where
  raised malformed nothing : Boundary
  drop_from : ℤ → Boundary

abbrev llm_hit : Option ℕ → List Hit
llm_hit i = record { detector = "llm"; paragraph_index = i } ∷ []

-- The hits that an answer makes, for so many paragraphs.
unfoldable pub boundary_hits : ℕ → Boundary → List Hit
boundary_hits n raised = llm_hit none
boundary_hits n malformed = llm_hit none
boundary_hits n nothing = []
boundary_hits n (drop_from (pos i)) = if ltb i n then llm_hit (some i) else llm_hit none
boundary_hits n (drop_from (negsuc i)) = llm_hit none

-- The budget of `LlmDetector`, `none` for no limit, and the calls made.
pub record Llm : Type 0 where
  pub budget : Option ℕ
  pub calls : ℕ

-- `LlmDetector.detect`
unfoldable pub llm_detect : ℕ → Boundary → Llm → List Hit × Llm
unfolding boundary_hits
llm_detect n answer l = on_budget l.budget
  where
    on_budget : Option ℕ → List Hit × Llm
    on_budget none = (boundary_hits n answer, record { budget = none; calls = suc l.calls })
    on_budget (some zero) = ([], l)
    on_budget (some (suc b)) =
        (boundary_hits n answer, record { budget = some b; calls = suc l.calls })

-- `BoilerplateHarness.begin_pass`, for `llm_per_cycle`.
abbrev pub begin_pass : Option ℕ → Option Llm → Option Llm
begin_pass per_cycle none = none
begin_pass none (some l) = some l
begin_pass (some n) (some l) = some (record l { budget = some n })

module _ {Vector : Type 0} (cosine : Vector → Vector → ℤ) (minus_one threshold : ℤ) where
  abbrev Best : Type 0
  Best = Option String × ℤ

  unfoldable pub best_ref : Vector → List (String × Vector) → Best → Best
  best_ref v [] best = best
  best_ref v (r ∷ refs) best =
      let s = cosine v r.1 in best_ref v refs (if ltb_ℤ best.1 s then (some r.0, s) else best)

  abbrev pub is_near : Best → Bool
  is_near (none, s) = false
  is_near (some label, s) = leb_ℤ threshold s

  -- `EmbeddingDetector.detect`, from the i-th paragraph on.
  unfoldable pub near_hits : List (String × Vector) → ℕ → List Text → List Vector → List Hit
  unfolding best_ref
  near_hits refs i [] vs = []
  near_hits refs i (p ∷ ps) [] = []
  near_hits refs i (p ∷ ps) (v ∷ vs) =
      let rest = near_hits refs (suc i) ps vs in
      if is_near (best_ref v refs (none, minus_one))
      then record { detector = "embedding"; paragraph_index = some i } ∷ rest
      else rest

  abbrev pub hits_of : List (String × Vector) → List Text → Option (List Vector) → Option (List Hit)
  hits_of refs ps none = none
  hits_of refs ps (some vs) = some (near_hits refs 0 ps vs)

  -- Without references the embedder is not asked.
  unfoldable pub embedded_hits :
      (List Text → Option (List Vector)) → List (String × Vector) → List Text → Option (List Hit)
  unfolding near_hits
  embedded_hits embed [] ps = some []
  embedded_hits embed (r ∷ refs) ps = hits_of (r ∷ refs) ps (embed ps)

-- Whether `drop` names the detector.
abbrev pub allowed : String → Hit → Bool
allowed setting h = str_eq setting "both" || str_eq setting h.detector

abbrev sooner : ℕ → Option ℕ → Bool
sooner i none = true
sooner i (some c) = ltb i c

abbrev pub move_cut : String → Hit → Option ℕ → Option ℕ → Option ℕ
move_cut setting h cut none = cut
move_cut setting h cut (some i) = if allowed setting h && sooner i cut then some i else cut

unfoldable pub cut_from : String → List Hit → Option ℕ → Option ℕ
cut_from setting [] cut = cut
cut_from setting (h ∷ hs) cut = cut_from setting hs (move_cut setting h cut h.paragraph_index)

-- `text[:tail[i][0]].rstrip()`; `none`: no such paragraph.
unfoldable pub cut_at : Text → List Paragraph → ℕ → Option Text
unfolding rstrip
cut_at text [] i = none
cut_at text (p ∷ ps) zero = some (rstrip (take p.0 text))
cut_at text (p ∷ ps) (suc i) = cut_at text ps i

abbrev pub shortened : Text → List Paragraph → Option ℕ → Option Text
shortened text tail none = some text
shortened text tail (some i) = cut_at text tail i

-- The text that is handed on, `none` if an exception leaves; the hits; and the detector.
pub record Analysis : Type 0 where
  pub text : Option Text
  pub hits : List Hit
  pub llm : Option Llm

abbrev pub stripped : List Paragraph → List Text
stripped = map (λ (p : Paragraph). strip p.1)

-- `near`: what the embedding detector makes of the paragraphs, `none` if the embedder raises and
-- no hit if there is no reference; `answer`: what the cleaner makes of them.
module _ (splits : Text → List (ℕ × ℕ)) (near : List Text → Option (List Hit))
    (answer : List Text → Boundary) (setting : String) where
  abbrev pub concluded : Text → List Paragraph → Option Llm → List Hit → Analysis
  concluded text tail llm hits = record {
    text = shortened text tail (cut_from setting hits none);
    hits = hits;
    llm = llm;
  }

  abbrev pub ask_llm : Text → List Paragraph → List Hit → Option Llm → Analysis
  ask_llm text tail hits none = concluded text tail none hits
  ask_llm text tail hits (some l) =
      let r = llm_detect (length tail) (answer (stripped tail)) l in
      concluded text tail (some r.1) (hits ++ r.0)

  abbrev pub after_near : Text → List Paragraph → Option Llm → Option (List Hit) → Analysis
  after_near text tail llm none = record { text = none; hits = []; llm = llm }
  after_near text tail llm (some hits) = ask_llm text tail hits llm

  abbrev pub analyse_tail : Text → Option Llm → List Paragraph → Analysis
  analyse_tail text llm [] = record { text = some text; hits = []; llm = llm }
  analyse_tail text llm (p ∷ ps) = after_near text (p ∷ ps) llm (near (stripped (p ∷ ps)))

  -- `BoilerplateHarness.analyse`
  unfoldable pub analyse : Text → Option Llm → Analysis
  unfolding tail_paragraphs llm_detect cut_from cut_at strip
  analyse text llm = analyse_tail text llm (tail_paragraphs splits text)
