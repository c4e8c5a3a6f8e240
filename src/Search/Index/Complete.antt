-- ===== src/Search/Index/Complete.antt =====
-- A mail whose chunks are complete, and the writes of `_flush` of ewsmcp/semantic.py.
use mathlib.Core.Path.{subst}
use exchange_mcp.Prelude.{
  ℕ, suc, String, ◌≡◌, refl, sym, ◌∙◌, ap, Option, none, some, List, [], ◌∷◌, ◌++◌, map, length,
  take, drop, str_eq, str_eq-eq, All, All-map, ◌⊎◌, inl, inr, Bool-cases,
}
use exchange_mcp.Text.{Text}
use exchange_mcp.Store.Rows.{Chunk, Store}
use exchange_mcp.Store.Chunks.{replace_chunks}
use exchange_mcp.Search.Index.{SemanticIndex, Planned, chunk_row, chunk_rows, texts_of, write_rows}
use exchange_mcp.Search.Index.Rows.{
  chunks_of, rows_of, Untouched, Stamped, owned, replace_chunks-Untouched, replace_chunks-own,
  replace_chunks-Stamped,
}

abbrev pub Among : Planned → List Planned → Type 0
Among p [] = ⊥
Among p (q ∷ qs) = (q ≡ p) ⊎ Among p qs

-- All of the mails are planned.
abbrev pub Within : List Planned → List Planned → Type 0
Within ps qs = All (λ q. Among q ps) qs

module _ (x : SemanticIndex) (vector : Text → String) where
  -- The rows of the texts of the mail `i`, one for each, numbered in order from `n`.
  abbrev pub RowsOf : ℕ → String → List Text → List Chunk → Type 0
  RowsOf n i [] [] = Unit
  RowsOf n i [] (c ∷ cs) = ⊥
  RowsOf n i (t ∷ ts) [] = ⊥
  RowsOf n i (t ∷ ts) (c ∷ cs) =
      (c.message_ews_id ≡ i)
      × (c.seq ≡ n)
      × (c.source ≡ "body")
      × (c.text ≡ x.spell t)
      × (c.embedding ≡ vector t)
      × RowsOf (suc n) i ts cs

  -- The mail has the chunks of a plan, each with its place and the vector of its text, and its
  -- rows are stamped.
  abbrev pub Complete : List Planned → Store → String → Type 0
  Complete ps t i =
      (texts : List Text) × Among (i, texts) ps
      × RowsOf 0 i texts (chunks_of i t)
      × All (Stamped x.now) (rows_of i t)

  -- Every mail is as it was, or complete.
  abbrev pub Progressed : List Planned → Store → Store → Type 0
  Progressed ps s t = (i : String) → Untouched i s t ⊎ Complete ps t i

  -- The embedder gives each text its vector, in their order, or fails or answers another number.
  abbrev pub Honest : Type 0
  Honest =
      (k : ℕ) (texts : List Text) (vs : List String)
      → x.embed k texts ≡ some vs
      → length vs ≡ length texts
      → vs ≡ map vector texts

  abbrev pub AllComplete : List Planned → Store → List Planned → Type 0
  AllComplete ps t qs = All (λ q. Complete ps t q.0) qs

  -- From `s`: each mail is as it was or complete and, if there is an answer, it is `n` and `qs`
  -- are complete.
  abbrev pub Answer : List Planned → ℕ → List Planned → Option ℕ × Store → Type 0
  Answer ps n qs (none, t) = Unit
  Answer ps n qs (some m, t) = (m ≡ n) × AllComplete ps t qs

  Complete-Untouched :
      (ps : List Planned) (s t : Store) (i : String)
      → Untouched i s t
      → Complete ps s i
      → Complete ps t i
  Complete-Untouched ps s t i u h =
      (h.0, h.1, subst (RowsOf 0 i h.0) (sym u.0) h.2, subst (All (Stamped x.now)) (sym u.1) h.3)

  pub Complete-Progressed :
      (ps : List Planned) (s t : Store) (i : String)
      → Progressed ps s t
      → Complete ps s i
      → Complete ps t i
  Complete-Progressed ps s t i step h = elim (step i) [
    | inl u ↦ Complete-Untouched ps s t i u h
    | inr c ↦ c
  ]

  pub Progressed-refl : (ps : List Planned) (s : Store) → Progressed ps s s
  Progressed-refl ps s i = inl (refl, refl)

  pub Progressed-trans :
      (ps : List Planned) (s t u : Store)
      → Progressed ps s t
      → Progressed ps t u
      → Progressed ps s u
  Progressed-trans ps s t u f g i = elim (f i) [
    | inl h ↦ elim (g i) [ inl k ↦ inl (k.0 ∙ h.0, k.1 ∙ h.1) | inr c ↦ inr c ]
    | inr c ↦ inr (Complete-Progressed ps t u i g c)
  ]

  owned-chunk_rows :
      (seq : ℕ) (i : String) (ts : List Text) (vs : List String)
      → map (owned i) (chunk_rows x seq i ts vs) ≡ chunk_rows x seq i ts vs
  owned-chunk_rows seq i [] vs = refl
  owned-chunk_rows seq i (t ∷ ts) [] = refl
  owned-chunk_rows seq i (t ∷ ts) (v ∷ vs) =
      ap (λ cs. chunk_row x seq i t v ∷ cs) (owned-chunk_rows (suc seq) i ts vs)

  chunk_rows-RowsOf :
      (n : ℕ) (i : String) (ts : List Text) → RowsOf n i ts (chunk_rows x n i ts (map vector ts))
  chunk_rows-RowsOf n i [] = tt
  chunk_rows-RowsOf n i (t ∷ ts) = (refl, refl, refl, refl, refl, chunk_rows-RowsOf (suc n) i ts)

  pub replace-Complete :
      (ps : List Planned) (i : String) (ts : List Text) (s : Store)
      → Among (i, ts) ps
      → Complete ps (replace_chunks x.now i (chunk_rows x 0 i ts (map vector ts)) s) i
  replace-Complete ps i ts s a = (
    ts,
    a,
    subst (RowsOf 0 i ts)
        (sym (
          replace_chunks-own x.now i (chunk_rows x 0 i ts (map vector ts)) s
          ∙ owned-chunk_rows 0 i ts (map vector ts)))
        (chunk_rows-RowsOf 0 i ts),
    replace_chunks-Stamped x.now i _ s,
  )

  pub replace-Progressed :
      (ps : List Planned) (i : String) (ts : List Text) (s : Store)
      → Among (i, ts) ps
      → Progressed ps s (replace_chunks x.now i (chunk_rows x 0 i ts (map vector ts)) s)
  replace-Progressed ps i ts s a j = elim (Bool-cases (str_eq j i)) [
    | inl e ↦ inr (
        subst (Complete ps (replace_chunks x.now i (chunk_rows x 0 i ts (map vector ts)) s))
          (sym (str_eq-eq j i e)) (replace-Complete ps i ts s a))
    | inr e ↦ inl (replace_chunks-Untouched x.now i j _ s e)
  ]

  pub AllComplete-Progressed :
      (ps qs : List Planned) (s t : Store)
      → Progressed ps s t
      → AllComplete ps s qs
      → AllComplete ps t qs
  AllComplete-Progressed ps qs s t f h =
      All-map _ _ (λ q c. Complete-Progressed ps s t q.0 f c) qs h

  take-own : (ts us : List Text) → take (length ts) (map vector (ts ++ us)) ≡ map vector ts
  take-own [] us = refl
  take-own (t ∷ ts) us = ap (λ vs. vector t ∷ vs) (take-own ts us)

  drop-own : (ts us : List Text) → drop (length ts) (map vector (ts ++ us)) ≡ map vector us
  drop-own [] us = refl
  drop-own (t ∷ ts) us = drop-own ts us

  abbrev pub Written : List Planned → List Planned → Store → Store → Type 0
  Written ps qs s t = Progressed ps s t × AllComplete ps t qs

  -- The window of each mail in the vectors of all is the vectors of its own texts.
  pub write_rows-Complete :
      (ps qs : List Planned) (s : Store)
      → Within ps qs
      → Written ps qs s (write_rows x qs (map vector (texts_of x qs)) s)
  unfolding write_rows
  write_rows-Complete ps [] s h = (Progressed-refl ps s, tt)
  write_rows-Complete ps (q ∷ qs) s h =
      let t = replace_chunks x.now q.0 (chunk_rows x 0 q.0 q.1 (map vector q.1)) s in
      let r = write_rows-Complete ps qs t h.1 in
      subst (λ vs. goal vs (drop (length q.1) (map vector (q.1 ++ texts_of x qs))))
        (sym (take-own q.1 (texts_of x qs)))
        (subst (λ vs. goal (map vector q.1) vs) (sym (drop-own q.1 (texts_of x qs)))
          (
            Progressed-trans ps s t (write_rows x qs (map vector (texts_of x qs)) t)
                (replace-Progressed ps q.0 q.1 s h.0) r.0,
            (
              Complete-Progressed ps t (write_rows x qs (map vector (texts_of x qs)) t) q.0 r.0
                  (replace-Complete ps q.0 q.1 s h.0),
              r.1,
            ),
          ))
    where
      goal : List String → List String → Type 0
      goal own rest =
          Written ps (q ∷ qs) s
            (write_rows x qs rest (replace_chunks x.now q.0 (chunk_rows x 0 q.0 q.1 own) s))
