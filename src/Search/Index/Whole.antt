-- ===== src/Search/Index/Whole.antt =====
-- What `index_messages` of ewsmcp/semantic.py leaves of each mail, wherever it stops.
use mathlib.Core.Path.{subst}
use exchange_mcp.Prelude.{
  ℕ, suc, ◌+◌, String, ◌≡◌, refl, sym, ◌∙◌, ap, Bool, true, false, Option, none, some, List, [],
  ◌∷◌, ◌++◌, map, length, length-append, if◌then◌else◌, ◌==◌, All-map, All-append, inl, inr, arith,
  append_assoc, length-map,
}
use exchange_mcp.Text.{Text, codes}
use exchange_mcp.Store.Rows.{Message, Store}
use exchange_mcp.Store.Chunks.{replace_chunks}
use exchange_mcp.Search.Index.{
  SemanticIndex, Planned, plan, plan_row, cons_plan, texts_of, ids_of, write_rows, store_vectors,
  flush, after_flush, is_full, last_flush, index_loop, index_planned, index_messages,
}
use exchange_mcp.Search.Index.Complete.{
  Among, Complete, Progressed, Honest, Within, AllComplete, Answer, Complete-Progressed,
  Progressed-refl, Progressed-trans, replace-Complete, replace-Progressed, AllComplete-Progressed,
  write_rows-Complete,
}

module _ (x : SemanticIndex) (vector : Text → String) where
  -- A flush completes all of its mails, or has written nothing.
  abbrev Flushed : List Planned → List Planned → Store → Option (List String) × Store → Type 0
  Flushed ps qs s (none, t) = t ≡ s
  Flushed ps qs s (some ids, t) =
      (length ids ≡ length qs) × Progressed x vector ps s t × AllComplete x vector ps t qs

  length-ids_of : (qs : List Planned) → length (ids_of x qs) ≡ length qs
  length-ids_of [] = refl
  length-ids_of (q ∷ qs) = ap suc (length-ids_of qs)

  flush-Flushed :
      (k : ℕ) (ps qs : List Planned) (s : Store)
      → Honest x vector
      → Within ps qs
      → Flushed ps qs s (flush x k qs s)
  unfolding flush
  flush-Flushed k ps qs s honest h = go (x.embed k (texts_of x qs)) refl
    where
      test :
          (vs : List String) (b : Bool)
          → (b ≡ true → vs ≡ map vector (texts_of x qs))
          → Flushed ps qs s (if b then (some (ids_of x qs), write_rows x qs vs s) else (none, s))
      test vs true e = rw (e refl) (
        length-ids_of qs,
        (write_rows-Complete x vector ps qs s h).0,
        (write_rows-Complete x vector ps qs s h).1,
      )
      test vs false e = refl

      go :
          (o : Option (List String))
          → x.embed k (texts_of x qs) ≡ o
          → Flushed ps qs s (store_vectors x qs s o)
      go none e = refl
      go (some vs) e =
          test vs (length vs == length (texts_of x qs))
            (λ b. honest k (texts_of x qs) vs e (equal (length vs) (length (texts_of x qs)) b))
        where
          equal : (m n : ℕ) → (m == n) ≡ true → m ≡ n
          equal m n e = ground arith

  -- What the loop owes: from `s`, with `n` mails in all and `qs` to complete.
  abbrev Owed : List Planned → ℕ → List Planned → Store → Option ℕ × Store → Type 0
  Owed ps n qs s r = Progressed x vector ps s r.1 × Answer x vector ps n qs r

  -- After a flush of the mails `qs`, the rest of the loop completes the mails `us`.
  after_flush-Owed :
      (ps qs us : List Planned) (n : ℕ) (next : List String → Store → Option ℕ × Store)
      (done : List String) (s : Store) (r : Option (List String) × Store)
      → Flushed ps qs s r
      → ((d : List String) (t : Store)
          → length d ≡ length done + length qs
          → Owed ps n us t (next d t))
      → Owed ps n (qs ++ us) s (after_flush x next done r)
  after_flush-Owed ps qs us n next done s (none, t) e ih =
      (subst (Progressed x vector ps s) (sym e) (Progressed-refl x vector ps s), tt)
  after_flush-Owed ps qs us n next done s (some ids, t) h ih =
      join (next (done ++ ids) t) (ih (done ++ ids) t (omega (arith, length-append done ids, h.0)))
    where
      join : (r : Option ℕ × Store) → Owed ps n us t r → Owed ps n (qs ++ us) s r
      join (none, u) g = (Progressed-trans x vector ps s t u h.1 g.0, tt)
      join (some m, u) g = (
        Progressed-trans x vector ps s t u h.1 g.0,
        (g.1.0, All-append _ qs us (AllComplete-Progressed x vector ps qs t u g.0 h.2) g.1.1),
      )

  insert-AllComplete :
      (ps us qs : List Planned) (q : Planned) (t : Store)
      → Complete x vector ps t q.0
      → AllComplete x vector ps t (us ++ qs)
      → AllComplete x vector ps t (us ++ q ∷ qs)
  insert-AllComplete ps [] qs q t c h = (c, h)
  insert-AllComplete ps (u ∷ us) qs q t c h = (h.0, insert-AllComplete ps us qs q t c h.1)

  -- A mail that needs no chunks is complete at once.
  empty-Owed :
      (ps us qs : List Planned) (i : String) (n : ℕ) (s : Store) (r : Option ℕ × Store)
      → Among (i, []) ps
      → Owed ps n (us ++ qs) (replace_chunks x.now i [] s) r
      → Owed ps n (us ++ (i, []) ∷ qs) s r
  empty-Owed ps us qs i n s (o, t) a h = (
    Progressed-trans x vector ps s s' t (replace-Progressed x vector ps i [] s a) h.0,
    answer o h.1,
  )
    where
      s' : Store
      s' = replace_chunks x.now i [] s

      answer :
          (o : Option ℕ)
          → Answer x vector ps n (us ++ qs) (o, t)
          → Answer x vector ps n (us ++ (i, []) ∷ qs) (o, t)
      answer none g = tt
      answer (some m) g = (
        g.0,
        insert-AllComplete ps us qs (i, []) t
            (Complete-Progressed x vector ps s' t i h.0 (replace-Complete x vector ps i [] s a))
            g.1,
      )

  if-Owed :
      (ps us : List Planned) (n : ℕ) (s : Store) (b : Bool) (r r' : Option ℕ × Store)
      → Owed ps n us s r
      → Owed ps n us s r'
      → Owed ps n us s (if b then r else r')
  if-Owed ps us n s true r r' h g = h
  if-Owed ps us n s false r r' h g = g

  last_flush-Owed :
      (ps pending : List Planned) (n k : ℕ) (done : List String) (s : Store)
      → Honest x vector
      → Within ps pending
      → n ≡ length done + length pending
      → Owed ps n (pending ++ []) s (last_flush x k pending done s)
  last_flush-Owed ps [] n k done s honest h e =
      (Progressed-refl x vector ps s, (omega (arith, e), tt))
  last_flush-Owed ps (p ∷ pending) n k done s honest h e =
      after_flush-Owed ps (p ∷ pending) [] n (λ d t. (some (length d), t)) done s
        (flush x k (p ∷ pending) s) (flush-Flushed k ps (p ∷ pending) s honest h)
        (λ d t l. (Progressed-refl x vector ps t, (omega (arith, e, l), tt)))

  index_loop-Owed :
      (ps qs pending : List Planned) (n size k : ℕ) (done : List String) (s : Store)
      → Honest x vector
      → Within ps qs
      → Within ps pending
      → n ≡ length done + length pending + length qs
      → Owed ps n (pending ++ qs) s (index_loop x qs pending size k done s)
  unfolding index_loop
  index_loop-Owed ps [] pending n size k done s honest h g e =
      last_flush-Owed ps pending n k done s honest g (omega (arith, e))
  index_loop-Owed ps ((i, []) ∷ qs) pending n size k done s honest h g e =
      empty-Owed ps pending qs i n s _ h.0 (
        index_loop-Owed ps qs pending n size k (done ++ i ∷ []) (replace_chunks x.now i [] s) honest
          h.1 g (omega (arith, e, length-append done (i ∷ []))))
  index_loop-Owed ps ((i, t ∷ ts) ∷ qs) pending n size k done s honest h g e =
      let p : Planned = (i, t ∷ ts) in
      let room = index_loop x qs (pending ++ p ∷ []) (size + length (t ∷ ts)) k done s in
      if-Owed ps (pending ++ p ∷ qs) n s (is_full x pending size (t ∷ ts)) _ _
        (after_flush-Owed ps pending (p ∷ qs) n
          (λ d s'. index_loop x qs (p ∷ []) (length (t ∷ ts)) (suc k) d s') done s
          (flush x k pending s) (flush-Flushed k ps pending s honest g)
          (λ d s' l.
            index_loop-Owed ps qs (p ∷ []) n (length (t ∷ ts)) (suc k) d s' honest h.1 (h.0, tt)
              (omega (arith, e, l))))
        (subst (λ us. Owed ps n us s room) (append_assoc pending (p ∷ []) qs)
          (index_loop-Owed ps qs (pending ++ p ∷ []) n (size + length (t ∷ ts)) k done s honest h.1
            (All-append _ pending (p ∷ []) g (h.0, tt))
            (omega (arith, e, length-append pending (p ∷ [])))))

  -- Without a plan nothing is written; with one, its mails are those of the page, in order.
  abbrev Planning : List Message → Option (List Planned) → Type 0
  Planning rows none = Unit
  Planning rows (some ps) = ids_of x ps ≡ map (λ m. m.ews_id) rows

  plan-Planning : (n : ℕ) (rows : List Message) (s : Store) → Planning rows (plan x n rows s)
  unfolding plan
  plan-Planning n [] s = refl
  plan-Planning n (m ∷ ms) s =
      go (x.analyse n m.ews_id (codes m.body_clean)) (plan x (suc n) ms s)
        (plan-Planning (suc n) ms s)
    where
      go :
          (o : Option Text) (ps : Option (List Planned))
          → Planning ms ps
          → Planning (m ∷ ms) (cons_plan x (plan_row x s m o) ps)
      go none ps h = tt
      go (some text) none h = tt
      go (some text) (some ps) h = ap (λ ids. m.ews_id ∷ ids) h

  Among-self : (ps : List Planned) → Within ps ps
  Among-self [] = tt
  Among-self (p ∷ ps) = (inl refl, All-map _ _ (λ q a. inr a) ps (Among-self ps))

  abbrev pub Indexed : List Message → Store → Option ℕ × Store → Option (List Planned) → Type 0
  Indexed rows s r none = r ≡ (none, s)
  Indexed rows s r (some ps) =
      (ids_of x ps ≡ map (λ m. m.ews_id) rows)
      × Progressed x vector ps s r.1
      × Answer x vector ps (length rows) ps r

  -- If the embedder gives each text its vector or fails, then wherever a pass stops, each mail is
  -- as it was, or has all the chunks of its plan, each with its place and the vector of its text,
  -- and is stamped; a pass that returns has done this for every row of the page and counts them.
  -- Where the plan itself fails, nothing is written.
  pub index_messages-Indexed :
      (rows : List Message) (s : Store)
      → Honest x vector
      → Indexed rows s (index_messages x rows s) (plan x 0 rows s)
  unfolding index_messages
  index_messages-Indexed rows s honest = go (plan x 0 rows s) (plan-Planning 0 rows s)
    where
      as_many :
          (ps : List Planned) → ids_of x ps ≡ map (λ m. m.ews_id) rows → length rows ≡ length ps
      as_many ps e = sym (length-map (λ m. m.ews_id) rows) ∙ ap length (sym e) ∙ length-ids_of ps

      go : (o : Option (List Planned)) → Planning rows o → Indexed rows s (index_planned x s o) o
      go none h = refl
      go (some ps) h =
          let r =
            index_loop-Owed ps ps [] (length rows) 0 0 [] s honest (Among-self ps) tt
              (omega (arith, as_many ps h)) in
          (h, r.0, r.1)
