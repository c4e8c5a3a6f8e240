-- ===== src/Search/Index/Rows.antt =====
-- What `replace_chunks` of ewsmcp/cache/store.py leaves of each mail.
use mathlib.Core.Bool.{false≢true}
use exchange_mcp.Prelude.{
  String, ◌≡◌, refl, sym, ◌∙◌, ap, Bool, true, false, not, some, List, [], ◌∷◌, ◌++◌, map, select,
  if◌then◌else◌, if_true, if_false, str_eq, str_eq-eq, str_eq_refl, All, All-if, Bool-cases, inl,
  inr, append_nil,
}
use exchange_mcp.Prelude.Int.{ℤ}
use exchange_mcp.Store.Rows.{Message, Chunk, Store, has_id, update_where, delete_where}
use exchange_mcp.Store.Chunks.{of_message, replace_chunks}

abbrev pub chunks_of : String → Store → List Chunk
chunks_of i s = select (of_message i) s.chunks

abbrev pub rows_of : String → Store → List Message
rows_of i s = select (has_id i) s.messages

-- The rows and the chunks of the id are as they were.
abbrev pub Untouched : String → Store → Store → Type 0
Untouched i s t = (chunks_of i t ≡ chunks_of i s) × (rows_of i t ≡ rows_of i s)

abbrev pub owned : String → Chunk → Chunk
owned i c = record c { message_ews_id = i }

abbrev pub Stamped : ℤ → Message → Type 0
Stamped now m = m.embedded_at ≡ some now

module _ {ℓ} {A : Type ℓ} (p : A → Bool) where
  select-append : (xs ys : List A) → select p (xs ++ ys) ≡ select p xs ++ select p ys
  select-append [] ys = refl
  select-append (x ∷ xs) ys = go (p x) _ (select-append xs ys)
    where
      go :
          (b : Bool) (zs : List A)
          → zs ≡ select p xs ++ select p ys
          → (if b then x ∷ zs else zs) ≡ (if b then x ∷ select p xs else select p xs) ++ select p ys
      go true zs e = ap (λ ws. x ∷ ws) e
      go false zs e = e

  select-All : (xs : List A) → All (λ x. p x ≡ true) xs → select p xs ≡ xs
  select-All [] h = refl
  select-All (x ∷ xs) h = if_true (p x) _ _ h.0 ∙ ap (λ ys. x ∷ ys) (select-All xs h.1)

  select_none : (xs : List A) → All (λ x. p x ≡ false) xs → select p xs ≡ []
  select_none [] h = refl
  select_none (x ∷ xs) h = if_false (p x) _ _ h.0 ∙ select_none xs h.1

  -- A narrower test, after a wider one.
  select_narrow :
      (q : A → Bool)
      → ((x : A) → q x ≡ false → p x ≡ false)
      → (xs : List A) → select p (select q xs) ≡ select p xs
  select_narrow q h [] = refl
  select_narrow q h (x ∷ xs) = go (q x) refl (select_narrow q h xs)
    where
      go :
          (b : Bool)
          → q x ≡ b
          → select p (select q xs) ≡ select p xs
          → select p (if b then x ∷ select q xs else select q xs)
            ≡ (if p x then x ∷ select p xs else select p xs)
      go true e ih = ap (λ ys. if p x then x ∷ ys else ys) ih
      go false e ih = ih ∙ sym (if_false (p x) _ _ (h x e))

  -- An update of rows that neither pass the test before nor after it.
  select-update_where :
      (q : A → Bool) (f : A → A)
      → ((x : A) → q x ≡ true → p x ≡ false)
      → ((x : A) → p (f x) ≡ p x)
      → (xs : List A) → select p (update_where q f xs) ≡ select p xs
  select-update_where q f h g [] = refl
  select-update_where q f h g (x ∷ xs) = go (q x) refl (select-update_where q f h g xs)
    where
      go :
          (b : Bool)
          → q x ≡ b
          → select p (update_where q f xs) ≡ select p xs
          → select p ((if b then f x else x) ∷ update_where q f xs)
            ≡ (if p x then x ∷ select p xs else select p xs)
      go true e ih = if_false (p (f x)) _ _ (g x ∙ h x e) ∙ ih ∙ sym (if_false (p x) _ _ (h x e))
      go false e ih = ap (λ ys. if p x then x ∷ ys else ys) ih

other_id : (a i j : String) → str_eq j i ≡ false → str_eq a i ≡ true → str_eq a j ≡ false
other_id a i j h e = elim (Bool-cases (str_eq a j)) [
  | inl k ↦
      absurd (false≢true (sym h ∙ ap (λ (b : String). str_eq b i) (sym (str_eq-eq a j k)) ∙ e))
  | inr k ↦ k
]

not-false : (b : Bool) → not b ≡ false → b ≡ true
not-false true e = refl
not-false false e = absurd (false≢true (sym e))

other_owner :
    (i j : String) (cs : List Chunk)
    → str_eq j i ≡ false
    → All (λ c. of_message j c ≡ false) (map (owned i) cs)
other_owner i j [] h = tt
other_owner i j (c ∷ cs) h = (other_id i i j h (str_eq_refl i), other_owner i j cs h)

own_owner : (i : String) (cs : List Chunk) → All (λ c. of_message i c ≡ true) (map (owned i) cs)
own_owner i [] = tt
own_owner i (c ∷ cs) = (str_eq_refl i, own_owner i cs)

-- The other mails keep their rows and chunks.
pub replace_chunks-Untouched :
    (now : ℤ) (i j : String) (cs : List Chunk) (s : Store)
    → str_eq j i ≡ false
    → Untouched j s (replace_chunks now i cs s)
unfolding replace_chunks
replace_chunks-Untouched now i j cs s h = (
  select-append (of_message j) (delete_where (of_message i) s.chunks) (map (owned i) cs)
      ∙ ap (λ ys. select (of_message j) (delete_where (of_message i) s.chunks) ++ ys)
          (select_none (of_message j) (map (owned i) cs) (other_owner i j cs h))
      ∙ append_nil _
      ∙ select_narrow (of_message j) (λ c. not (of_message i c))
          (λ c e. other_id c.message_ews_id i j h (not-false _ e)) s.chunks,
  select-update_where (has_id j) (has_id i) (λ m. record m { embedded_at = some now })
      (λ m e. other_id m.ews_id i j h e) (λ m. refl) s.messages,
)

-- The mail itself has exactly the new chunks.
pub replace_chunks-own :
    (now : ℤ) (i : String) (cs : List Chunk) (s : Store)
    → chunks_of i (replace_chunks now i cs s) ≡ map (owned i) cs
unfolding replace_chunks
replace_chunks-own now i cs s =
    select-append (of_message i) (delete_where (of_message i) s.chunks) (map (owned i) cs)
    ∙ ap (λ ys. ys ++ select (of_message i) (map (owned i) cs)) (emptied s.chunks)
    ∙ select-All (of_message i) (map (owned i) cs) (own_owner i cs)
  where
    emptied : (old : List Chunk) → select (of_message i) (delete_where (of_message i) old) ≡ []
    emptied old = select_none (of_message i) (delete_where (of_message i) old) (gone old)
      where
        keep :
            (c : Chunk) (b : Bool) (rest : List Chunk)
            → of_message i c ≡ b
            → All (λ d. of_message i d ≡ false) rest
            → All (λ d. of_message i d ≡ false) (if not b then c ∷ rest else rest)
        keep c true rest e h = h
        keep c false rest e h = (e, h)

        gone :
            (old : List Chunk) → All (λ c. of_message i c ≡ false) (delete_where (of_message i) old)
        gone [] = tt
        gone (c ∷ old) = keep c (of_message i c) _ refl (gone old)

-- And its rows are stamped.
pub replace_chunks-Stamped :
    (now : ℤ) (i : String) (cs : List Chunk) (s : Store)
    → All (Stamped now) (rows_of i (replace_chunks now i cs s))
unfolding replace_chunks
replace_chunks-Stamped now i cs s = go s.messages
  where
    stamp : Message → Message
    stamp m = record m { embedded_at = some now }

    one :
        (m : Message) (b : Bool) (rest : List Message)
        → has_id i m ≡ b
        → All (Stamped now) rest
        → All (Stamped now) (
            if has_id i (if b then stamp m else m) then (if b then stamp m else m) ∷ rest else rest)
    one m true rest e h = All-if (Stamped now) (has_id i (stamp m)) _ _ (refl, h) h
    one m false rest e h = skip (has_id i m) e h
      where
        skip :
            (b : Bool)
            → b ≡ false
            → All (Stamped now) rest
            → All (Stamped now) (if b then m ∷ rest else rest)
        skip true e k = absurd (false≢true (sym e))
        skip false e k = k

    go :
        (ms : List Message)
        → All (Stamped now) (select (has_id i) (update_where (has_id i) stamp ms))
    go [] = tt
    go (m ∷ ms) = one m (has_id i m) _ refl (go ms)
