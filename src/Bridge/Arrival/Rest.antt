-- ===== src/Bridge/Arrival/Rest.antt =====
-- What lies behind a page of ewsmcp/bridge/arrival.py.
use mathlib.Core.Bool.{true≢false}
use exchange_mcp.Prelude.{
  ℕ, zero, suc, ◌≤◌, ◌<◌, ◌≡◌, refl, sym, ap, ◌∙◌, arith, Bool, true, false, ◌&&◌, List, [], ◌∷◌,
  if◌then◌else◌, if_true, if_false, All, All-map, All-take, All-select, select, take, drop, leb,
  ltb, ◌==◌,
}
use exchange_mcp.Bridge.Arrival.{Arrival, insert_seq, by_seq}
use exchange_mcp.Bridge.Arrival.Order.{Ascending, All-insert_seq, All-by_seq, by_seq-Ascending}

-- No two arrivals share a sequence.
abbrev pub Distinct : List Arrival → Type 0
Distinct [] = Unit
Distinct (a ∷ rest) = All (λ b. a.seq == b.seq ≡ false) rest × Distinct rest

abbrev pub Strict : List Arrival → Type 0
Strict [] = Unit
Strict (a ∷ rest) = All (λ b. a.seq < b.seq) rest × Strict rest

insert_seq-Strict :
    (a : Arrival) (bs : List Arrival)
    → All (λ b. a.seq == b.seq ≡ false) bs
    → Strict bs
    → Strict (insert_seq a bs)
unfolding insert_seq
insert_seq-Strict a [] d h = (tt, tt)
insert_seq-Strict a (b ∷ bs) d h = go (leb a.seq b.seq) refl (insert_seq-Strict a bs d.1 h.1)
  where
    below : (m n : ℕ) → leb m n ≡ true → m == n ≡ false → m < n
    below m n e k = ground arith

    above : (m n : ℕ) → leb m n ≡ false → n < m
    above m n e = ground arith

    go :
        (c : Bool)
        → leb a.seq b.seq ≡ c
        → Strict (insert_seq a bs)
        → Strict (if c then a ∷ b ∷ bs else b ∷ insert_seq a bs)
    go true e k =
        let first = below a.seq b.seq e d.0 in
        ((first, All-map _ _ (λ x y. omega (arith, y, first)) bs h.0), h)
    go false e k = (All-insert_seq _ a bs (above a.seq b.seq e) h.0, k)

pub by_seq-Strict : (bs : List Arrival) → Distinct bs → Strict (by_seq bs)
unfolding by_seq
by_seq-Strict [] h = tt
by_seq-Strict (b ∷ bs) h =
    insert_seq-Strict b (by_seq bs) (All-by_seq _ bs h.0) (by_seq-Strict bs h.1)

pub select-Strict : (p : Arrival → Bool) (bs : List Arrival) → Strict bs → Strict (select p bs)
select-Strict p [] h = tt
select-Strict p (b ∷ bs) h = go (p b) (All-select _ p bs h.0) (select-Strict p bs h.1)
  where
    go :
        (c : Bool)
        → All (λ x. b.seq < x.seq) (select p bs)
        → Strict (select p bs)
        → Strict (if c then b ∷ select p bs else select p bs)
    go true k l = (k, l)
    go false k l = l

take-Strict : (n : ℕ) (bs : List Arrival) → Strict bs → Strict (take n bs)
take-Strict zero bs h = tt
take-Strict (suc n) [] h = tt
take-Strict (suc n) (b ∷ bs) h = (All-take _ n bs h.0, take-Strict n bs h.1)

module _ (p : Arrival → Bool) where
  -- In front of an ascending list that starts no lower.
  insert_seq-front :
      (a : Arrival) (bs : List Arrival) → All (λ b. a.seq ≤ b.seq) bs → insert_seq a bs ≡ a ∷ bs
  unfolding insert_seq
  insert_seq-front a [] h = refl
  insert_seq-front a (b ∷ bs) h =
      if_true (leb a.seq b.seq) (a ∷ b ∷ bs) (b ∷ insert_seq a bs) (le a.seq b.seq h.0)
    where
      le : (m n : ℕ) → m ≤ n → leb m n ≡ true
      le m n e = ground arith

  select-insert_in :
      (a : Arrival) (bs : List Arrival)
      → p a ≡ true
      → Ascending bs
      → select p (insert_seq a bs) ≡ insert_seq a (select p bs)
  unfolding insert_seq
  select-insert_in a [] e h = if_true (p a) (a ∷ []) [] e
  select-insert_in a (b ∷ bs) e h = go (leb a.seq b.seq) refl (select-insert_in a bs e h.1)
    where
      le : (m n : ℕ) → leb m n ≡ true → m ≤ n
      le m n k = ground arith

      behind :
          (d : Bool)
          → leb a.seq b.seq ≡ false
          → select p (insert_seq a bs) ≡ insert_seq a (select p bs)
          → (if d then b ∷ select p (insert_seq a bs) else select p (insert_seq a bs))
            ≡ insert_seq a (if d then b ∷ select p bs else select p bs)
      behind true k r =
          ap (λ xs. b ∷ xs) r
          ∙ sym
              (if_false (leb a.seq b.seq) (a ∷ b ∷ select p bs) (b ∷ insert_seq a (select p bs)) k)
      behind false k r = r

      go :
          (c : Bool)
          → leb a.seq b.seq ≡ c
          → select p (insert_seq a bs) ≡ insert_seq a (select p bs)
          → select p (if c then a ∷ b ∷ bs else b ∷ insert_seq a bs)
            ≡ insert_seq a (select p (b ∷ bs))
      go true k r =
          let first = le a.seq b.seq k in
          if_true (p a) (a ∷ select p (b ∷ bs)) (select p (b ∷ bs)) e
          ∙ sym (
              insert_seq-front a (select p (b ∷ bs)) (
                All-select _ p (b ∷ bs)
                  (first, All-map _ _ (λ x y. omega (arith, y, first)) bs h.0)))
      go false k r = behind (p b) k r

  select-insert_out :
      (a : Arrival) (bs : List Arrival) → p a ≡ false → select p (insert_seq a bs) ≡ select p bs
  unfolding insert_seq
  select-insert_out a [] e = if_false (p a) (a ∷ []) [] e
  select-insert_out a (b ∷ bs) e = go (leb a.seq b.seq) (select-insert_out a bs e)
    where
      go :
          (c : Bool)
          → select p (insert_seq a bs) ≡ select p bs
          → select p (if c then a ∷ b ∷ bs else b ∷ insert_seq a bs) ≡ select p (b ∷ bs)
      go true k = if_false (p a) (a ∷ select p (b ∷ bs)) (select p (b ∷ bs)) e
      go false k = ap (λ xs. if p b then b ∷ xs else xs) k

  -- Sorting and filtering commute.
  pub by_seq-select : (bs : List Arrival) → by_seq (select p bs) ≡ select p (by_seq bs)
  unfolding by_seq
  by_seq-select [] = refl
  by_seq-select (b ∷ bs) = go (p b) refl (by_seq-select bs)
    where
      go :
          (c : Bool)
          → p b ≡ c
          → by_seq (select p bs) ≡ select p (by_seq bs)
          → by_seq (if c then b ∷ select p bs else select p bs)
            ≡ select p (insert_seq b (by_seq bs))
      go true e k =
          ap (insert_seq b) k ∙ sym (select-insert_in b (by_seq bs) e (by_seq-Ascending bs))
      go false e k = k ∙ sym (select-insert_out b (by_seq bs) e)

module _ (p q : Arrival → Bool) where
  pub select-and : (xs : List Arrival) → select (λ x. p x && q x) xs ≡ select p (select q xs)
  select-and [] = refl
  select-and (x ∷ xs) = go (p x) refl (q x) (select-and xs)
    where
      go :
          (b : Bool)
          → p x ≡ b
          → (c : Bool) → select (λ y. p y && q y) xs ≡ select p (select q xs)
          → (if b && c then x ∷ select (λ y. p y && q y) xs else select (λ y. p y && q y) xs)
            ≡ select p (if c then x ∷ select q xs else select q xs)
      go true e true k =
          ap (λ ys. x ∷ ys) k
          ∙ sym (if_true (p x) (x ∷ select p (select q xs)) (select p (select q xs)) e)
      go true e false k = k
      go false e true k =
          k ∙ sym (if_false (p x) (x ∷ select p (select q xs)) (select p (select q xs)) e)
      go false e false k = k

  -- A stronger test after a weaker one.
  pub select-narrow :
      ((x : Arrival) → p x ≡ true → q x ≡ true)
      → (xs : List Arrival) → select p (select q xs) ≡ select p xs
  select-narrow h [] = refl
  select-narrow h (x ∷ xs) = go (q x) refl (p x) refl (select-narrow h xs)
    where
      go :
          (c : Bool)
          → q x ≡ c
          → (b : Bool) → p x ≡ b
          → select p (select q xs) ≡ select p xs
          → select p (if c then x ∷ select q xs else select q xs)
            ≡ (if b then x ∷ select p xs else select p xs)
      go true e true k r =
          if_true (p x) (x ∷ select p (select q xs)) (select p (select q xs)) k
          ∙ ap (λ ys. x ∷ ys) r
      go true e false k r =
          if_false (p x) (x ∷ select p (select q xs)) (select p (select q xs)) k ∙ r
      go false e true k r = absurd (true≢false (sym (h x k) ∙ e))
      go false e false k r = r

pub select-All :
    (p : Arrival → Bool) (xs : List Arrival) → All (λ x. p x ≡ true) xs → select p xs ≡ xs
select-All p [] h = refl
select-All p (x ∷ xs) h =
    if_true (p x) (x ∷ select p xs) (select p xs) h.0 ∙ ap (λ ys. x ∷ ys) (select-All p xs h.1)

-- The sequence of the last arrival, or `d`.
abbrev pub last_of : ℕ → List Arrival → ℕ
last_of d [] = d
last_of d (a ∷ rest) = last_of a.seq rest

pub last_of-ge :
    (d : ℕ) (bs : List Arrival) → All (λ b. d < b.seq) bs → Strict bs → d ≤ last_of d bs
last_of-ge d [] h s = omega arith
last_of-ge d (b ∷ bs) h s = omega (arith, h.0, last_of-ge b.seq bs s.0 s.1)

abbrev pub past : ℕ → Arrival → Bool
past n b = ltb n b.seq

not_past : (m n : ℕ) → n ≤ m → ltb m n ≡ false
not_past m n h = ground arith

is_past : (m n : ℕ) → m < n → ltb m n ≡ true
is_past m n h = ground arith

-- What is behind the last of the first `n` is the rest.
pub select-past_last :
    (n d : ℕ) (bs : List Arrival)
    → All (λ b. d < b.seq) bs
    → Strict bs
    → select (past (last_of d (take n bs))) bs ≡ drop n bs
select-past_last zero d bs h s =
    select-All (past d) bs (All-map _ _ (λ b k. is_past d b.seq k) bs h)
select-past_last (suc n) d [] h s = refl
select-past_last (suc n) d (b ∷ bs) h s =
    let end = last_of b.seq (take n bs) in
    let ge = last_of-ge b.seq (take n bs) (All-take _ n bs s.0) (take-Strict n bs s.1) in
    if_false (past end b) (b ∷ select (past end) bs) (select (past end) bs) (not_past end b.seq ge)
    ∙ select-past_last n b.seq bs s.0 s.1

pub last_of-page :
    (n : ℕ) (x : Arrival) (xs : List Arrival) → Strict (x ∷ xs) → x.seq ≤ last_of x.seq (take n xs)
last_of-page n x xs s = last_of-ge x.seq (take n xs) (All-take _ n xs s.0) (take-Strict n xs s.1)

-- What is behind a page that starts with `x`.
pub select-past_page :
    (n : ℕ) (x : Arrival) (xs : List Arrival)
    → Strict (x ∷ xs)
    → select (past (last_of x.seq (take n xs))) (x ∷ xs) ≡ drop n xs
select-past_page n x xs s =
    let end = last_of x.seq (take n xs) in
    if_false (past end x) (x ∷ select (past end) xs) (select (past end) xs)
      (not_past end x.seq (last_of-page n x xs s))
    ∙ select-past_last n x.seq xs s.0 s.1
