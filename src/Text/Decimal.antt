-- ===== src/Text/Decimal.antt =====
-- Decimal numerals: `str(n)` for a number, and `int(s)` over ASCII.
use exchange_mcp.Prelude.{
  append_nil, ℕ, zero, suc, ◌+◌, ◌-◌, ◌*◌, ◌/◌, ◌%◌, ◌<◌, arith, ◌≡◌, refl, ap, ◌∙◌, Bool, true,
  false, ◌&&◌, Option, none, some, [], ◌∷◌, ◌++◌, if◌then◌else◌, leb, ltb, ◌==◌, All, All-append,
  All-map,
}
use exchange_mcp.Prelude.Int.{ℤ, pos, negsuc}
use exchange_mcp.Text.{Text, lstrip, strip, is_space}
use mathlib.Core.List.{reverse, reverse_aux}

abbrev pub is_digit : ℕ → Bool
is_digit c = leb 48 c && leb c 57

-- The digits of `n`, for more fuel than `n` has digits.
unfoldable pub print_on : ℕ → ℕ → Text
print_on zero n = []
print_on (suc fuel) n =
    let front = print_on fuel (n / 10) in
    if ltb n 10 then (48 + n) ∷ [] else front ++ ((48 + n % 10) ∷ [])

-- `str(n)`; a number has at most as many digits as its successor counts.
unfoldable pub print : ℕ → Text
unfolding print_on
print n = print_on (suc n) n

-- The digits behind `acc`; single underscores may stand between two of them.
unfoldable pub parse_on : ℕ → Bool → Text → Option ℕ
parse_on acc seen [] = if seen then some acc else none
parse_on acc seen (c ∷ s) =
    let next = parse_on (acc * 10 + (c - 48)) true s in
    let skip = parse_on acc false s in
    if is_digit c then next else if c == b'_' && seen then skip else none

abbrev pub as_pos : Option ℕ → Option ℤ
as_pos none = none
as_pos (some n) = some (pos n)

abbrev pub as_neg : Option ℕ → Option ℤ
as_neg none = none
as_neg (some zero) = some (pos 0)
as_neg (some (suc n)) = some (negsuc n)

unfoldable pub parse_signed : Text → Option ℤ
unfolding parse_on
parse_signed [] = none
parse_signed (c ∷ s) =
    if c == b'-'
    then as_neg (parse_on 0 false s)
    else if c == b'+'
    then as_pos (parse_on 0 false s)
    else as_pos (parse_on 0 false (c ∷ s))

-- `int(s)`
unfoldable pub int : Text → Option ℤ
unfolding parse_signed
int s = parse_signed (strip s)

abbrev pub Digit : ℕ → Type 0
Digit c = is_digit c ≡ true

Digit-add : (n : ℕ) → n < 10 → Digit (48 + n)
Digit-add n h = ground arith

pub print_on-Digits : (fuel n : ℕ) → All Digit (print_on fuel n)
unfolding print_on
print_on-Digits zero n = tt
print_on-Digits (suc fuel) n = go (ltb n 10) refl (print_on-Digits fuel (n / 10))
  where
    go :
        (b : Bool)
        → ltb n 10 ≡ b
        → All Digit (print_on fuel (n / 10))
        → All Digit (if b then (48 + n) ∷ [] else print_on fuel (n / 10) ++ ((48 + n % 10) ∷ []))
    go true e h = (Digit-add n (ground arith), tt)
    go false e h =
        All-append Digit (print_on fuel (n / 10)) ((48 + n % 10) ∷ []) h
          (Digit-add (n % 10) (omega arith), tt)

-- Every character of a printed number is a digit.
pub print-Digits : (n : ℕ) → All Digit (print n)
unfolding print
print-Digits n = print_on-Digits (suc n) n

abbrev branch : Bool → Bool → Option ℕ → Option ℕ → Option ℕ
branch b k next skip = if b then next else if k then skip else none

some_eq : {m n : ℕ} → some m ≡ some n → m ≡ n
some_eq e = ap (λ o. elim o [ some x ↦ x | none ↦ 0 ]) e

-- One more digit at the end of what parses.
parse_on-snoc :
    (acc c v : ℕ) (seen : Bool) (s : Text)
    → Digit c
    → parse_on acc seen s ≡ some v
    → parse_on acc seen (s ++ (c ∷ [])) ≡ some (v * 10 + (c - 48))
unfolding parse_on
parse_on-snoc acc c v true [] d h = digit_branch (is_digit c) d
  where
    digit_branch :
        (b : Bool)
        → b ≡ true
        → branch b (c == b'_' && true) (some (acc * 10 + (c - 48))) none ≡ some (v * 10 + (c - 48))
    digit_branch true e = rw (some_eq h) refl
    digit_branch false e = cc
parse_on-snoc acc c v false [] d h = cc
parse_on-snoc acc c v seen (x ∷ s) d h =
    go (is_digit x) (x == b'_' && seen) (λ k. parse_on-snoc (acc * 10 + (x - 48)) c v true s d k)
      (λ k. parse_on-snoc acc c v false s d k) h
  where
    go :
        (b k : Bool)
        → (parse_on (acc * 10 + (x - 48)) true s ≡ some v
            → parse_on (acc * 10 + (x - 48)) true (s ++ (c ∷ [])) ≡ some (v * 10 + (c - 48)))
        → (parse_on acc false s ≡ some v
            → parse_on acc false (s ++ (c ∷ [])) ≡ some (v * 10 + (c - 48)))
        → branch b k (parse_on (acc * 10 + (x - 48)) true s) (parse_on acc false s) ≡ some v
        → branch b k
            (parse_on (acc * 10 + (x - 48)) true (s ++ (c ∷ [])))
            (parse_on acc false (s ++ (c ∷ [])))
          ≡ some (v * 10 + (c - 48))
    go true k f g e = f e
    go false true f g e = g e
    go false false f g e = cc

parse_on-one : (n : ℕ) → n < 10 → parse_on 0 false ((48 + n) ∷ []) ≡ some n
unfolding parse_on
parse_on-one n h = go (is_digit (48 + n)) (Digit-add n h)
  where
    go :
        (b : Bool)
        → b ≡ true
        → branch b (48 + n == b'_' && false) (some (0 * 10 + (48 + n - 48))) none ≡ some n
    go true e = ap some (omega arith)
    go false e = cc

parse_on-print_on : (fuel n : ℕ) → n < fuel → parse_on 0 false (print_on fuel n) ≡ some n
unfolding print_on
parse_on-print_on zero n h = absurd (omega arith)
parse_on-print_on (suc fuel) n h = go (ltb n 10) refl (parse_on-print_on fuel (n / 10))
  where
    go :
        (b : Bool)
        → ltb n 10 ≡ b
        → (n / 10 < fuel → parse_on 0 false (print_on fuel (n / 10)) ≡ some (n / 10))
        → parse_on 0 false
            (if b then (48 + n) ∷ [] else print_on fuel (n / 10) ++ ((48 + n % 10) ∷ []))
          ≡ some n
    go true e f = parse_on-one n (ground arith)
    go false e f =
        let last = 48 + n % 10 in
        parse_on-snoc 0 last (n / 10) false (print_on fuel (n / 10))
          (Digit-add (n % 10) (omega arith)) (f (ground arith))
        ∙ ap some (omega arith)

pub parse_on-print : (n : ℕ) → parse_on 0 false (print n) ≡ some n
unfolding print
parse_on-print n = parse_on-print_on (suc n) n (omega arith)

reverse_aux-All : (P : ℕ → Type 0) (xs ys : Text) → All P xs → All P ys → All P (reverse_aux xs ys)
reverse_aux-All P [] ys h k = k
reverse_aux-All P (x ∷ xs) ys h k = reverse_aux-All P xs (x ∷ ys) h.1 (h.0, k)

reverse_aux-twice :
    (xs ys zs : Text) → reverse_aux (reverse_aux xs ys) zs ≡ reverse_aux ys (xs ++ zs)
reverse_aux-twice [] ys zs = refl
reverse_aux-twice (x ∷ xs) ys zs = reverse_aux-twice xs (x ∷ ys) zs

abbrev pub Visible : ℕ → Type 0
Visible c = is_space c ≡ false

pub lstrip-Visible : (s : Text) → All Visible s → lstrip s ≡ s
unfolding lstrip
lstrip-Visible [] h = refl
lstrip-Visible (c ∷ s) h = go (is_space c) h.0
  where
    go : (b : Bool) → b ≡ false → (if b then lstrip s else c ∷ s) ≡ c ∷ s
    go true e = cc
    go false e = refl

-- There is nothing to strip from a text without white space.
pub strip-Visible : (s : Text) → All Visible s → strip s ≡ s
unfolding strip
strip-Visible s h =
    ap (λ t. reverse (lstrip (reverse t))) (lstrip-Visible s h)
    ∙ ap reverse (lstrip-Visible (reverse s) (reverse_aux-All Visible s [] h tt))
    ∙ reverse_aux-twice s [] []
    ∙ append_nil s

Digit-Visible : (c : ℕ) → Digit c → Visible c
Digit-Visible c d = ground arith

-- A text of digits has no sign.
parse_signed-digits :
    (s : Text) (n : ℕ) → All Digit s → parse_on 0 false s ≡ some n → parse_signed s ≡ some (pos n)
unfolding parse_signed parse_on
parse_signed-digits [] n h e = cc
parse_signed-digits (c ∷ s) n h e = go (c == b'-') (c == b'+') (minus c h.0) (plus c h.0)
  where
    minus : (d : ℕ) → Digit d → d == b'-' ≡ false
    minus d h = ground arith

    plus : (d : ℕ) → Digit d → d == b'+' ≡ false
    plus d h = ground arith

    go :
        (b k : Bool)
        → b ≡ false
        → k ≡ false
        → (if b
            then as_neg (parse_on 0 false s)
            else if k
            then as_pos (parse_on 0 false s)
            else as_pos (parse_on 0 false (c ∷ s)))
          ≡ some (pos n)
    go true k f g = cc
    go false true f g = cc
    go false false f g = ap as_pos e

-- Reading a printed number gives it back.
pub int-print : (n : ℕ) → int (print n) ≡ some (pos n)
unfolding int
int-print n =
    ap parse_signed
      (strip-Visible (print n) (All-map Digit Visible Digit-Visible (print n) (print-Digits n)))
    ∙ parse_signed-digits (print n) n (print-Digits n) (parse_on-print n)

-- So does reading a printed negative number.
pub int-print_negative : (n : ℕ) → int (b'-' ∷ print (suc n)) ≡ some (negsuc n)
unfolding int parse_signed
int-print_negative n =
    ap parse_signed (
      strip-Visible (b'-' ∷ print (suc n))
        (refl, All-map Digit Visible Digit-Visible (print (suc n)) (print-Digits (suc n))))
    ∙ ap as_neg (parse_on-print (suc n))
