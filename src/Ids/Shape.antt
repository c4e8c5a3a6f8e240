-- ===== src/Ids/Shape.antt =====
-- The shape of the aliases that ewsmcp/ids.py mints.
use mathlib.Core.Bool.{true≢false}
use exchange_mcp.Prelude.{
  ℕ, ◌≡◌, refl, sym, ◌∙◌, Bool, true, false, ◌&&◌, ◌||◌, some, [], ◌∷◌, ◌++◌, if◌then◌else◌,
  or_left, or_right, if_true, and_true, and_parts, or_second, All, ◌==◌,
}
use exchange_mcp.Text.{Text, codes}
use exchange_mcp.Text.Decimal.{is_digit, Digit, print, print-Digits, parse_on, parse_on-print}
use exchange_mcp.Ids.Pattern.{is_letter, ends, digits_end, second_letter, is_alias, is_kind}
use exchange_mcp.Ids.Aliaser.{kind_or_x}

digits_end-digits : (s : Text) → All Digit s → digits_end true s ≡ true
digits_end-digits [] h = refl
digits_end-digits (c ∷ s) h =
    if_true (is_digit c) (digits_end true s) (ends (c ∷ s)) h.0 ∙ digits_end-digits s h.1

digits_end-print : (n : ℕ) → digits_end false (print n) ≡ true
unfolding parse_on
digits_end-print n = go (print n) (parse_on-print n) (print-Digits n)
  where
    go : (s : Text) → parse_on 0 false s ≡ some n → All Digit s → digits_end false s ≡ true
    go [] e h = cc
    go (c ∷ s) e h =
        if_true (is_digit c) (digits_end true s) (false && ends (c ∷ s)) h.0
        ∙ digits_end-digits s h.1

-- No newline ends the kind.
abbrev pub Plain : Text → Type 0
Plain s = All (λ c. c == 10 ≡ false) s

-- A kind and a number make an alias.
pub mint-is_alias :
    (kind : Text) (n : ℕ) → is_kind kind ≡ true → Plain kind → is_alias (kind ++ print n) ≡ true
unfolding is_kind is_alias
mint-is_alias [] n h k = cc
mint-is_alias (c ∷ []) n h k =
    and_true (is_letter c) (digits_end false (print n) || second_letter (print n))
      (and_parts (is_letter c) true h).0
      (or_left (digits_end false (print n)) (second_letter (print n)) (digits_end-print n))
mint-is_alias (c ∷ d ∷ []) n h k =
    let (first, rest) = and_parts (is_letter c) (d == 10 || (is_letter d && true)) h in
    let second =
      (and_parts (is_letter d) true (or_second (d == 10) (is_letter d && true) rest k.1.0)).0 in
    and_true (is_letter c) (digits_end false (d ∷ print n) || second_letter (d ∷ print n)) first (
      or_right (digits_end false (d ∷ print n)) (second_letter (d ∷ print n))
        (and_true (is_letter d) (digits_end false (print n)) second (digits_end-print n)))
mint-is_alias (c ∷ d ∷ e ∷ []) n h k =
    let (first, rest) = and_parts (is_letter c) (false || (is_letter d && e == 10)) h in
    let newline = (and_parts (is_letter d) (e == 10) rest).1 in
    absurd (true≢false (sym newline ∙ k.1.1.0))
mint-is_alias (c ∷ d ∷ e ∷ f ∷ s) n h k =
    let (first, rest) = and_parts (is_letter c) (false || (is_letter d && false)) h in
    absurd (true≢false (sym (and_parts (is_letter d) false rest).1))

pub kind_or_x-Kind :
    (kind : Text) → Plain kind → (is_kind (kind_or_x kind) ≡ true) × Plain (kind_or_x kind)
unfolding is_kind
kind_or_x-Kind kind k = go (is_kind kind) refl
  where
    go :
        (b : Bool)
        → is_kind kind ≡ b
        → (is_kind (if b then kind else codes "x") ≡ true) × Plain (if b then kind else codes "x")
    go true e = (e, k)
    go false e = (refl, (refl, tt))
