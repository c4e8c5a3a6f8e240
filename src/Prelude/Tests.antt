-- ===== src/Prelude/Tests.antt =====
-- Boolean tests on numbers and texts, the conditional, and case splits that keep the equation.
use Prim.Native.Nat.{ℕ, compare, Ordering}
use Prim.Native.String.{String}
use mathlib.Core.Path.{◌≡◌, refl, sym, ap, ◌∙◌}
use mathlib.Core.Logic.{◌⊎◌, inl, inr}
use mathlib.Core.Bool.{Bool, true, false, false≢true, ◌&&◌, ◌||◌}
use mathlib.Core.Option.{Option, none, some}
use text.Mathlib.Text.{◌==◌ as text_eq}
use text.Mathlib.TextEquality.{eq_iff}

abbrev pub ltb : ℕ → ℕ → Bool
ltb a b = elim (compare a b) [ Ordering.lt ↦ true | _ ↦ false ]

abbrev pub leb : ℕ → ℕ → Bool
leb a b = elim (compare a b) [ Ordering.gt ↦ false | _ ↦ true ]

infix 50 ◌==◌
abbrev pub ◌==◌ : ℕ → ℕ → Bool
a == b = elim (compare a b) [ Ordering.eq ↦ true | _ ↦ false ]

infix 1 if◌then◌else◌
abbrev pub if◌then◌else◌ {ℓ} : {A : Type ℓ} → Bool → A → A → A
if true then x else y = x
if false then x else y = y

-- Equality of two texts.
abbrev pub str_eq : String → String → Bool
str_eq a b = text_eq a b

pub str_eq_refl : (s : String) → str_eq s s ≡ true
str_eq_refl s = (eq_iff s s).1 refl

pub str_eq-eq : (s t : String) → str_eq s t ≡ true → s ≡ t
str_eq-eq s t h = (eq_iff s t).0 h

-- A value that may be missing, compared with another: Python's `==` on `str | None`.
abbrev pub option_str_eq : Option String → Option String → Bool
option_str_eq none none = true
option_str_eq none (some b) = false
option_str_eq (some a) none = false
option_str_eq (some a) (some b) = text_eq a b

abbrev pub is_some {ℓ} : {A : Type ℓ} → Option A → Bool
is_some none = false
is_some (some a) = true

pub Bool-cases : (b : Bool) → (b ≡ true) ⊎ (b ≡ false)
Bool-cases true = inl refl
Bool-cases false = inr refl

pub Option-cases {ℓ} : {A : Type ℓ} (o : Option A) → (o ≡ none) ⊎ ((a : A) × (o ≡ some a))
Option-cases none = inl refl
Option-cases (some a) = inr (a, refl)

-- The parts of a true or false test.
pub or_left : (b c : Bool) → b ≡ true → (b || c) ≡ true
or_left true c e = refl
or_left false c e = cc

pub or_false : (b : Bool) → (b || false) ≡ b
or_false true = refl
or_false false = refl

pub or_right : (b c : Bool) → c ≡ true → (b || c) ≡ true
or_right true c e = refl
or_right false c e = e

pub both_false : (b c : Bool) → (b || c) ≡ false → (b ≡ false) × (c ≡ false)
both_false false c e = (refl, e)
both_false true c e = cc

pub if_true {ℓ} : {A : Type ℓ} (b : Bool) (x y : A) → b ≡ true → (if b then x else y) ≡ x
if_true true x y e = refl
if_true false x y e = cc

pub if_false {ℓ} : {A : Type ℓ} (b : Bool) (x y : A) → b ≡ false → (if b then x else y) ≡ y
if_false true x y e = cc
if_false false x y e = refl

pub and_true : (b c : Bool) → b ≡ true → c ≡ true → (b && c) ≡ true
and_true true c e f = f
and_true false c e f = cc

pub and_parts : (b c : Bool) → (b && c) ≡ true → (b ≡ true) × (c ≡ true)
and_parts true c h = (refl, h)
and_parts false c h = cc

pub or_second : (b c : Bool) → (b || c) ≡ true → b ≡ false → c ≡ true
or_second true c h e = cc
or_second false c h e = h

pub str_eq_apart : (a b : String) → str_eq a b ≡ false → str_eq b a ≡ false
str_eq_apart a b h = elim (Bool-cases (str_eq b a)) [
  | inl e ↦
      absurd
        (false≢true (sym h ∙ ap (λ (c : String). str_eq a c) (str_eq-eq b a e) ∙ str_eq_refl a))
  | inr e ↦ e
]
