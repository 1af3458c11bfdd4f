-- ===== src/Prelude/Tests.antt =====
-- Boolean tests on the native numbers and on texts, the conditional, and case lemmas.
use Prim.Native.Nat.{ℕ, ◌≤◌, ◌<◌, compare, Ordering}
use Prim.Native.Char.{code}
use Prim.Native.String.{String, [], ◌∷◌}
use mathlib.Core.Path.{◌≡◌, refl}
use mathlib.Core.Logic.{◌≢◌, ◌⊎◌, inl, inr}
use mathlib.Core.Bool.{Bool, true, false}
use mathlib.Core.Option.{Option, none, some}
use native.Mathlib.Omega.{arith}
use text.Mathlib.Text.{◌==◌ as text_eq}
use text.Mathlib.TextEquality.{eq_iff}

abbrev pub ltb : ℕ → ℕ → Bool
ltb a b = elim (compare a b) [ Ordering.lt ↦ true | _ ↦ false ]

abbrev pub leb : ℕ → ℕ → Bool
leb a b = elim (compare a b) [ Ordering.gt ↦ false | _ ↦ true ]

infix 50 ◌==◌
abbrev pub ◌==◌ : ℕ → ℕ → Bool
a == b = elim (compare a b) [ Ordering.eq ↦ true | _ ↦ false ]

infix 1 if◌then◌else◌
abbrev pub if◌then◌else◌ {ℓ} : {A : Type ℓ} → Bool → A → A → A
if true then x else y = x
if false then x else y = y

pub ltb→lt : (a b : ℕ) → ltb a b ≡ true → a < b
ltb→lt a b h = ground arith

pub leb→le : (a b : ℕ) → leb a b ≡ true → a ≤ b
leb→le a b h = ground arith

pub ==→eq : (a b : ℕ) → (a == b) ≡ true → a ≡ b
==→eq a b h = ground arith

-- Equality of Go strings.
abbrev pub str_eq : String → String → Bool
str_eq = text_eq

pub eq_of-str_eq : (s t : String) → str_eq s t ≡ true → s ≡ t
eq_of-str_eq s t h = (eq_iff s t).0 h

pub str_eq_refl : (s : String) → str_eq s s ≡ true
str_eq_refl s = (eq_iff s s).1 refl

pub ne_of-str_eq : (s t : String) → str_eq s t ≡ false → s ≢ t
ne_of-str_eq s t h e = ground (arith, eq_iff s t)

pub str_eq-eq-false : (s t : String) → s ≢ t → str_eq s t ≡ false
str_eq-eq-false s t h = ground (arith, eq_iff s t)

-- Splits on a computed value that keep the equation.
pub Bool-cases : (b : Bool) → (b ≡ true) ⊎ (b ≡ false)
Bool-cases true = inl refl
Bool-cases false = inr refl

pub Option-cases {ℓ} : {A : Type ℓ} (o : Option A) → (o ≡ none) ⊎ ((a : A) × (o ≡ some a))
Option-cases none = inl refl
Option-cases (some a) = inr (a, refl)

-- The order of Go strings: by bytes, which is by code points for UTF-8.
abbrev pub str_ltb : String → String → Bool
str_ltb [] [] = false
str_ltb [] (d ∷ t) = true
str_ltb (c ∷ s) [] = false
str_ltb (c ∷ s) (d ∷ t) =
    let rest = str_ltb s t in if code c == code d then rest else ltb (code c) (code d)

pub str_ltb_irrefl : (s : String) → str_ltb s s ≡ false
str_ltb_irrefl [] = refl
str_ltb_irrefl (c ∷ s) = ground (arith, str_ltb_irrefl s)

pub str_ltb_asymm : (s t : String) → str_ltb s t ≡ true → str_ltb t s ≡ false
str_ltb_asymm [] [] h = refl
str_ltb_asymm [] (d ∷ t) h = refl
str_ltb_asymm (c ∷ s) [] h = cc
str_ltb_asymm (c ∷ s) (d ∷ t) h = ground (arith, str_ltb_asymm s t)

pub str_ltb_negtrans :
    (s t u : String) → str_ltb s t ≡ false → str_ltb t u ≡ false → str_ltb s u ≡ false
str_ltb_negtrans [] [] u h k = k
str_ltb_negtrans [] (d ∷ t) u h k = cc
str_ltb_negtrans (c ∷ s) [] [] h k = refl
str_ltb_negtrans (c ∷ s) [] (e ∷ u) h k = cc
str_ltb_negtrans (c ∷ s) (d ∷ t) [] h k = refl
str_ltb_negtrans (c ∷ s) (d ∷ t) (e ∷ u) h k = ground (arith, str_ltb_negtrans s t u)
