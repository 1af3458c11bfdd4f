-- ===== src/Prelude/Checks.antt =====
-- Functions of Go that return an error, as a text, and chains of them.
use Prim.Native.String.{String}
use mathlib.Core.Path.{◌≡◌, refl}
use mathlib.Core.Bool.{Bool, true, false}
use mathlib.Core.List.{List, [], ◌∷◌}
use k8s_at_home.Prelude.Lists.{All}

pub data Result (A : Type 0) : Type 0 where
  ok : A → Result A
  err : String → Result A

infixl 5 ◌>>=◌
infixr 4 ◌>>◌
abbrev pub ◌>>=◌ : {A B : Type 0} → Result A → (A → Result B) → Result B
ok a >>= f = f a
err e >>= f = err e

abbrev pub ◌>>◌ : {B : Type 0} → Result (Unit {0}) → Result B → Result B
m >> k = m >>= λ _. k

-- `if test { return errors.New(text) }`
abbrev pub refuse_if : Bool → String → Result (Unit {0})
refuse_if true text = err text
refuse_if false text = ok tt

-- A loop that stops at the first error.
abbrev pub each : {A : Type 0} → (A → Result (Unit {0})) → List A → Result (Unit {0})
each f [] = ok tt
each f (x ∷ xs) = let rest = each f xs in (f x >> rest)

pub ok-injective : {A : Type 0} {a b : A} → ok a ≡ ok b → a ≡ b
ok-injective e = cc

-- A chain that succeeds succeeds in each of its steps.
pub >>=-ok :
    {A B : Type 0} (m : Result A) (k : A → Result B) (b : B)
    → (m >>= k) ≡ ok b
    → (a : A) × (m ≡ ok a) × (k a ≡ ok b)
>>=-ok (ok a) k b e = (a, refl, e)
>>=-ok (err s) k b e = cc

pub refuse_if-ok : (t : Bool) (s : String) (u : Unit {0}) → refuse_if t s ≡ ok u → t ≡ false
refuse_if-ok true s u e = cc
refuse_if-ok false s u e = refl

pub >>-ok :
    {B : Type 0} (m : Result (Unit {0})) (k : Result B) (b : B)
    → (m >> k) ≡ ok b
    → (m ≡ ok tt) × (k ≡ ok b)
>>-ok (ok u) k b e = (refl, e)
>>-ok (err s) k b e = cc

pub refuse-then :
    {B : Type 0} (t : Bool) (s : String) (k : Result B) (b : B)
    → (refuse_if t s >> k) ≡ ok b
    → (t ≡ false) × (k ≡ ok b)
refuse-then t s k b e = let (p, q) = >>-ok (refuse_if t s) k b e in (refuse_if-ok t s tt p, q)

-- Every round of a loop that succeeds succeeded.
pub each-ok :
    {A : Type 0} (f : A → Result (Unit {0})) (xs : List A)
    → each f xs ≡ ok tt
    → All (λ x. f x ≡ ok tt) xs
each-ok f [] h = tt
each-ok f (x ∷ xs) h = let (p, rest) = >>-ok (f x) (each f xs) tt h in (p, each-ok f xs rest)

pub each-refused :
    {A : Type 0} (t : A → Bool) (s : String) (xs : List A)
    → each (λ x. refuse_if (t x) s) xs ≡ ok tt
    → All (λ x. t x ≡ false) xs
each-refused t s [] h = tt
each-refused t s (x ∷ xs) h =
    let (p, rest) = refuse-then (t x) s (each (λ y. refuse_if (t y) s) xs) tt h in
    (p, each-refused t s xs rest)
