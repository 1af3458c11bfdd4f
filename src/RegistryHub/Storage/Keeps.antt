-- ===== src/RegistryHub/Storage/Keeps.antt =====
-- A rely-guarantee logic for functions that talk to the store: `R` is what the writes of the
-- others may do to the disk, and what a function that keeps `R` does to it.
use k8s_at_home.Prelude.{List, [], ◌∷◌, ◌≡◌, refl, subst, All, Bool, true, false, if◌then◌else◌}
use k8s_at_home.RegistryHub.Errors.{Error, Result, ok, err}
use k8s_at_home.RegistryHub.Storage.{
  Disk, Event, World, M, arrive_at, pure, fail, now, continue, ◌>>=◌, attempt,
}

pub record Order {Body : Type 0} (R : Disk Body → Disk Body → Type 0) : Type 0 where
  pub stay : (d : Disk Body) → R d d
  pub chain : (d e f : Disk Body) → R d e → R e f → R d f

-- What is left of the script only makes changes that `R` allows.
abbrev pub Fair : {Body : Type 0} → (Disk Body → Disk Body → Type 0) → List (Event Body) → Type 0
Fair R script = All (λ e. (d : _) → R d (e.others d)) script

-- `m` changes the disk only as `R` allows, and what it returns satisfies `Q`.
pub record Keeps {Body A : Type 0} (R : Disk Body → Disk Body → Type 0) (Q : A → Type 0)
    (m : M Body A) : Type 0 where
  pub steps : (w : World Body) → Fair R w.script → R w.disk (m w).1.disk
  pub fair : (w : World Body) → Fair R w.script → Fair R (m w).1.script
  pub returns : (w : World Body) (a : A) → (m w).0 ≡ ok a → Q a

abbrev pub Any : {A : Type 0} → A → Type 0
Any a = Unit

ok-injective : {A : Type 0} {a b : A} → ok a ≡ ok b → a ≡ b
ok-injective e = cc

module _ {Body : Type 0} {R : Disk Body → Disk Body → Type 0} (order : Order R) where
  pub Keeps-pure : {A : Type 0} {Q : A → Type 0} (a : A) → Q a → Keeps R Q (pure a)
  unfolding pure
  Keeps-pure {A} {Q} a q = record {
    steps = λ w f. order.stay w.disk;
    fair = λ w f. f;
    returns = λ w b e. subst Q (ok-injective e) q;
  }

  pub Keeps-fail : {A : Type 0} {Q : A → Type 0} (e : Error) → Keeps R Q (fail e)
  unfolding fail
  Keeps-fail e = record { steps = λ w f. order.stay w.disk; fair = λ w f. f; returns = λ w b e. cc }

  pub Keeps-now : Keeps R Any now
  unfolding now
  Keeps-now = record { steps = λ w f. order.stay w.disk; fair = λ w f. f; returns = λ w b e. tt }

  pub Keeps-if :
      {A : Type 0} {Q : A → Type 0} (b : Bool) (m n : M Body A)
      → (b ≡ true → Keeps R Q m)
      → (b ≡ false → Keeps R Q n)
      → Keeps R Q (if b then m else n)
  Keeps-if true m n km kn = km refl
  Keeps-if false m n km kn = kn refl

  pub Keeps-continue :
      {A B : Type 0} {Q : B → Type 0} (r : Result A) (f : A → M Body B)
      → ((a : A) → r ≡ ok a → Keeps R Q (f a))
      → Keeps R Q (continue r f)
  Keeps-continue (ok a) f kf = kf a refl
  Keeps-continue (err e) f kf = Keeps-fail e

  pub Keeps-bind :
      {A B : Type 0} {P : A → Type 0} {Q : B → Type 0} (m : M Body A) (f : A → M Body B)
      → Keeps R P m
      → ((a : A) → P a → Keeps R Q (f a))
      → Keeps R Q (m >>= f)
  unfolding ◌>>=◌
  Keeps-bind {A} {B} {P} {Q} m f km kf = record {
    steps = λ w h. order.chain _ _ _ (km.steps w h) ((rest w).steps (m w).1 (km.fair w h));
    fair = λ w h. (rest w).fair (m w).1 (km.fair w h);
    returns = λ w b e. (rest w).returns (m w).1 b e;
  }
    where
      rest : (w : World Body) → Keeps R Q (continue (m w).0 f)
      rest w = Keeps-continue (m w).0 f (λ a e. kf a (km.returns w a e))

  -- A caller that looks at the error knows the postcondition where there is none.
  abbrev pub IfOk : {A : Type 0} → (A → Type 0) → Result A → Type 0
  IfOk P (ok a) = P a
  IfOk P (err e) = Unit

  pub Keeps-attempt :
      {A : Type 0} {P : A → Type 0} (m : M Body A) → Keeps R P m → Keeps R (IfOk P) (attempt m)
  unfolding attempt
  Keeps-attempt {A} {P} m km = record {
    steps = km.steps;
    fair = km.fair;
    returns = λ w r e. subst (IfOk P) (ok-injective e) (value (m w).0 (λ a. km.returns w a));
  }
    where
      value : (r : Result A) → ((a : A) → r ≡ ok a → P a) → IfOk P r
      value (ok a) h = h a refl
      value (err e) h = tt

  arrive_at-steps :
      (w : World Body) (s : List (Event Body)) → Fair R s → R w.disk (arrive_at w s).1.disk
  arrive_at-steps w [] f = order.stay w.disk
  arrive_at-steps w (e ∷ es) f = f.0 w.disk
