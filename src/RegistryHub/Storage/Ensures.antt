-- ===== src/RegistryHub/Storage/Ensures.antt =====
-- Postconditions of functions that talk to the store, over the disk before and after the call.
use k8s_at_home.Prelude.{
  String, Option, none, some, ◌≡◌, refl, subst, ap, ◌∙◌, arith, str_eq_refl, Bool, true, false,
  if◌then◌else◌,
}
use k8s_at_home.RegistryHub.Errors.{Error, Sentinel, Result, ok, err}
use k8s_at_home.RegistryHub.Storage.{
  Tagging, PutOptions, Fault, before, after, Disk, World, M, update, pure, fail, now, continue,
  ◌>>=◌, attempt, arrive, refusal, settle, put, get, answer, Object, arrive_at,
}
use k8s_at_home.RegistryHub.Storage.Keeps.{Order, Fair, Keeps, Any}
use k8s_at_home.RegistryHub.Storage.Conditional.{arrive-steps, arrive-Fair, settle-script}

-- If the call returns `a`, then `P` holds of the disk before it, of `a`, and of the disk after it.
pub record Ensures {Body A : Type 0} (R : Disk Body → Disk Body → Type 0)
    (P : Disk Body → A → Disk Body → Type 0) (m : M Body A) : Type 0 where
  pub fair : (w : World Body) → Fair R w.script → Fair R (m w).1.script
  pub returns :
      (w : World Body) (a : A) → Fair R w.script → (m w).0 ≡ ok a → P w.disk a (m w).1.disk

-- What a caller that looks at the error itself knows.
abbrev pub Tried :
    {Body A : Type 0}
    → (Disk Body → Disk Body → Type 0)
    → (A → Type 0)
    → (Disk Body → A → Disk Body → Type 0)
    → Disk Body
    → Result A
    → Disk Body
    → Type 0
Tried R Q P d (ok a) e = R d e × Q a × P d a e
Tried R Q P d (err x) e = R d e

ok-injective : {A : Type 0} {a b : A} → ok a ≡ ok b → a ≡ b
ok-injective e = cc

module _ {Body : Type 0} {R : Disk Body → Disk Body → Type 0} where
  pub Ensures-pure :
      {A : Type 0} {P : Disk Body → A → Disk Body → Type 0} (a : A)
      → ((d : Disk Body) → P d a d)
      → Ensures R P (pure a)
  unfolding pure
  Ensures-pure {A} {P} a h = record {
    fair = λ w f. f;
    returns = λ w b f e. subst (λ x. P w.disk x w.disk) (ok-injective e) (h w.disk);
  }

  pub Ensures-weaken :
      {A : Type 0} {P : Disk Body → A → Disk Body → Type 0} (Q : Disk Body → A → Disk Body → Type 0)
      (m : M Body A)
      → Ensures R P m
      → ((d : Disk Body) (a : A) (e : Disk Body) → P d a e → Q d a e)
      → Ensures R Q m
  Ensures-weaken Q m em h = record {
    fair = em.fair;
    returns = λ w a f e. h w.disk a (m w).1.disk (em.returns w a f e);
  }

  pub Ensures-fail :
      {A : Type 0} {P : Disk Body → A → Disk Body → Type 0} (e : Error) → Ensures R P (fail e)
  unfolding fail
  Ensures-fail e = record { fair = λ w f. f; returns = λ w b f e. cc }

  pub Ensures-now : Ensures R (λ d t e. d ≡ e) (now {Body = Body})
  unfolding now
  Ensures-now = record { fair = λ w f. f; returns = λ w b f e. refl }

  pub Ensures-if :
      {A : Type 0} {P : Disk Body → A → Disk Body → Type 0} (b : Bool) (m n : M Body A)
      → (b ≡ true → Ensures R P m)
      → (b ≡ false → Ensures R P n)
      → Ensures R P (if b then m else n)
  Ensures-if true m n km kn = km refl
  Ensures-if false m n km kn = kn refl

  -- The rest of a block may use what held before it, and what is known of the value.
  module _ {A B : Type 0} {K : A → Type 0} {P : Disk Body → A → Disk Body → Type 0}
      {Q : Disk Body → B → Disk Body → Type 0} (f : A → M Body B)
      (kf : (a : A) → K a → Ensures R (λ d b e. (c : Disk Body) → P c a d → Q c b e) (f a)) where
    continue-Fair :
        (r : Result A) (w : World Body)
        → Fair R w.script
        → ((a : A) → r ≡ ok a → K a)
        → Fair R (continue r f w).1.script
    unfolding fail
    continue-Fair (ok a) w h k = (kf a (k a refl)).fair w h
    continue-Fair (err e) w h k = h

    continue-returns :
        (r : Result A) (w : World Body) (c : Disk Body) (b : B)
        → Fair R w.script
        → ((a : A) → r ≡ ok a → K a)
        → ((a : A) → r ≡ ok a → P c a w.disk)
        → (continue r f w).0 ≡ ok b
        → Q c b (continue r f w).1.disk
    unfolding fail
    continue-returns (ok a) w c b h k p e = (kf a (k a refl)).returns w b h e c (p a refl)
    continue-returns (err x) w c b h k p e = cc

    pub Ensures-bind_known :
        (m : M Body A)
        → ((w : World Body) (a : A) → (m w).0 ≡ ok a → K a)
        → Ensures R P m
        → Ensures R Q (m >>= f)
    unfolding ◌>>=◌
    Ensures-bind_known m known km = record {
      fair = λ w h. continue-Fair (m w).0 (m w).1 (km.fair w h) (known w);
      returns = λ w b h e.
          continue-returns (m w).0 (m w).1 w.disk b (km.fair w h) (known w) (λ a. km.returns w a h)
            e;
    }

  pub Ensures-bind :
      {A B : Type 0} {P : Disk Body → A → Disk Body → Type 0}
      {Q : Disk Body → B → Disk Body → Type 0} (f : A → M Body B)
      → ((a : A) → Ensures R (λ d b e. (c : Disk Body) → P c a d → Q c b e) (f a))
      → (m : M Body A) → Ensures R P m
      → Ensures R Q (m >>= f)
  Ensures-bind f kf m km = Ensures-bind_known {K = Any} f (λ a _. kf a) m (λ w a e. tt) km

  pub Ensures-attempt :
      {A : Type 0} {Q : A → Type 0} {P : Disk Body → A → Disk Body → Type 0} (m : M Body A)
      → Keeps R Q m
      → Ensures R P m
      → Ensures R (Tried R Q P) (attempt m)
  unfolding attempt
  Ensures-attempt {A} {Q} {P} m km em = record {
    fair = em.fair;
    returns = λ w r h e.
        subst (λ x. Tried R Q P w.disk x (m w).1.disk) (ok-injective e)
          (outcome (m w).0 w.disk (m w).1.disk (km.steps w h) (km.returns w)
            (λ a. em.returns w a h));
  }
    where
      outcome :
          (r : Result A) (d e : Disk Body)
          → R d e
          → ((a : A) → r ≡ ok a → Q a)
          → ((a : A) → r ≡ ok a → P d a e)
          → Tried R Q P d r e
      outcome (ok a) d e s q p = (s, q a refl, p a refl)
      outcome (err x) d e s q p = s

  -- A function that keeps `R` ensures it.
  pub Ensures-Keeps :
      {A : Type 0} {Q : A → Type 0} {P : Disk Body → A → Disk Body → Type 0} (m : M Body A)
      → Keeps R Q m
      → Ensures R P m
      → Ensures R (λ d a e. R d e × P d a e) m
  Ensures-Keeps m km em = record {
    fair = km.fair;
    returns = λ w a h e. (km.steps w h, em.returns w a h e);
  }

  pub Ensures-any :
      {A : Type 0} {Q : A → Type 0} (m : M Body A) → Keeps R Q m → Ensures R (λ d a e. Unit) m
  Ensures-any m km = record { fair = km.fair; returns = λ w a h e. tt }

-- A write that returns found an object that passes its condition, and wrote over it.
abbrev pub Written :
    {Body : Type 0}
    → (Disk Body → Disk Body → Type 0)
    → (Body → String)
    → String
    → Body
    → PutOptions
    → Disk Body
    → String
    → Disk Body
    → Type 0
Written {Body} R tag key body options d v e =
    (c : Disk Body) × R d c × (refusal tag options (c key) ≡ none) × (e ≡ update c key (some body))

pub at-update :
    {Body : Type 0} (c d : Disk Body) (k : String) (b : Option Body) → d ≡ update c k b → d k ≡ b
at-update c d k b e = ap (λ f. f k) e ∙ rw (str_eq_refl k) refl

module _ {Body : Type 0} (tagging : Tagging Body) {R : Disk Body → Disk Body → Type 0}
    (order : Order R) where
  open tagging use {version as tag}

  settle-written :
      {A : Type 0} (a x : A) (k : String) (b : Option Body) (f : Option Fault) (s : Option Sentinel)
      (w : World Body)
      → (settle a k b f s w).0 ≡ ok x
      → (s ≡ none) × ((settle a k b f s w).1.disk ≡ update w.disk k b)
  unfolding settle
  settle-written a x k b (some (before e)) s w h = cc
  settle-written a x k b (some (after e)) (some s) w h = cc
  settle-written a x k b (some (after e)) none w h = cc
  settle-written a x k b none (some s) w h = cc
  settle-written a x k b none none w h = (refl, refl)

  pub Ensures-put :
      (key : String) (body : Body) (options : PutOptions)
      → Ensures R (Written R tag key body options) (put tagging key body options)
  unfolding put arrive
  Ensures-put key body options = record {
    fair = λ w h. rw (settle-script tagging order) (arrive-Fair tagging order w w.script h h);
    returns = λ w v h e.
        let (passed, wrote) = settle-written _ v key _ _ _ _ e in
        ((arrive_at w w.script).1.disk, arrive-steps tagging order w w.script h, passed, wrote);
  }

  answer-ok :
      (f : Option Fault) (b : Option Body) (o : Object Body)
      → answer tag f b ≡ ok o
      → b ≡ some o.body
  unfolding answer
  answer-ok (some f) b o h = cc
  answer-ok none none o h = cc
  answer-ok none (some b) o h = ap (λ x. some x) (ground (arith, h))

  pub Ensures-get : (key : String) → Ensures R (λ d o e. e key ≡ some o.body) (get tagging key)
  unfolding get arrive
  Ensures-get key = record {
    fair = λ w h. arrive-Fair tagging order w w.script h h;
    returns = λ w o h e. answer-ok _ _ o e;
  }
