-- ===== src/RegistryHub/Storage/Conditional.antt =====
-- The conditional calls of the store: when a condition passes, and how a conditional write or
-- removal keeps a relation on disks.
use k8s_at_home.Prelude.{
  String, Option, none, some, List, [], ◌∷◌, ◌≡◌, refl, arith, true, false, eq_iff, str_eq,
}
use k8s_at_home.RegistryHub.Errors.{Sentinel, ok}
use k8s_at_home.RegistryHub.Storage.{
  Tagging, Object, PutOptions, Fault, before, after, Disk, Event, World, update, arrive_at, arrive,
  refusal, delete_refusal, settle, answer, get, head, put, delete_if_match,
}
use k8s_at_home.RegistryHub.Storage.Keeps.{Order, Fair, Keeps, Any}

module _ {Body : Type 0} (tagging : Tagging Body) where
  open tagging use {version as tag}

  -- The version of an object that `get` returned is that of its body.
  abbrev pub Tagged : Object Body → Type 0
  Tagged o = o.version ≡ tag o.body

  abbrev pub matching : String → PutOptions
  matching v = record { if_absent = false; if_match = v }

  abbrev pub absent : PutOptions
  absent = record { if_absent = true; if_match = "" }

  -- A write that matches the version of `b` passes only over `b` itself.
  pub refusal-matching :
      (b : Body) (current : Option Body)
      → refusal tag (matching (tag b)) current ≡ none
      → current ≡ some b
  unfolding refusal
  refusal-matching b none h = ground (arith, tagging.version_ne_empty b)
  refusal-matching b (some c) h =
      ground
        (arith, tagging.version_ne_empty b, eq_iff (tag c) (tag b), tagging.version_injective c b)

  -- The object has the version.
  abbrev pub Versioned : String → Option Body → Type 0
  Versioned v current = (b : Body) × (current ≡ some b) × (tag b ≡ v)

  -- A write that names a version passes only over an object that has it.
  pub refusal-Versioned :
      (v : String) (current : Option Body)
      → str_eq v "" ≡ false
      → refusal tag (matching v) current ≡ none
      → Versioned v current
  unfolding refusal
  refusal-Versioned v none named h = ground (arith, named)
  refusal-Versioned v (some c) named h = (c, refl, ground (arith, named, eq_iff (tag c) v))

  -- A write that wants no object passes only where there is none.
  pub refusal-absent : (current : Option Body) → refusal tag absent current ≡ none → current ≡ none
  unfolding refusal
  refusal-absent none h = refl
  refusal-absent (some c) h = ground arith

  pub delete_refusal-matching :
      (b : Body) (current : Option Body)
      → delete_refusal tag (tag b) current ≡ none
      → current ≡ some b
  unfolding delete_refusal
  delete_refusal-matching b none h = ground arith
  delete_refusal-matching b (some c) h =
      ground (arith, eq_iff (tag c) (tag b), tagging.version_injective c b)

  answer-Tagged :
      (f : Option Fault) (b : Option Body) (o : Object Body) → answer tag f b ≡ ok o → Tagged o
  unfolding answer
  answer-Tagged (some f) b o h = ground arith
  answer-Tagged none none o h = ground arith
  answer-Tagged none (some b) o h = ground arith

  module _ {R : Disk Body → Disk Body → Type 0} (order : Order R) where
    pub arrive-steps :
        (w : World Body) (s : List (Event Body)) → Fair R s → R w.disk (arrive_at w s).1.disk
    arrive-steps w [] f = order.stay w.disk
    arrive-steps w (e ∷ es) f = f.0 w.disk

    pub arrive-Fair :
        (w : World Body) (s : List (Event Body))
        → Fair R s
        → Fair R w.script
        → Fair R (arrive_at w s).1.script
    arrive-Fair w [] f g = g
    arrive-Fair w (e ∷ es) f g = f.1

    settle-steps :
        {A : Type 0} (a : A) (k : String) (b : Option Body) (f : Option Fault) (s : Option Sentinel)
        (w : World Body)
        → (s ≡ none → R w.disk (update w.disk k b))
        → R w.disk (settle a k b f s w).1.disk
    unfolding settle
    settle-steps a k b (some (before e)) s w h = order.stay w.disk
    settle-steps a k b (some (after e)) (some s) w h = order.stay w.disk
    settle-steps a k b (some (after e)) none w h = h refl
    settle-steps a k b none (some s) w h = order.stay w.disk
    settle-steps a k b none none w h = h refl

    pub settle-script :
        {A : Type 0} (a : A) (k : String) (b : Option Body) (f : Option Fault) (s : Option Sentinel)
        (w : World Body)
        → (settle a k b f s w).1.script ≡ w.script
    unfolding settle
    settle-script a k b (some (before e)) s w = refl
    settle-script a k b (some (after e)) (some s) w = refl
    settle-script a k b (some (after e)) none w = refl
    settle-script a k b none (some s) w = refl
    settle-script a k b none none w = refl

    settle-value :
        {A : Type 0} (a x : A) (k : String) (b : Option Body) (f : Option Fault)
        (s : Option Sentinel) (w : World Body)
        → (settle a k b f s w).0 ≡ ok x
        → x ≡ a
    unfolding settle
    settle-value a x k b (some (before e)) s w h = cc
    settle-value a x k b (some (after e)) (some s) w h = cc
    settle-value a x k b (some (after e)) none w h = cc
    settle-value a x k b none (some s) w h = cc
    settle-value a x k b none none w h = cc

    pub Keeps-get : (key : String) → Keeps R Tagged (get tagging key)
    unfolding get arrive
    Keeps-get key = record {
      steps = λ w f. arrive-steps w w.script f;
      fair = λ w f. arrive-Fair w w.script f f;
      returns = λ w o e. answer-Tagged _ _ o e;
    }

    pub Keeps-head : (key : String) → Keeps R Any (head tagging key)
    unfolding head arrive
    Keeps-head key = record {
      steps = λ w f. arrive-steps w w.script f;
      fair = λ w f. arrive-Fair w w.script f f;
      returns = λ w o e. tt;
    }

    -- A write keeps `R` if it does wherever its condition passes; it answers the new version.
    pub Keeps-put :
        (key : String) (body : Body) (options : PutOptions)
        → ((d : Disk Body) → refusal tag options (d key) ≡ none → R d (update d key (some body)))
        → Keeps R (λ v. v ≡ tag body) (put tagging key body options)
    unfolding put arrive
    Keeps-put key body options h = record {
      steps = λ w f.
          order.chain _ _ _ (arrive-steps w w.script f)
            (settle-steps _ key _ _ _ _ (λ e. h (arrive_at w w.script).1.disk e));
      fair = λ w f. rw settle-script (arrive-Fair w w.script f f);
      returns = λ w v e. settle-value _ v key _ _ _ _ e;
    }

    pub Keeps-delete :
        (key wanted : String)
        → ((d : Disk Body) → delete_refusal tag wanted (d key) ≡ none → R d (update d key none))
        → Keeps R Any (delete_if_match tagging key wanted)
    unfolding delete_if_match arrive
    Keeps-delete key wanted h = record {
      steps = λ w f.
          order.chain _ _ _ (arrive-steps w w.script f)
            (settle-steps _ key _ _ _ _ (λ e. h (arrive_at w w.script).1.disk e));
      fair = λ w f. rw settle-script (arrive-Fair w w.script f f);
      returns = λ w o e. tt;
    }
