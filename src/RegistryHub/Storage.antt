-- ===== src/RegistryHub/Storage.antt =====
-- The object store that every registry-hub component writes to:
-- application/registry-hub/src/internal/storage/storage.go (the interface `Store` and its data)
-- as storage/filesystem/filesystem.go implements it. Bodies are an abstract type; the version of
-- an object is a hash of its body.
--
-- Several processes share a store, and a call may fail: each call consumes one `Event`, which
-- says what the others wrote before the call took effect, how much time passed, and whether the
-- call fails. A call that fails does so before its effect (a lost lock, a failed write of the
-- temporary file) or after it (a failed sync of the directory, a lost answer).
pub mod Keeps
pub mod Conditional
pub mod Ensures
use k8s_at_home.Prelude.{
  ℕ, ◌+◌, String, Bool, true, false, ◌&&◌, not, Option, none, some, List, [], ◌∷◌, ◌≡◌, ◌≢◌, str_eq,
  if◌then◌else◌,
}
use k8s_at_home.RegistryHub.Errors.{
  Sentinel, Error, sentinel, Result, ok, err, already_exists, condition_failed, not_found,
}

-- How a store names the versions of a body: SHA-256 does not collide, and prints as a
-- non-empty text.
pub record Tagging (Body : Type 0) : Type 0 where
  pub version : Body → String
  pub version_injective : (a b : Body) → version a ≡ version b → a ≡ b
  pub version_ne_empty : (b : Body) → str_eq (version b) "" ≡ false

-- encoding/json at one type, whose values are those of `V` that Go's integers can represent:
-- what is marshalled unmarshals to itself, and an integer out of range is not unmarshalled.
pub record Codec (Body V : Type 0) (representable : V → Bool) : Type 0 where
  pub encode : V → Body
  pub decode : Body → Option V
  pub size : Body → ℕ
  pub decode_encode : (v : V) → representable v ≡ true → decode (encode v) ≡ some v
  pub decode_representable : (b : Body) (v : V) → decode b ≡ some v → representable v ≡ true

pub record Object (Body : Type 0) : Type 0 where
  pub body : Body
  pub version : String

pub record PutOptions : Type 0 where
  pub if_absent : Bool
  pub if_match : String

pub data Fault : Type 0 where
  before after : Error → Fault

abbrev pub fault_error : Fault → Error
fault_error (before e) = e
fault_error (after e) = e

abbrev pub Disk : Type 0 → Type 0
Disk Body = String → Option Body

pub record Event (Body : Type 0) : Type 0 where
  pub others : Disk Body → Disk Body
  pub elapsed : ℕ
  pub fault : Option Fault

pub record World (Body : Type 0) : Type 0 where
  pub disk : Disk Body
  -- nanoseconds since the zero time
  pub clock : ℕ
  pub script : List (Event Body)

abbrev pub update : {Body : Type 0} → Disk Body → String → Option Body → Disk Body
update d k b j = if str_eq k j then b else d j

-- A function that talks to the store.
abbrev pub M : Type 0 → Type 0 → Type 0
M Body A = World Body → Result A × World Body

module _ {Body : Type 0} where
  pub pure : {A : Type 0} → A → M Body A
  pure a w = (ok a, w)

  pub fail : {A : Type 0} → Error → M Body A
  fail e w = (err e, w)

  -- time.Now().UTC()
  pub now : M Body ℕ
  now w = (ok w.clock, w)

  abbrev pub continue : {A B : Type 0} → Result A → (A → M Body B) → M Body B
  continue (ok a) f = f a
  continue (err e) f = fail e

  infixl 10 ◌>>=◌
  -- opening this opens `pure`, `fail` and `now` too
  unfoldable pub ◌>>=◌ : {A B : Type 0} → M Body A → (A → M Body B) → M Body B
  unfolding pure fail now
  ◌>>=◌ m f w = let (r, w') = m w in continue r f w'

  -- The caller looks at the error itself.
  unfoldable pub attempt : {A : Type 0} → M Body A → M Body (Result A)
  attempt m w = let (r, w') = m w in (ok r, w')

  -- The next event comes before the call takes effect.
  abbrev pub arrive_at : World Body → List (Event Body) → Option Fault × World Body
  arrive_at w [] = (none, w)
  arrive_at w (e ∷ es) =
      (e.fault, record w { disk = e.others w.disk; clock = w.clock + e.elapsed; script = es })

  unfoldable pub arrive : World Body → Option Fault × World Body
  arrive w = arrive_at w w.script

  -- Conditions of Put against the current object.
  unfoldable pub refusal : (Body → String) → PutOptions → Option Body → Option Sentinel
  refusal version options none =
      if not (str_eq options.if_match "") then some condition_failed else none
  refusal version options (some b) =
      if options.if_absent
      then some already_exists
      else if not (str_eq options.if_match "") && not (str_eq (version b) options.if_match)
      then some condition_failed
      else none

  -- Condition of DeleteIfMatch: no empty version is special here.
  unfoldable pub delete_refusal : (Body → String) → String → Option Body → Option Sentinel
  delete_refusal version wanted none = some not_found
  delete_refusal version wanted (some b) =
      if str_eq (version b) wanted then none else some condition_failed

  -- A write of `b` at `k` under a fault and a refusal; it answers `a`.
  unfoldable pub settle :
      {A : Type 0} → A → String → Option Body → Option Fault → Option Sentinel → M Body A
  settle a k b (some (before e)) refused w = (err e, w)
  settle a k b (some (after e)) (some s) w = (err (sentinel s), w)
  settle a k b (some (after e)) none w = (err e, record w { disk = update w.disk k b })
  settle a k b none (some s) w = (err (sentinel s), w)
  settle a k b none none w = (ok a, record w { disk = update w.disk k b })

  unfoldable pub answer : (Body → String) → Option Fault → Option Body → Result (Object Body)
  answer version (some f) b = err (fault_error f)
  answer version none none = err (sentinel not_found)
  answer version none (some b) = ok (record { body = b; version = version b })

  unfoldable pub answer_head : (Body → String) → Option Fault → Option Body → Result String
  answer_head version (some f) b = err (fault_error f)
  answer_head version none none = err (sentinel not_found)
  answer_head version none (some b) = ok (version b)

module _ {Body : Type 0} (tagging : Tagging Body) where
  open tagging use {version as tag}

  -- Get: the body and its version
  unfoldable pub get : String → M Body (Object Body)
  unfolding arrive answer
  get key w = let (fault, w') = arrive w in (answer tag fault (w'.disk key), w')

  -- Head: the version
  unfoldable pub head : String → M Body String
  unfolding arrive answer_head
  head key w = let (fault, w') = arrive w in (answer_head tag fault (w'.disk key), w')

  -- Put: the new version
  unfoldable pub put : String → Body → PutOptions → M Body String
  unfolding arrive refusal settle
  put key body options w =
      let (fault, w') = arrive w in
      settle (tag body) key (some body) fault (refusal tag options (w'.disk key)) w'

  unfoldable pub delete_if_match : String → String → M Body (Unit {0})
  unfolding arrive delete_refusal settle
  delete_if_match key wanted w =
      let (fault, w') = arrive w in
      settle tt key none fault (delete_refusal tag wanted (w'.disk key)) w'
