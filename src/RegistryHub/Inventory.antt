-- ===== src/RegistryHub/Inventory.antt =====
-- JSON values in the shared store: Read and Update of
-- application/registry-hub/src/internal/inventory/repository.go.
--
-- The guard that a context may carry is an action of the caller, `pure tt` where there is none.
pub mod Reading
pub mod Atomic
pub mod Quiet
pub mod Sample
mod Tests
use k8s_at_home.Prelude.{
  ℕ, zero, suc, ◌^◌, ◌*◌, String, Bool, true, false, ◌&&◌, ◌||◌, not, Option, none, some, ltb,
  str_eq, ◌≡◌, if◌then◌else◌,
}
use k8s_at_home.RegistryHub.Errors.{
  Error, sentinel, join, Result, ok, err, is, not_found, already_exists, condition_failed,
  unavailable, corrupt_object, unknown_commit, other,
}
use k8s_at_home.RegistryHub.Storage.{Tagging, Object, M, pure, fail, ◌>>=◌, attempt, get, put}

abbrev pub size_limit : ℕ
size_limit = 16 * 2 ^ 20

-- encoding/json at one type, and equality of what it writes. A version is not part of a value
-- here.
pub record Json (Body V : Type 0) : Type 0 where
  pub encode : V → Body
  pub decode : Body → Option V
  pub size : Body → ℕ
  -- bytes.Equal
  pub same : Body → Body → Bool
  pub same→eq : (a b : Body) → same a b ≡ true → a ≡ b

module _ {Body V : Type 0} (json : Json Body V) where
  unfoldable pub decoded : Object Body → Result (V × String)
  decoded object =
      if ltb size_limit (json.size object.body)
      then err (sentinel corrupt_object)
      else (elim (json.decode object.body) [
        | none ↦ err (join (sentinel corrupt_object) (sentinel other))
        | some value ↦ ok (value, object.version)
      ])

  unfoldable pub lift : Result (V × String) → M Body (V × String)
  lift (ok r) = pure r
  lift (err e) = fail e

module _ {Body V : Type 0} (tagging : Tagging Body) (json : Json Body V) where
  -- Read: the value and its version
  unfoldable pub read : String → M Body (V × String)
  unfolding decoded lift
  read key = do object ← get tagging key; lift json (decoded json object)

  module _ (key : String) (guard : M Body (Unit {0})) where
    -- What was read back after a write whose fate is unknown, with the error of the write.
    confirmed : M Body (Unit {0}) → Body → Error → Result (V × String) → M Body (Unit {0})
    confirmed retry body e (ok (actual, version)) =
        if json.same (json.encode actual) body then pure tt else retry
    confirmed retry body e (err r) = if is r not_found then retry else fail (join e r)

    settled : M Body (Unit {0}) → Body → Result String → M Body (Unit {0})
    settled retry body (ok version) = pure tt
    settled retry body (err e) =
        if not (is e unknown_commit) && not (is e condition_failed) && not (is e already_exists)
        then fail e
        else if is e unknown_commit
        then (do actual ← attempt (read key); confirmed retry body e actual)
        else retry

    -- The conditional write of a round.
    write : M Body (Unit {0}) → String → Body → M Body (Unit {0})
    write retry version body = do
      _ ← guard
      written ←
          attempt
            (put tagging key body (record { if_absent = str_eq version ""; if_match = version }))
      settled retry body written

    rewritten : M Body (Unit {0}) → String → V → Result V → M Body (Unit {0})
    rewritten retry version value (err e) = fail e
    rewritten retry version value (ok next) =
        if ltb size_limit (json.size (json.encode next))
        then fail (sentinel corrupt_object)
        else if not (str_eq version "") && json.same (json.encode value) (json.encode next)
        then pure tt
        else write retry version (json.encode next)

    module _ (no_value : V) (change : V → Result V) where
      revise : M Body (Unit {0}) → Result (V × String) → M Body (Unit {0})
      revise retry (ok (value, version)) = rewritten retry version value (change value)
      revise retry (err e) =
          if is e not_found then rewritten retry "" no_value (change no_value) else fail e

      update_attempts : ℕ → M Body (Unit {0})
      update_attempts zero = fail (sentinel unavailable)
      update_attempts (suc n) =
          let retry = update_attempts n in do found ← attempt (read key); revise retry found

      -- Update; `no_value` is the zero value of the type.
      pub update_value : M Body (Unit {0})
      unfolding update_attempts revise rewritten write settled confirmed
      update_value = update_attempts 16
