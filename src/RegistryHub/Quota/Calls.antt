-- ===== src/RegistryHub/Quota/Calls.antt =====
-- The quota object in the store: readQuota and Usage of
-- application/registry-hub/src/internal/download/quota.go, and what its operations share.
--
-- The errors that persistenceError and guardError wrap stand for themselves, as errors.Is sees
-- through both. What a round waits before the next one, and the guard of a request, are actions of
-- the caller (`pure tt` for a request without a guard). The key of a reservation is an argument.
pub mod Reading
pub mod Kept
use k8s_at_home.Prelude.{
  ℕ, zero, suc, ◌+◌, ◌-◌, ◌^◌, ◌<◌, ◌≤◌, String, Bool, true, false, ◌&&◌, ◌||◌, not, Option, none,
  some, List, [], ◌∷◌, length, ltb, leb, str_eq, if◌then◌else◌, ◌≡◌, refl, sym, ap, subst, ◌∙◌,
  arith, Bool-cases, inl, inr,
}
use k8s_at_home.RegistryHub.Errors.{
  Error, sentinel, join, Result, ok, err, is, not_found, already_exists, condition_failed,
  corrupt_object, unknown_commit, quota_exceeded,
}
use k8s_at_home.RegistryHub.Storage.{
  Tagging, Codec, Object, Disk, World, M, pure, fail, ◌>>=◌, attempt, get, put, head, update,
  refusal,
}
use k8s_at_home.RegistryHub.Quota.{
  QuotaReservation, Reservations, find, delete, max_int64, raised, Decision, exceeded, corrupt,
  present, write, decide,
}

abbrev pub quota_key : String
quota_key = "downloads/v1/quota.json"

-- `quotaState`; the map may be missing.
pub record QuotaState : Type 0 where
  pub reservations : Option Reservations

abbrev pub entries_fit : Reservations → Bool
entries_fit [] = true
entries_fit ((k, r) ∷ rest) = let others = entries_fit rest in (leb r.bytes max_int64 && others)

-- The amounts are of type int64.
abbrev pub state_fits : Option Reservations → Bool
state_fits none = true
state_fits (some rs) = entries_fit rs

abbrev pub fits : QuotaState → Bool
fits s = state_fits s.reservations

abbrev pub all_named : Reservations → Bool
all_named [] = true
all_named ((k, r) ∷ rest) = let others = all_named rest in (not (str_eq r.session "") && others)

-- The checks of readQuota on what it decoded.
abbrev pub usable : Option Reservations → Option Reservations
usable none = none
usable (some rs) = if all_named rs then some rs else none

abbrev pub readable : Option QuotaState → Option Reservations
readable none = none
readable (some s) = usable s.reservations

-- `quotaReservation{}`
abbrev pub no_reservation : QuotaReservation
no_reservation = record { identity = ""; digest = ""; session = ""; bytes = 0 }

abbrev pub or_zero : Option QuotaReservation → QuotaReservation
or_zero none = no_reservation
or_zero (some r) = r

-- The sum of Usage, unless it overflows.
unfoldable pub usage_sum : ℕ → Reservations → Option ℕ
usage_sum reserved [] = some reserved
usage_sum reserved ((k, r) ∷ rest) =
    let sum = usage_sum (reserved + r.bytes) rest in
    if ltb (max_int64 - reserved) r.bytes then none else sum

module _ {Body : Type 0} (codec : Codec Body QuotaState fits) where
  abbrev pub encoded : Reservations → Body
  encoded rs = codec.encode (record { reservations = some rs })

module _ {Body : Type 0} (wait : ℕ → M Body (Unit {0})) where
  -- After a conflict in the round before the last `n` ones.
  unfoldable pub again : ℕ → M Body (Unit {0}) → M Body (Unit {0})
  again zero next = fail (sentinel condition_failed)
  again (suc n) next = do _ ← wait (15 - suc n); next

module _ {Body : Type 0} (tagging : Tagging Body) (codec : Codec Body QuotaState fits) where
  accepted : Object Body → Option Reservations → M Body (Reservations × String)
  accepted object none = fail (sentinel corrupt_object)
  accepted object (some rs) = pure (rs, object.version)

  -- readQuota: what the decoder finds in the first four megabytes
  unfoldable pub read_quota : M Body (Reservations × String)
  unfolding accepted
  read_quota = do
    object ← get tagging quota_key
    accepted object (readable (codec.decode object.body))

  summed : Option ℕ → ℕ → M Body (ℕ × ℕ)
  summed none n = fail (sentinel corrupt_object)
  summed (some sum) n = pure (sum, n)

  used : Result (Reservations × String) → M Body (ℕ × ℕ)
  used (err e) = if is e not_found then pure (0, 0) else fail e
  used (ok (rs, version)) = summed (usage_sum 0 rs) (length rs)

  -- Usage
  unfoldable pub usage : M Body (ℕ × ℕ)
  unfolding read_quota used summed usage_sum
  usage = do found ← attempt read_quota; used found
