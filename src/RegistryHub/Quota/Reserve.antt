-- ===== src/RegistryHub/Quota/Reserve.antt =====
-- Manager.reserve of application/registry-hub/src/internal/download/quota.go.
pub mod Kept
pub mod Standing
pub mod Granted
use k8s_at_home.Prelude.{
  ℕ, zero, suc, ◌+◌, ◌-◌, ◌^◌, ◌<◌, ◌≤◌, String, Bool, true, false, ◌&&◌, ◌||◌, not, Option, none,
  some, List, [], ◌∷◌, length, ltb, leb, str_eq, if◌then◌else◌, ◌≡◌, refl, sym, ap, subst, ◌∙◌,
  arith, Bool-cases, inl, inr,
}
use k8s_at_home.RegistryHub.Errors.{
  Error, sentinel, join, Result, ok, err, is, not_found, already_exists, condition_failed,
  corrupt_object, unknown_commit, quota_exceeded,
}
use k8s_at_home.RegistryHub.Storage.{
  Tagging, Codec, Object, Disk, World, M, pure, fail, ◌>>=◌, attempt, get, put, head, update,
  refusal,
}
use k8s_at_home.RegistryHub.Quota.{
  QuotaReservation, Reservations, find, delete, max_int64, raised, Decision, exceeded, corrupt,
  present, write, decide,
}
use k8s_at_home.RegistryHub.Quota.Calls.{
  quota_key, QuotaState, fits, or_zero, read_quota, encoded, again,
}

-- The confirmation of a reservation whose write had an unknown fate.
unfoldable pub committed : QuotaReservation → Option QuotaReservation → Bool
committed wanted found =
    str_eq (or_zero found).session wanted.session && leb wanted.bytes (or_zero found).bytes

module _ {Body : Type 0} (tagging : Tagging Body) (codec : Codec Body QuotaState fits)
    (wait : ℕ → M Body (Unit {0})) where
  module _ (max_reserved : ℕ) (key : String) where
    confirmed : QuotaReservation → Error → Result (Reservations × String) → M Body (Unit {0})
    confirmed wanted e (ok (rs, version)) =
        if committed wanted (find key rs) then pure tt else fail e
    confirmed wanted e (err r) = fail (join e r)

    -- The write of a round of reserve.
    settled : ℕ → M Body (Unit {0}) → QuotaReservation → Result String → M Body (Unit {0})
    settled n next wanted (ok version) = pure tt
    settled n next wanted (err e) =
        if is e condition_failed || is e already_exists
        then again wait n next
        else if is e unknown_commit
        then (do latest ← attempt (read_quota tagging codec); confirmed wanted e latest)
        else fail e

    -- A round's decision, with the reservation that it asks for.
    enact :
        M Body (Unit {0})
        → ℕ
        → M Body (Unit {0})
        → QuotaReservation
        → String
        → Decision
        → M Body (Unit {0})
    enact guard n next wanted version exceeded = fail (sentinel quota_exceeded)
    enact guard n next wanted version corrupt = fail (sentinel corrupt_object)
    enact guard n next wanted version present = do _ ← guard; pure tt
    enact guard n next wanted version (write rs) = do
      _ ← guard
      written ← attempt (
          put tagging quota_key (encoded codec rs)
            (record { if_absent = str_eq version ""; if_match = version }))
      settled n next wanted written

    -- The reservation of the request, which grows to what it reserved before.
    abbrev pub wanted_of : QuotaReservation → Reservations → QuotaReservation
    wanted_of request rs = record request { bytes = raised (find key rs) request.bytes }

    reserve_from :
        M Body (Unit {0})
        → ℕ
        → (QuotaReservation → M Body (Unit {0}))
        → QuotaReservation
        → Reservations
        → String
        → M Body (Unit {0})
    reserve_from guard n next request rs version =
        enact guard n (next (wanted_of request rs)) (wanted_of request rs) version
          (decide max_reserved key request rs)

    reserve_round :
        M Body (Unit {0})
        → ℕ
        → (QuotaReservation → M Body (Unit {0}))
        → QuotaReservation
        → Result (Reservations × String)
        → M Body (Unit {0})
    reserve_round guard n next request (ok (rs, version)) =
        reserve_from guard n next request rs version
    reserve_round guard n next request (err e) =
        if is e not_found then reserve_from guard n next request [] "" else fail e

    reserve_attempts : M Body (Unit {0}) → ℕ → QuotaReservation → M Body (Unit {0})
    reserve_attempts guard zero request = fail (sentinel condition_failed)
    reserve_attempts guard (suc n) request = do
      found ← attempt (read_quota tagging codec)
      reserve_round guard n (reserve_attempts guard n) request found

    -- reserve; the request names identity, digest, session and amount.
    unfoldable pub reserve : M Body (Unit {0}) → QuotaReservation → M Body (Unit {0})
    unfolding reserve_attempts reserve_round reserve_from enact settled confirmed again read_quota
    reserve guard request =
        if ltb max_reserved request.bytes
        then fail (sentinel quota_exceeded)
        else reserve_attempts guard 16 request
