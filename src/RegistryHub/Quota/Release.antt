-- ===== src/RegistryHub/Quota/Release.antt =====
-- Manager.release and cleanupOrphanReservations of
-- application/registry-hub/src/internal/download/quota_cleanup.go.
pub mod Kept
use k8s_at_home.Prelude.{
  ℕ, zero, suc, ◌+◌, ◌-◌, ◌^◌, ◌<◌, ◌≤◌, String, Bool, true, false, ◌&&◌, ◌||◌, not, Option, none,
  some, List, [], ◌∷◌, length, ltb, leb, str_eq, if◌then◌else◌, ◌≡◌, refl, sym, ap, subst, ◌∙◌,
  arith, Bool-cases, inl, inr,
}
use k8s_at_home.RegistryHub.Errors.{
  Error, sentinel, join, Result, ok, err, is, not_found, already_exists, condition_failed,
  corrupt_object, unknown_commit, quota_exceeded,
}
use k8s_at_home.RegistryHub.Storage.{
  Tagging, Codec, Object, Disk, World, M, pure, fail, ◌>>=◌, attempt, get, put, head, update,
  refusal,
}
use k8s_at_home.RegistryHub.Quota.{
  QuotaReservation, Reservations, find, delete, max_int64, raised, Decision, exceeded, corrupt,
  present, write, decide,
}
use k8s_at_home.RegistryHub.Quota.Calls.{
  quota_key, QuotaState, fits, or_zero, read_quota, encoded, again,
}

-- The reservation of the key is one of the session.
abbrev pub owned : String → Option QuotaReservation → Bool
owned session none = false
owned session (some r) = str_eq r.session session

-- The reservations without those of the given keys.
abbrev pub without : List String → Reservations → Reservations
without [] rs = rs
without (k ∷ keys) rs = delete k (without keys rs)

abbrev pub any_kept : List String → Reservations → Bool
any_kept [] rs = false
any_kept (k ∷ keys) rs =
    let rest = any_kept keys rs in elim (find k rs) [ none ↦ rest | some r ↦ true ]

module _ {Body : Type 0} (tagging : Tagging Body) (codec : Codec Body QuotaState fits)
    (wait : ℕ → M Body (Unit {0})) where
  module _ (key : String) where
    release_confirmed : String → Error → Result (Reservations × String) → M Body (Unit {0})
    release_confirmed session e (err r) = fail (join e r)
    release_confirmed session e (ok (rs, version)) =
        if owned session (find key rs) then fail (sentinel unknown_commit) else pure tt

    -- The write of a round of release.
    removed : ℕ → M Body (Unit {0}) → String → Result String → M Body (Unit {0})
    removed n next session (ok version) = pure tt
    removed n next session (err e) =
        if is e condition_failed
        then again wait n next
        else if is e unknown_commit
        then (do latest ← attempt (read_quota tagging codec); release_confirmed session e latest)
        else fail e

    release_round :
        ℕ → M Body (Unit {0}) → String → Result (Reservations × String) → M Body (Unit {0})
    release_round n next session (err e) = if is e not_found then pure tt else fail e
    release_round n next session (ok (rs, version)) =
        if not (owned session (find key rs)) then pure tt else (do
          written ← attempt (
              put tagging quota_key (encoded codec (delete key rs))
                (record { if_absent = false; if_match = version }))
          removed n next session written)

    release_attempts : ℕ → String → M Body (Unit {0})
    release_attempts zero session = fail (sentinel condition_failed)
    release_attempts (suc n) session = do
      found ← attempt (read_quota tagging codec)
      release_round n (release_attempts n session) session found

    -- release
    unfoldable pub release : String → M Body (Unit {0})
    unfolding release_attempts release_round removed release_confirmed again read_quota
    release session = release_attempts 16 session

  -- Whether a key has no object.
  missing : Result String → M Body Bool
  missing (ok version) = pure false
  missing (err e) = if is e not_found then pure true else fail e

  -- The keys of reservations that no object has.
  orphans : Reservations → M Body (List String)
  orphans [] = pure []
  orphans ((k, r) ∷ rest) = do
    there ← attempt (head tagging k)
    gone ← missing there
    others ← orphans rest
    pure (if gone then k ∷ others else others)

  cleanup_confirmed : List String → Error → Result (Reservations × String) → M Body (Unit {0})
  cleanup_confirmed keys e (err r) = fail (join e r)
  cleanup_confirmed keys e (ok (rs, version)) =
      if any_kept keys rs then fail (sentinel unknown_commit) else pure tt

  -- The write of a round of cleanupOrphanReservations.
  cleaned : ℕ → M Body (Unit {0}) → List String → Result String → M Body (Unit {0})
  cleaned n next keys (ok version) = pure tt
  cleaned n next keys (err e) =
      if is e condition_failed
      then again wait n next
      else if is e unknown_commit
      then (do latest ← attempt (read_quota tagging codec); cleanup_confirmed keys e latest)
      else fail e

  clean : ℕ → M Body (Unit {0}) → Reservations → String → List String → M Body (Unit {0})
  clean n next rs version [] = pure tt
  clean n next rs version (k ∷ keys) = do
    written ← attempt (
        put tagging quota_key (encoded codec (without (k ∷ keys) rs))
          (record { if_absent = false; if_match = version }))
    cleaned n next (k ∷ keys) written

  cleanup_round : ℕ → M Body (Unit {0}) → Result (Reservations × String) → M Body (Unit {0})
  cleanup_round n next (err e) = if is e not_found then pure tt else fail e
  cleanup_round n next (ok (rs, version)) = do keys ← orphans rs; clean n next rs version keys

  cleanup_attempts : ℕ → M Body (Unit {0})
  cleanup_attempts zero = fail (sentinel condition_failed)
  cleanup_attempts (suc n) = do
    found ← attempt (read_quota tagging codec)
    cleanup_round n (cleanup_attempts n) found

  -- cleanupOrphanReservations
  unfoldable pub cleanup_orphans : M Body (Unit {0})
  unfolding cleanup_attempts cleanup_round clean cleaned cleanup_confirmed orphans missing again
      read_quota
  cleanup_orphans = cleanup_attempts 16
