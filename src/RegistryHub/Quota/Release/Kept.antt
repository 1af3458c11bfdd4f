-- ===== src/RegistryHub/Quota/Release/Kept.antt =====
-- Manager.release and cleanupOrphanReservations of
-- application/registry-hub/src/internal/download/quota_cleanup.go keep the quota.
use k8s_at_home.Prelude.{ℕ, zero, suc, ◌≤◌, String, true, false, not, List, [], ◌∷◌}
use k8s_at_home.RegistryHub.Errors.{
  Error, Result, ok, err, is, not_found, condition_failed, unknown_commit,
}
use k8s_at_home.RegistryHub.Storage.{Tagging, Codec, Disk, M, attempt}
use k8s_at_home.RegistryHub.Quota.{Reservations, find, delete, max_int64}
use k8s_at_home.RegistryHub.Storage.Keeps.{
  Order, Keeps, Any, IfOk, Keeps-pure, Keeps-fail, Keeps-if, Keeps-bind, Keeps-attempt,
}
use k8s_at_home.RegistryHub.Storage.Conditional.{Keeps-put, Keeps-head}
use k8s_at_home.RegistryHub.Quota.Calls.{quota_key, QuotaState, fits, read_quota}
use k8s_at_home.RegistryHub.Quota.Calls.Reading.{Fresh}
use k8s_at_home.RegistryHub.Quota.Calls.Kept.{
  Small, Small-delete, Kept, kept_order, Keeps-over, Keeps-again, Keeps-latest,
}
use k8s_at_home.RegistryHub.Quota.Release.{
  owned, without, any_kept, release_confirmed, removed, release_round, release_attempts, release,
  missing, orphans, cleanup_confirmed, cleaned, clean, cleanup_round, cleanup_attempts,
  cleanup_orphans,
}

Small-without :
    (most : ℕ) (keys : List String) (rs : Reservations)
    → Small most rs
    → Small most (without keys rs)
Small-without most [] rs h = h
Small-without most (k ∷ keys) rs h =
    Small-delete most k (without keys rs) (Small-without most keys rs h)

module _ {Body : Type 0} (tagging : Tagging Body) (codec : Codec Body QuotaState fits) (most : ℕ)
    (bounded : most ≤ max_int64) (wait : ℕ → M Body (Unit {0}))
    (Keeps-wait : (n : ℕ) → Keeps (Kept tagging codec most bounded) Any (wait n)) where
  open tagging use {version as tag}

  abbrev Step : Disk Body → Disk Body → Type 0
  Step = Kept tagging codec most bounded

  order : Order Step
  order = kept_order tagging codec most bounded

  latest : Keeps Step (IfOk order (Fresh tagging codec)) (attempt (read_quota tagging codec))
  latest = Keeps-latest tagging codec most bounded wait Keeps-wait

  module _ (key : String) where
    Keeps-release_confirmed :
        (session : String) (e : Error) (r : Result (Reservations × String))
        → Keeps Step Any (release_confirmed tagging codec wait key session e r)
    unfolding release_confirmed
    Keeps-release_confirmed session e (err r) = Keeps-fail order _
    Keeps-release_confirmed session e (ok (rs, version)) =
        Keeps-if order (owned session (find key rs)) _ _ (λ _. Keeps-fail order _)
          λ _. Keeps-pure order tt tt

    Keeps-removed :
        (n : ℕ) (next : M Body (Unit {0})) (session : String) (r : Result String)
        → Keeps Step Any next
        → Keeps Step Any (removed tagging codec wait key n next session r)
    unfolding removed
    Keeps-removed n next session (ok version) h = Keeps-pure order tt tt
    Keeps-removed n next session (err e) h =
        Keeps-if order (is e condition_failed) _ _
          (λ _. Keeps-again tagging codec most bounded wait Keeps-wait n next h)
          λ _.
            Keeps-if order (is e unknown_commit) _ _
              (λ _. Keeps-bind order _ _ latest λ r _. Keeps-release_confirmed session e r)
              λ _. Keeps-fail order e

    Keeps-release_round :
        (n : ℕ) (next : M Body (Unit {0})) (session : String) (r : Result (Reservations × String))
        → Keeps Step Any next
        → IfOk order (Fresh tagging codec) r
        → Keeps Step Any (release_round tagging codec wait key n next session r)
    unfolding release_round
    Keeps-release_round n next session (err e) h f =
        Keeps-if order (is e not_found) _ _ (λ _. Keeps-pure order tt tt) λ _. Keeps-fail order e
    Keeps-release_round n next session (ok (rs, version)) h f =
        Keeps-if order (not (owned session (find key rs))) _ _ (λ _. Keeps-pure order tt tt)
          λ _.
            Keeps-bind order _ _
              (Keeps-attempt order _ (
                Keeps-put tagging order quota_key _ _ (
                  Keeps-over tagging codec most bounded rs (delete key rs) version f
                    (Small-delete most key rs))))
              λ r _. Keeps-removed n next session r h

    Keeps-release_attempts :
        (n : ℕ) (session : String)
        → Keeps Step Any (release_attempts tagging codec wait key n session)
    unfolding release_attempts
    Keeps-release_attempts zero session = Keeps-fail order _
    Keeps-release_attempts (suc n) session =
        Keeps-bind order _ _ latest
          λ r f. Keeps-release_round n _ session r (Keeps-release_attempts n session) f

    pub Keeps-release : (session : String) → Keeps Step Any (release tagging codec wait key session)
    unfolding release
    Keeps-release session = Keeps-release_attempts 16 session

  Keeps-missing : (r : Result String) → Keeps Step Any (missing tagging codec wait r)
  unfolding missing
  Keeps-missing (ok version) = Keeps-pure order false tt
  Keeps-missing (err e) =
      Keeps-if order (is e not_found) _ _ (λ _. Keeps-pure order true tt) λ _. Keeps-fail order e

  Keeps-orphans : (rs : Reservations) → Keeps Step Any (orphans tagging codec wait rs)
  unfolding orphans
  Keeps-orphans [] = Keeps-pure order [] tt
  Keeps-orphans ((k, r) ∷ rest) =
      Keeps-bind order _ _ (Keeps-attempt order _ (Keeps-head tagging order k)) λ t _.
        Keeps-bind order _ _ (Keeps-missing t)
          λ g _. Keeps-bind order _ _ (Keeps-orphans rest) λ o _. Keeps-pure order _ tt

  Keeps-cleanup_confirmed :
      (keys : List String) (e : Error) (r : Result (Reservations × String))
      → Keeps Step Any (cleanup_confirmed tagging codec wait keys e r)
  unfolding cleanup_confirmed
  Keeps-cleanup_confirmed keys e (err r) = Keeps-fail order _
  Keeps-cleanup_confirmed keys e (ok (rs, version)) =
      Keeps-if order (any_kept keys rs) _ _ (λ _. Keeps-fail order _) λ _. Keeps-pure order tt tt

  Keeps-cleaned :
      (n : ℕ) (next : M Body (Unit {0})) (keys : List String) (r : Result String)
      → Keeps Step Any next
      → Keeps Step Any (cleaned tagging codec wait n next keys r)
  unfolding cleaned
  Keeps-cleaned n next keys (ok version) h = Keeps-pure order tt tt
  Keeps-cleaned n next keys (err e) h =
      Keeps-if order (is e condition_failed) _ _
        (λ _. Keeps-again tagging codec most bounded wait Keeps-wait n next h)
        λ _.
          Keeps-if order (is e unknown_commit) _ _
            (λ _. Keeps-bind order _ _ latest λ r _. Keeps-cleanup_confirmed keys e r)
            λ _. Keeps-fail order e

  Keeps-clean :
      (n : ℕ) (next : M Body (Unit {0})) (rs : Reservations) (version : String) (keys : List String)
      → Keeps Step Any next
      → Fresh tagging codec (rs, version)
      → Keeps Step Any (clean tagging codec wait n next rs version keys)
  unfolding clean
  Keeps-clean n next rs version [] h f = Keeps-pure order tt tt
  Keeps-clean n next rs version (k ∷ keys) h f =
      Keeps-bind order _ _
        (Keeps-attempt order _ (
          Keeps-put tagging order quota_key _ _ (
            Keeps-over tagging codec most bounded rs (without (k ∷ keys) rs) version f
              (Small-without most (k ∷ keys) rs))))
        λ r _. Keeps-cleaned n next (k ∷ keys) r h

  Keeps-cleanup_round :
      (n : ℕ) (next : M Body (Unit {0})) (r : Result (Reservations × String))
      → Keeps Step Any next
      → IfOk order (Fresh tagging codec) r
      → Keeps Step Any (cleanup_round tagging codec wait n next r)
  unfolding cleanup_round
  Keeps-cleanup_round n next (err e) h f =
      Keeps-if order (is e not_found) _ _ (λ _. Keeps-pure order tt tt) λ _. Keeps-fail order e
  Keeps-cleanup_round n next (ok (rs, version)) h f =
      Keeps-bind order _ _ (Keeps-orphans rs) λ keys _. Keeps-clean n next rs version keys h f

  Keeps-cleanup_attempts : (n : ℕ) → Keeps Step Any (cleanup_attempts tagging codec wait n)
  unfolding cleanup_attempts
  Keeps-cleanup_attempts zero = Keeps-fail order _
  Keeps-cleanup_attempts (suc n) =
      Keeps-bind order _ _ latest λ r f. Keeps-cleanup_round n _ r (Keeps-cleanup_attempts n) f

  pub Keeps-cleanup_orphans : Keeps Step Any (cleanup_orphans tagging codec wait)
  unfolding cleanup_orphans
  Keeps-cleanup_orphans = Keeps-cleanup_attempts 16
