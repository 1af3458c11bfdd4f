-- ===== src/RegistryHub/Quota/Reserve/Kept.antt =====
-- Manager.reserve of application/registry-hub/src/internal/download/quota.go keeps the quota.
use k8s_at_home.Prelude.{
  ℕ, zero, suc, ◌≤◌, String, ◌||◌, none, some, [], ltb, str_eq, ◌≡◌, refl, arith,
}
use k8s_at_home.RegistryHub.Errors.{
  Error, Result, ok, err, is, not_found, already_exists, condition_failed, unknown_commit,
}
use k8s_at_home.RegistryHub.Storage.{Tagging, Codec, Disk, M, attempt, update, refusal}
use k8s_at_home.RegistryHub.Quota.{
  QuotaReservation, Reservations, find, max_int64, Decision, exceeded, corrupt, present, write,
}
use k8s_at_home.RegistryHub.Storage.Keeps.{
  Order, Keeps, Any, IfOk, Keeps-pure, Keeps-fail, Keeps-if, Keeps-bind, Keeps-attempt,
}
use k8s_at_home.RegistryHub.Storage.Conditional.{Keeps-put}
use k8s_at_home.RegistryHub.Quota.Bounds.{decide-Reserved}
use k8s_at_home.RegistryHub.Quota.Calls.{quota_key, QuotaState, fits, read_quota, encoded}
use k8s_at_home.RegistryHub.Quota.Calls.Reading.{Fresh}
use k8s_at_home.RegistryHub.Quota.Calls.Kept.{
  Kept, kept_order, encoded-Kept, Keeps-over, Keeps-again, Keeps-latest,
}
use k8s_at_home.RegistryHub.Quota.Reserve.{
  committed, confirmed, settled, enact, reserve_from, reserve_round, reserve_attempts, reserve,
}

module _ {Body : Type 0} (tagging : Tagging Body) (codec : Codec Body QuotaState fits) (most : ℕ)
    (bounded : most ≤ max_int64) (wait : ℕ → M Body (Unit {0}))
    (Keeps-wait : (n : ℕ) → Keeps (Kept tagging codec most bounded) Any (wait n)) where
  open tagging use {version as tag}

  abbrev Step : Disk Body → Disk Body → Type 0
  Step = Kept tagging codec most bounded

  order : Order Step
  order = kept_order tagging codec most bounded

  latest : Keeps Step (IfOk order (Fresh tagging codec)) (attempt (read_quota tagging codec))
  latest = Keeps-latest tagging codec most bounded wait Keeps-wait

  module _ (key : String) where
    Keeps-confirmed :
        (wanted : QuotaReservation) (e : Error) (r : Result (Reservations × String))
        → Keeps Step Any (confirmed tagging codec wait most key wanted e r)
    unfolding confirmed
    Keeps-confirmed wanted e (ok (rs, version)) =
        Keeps-if order (committed wanted (find key rs)) _ _ (λ _. Keeps-pure order tt tt)
          λ _. Keeps-fail order e
    Keeps-confirmed wanted e (err r) = Keeps-fail order _

    Keeps-settled :
        (n : ℕ) (next : M Body (Unit {0})) (wanted : QuotaReservation) (r : Result String)
        → Keeps Step Any next
        → Keeps Step Any (settled tagging codec wait most key n next wanted r)
    unfolding settled
    Keeps-settled n next wanted (ok version) h = Keeps-pure order tt tt
    Keeps-settled n next wanted (err e) h =
        Keeps-if order (is e condition_failed || is e already_exists) _ _
          (λ _. Keeps-again tagging codec most bounded wait Keeps-wait n next h)
          λ _.
            Keeps-if order (is e unknown_commit) _ _
              (λ _. Keeps-bind order _ _ latest λ r _. Keeps-confirmed wanted e r)
              λ _. Keeps-fail order e

    -- Where a write of the decision is within the quota, carrying it out keeps the quota.
    Keeps-enact :
        (guard : M Body (Unit {0})) (n : ℕ) (next : M Body (Unit {0})) (wanted : QuotaReservation)
        (version : String) (x : Decision)
        → Keeps Step Any guard
        → Keeps Step Any next
        → ((rs : Reservations)
            → x ≡ write rs
            → (d : Disk Body)
            → refusal tag
                (record { if_absent = str_eq version ""; if_match = version })
                (d quota_key)
              ≡ none
            → Step d (update d quota_key (some (encoded codec rs))))
        → Keeps Step Any (enact tagging codec wait most key guard n next wanted version x)
    unfolding enact
    Keeps-enact guard n next wanted version exceeded hg hn hw = Keeps-fail order _
    Keeps-enact guard n next wanted version corrupt hg hn hw = Keeps-fail order _
    Keeps-enact guard n next wanted version present hg hn hw =
        Keeps-bind order _ _ hg λ _ _. Keeps-pure order tt tt
    Keeps-enact guard n next wanted version (write rs) hg hn hw = Keeps-bind order _ _ hg λ _ _.
        Keeps-bind order _ _
          (Keeps-attempt order _ (Keeps-put tagging order quota_key _ _ (hw rs refl)))
          λ r _. Keeps-settled n next wanted r hn

    Keeps-reserve_round :
        (guard : M Body (Unit {0})) (n : ℕ) (next : QuotaReservation → M Body (Unit {0}))
        (request : QuotaReservation) (r : Result (Reservations × String))
        → Keeps Step Any guard
        → ((q : QuotaReservation) → Keeps Step Any (next q))
        → IfOk order (Fresh tagging codec) r
        → Keeps Step Any (reserve_round tagging codec wait most key guard n next request r)
    unfolding reserve_round reserve_from
    Keeps-reserve_round guard n next request (ok (rs, version)) hg hn (b, e, read_as) =
        Keeps-enact guard n _ _ version _ hg (hn _) λ written x d passed.
          Keeps-over tagging codec most bounded rs written version (b, e, read_as)
            (λ s. let k = decide-Reserved most key request rs s.1 written x in (k.within, k.few)) d
            (rw e (rw (e, tagging.version_ne_empty b) at passed))
    Keeps-reserve_round guard n next request (err x) hg hn f =
        Keeps-if order (is x not_found) _ _
          (λ _. Keeps-enact guard n _ _ "" _ hg (hn _) λ written y d passed.
            encoded-Kept tagging codec most bounded d written λ w.
              let k = decide-Reserved most key request [] (omega arith) written y in
              (k.within, k.few))
          λ _. Keeps-fail order x

    Keeps-reserve_attempts :
        (guard : M Body (Unit {0})) (n : ℕ) (request : QuotaReservation)
        → Keeps Step Any guard
        → Keeps Step Any (reserve_attempts tagging codec wait most key guard n request)
    unfolding reserve_attempts
    Keeps-reserve_attempts guard zero request hg = Keeps-fail order _
    Keeps-reserve_attempts guard (suc n) request hg = Keeps-bind order _ _ latest λ r f.
        Keeps-reserve_round guard n _ request r hg (λ q. Keeps-reserve_attempts guard n q hg) f

    pub Keeps-reserve :
        (guard : M Body (Unit {0})) (request : QuotaReservation)
        → Keeps Step Any guard
        → Keeps Step Any (reserve tagging codec wait most key guard request)
    unfolding reserve
    Keeps-reserve guard request hg =
        Keeps-if order (ltb most request.bytes) _ _ (λ _. Keeps-fail order _)
          λ _. Keeps-reserve_attempts guard 16 request hg
