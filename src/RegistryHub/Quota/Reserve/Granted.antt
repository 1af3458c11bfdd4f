-- ===== src/RegistryHub/Quota/Reserve/Granted.antt =====
-- What Manager.reserve of application/registry-hub/src/internal/download/quota.go promises when
-- it returns without an error.
use k8s_at_home.Prelude.{
  ℕ, zero, suc, ◌≤◌, String, false, ◌||◌, Option, none, some, [], ltb, str_eq, ◌≡◌, refl, sym,
  subst, arith,
}
use k8s_at_home.RegistryHub.Errors.{
  Error, Result, ok, err, is, not_found, already_exists, condition_failed, unknown_commit,
}
use k8s_at_home.RegistryHub.Storage.{
  Tagging, Codec, Disk, World, M, ◌>>=◌, attempt, update, refusal, PutOptions,
}
use k8s_at_home.RegistryHub.Quota.{
  QuotaReservation, Reservations, find, max_int64, raised, Decision, exceeded, corrupt, present,
  write, decide,
}
use k8s_at_home.RegistryHub.Quota.{standing}
use k8s_at_home.RegistryHub.Storage.Keeps.{Order, Fair, Keeps, Any, IfOk, Keeps-attempt}
use k8s_at_home.RegistryHub.Storage.Conditional.{refusal-matching, Keeps-put}
use k8s_at_home.RegistryHub.Storage.Ensures.{
  Ensures, Tried, Written, Ensures-pure, Ensures-fail, Ensures-weaken, Ensures-if, Ensures-bind,
  Ensures-bind_known, Ensures-attempt, Ensures-any, Ensures-Keeps, Ensures-put, at-update,
}
use k8s_at_home.RegistryHub.Quota.Calls.{quota_key, QuotaState, fits, read_quota, encoded, again}
use k8s_at_home.RegistryHub.Quota.Calls.Reading.{Holds, Fresh, Keeps-read_quota, Ensures-read_quota}
use k8s_at_home.RegistryHub.Quota.Calls.Kept.{Small, Within, encoded-Kept, entries_fit-total}
use k8s_at_home.RegistryHub.Quota.Reserve.Standing.{
  Standing, readable-same, decide-present, decide-write, committed-Standing,
}
use k8s_at_home.RegistryHub.Quota.Reserve.{
  committed, confirmed, settled, enact, wanted_of, reserve_from, reserve_round, reserve_attempts,
  reserve,
}

module _ {Body : Type 0} (tagging : Tagging Body) (codec : Codec Body QuotaState fits) (most : ℕ)
    (bounded : most ≤ max_int64) (key session : String) (bytes : ℕ) where
  open tagging use {version as tag}

  -- The disk holds the session's reservation of the key, with at least the bytes.
  abbrev pub Reserves : Disk Body → Type 0
  Reserves d =
      (b : Body) × (rs : Reservations) × (d quota_key ≡ some b)
      × (codec.decode b ≡ some (record { reservations = some rs }))
      × Standing key session bytes rs

  -- The quota is kept, and so is the reservation.
  abbrev pub Spares : Disk Body → Disk Body → Type 0
  Spares d e =
      Within tagging codec most bounded d
      → Within tagging codec most bounded e × (Reserves d → Reserves e)

  abbrev pub Secures : Disk Body → Disk Body → Type 0
  Secures d e =
      Within tagging codec most bounded d → Within tagging codec most bounded e × Reserves e

  pub spares_order : Order Spares
  spares_order = record {
    stay = λ d w. (w, λ h. h);
    chain = λ d e f g h w. ((h (g w).0).0, λ r. (h (g w).0).1 ((g w).1 r));
  }

  Spares-Secures : (c d e : Disk Body) → Spares c d → Secures d e → Secures c e
  Spares-Secures c d e g h w = h (g w).0

  Reserves-held :
      (d : Disk Body) (rs : Reservations)
      → Holds codec d rs
      → Standing key session bytes rs
      → Reserves d
  Reserves-held d rs (b, at, read_as) standing = (b, rs, at, readable-same _ rs read_as, standing)

  -- A write of reservations with that of the session, over what leaves them within the quota.
  encoded-Secures :
      (d : Disk Body) (next : Reservations)
      → (Within tagging codec most bounded d → Small most next × Standing key session bytes next)
      → Secures d (update d quota_key (some (encoded codec next)))
  encoded-Secures d next h w =
      let (small, standing) = h w in
      (
        encoded-Kept tagging codec most bounded d next (λ _. small) w,
        (
          encoded codec next,
          next,
          at-update d _ quota_key _ refl,
          codec.decode_encode (record { reservations = some next })
              (entries_fit-total next (omega (arith, small.0, bounded))),
          standing,
        ),
      )

  module _ (wait : ℕ → M Body (Unit {0})) (Keeps-wait : (n : ℕ) → Keeps Spares Any (wait n))
      (guard : M Body (Unit {0})) (Keeps-guard : Keeps Spares Any guard)
      (named : str_eq session "" ≡ false) where
    -- The answer of the call is that the reservation stands.
    abbrev Grants : M Body (Unit {0}) → Type 0
    Grants m = Ensures Spares (λ d a e. Secures d e) m

    abbrev Latest : Disk Body → Result (Reservations × String) → Disk Body → Type 0
    Latest d r e = Tried Spares (Fresh tagging codec) (λ d a e. Holds codec e a.0) d r e

    latest : Ensures Spares Latest (attempt (read_quota tagging codec))
    latest =
        Ensures-attempt _ (Keeps-read_quota tagging codec spares_order)
          (Ensures-read_quota tagging codec spares_order)

    -- What follows a call that spares the quota may secure it.
    Grants-after :
        (m next : M Body (Unit {0})) → Keeps Spares Any m → Grants next → Grants (m >>= λ _. next)
    Grants-after m next km h =
        Ensures-bind _
          (λ _. Ensures-weaken _ next h λ d b e g c moved. Spares-Secures c d e moved.0 g) m
          (Ensures-Keeps m km (Ensures-any m km))

    Grants-again : (n : ℕ) (next : M Body (Unit {0})) → Grants next → Grants (again wait n next)
    unfolding again
    Grants-again zero next h = Ensures-fail _
    Grants-again (suc n) next h = Grants-after _ next (Keeps-wait _) h

    Ensures-confirmed :
        (wanted : QuotaReservation) (e : Error) (r : Result (Reservations × String))
        → wanted.session ≡ session
        → bytes ≤ wanted.bytes
        → Ensures Spares
            (λ d a f. (c : Disk Body) → Latest c r d → Secures c f)
            (confirmed tagging codec wait most key wanted e r)
    unfolding confirmed
    Ensures-confirmed wanted e (ok (rs, version)) same more =
        Ensures-if (committed wanted (find key rs)) _ _
          (λ h. Ensures-pure _ λ d c tried w. (
            (tried.0 w).0,
            Reserves-held d rs tried.2
                (committed-Standing wanted key session bytes rs named same more h),
          ))
          λ _. Ensures-fail e
    Ensures-confirmed wanted e (err x) same more = Ensures-fail _

    abbrev Over : Reservations → PutOptions → Type 0
    Over next options =
        (d : Disk Body)
        → refusal tag options (d quota_key) ≡ none
        → Secures d (update d quota_key (some (encoded codec next)))

    abbrev Puts : Reservations → PutOptions → Disk Body → Result String → Disk Body → Type 0
    Puts next options =
        Tried Spares (λ v. v ≡ tag (encoded codec next))
          (Written Spares tag quota_key (encoded codec next) options)

    Ensures-settled :
        (n : ℕ) (next : M Body (Unit {0})) (wanted : QuotaReservation) (rs : Reservations)
        (options : PutOptions) (r : Result String)
        → wanted.session ≡ session
        → bytes ≤ wanted.bytes
        → Over rs options
        → Grants next
        → Ensures Spares
            (λ d a f. (c : Disk Body) → Puts rs options c r d → Secures c f)
            (settled tagging codec wait most key n next wanted r)
    unfolding settled
    Ensures-settled n next wanted rs options (ok version) same more over h =
        Ensures-pure _ λ d c puts w.
          let (c', moved, passed, wrote) = puts.2 in
          subst (λ x. Within tagging codec most bounded x × Reserves x) (sym wrote)
            (over c' passed (moved w).0)
    Ensures-settled n next wanted rs options (err e) same more over h =
        Ensures-if (is e condition_failed || is e already_exists) _ _
          (λ _.
            Ensures-weaken _ _ (Grants-again n next h)
              λ d a f g c moved. Spares-Secures c d f moved g)
          λ _.
            Ensures-if (is e unknown_commit) _ _
              (λ _.
                Ensures-bind _
                  (λ r.
                    Ensures-weaken _ _ (Ensures-confirmed wanted e r same more)
                      λ d a f g c tried c' moved. Spares-Secures c' c f moved (g c tried))
                  _ latest)
              λ _. Ensures-fail e

    -- A decision that is carried out secures the reservation, if a write of it does, and if it
    -- stands where the decision says so.
    Ensures-enact :
        (n : ℕ) (next : M Body (Unit {0})) (wanted : QuotaReservation) (version : String)
        (x : Decision)
        → wanted.session ≡ session
        → bytes ≤ wanted.bytes
        → Grants next
        → ((rs : Reservations)
            → x ≡ write rs
            → Over rs (record { if_absent = str_eq version ""; if_match = version }))
        → Ensures Spares
            (λ d a f. (c : Disk Body) → Spares c d → (x ≡ present → Reserves d) → Secures c f)
            (enact tagging codec wait most key guard n next wanted version x)
    unfolding enact
    Ensures-enact n next wanted version exceeded same more h over = Ensures-fail _
    Ensures-enact n next wanted version corrupt same more h over = Ensures-fail _
    Ensures-enact n next wanted version present same more h over =
        Ensures-bind _
          (λ _. Ensures-pure _ λ d c moved c' from standing w.
            let kept = moved.0 (from w).0 in (kept.0, kept.1 (standing refl)))
          guard (Ensures-Keeps guard Keeps-guard (Ensures-any guard Keeps-guard))
    Ensures-enact n next wanted version (write rs) same more h over =
        Ensures-weaken _ _
          (Grants-after guard _ Keeps-guard (
            Ensures-bind _ (λ r. Ensures-settled n next wanted rs _ r same more (over rs refl) h) _
              (Ensures-attempt _
                (Keeps-put tagging spares_order quota_key _ _
                  (λ d passed w. let s = over rs refl d passed w in (s.0, λ _. s.1)))
                (Ensures-put tagging spares_order quota_key _ _))))
          λ d a f g c moved _. Spares-Secures c d f moved g

    raised-covers : (old : Option QuotaReservation) (n : ℕ) → bytes ≤ n → bytes ≤ raised old n
    raised-covers none n h = h
    raised-covers (some old) n h = ground arith

    -- A round over reservations that were read, and one over none.
    Ensures-round :
        (n : ℕ) (next : QuotaReservation → M Body (Unit {0})) (request : QuotaReservation)
        (r : Result (Reservations × String))
        → request.session ≡ session
        → bytes ≤ request.bytes
        → ((q : QuotaReservation) → q.session ≡ session → bytes ≤ q.bytes → Grants (next q))
        → IfOk spares_order (Fresh tagging codec) r
        → Ensures Spares
            (λ d a f. (c : Disk Body) → Latest c r d → Secures c f)
            (reserve_round tagging codec wait most key guard n next request r)
    unfolding reserve_round reserve_from
    Ensures-round n next request (ok (rs, version)) same more h (b, e, read_as) =
        let wants = raised-covers (find key rs) request.bytes more in
        Ensures-weaken _ _
          (Ensures-enact n _ (wanted_of tagging codec wait most key request rs) version
            (decide most key request rs) same wants (h _ same wants)
            λ written x d passed. encoded-Secures d written λ w.
              let small =
                w b rs
                  (refusal-matching tagging b (d quota_key)
                    (rw (e, tagging.version_ne_empty b) at passed))
                  read_as in
              decide-write most key request rs session bytes more same written small.1 x)
          λ d a f g c tried. g c tried.0 λ stands.
            Reserves-held d rs tried.2
              (decide-present most key request rs session bytes more same stands)
    Ensures-round n next request (err x) same more h fresh =
        Ensures-if (is x not_found) _ _
          (λ _.
            Ensures-weaken _ _
              (Ensures-enact n _ (wanted_of tagging codec wait most key request []) "" _ same more
                (h _ same more)
                λ written y d passed. encoded-Secures d written λ w.
                  decide-write most key request [] session bytes more same written (omega arith) y)
              λ d a f g c tried. g c tried λ stands.
                let (r, found, _, _) =
                  decide-present most key request [] session bytes more same stands in
                absurd (cc found))
          λ _. Ensures-fail x

    Grants-attempts :
        (n : ℕ) (request : QuotaReservation)
        → request.session ≡ session
        → bytes ≤ request.bytes
        → Grants (reserve_attempts tagging codec wait most key guard n request)
    unfolding reserve_attempts
    Grants-attempts zero request same more = Ensures-fail _
    Grants-attempts (suc n) request same more =
        Ensures-bind_known {K = IfOk spares_order (Fresh tagging codec)} _
          (λ r fresh. Ensures-round n _ request r same more (Grants-attempts n) fresh) _
          (Keeps-attempt spares_order _ (Keeps-read_quota tagging codec spares_order)).returns
          latest

  -- If reserve answers without an error to a request of a session with a name, on a disk within
  -- the quota, and the waits, the guard and the other processes keep the quota and the session's
  -- reservation once it has the bytes asked for, then after the call the quota object is within
  -- the quota and holds a reservation of the key for the session with at least these bytes.
  pub reserve-Secures :
      (wait : ℕ → M Body (Unit {0})) (guard : M Body (Unit {0})) (request : QuotaReservation)
      (w : World Body)
      → ((n : ℕ) → Keeps Spares Any (wait n))
      → Keeps Spares Any guard
      → str_eq session "" ≡ false
      → request.session ≡ session
      → bytes ≤ request.bytes
      → Fair Spares w.script
      → (reserve tagging codec wait most key guard request w).0 ≡ ok tt
      → Within tagging codec most bounded w.disk
      → Within tagging codec most bounded
          (reserve tagging codec wait most key guard request w).1.disk
        × Reserves (reserve tagging codec wait most key guard request w).1.disk
  unfolding reserve
  reserve-Secures wait guard request w Keeps-wait Keeps-guard named same more fair answered =
      let promise : Ensures Spares (λ d a e. Secures d e)
          (reserve tagging codec wait most key guard request) =
        Ensures-if (ltb most request.bytes) _ _ (λ _. Ensures-fail _)
          λ _. Grants-attempts wait Keeps-wait guard Keeps-guard named 16 request same more in
      promise.returns w tt fair answered
