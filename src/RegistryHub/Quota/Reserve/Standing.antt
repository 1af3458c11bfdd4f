-- ===== src/RegistryHub/Quota/Reserve/Standing.antt =====
-- What Manager.reserve of application/registry-hub/src/internal/download/quota.go leaves or finds: the
-- reservation of the session.
use k8s_at_home.Prelude.{
  eq_iff, ℕ, ◌≤◌, String, Bool, true, false, Option, none, some, length, ltb, str_eq, if◌then◌else◌,
  ◌≡◌, refl, sym, ap, ◌∙◌, arith,
}
use k8s_at_home.RegistryHub.Quota.{
  QuotaReservation, Reservations, find, raised, Decision, exceeded, corrupt, present, write, decide,
}
use k8s_at_home.RegistryHub.Quota.{admit, standing, broken, used_by_others}
use k8s_at_home.RegistryHub.Quota.Bounds.{decide-Reserved}
use k8s_at_home.RegistryHub.Quota.Calls.{QuotaState, usable, readable}
use k8s_at_home.RegistryHub.Quota.Calls.Kept.{Small, usable-some}
use k8s_at_home.RegistryHub.Quota.Reserve.{committed}

abbrev state_of : Option Reservations → QuotaState
state_of rs = record { reservations = rs }

usable-same : (o : Option Reservations) (rs : Reservations) → usable o ≡ some rs → o ≡ some rs
usable-same none rs h = cc
usable-same (some found) rs h = ap (λ x. some x) (sym (usable-some found rs h))

pub readable-same :
    (o : Option QuotaState) (rs : Reservations)
    → readable o ≡ some rs
    → o ≡ some (record { reservations = some rs })
readable-same none rs h = cc
readable-same (some s) rs h = ap (λ x. some (state_of x)) (usable-same s.reservations rs h)

stood :
    (t s : Bool) (rs : Reservations)
    → (if t then exceeded else if s then present else write rs) ≡ present
    → s ≡ true
stood true s rs h = cc
stood false true rs h = refl
stood false false rs h = cc

kept_going : (t : Bool) (d : Decision) → (if t then exceeded else d) ≡ present → d ≡ present
kept_going true d h = cc
kept_going false d h = h

unbroken : (s : Bool) (d : Decision) → (if s then corrupt else d) ≡ present → d ≡ present
unbroken true d h = cc
unbroken false d h = h

-- The reservation of the key is the session's, with at least the bytes.
abbrev pub Standing : String → String → ℕ → Reservations → Type 0
Standing key session bytes rs =
    (r : QuotaReservation) × (find key rs ≡ some r) × (r.session ≡ session) × (bytes ≤ r.bytes)

standing-session :
    (old : Option QuotaReservation) (wanted : QuotaReservation) (bytes : ℕ)
    → bytes ≤ wanted.bytes
    → standing old wanted ≡ true
    → (r : QuotaReservation) × (old ≡ some r) × (r.session ≡ wanted.session) × (bytes ≤ r.bytes)
standing-session none wanted bytes h s = cc
standing-session (some old) wanted bytes h s =
    (old, refl, ground (arith, eq_iff old.session wanted.session), ground arith)

module _ (max_reserved : ℕ) (key : String) (request : QuotaReservation) (current : Reservations)
    (session : String) (bytes : ℕ) (covers : bytes ≤ request.bytes)
    (same : request.session ≡ session) where
  admit-present :
      (wanted : QuotaReservation) (used : Option ℕ)
      → bytes ≤ wanted.bytes
      → wanted.session ≡ session
      → admit max_reserved key wanted current (find key current) used ≡ present
      → Standing key session bytes current
  unfolding admit
  admit-present wanted none more of h = cc
  admit-present wanted (some used) more of h =
      let (r, found, owner, enough) =
        standing-session (find key current) wanted bytes more (stood _ _ _ h) in
      (r, found, owner ∙ of, enough)

  raised-le : (old : Option QuotaReservation) → bytes ≤ raised old request.bytes
  raised-le none = covers
  raised-le (some old) = ground arith

  -- A round that finds the reservation standing.
  pub decide-present :
      decide max_reserved key request current ≡ present → Standing key session bytes current
  unfolding decide
  decide-present h =
      let old = find key current in
      let wanted : QuotaReservation = record request { bytes = raised old request.bytes } in
      let used = used_by_others key 0 current in
      let checked =
        kept_going (ltb max_reserved request.bytes)
          (if broken old then corrupt else admit max_reserved key wanted current old used) h in
      admit-present wanted used (raised-le old) same
        (unbroken (broken old) (admit max_reserved key wanted current old used) checked)

  -- A round that writes the reservation.
  pub decide-write :
      (next : Reservations)
      → length current ≤ 128
      → decide max_reserved key request current ≡ write next
      → Small max_reserved next × Standing key session bytes next
  decide-write next few h =
      let k = decide-Reserved max_reserved key request current few next h in
      let (r, found, owner, enough) = k.granted in
      ((k.within, k.few), (r, found, owner ∙ same, omega (arith, enough, covers)))

confirmed_one :
    (wanted : QuotaReservation) (session : String) (bytes : ℕ) (found : Option QuotaReservation)
    → str_eq session "" ≡ false
    → wanted.session ≡ session
    → bytes ≤ wanted.bytes
    → committed wanted found ≡ true
    → (r : QuotaReservation) × (found ≡ some r) × (r.session ≡ session) × (bytes ≤ r.bytes)
unfolding committed
confirmed_one wanted session bytes none named same more h =
    ground (arith, eq_iff "" wanted.session, eq_iff session "")
confirmed_one wanted session bytes (some r) named same more h =
    (r, refl, ground (arith, eq_iff r.session wanted.session), ground arith)

-- The confirmation of a write of unknown fate.
pub committed-Standing :
    (wanted : QuotaReservation) (key session : String) (bytes : ℕ) (rs : Reservations)
    → str_eq session "" ≡ false
    → wanted.session ≡ session
    → bytes ≤ wanted.bytes
    → committed wanted (find key rs) ≡ true
    → Standing key session bytes rs
committed-Standing wanted key session bytes rs = confirmed_one wanted session bytes (find key rs)
