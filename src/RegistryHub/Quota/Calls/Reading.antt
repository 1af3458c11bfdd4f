-- ===== src/RegistryHub/Quota/Calls/Reading.antt =====
-- What readQuota of application/registry-hub/src/internal/download/quota.go returns, and what an
-- order on disks has to allow for the calls of the quota.
use k8s_at_home.Prelude.{String, Option, none, some, ◌≡◌, refl}
use k8s_at_home.RegistryHub.Storage.{Tagging, Codec, Object, Disk}
use k8s_at_home.RegistryHub.Storage.Keeps.{Order, Keeps, Keeps-pure, Keeps-fail, Keeps-bind}
use k8s_at_home.RegistryHub.Storage.Conditional.{Keeps-get}
use k8s_at_home.RegistryHub.Storage.Ensures.{
  Ensures, Ensures-pure, Ensures-fail, Ensures-bind, Ensures-get,
}
use k8s_at_home.RegistryHub.Quota.{Reservations}
use k8s_at_home.RegistryHub.Quota.Calls.{
  quota_key, QuotaState, fits, readable, accepted, read_quota,
}

module _ {Body : Type 0} (codec : Codec Body QuotaState fits) where
  -- The reservations of a disk.
  abbrev pub Holds : Disk Body → Reservations → Type 0
  Holds d rs = (b : Body) × (d quota_key ≡ some b) × (readable (codec.decode b) ≡ some rs)

module _ {Body : Type 0} (tagging : Tagging Body) (codec : Codec Body QuotaState fits) where
  open tagging use {version as tag}

  -- Reservations that were read, with the version of their body.
  abbrev pub Fresh : Reservations × String → Type 0
  Fresh (rs, version) = (b : Body) × (version ≡ tag b) × (readable (codec.decode b) ≡ some rs)

  module _ {R : Disk Body → Disk Body → Type 0} (order : Order R) where
    Keeps-accepted :
        (o : Object Body) (found : Option Reservations)
        → o.version ≡ tag o.body
        → readable (codec.decode o.body) ≡ found
        → Keeps R Fresh (accepted tagging codec o found)
    unfolding accepted
    Keeps-accepted o none t h = Keeps-fail order _
    Keeps-accepted o (some rs) t h = Keeps-pure order (rs, o.version) (o.body, t, h)

    pub Keeps-read_quota : Keeps R Fresh (read_quota tagging codec)
    unfolding read_quota
    Keeps-read_quota =
        Keeps-bind order _ _ (Keeps-get tagging order quota_key) λ o t. Keeps-accepted o _ t refl

    Ensures-accepted :
        (o : Object Body) (found : Option Reservations)
        → readable (codec.decode o.body) ≡ found
        → Ensures R
            (λ d a e. (c : Disk Body) → d quota_key ≡ some o.body → Holds codec e a.0)
            (accepted tagging codec o found)
    unfolding accepted
    Ensures-accepted o none h = Ensures-fail _
    Ensures-accepted o (some rs) h = Ensures-pure _ λ d c at. (o.body, at, h)

    pub Ensures-read_quota : Ensures R (λ d a e. Holds codec e a.0) (read_quota tagging codec)
    unfolding read_quota
    Ensures-read_quota =
        Ensures-bind _ (λ o. Ensures-accepted o _ refl) _ (Ensures-get tagging order quota_key)
