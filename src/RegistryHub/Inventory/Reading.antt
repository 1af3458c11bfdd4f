-- ===== src/RegistryHub/Inventory/Reading.antt =====
-- What Read of application/registry-hub/src/internal/inventory/repository.go returns.
use k8s_at_home.Prelude.{String, some, ◌≡◌, refl, ◌∙◌, arith}
use k8s_at_home.RegistryHub.Errors.{Result, ok, err}
use k8s_at_home.RegistryHub.Storage.{Tagging, Object, Disk}
use k8s_at_home.RegistryHub.Storage.Keeps.{Order, Keeps, Keeps-pure, Keeps-fail, Keeps-bind}
use k8s_at_home.RegistryHub.Storage.Conditional.{Keeps-get}
use k8s_at_home.RegistryHub.Storage.Ensures.{
  Ensures, Ensures-pure, Ensures-fail, Ensures-bind, Ensures-get,
}
use k8s_at_home.RegistryHub.Inventory.{Json, decoded, lift, read}

module _ {Body V : Type 0} (json : Json Body V) (key : String) where
  -- The value of the key on a disk is `v`.
  abbrev pub Holds : Disk Body → V → Type 0
  Holds d v = (b : Body) × (d key ≡ some b) × (json.decode b ≡ some v)

module _ {Body V : Type 0} (tagging : Tagging Body) (json : Json Body V) where
  open tagging use {version as tag}

  -- What Read returned: the value of a body, and its version.
  abbrev pub Fresh : V × String → Type 0
  Fresh (v, version) = (b : Body) × (version ≡ tag b) × (json.decode b ≡ some v)

module _ {Body V : Type 0} (tagging : Tagging Body) (json : Json Body V) (key : String)
    {R : Disk Body → Disk Body → Type 0} (order : Order R) where
  open tagging use {version as tag}

  decoded-Fresh :
      (o : Object Body) (r : V × String)
      → decoded json o ≡ ok r
      → (json.decode o.body ≡ some r.0) × (r.1 ≡ o.version)
  unfolding decoded
  decoded-Fresh o r h = ground arith

  lift-Keeps :
      (o : Object Body) (r : Result (V × String))
      → decoded json o ≡ r
      → o.version ≡ tag o.body
      → Keeps R (Fresh tagging json) (lift json r)
  unfolding lift
  lift-Keeps o (ok r) h t =
      let (p, q) = decoded-Fresh o r h in Keeps-pure order r (o.body, q ∙ t, p)
  lift-Keeps o (err e) h t = Keeps-fail order e

  pub Keeps-read : Keeps R (Fresh tagging json) (read tagging json key)
  unfolding read
  Keeps-read = Keeps-bind order _ _ (Keeps-get tagging order key) λ o t. lift-Keeps o _ refl t

  lift-Holds :
      (o : Object Body) (r : Result (V × String))
      → decoded json o ≡ r
      → Ensures R
          (λ d a e. (c : Disk Body) → d key ≡ some o.body → Holds json key e a.0)
          (lift json r)
  unfolding lift
  lift-Holds o (ok r) h =
      let (p, q) = decoded-Fresh o r h in Ensures-pure r λ d c at. (o.body, at, p)
  lift-Holds o (err e) h = Ensures-fail e

  pub Ensures-read : Ensures R (λ d a e. Holds json key e a.0) (read tagging json key)
  unfolding read
  Ensures-read = Ensures-bind _ (λ o. lift-Holds o _ refl) _ (Ensures-get tagging order key)
