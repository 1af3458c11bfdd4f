-- ===== src/RegistryHub/Inventory/Sample.antt =====
-- A concrete store of texts for the tests of its clients: the version of a body is its text after
-- a letter. The store is that of application/registry-hub/src/internal/storage/storage.go.
use Prim.Native.String.{◌∷◌ as text_cons}
use k8s_at_home.Prelude.{String, Bool, true, false, ◌≡◌, ap, str_eq, str_eq-eq-false}
use k8s_at_home.RegistryHub.Storage.{Tagging, Disk}
use k8s_at_home.RegistryHub.Storage.Keeps.{Order}

abbrev pub tagged : String → String
tagged s = text_cons "v" s

pub tagged-injective : (a b : String) → tagged a ≡ tagged b → a ≡ b
tagged-injective a b e = cc

begins : String → Bool
begins String.[] = false
begins (text_cons c s) = true

pub tagged_ne_empty : (b : String) → str_eq (tagged b) "" ≡ false
unfolding begins
tagged_ne_empty b = str_eq-eq-false (tagged b) "" (λ e. differ (ap begins e))
  where
    differ : true ≡ false → ⊥
    differ h = cc

abbrev pub tagging : Tagging String
tagging = record {
  version = tagged;
  version_injective = tagged-injective;
  version_ne_empty = tagged_ne_empty;
}

-- Every write may happen.
abbrev pub Free : Disk String → Disk String → Type 0
Free d e = Unit

pub free_order : Order Free
free_order = record { stay = λ d. tt; chain = λ d e f h k. tt }
