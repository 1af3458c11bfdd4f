-- ===== src/RegistryHub/Inventory/Quiet.antt =====
-- Update of application/registry-hub/src/internal/inventory/repository.go where no call fails and
-- no other process writes.
use k8s_at_home.Prelude.{
  ℕ, String, Bool, true, false, not, ◌&&◌, Bool-cases, some, none, [], ltb, str_eq, str_eq_refl,
  ◌≡◌, refl, ◌⊎◌, inl, inr,
}
use k8s_at_home.RegistryHub.Errors.{Result, ok, err, is, sentinel, not_found}
use k8s_at_home.RegistryHub.Storage.{
  Tagging, Disk, World, M, pure, update, attempt, get, put, refusal, arrive, answer, settle, ◌>>=◌,
}
use k8s_at_home.RegistryHub.Inventory.{
  Json, size_limit, read, settled, write, rewritten, revise, update_attempts, update_value,
}

module _ {Body V : Type 0} (tagging : Tagging Body) (json : Json Body V) (key : String)
    (no_value : V) (change : V → Result V) (t : ℕ) where
  open tagging use {version as tag}

  abbrev quiet : Disk Body → World Body
  quiet d = record { disk = d; clock = t; script = [] }

  -- A readable value stands at the key, or none does.
  abbrev pub Ready : Disk Body → V → Type 0
  Ready d v =
      ((d key ≡ none) × (v ≡ no_value))
      ⊎ ((b : Body) × (d key ≡ some b)
          × (ltb size_limit (json.size b) ≡ false)
          × (json.decode b ≡ some v))

  read_absent :
      (d : Disk Body)
      → d key ≡ none
      → attempt (read tagging json key) (quiet d) ≡ (ok (err (sentinel not_found)), quiet d)
  unfolding read attempt get arrive answer ◌>>=◌
  read_absent d h = rw h refl

  read_present :
      (d : Disk Body) (b : Body) (v : V)
      → d key ≡ some b
      → ltb size_limit (json.size b) ≡ false
      → json.decode b ≡ some v
      → attempt (read tagging json key) (quiet d) ≡ (ok (ok (v, tag b)), quiet d)
  unfolding read attempt get arrive answer ◌>>=◌
  read_present d b v h s e = rw (h, s, e) refl

  write-quiet :
      (retry : M Body (Unit {0})) (version : String) (body : Body) (d : Disk Body)
      → refusal tag (record { if_absent = str_eq version ""; if_match = version }) (d key) ≡ none
      → write tagging json key (pure tt) retry version body (quiet d)
        ≡ (ok tt, quiet (update d key (some body)))
  unfolding write attempt put arrive settle settled ◌>>=◌
  write-quiet retry version body d h = rw h refl

  passes_absent :
      (d : Disk Body)
      → d key ≡ none
      → refusal tag (record { if_absent = str_eq "" ""; if_match = "" }) (d key) ≡ none
  unfolding refusal
  passes_absent d h = rw h refl

  passes_present :
      (d : Disk Body) (b : Body)
      → d key ≡ some b
      → refusal tag (record { if_absent = str_eq (tag b) ""; if_match = tag b }) (d key) ≡ none
  unfolding refusal
  passes_present d b h = rw (h, tagging.version_ne_empty b, str_eq_refl (tag b)) refl

  -- The call succeeds, and the changed value is written unless nothing changed.
  abbrev pub Done : Disk Body → V → V → Result (Unit {0}) × World Body → Type 0
  Done d v next r =
      (r.0 ≡ ok tt)
      × ((r.1 ≡ quiet (update d key (some (json.encode next))))
          ⊎ ((r.1 ≡ quiet d) × (json.encode v ≡ json.encode next)))

  rewritten-Done :
      (retry : M Body (Unit {0})) (d : Disk Body) (v next : V) (version : String)
      → ltb size_limit (json.size (json.encode next)) ≡ false
      → refusal tag (record { if_absent = str_eq version ""; if_match = version }) (d key) ≡ none
      → Done d v next (rewritten tagging json key (pure tt) retry version v (ok next) (quiet d))
  unfolding rewritten ◌>>=◌
  rewritten-Done retry d v next version fits h =
      elim (Bool-cases (not (str_eq version "") && json.same (json.encode v) (json.encode next))) [
        | inl s ↦ rw (fits, s) (refl, inr (refl, json.same→eq _ _ (second (str_eq version "") _ s)))
        | inr s ↦ rw (fits, s, write-quiet retry version (json.encode next) d h) (refl, inl refl)
      ]
    where
      second : (a b : Bool) → (not a && b) ≡ true → b ≡ true
      second true b e = cc
      second false b e = e

  -- If nothing fails, nobody else writes and there is no guard, Update succeeds for every value
  -- that stands at the key, or the zero value where none does, if the change succeeds and the
  -- value and the changed value are not too long: the key then holds what the change made of the
  -- value and every other key what it held, or nothing is written where it would be the same.
  pub update_value-Done :
      (d : Disk Body) (v next : V)
      → Ready d v
      → change v ≡ ok next
      → ltb size_limit (json.size (json.encode next)) ≡ false
      → Done d v next (update_value tagging json key (pure tt) no_value change (quiet d))
  unfolding update_value update_attempts revise ◌>>=◌ is
  update_value-Done d v next (inl (missing, zero_value)) changed fits =
      rw (read_absent d missing, ← zero_value, changed)
        (rewritten-Done _ d v next "" fits (passes_absent d missing))
  update_value-Done d v next (inr (b, stands, short, read_as)) changed fits =
      rw (read_present d b v stands short read_as, changed)
        (rewritten-Done _ d v next (tag b) fits (passes_present d b stands))
