-- ===== src/RegistryHub/Lease/View.antt =====
-- What a lease's key holds, as the managers see it, and how it may change over time.
use k8s_at_home.Prelude.{
  ◌≤◌, String, true, false, Option, none, some, ◌≡◌, refl, subst, ◌∙◌, inl, inr, arith, Bool-cases,
  str_eq, eq_iff, ◌==◌, if◌then◌else◌,
}
use k8s_at_home.RegistryHub.Errors.{ok}
use k8s_at_home.RegistryHub.Storage.{Codec, Disk, update}
use k8s_at_home.RegistryHub.Storage.Keeps.{Order}
use k8s_at_home.RegistryHub.Lease.{LeaseRecord, representable, decoded}

pub data View : Type 0 where
  -- no object
  missing : View
  -- a body with no fencing token: no manager reads it, and the key serves no lease any more
  dead : View
  live : LeaseRecord → View

-- A lease's key is never emptied, an unreadable one never comes back, the fencing token never
-- falls, and under one token the owner stays and a lease that is not held is not held again.
abbrev pub Advances : View → View → Type 0
Advances missing v = Unit
Advances dead missing = ⊥
Advances dead dead = Unit
Advances dead (live r) = ⊥
Advances (live r) missing = ⊥
Advances (live r) dead = Unit
Advances (live r) (live s) =
    (r.fencing_token ≤ s.fencing_token)
    × (r.fencing_token ≡ s.fencing_token → s.owner ≡ r.owner)
    × (r.fencing_token ≡ s.fencing_token → s.state ≡ "held" → r.state ≡ "held")

Advances-refl : (v : View) → Advances v v
Advances-refl missing = tt
Advances-refl dead = tt
Advances-refl (live r) = (omega arith, λ e. refl, λ e h. h)

pub Advances-trans : (u v w : View) → Advances u v → Advances v w → Advances u w
Advances-trans missing v w h k = tt
Advances-trans dead missing w h k = elim h [ ]
Advances-trans dead dead w h k = k
Advances-trans dead (live s) w h k = elim h [ ]
Advances-trans (live r) missing w h k = elim h [ ]
Advances-trans (live r) dead missing h k = elim k [ ]
Advances-trans (live r) dead dead h k = tt
Advances-trans (live r) dead (live t) h k = elim k [ ]
Advances-trans (live r) (live s) missing h k = elim k [ ]
Advances-trans (live r) (live s) dead h k = tt
Advances-trans (live r) (live s) (live t) h k = (
  omega arith,
  λ e. k.1 (omega arith) ∙ h.1 (omega arith),
  λ e held. h.2 (omega arith) (k.2 (omega arith) held),
)

module _ {Body : Type 0} (codec : Codec Body LeaseRecord representable) where
  abbrev seen : Option LeaseRecord → View
  seen none = dead
  seen (some r) = if r.fencing_token == 0 then dead else live r

  unfoldable pub view : Option Body → View
  view none = missing
  view (some b) = seen (codec.decode b)

  -- What a manager accepts is live.
  pub view-decoded : (b : Body) (r : LeaseRecord) → decoded codec b ≡ ok r → view (some b) ≡ live r
  unfolding view decoded
  view-decoded b r h = ground arith

  -- The relation between two disks at one key.
  abbrev pub Fences : String → Disk Body → Disk Body → Type 0
  Fences key d e = Advances (view (d key)) (view (e key))

  pub Fences-order : (key : String) → Order (Fences key)
  Fences-order key = record { stay = λ d. Advances-refl _; chain = λ d e f. Advances-trans _ _ _ }

  pub view-encode :
      (r : LeaseRecord)
      → representable r ≡ true
      → view (some (codec.encode r)) ≡ (if r.fencing_token == 0 then dead else live r)
  unfolding view
  view-encode r h = rw (codec.decode_encode r h)

  pub view-live-token :
      (b : Body) (r : LeaseRecord)
      → view (some b) ≡ live r
      → ((r.fencing_token == 0) ≡ false) × (representable r ≡ true)
  unfolding view
  view-live-token b r h = ground (arith, codec.decode_representable b r)

  -- A write at any key keeps the relation if it does at its own key.
  pub Fences-update :
      (key k : String) (d : Disk Body) (b : Option Body)
      → Advances (view (d k)) (view b)
      → Fences key d (update d k b)
  Fences-update key k d b h = elim (Bool-cases (str_eq k key)) [
    | inl e ↦ rw e (subst (λ j. Advances (view (d j)) (view b)) ((eq_iff k key).0 e) h)
    | inr e ↦ rw e (Advances-refl _)
  ]
