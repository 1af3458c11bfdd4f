-- ===== src/RegistryHub/Quota/Bounds.antt =====
-- A round of Manager.reserve of internal/download/quota.go keeps the quota.
use k8s_at_home.Prelude.{
  ℕ, ◌+◌, ◌-◌, ◌≤◌, ◌<◌, String, Bool, true, false, ◌&&◌, ◌||◌, Option, none, some, [], ◌∷◌, ltb,
  leb, str_eq, str_eq_refl, if◌then◌else◌, length, ◌≡◌, refl, ap, subst, ◌∙◌, inl, inr, arith,
  Bool-cases,
}
use k8s_at_home.RegistryHub.Quota.{
  QuotaReservation, Reservations, find, delete, used_by_others, Decision, exceeded, present,
  corrupt, write, raised, absent, admit, decide,
}

unfoldable pub total : Reservations → ℕ
total [] = 0
total ((k, r) ∷ rest) = r.bytes + total rest

used-total :
    (key : String) (acc used : ℕ) (rs : Reservations)
    → used_by_others key acc rs ≡ some used
    → used ≡ acc + total (delete key rs)
unfolding used_by_others total
used-total key acc used [] h = ground arith
used-total key acc used ((k, r) ∷ rest) h =
    ground (arith, used-total key acc used rest, used-total key (acc + r.bytes) used rest)

pub length-delete-le : (key : String) (rs : Reservations) → length (delete key rs) ≤ length rs
length-delete-le key [] = omega arith
length-delete-le key ((k, r) ∷ rest) = ground (arith, length-delete-le key rest)

length-delete-lt :
    (key : String) (rs : Reservations)
    → absent (find key rs) ≡ false
    → length (delete key rs) < length rs
length-delete-lt key [] h = cc
length-delete-lt key ((k, r) ∷ rest) h =
    ground (arith, length-delete-lt key rest, length-delete-le key rest)

delete-delete : (key : String) (rs : Reservations) → delete key (delete key rs) ≡ delete key rs
delete-delete key [] = refl
delete-delete key ((k, r) ∷ rest) = elim (Bool-cases (str_eq k key)) [
  | inl e ↦ rw e (delete-delete key rest)
  | inr e ↦ rw e (rw e (ap (λ l. (k, r) ∷ l) (delete-delete key rest)))
]

write-injective : {a b : Reservations} → write a ≡ write b → a ≡ b
write-injective e = cc

written :
    (t s : Bool) (rs next : Reservations)
    → (if t then exceeded else if s then present else write rs) ≡ write next
    → (t ≡ false) × (rs ≡ next)
written true s rs next h = cc
written false true rs next h = cc
written false false rs next h = (refl, write-injective h)

passed :
    (t s : Bool) (d : Decision) (next : Reservations)
    → (if t then exceeded else if s then corrupt else d) ≡ write next
    → (t ≡ false) × (s ≡ false) × (d ≡ write next)
passed true s d next h = cc
passed false true d next h = cc
passed false false d next h = (refl, refl, h)

or-first : (a b : Bool) → (a || b) ≡ false → a ≡ false
or-first true b h = h
or-first false b h = refl

sum_fits :
    (most used n : ℕ) (a : Bool)
    → (a || ltb most used || ltb (most - used) n) ≡ false
    → used + n ≤ most
sum_fits most used n a h = ground arith

-- What holds of the reservations that a round writes.
pub record Reserved (max_reserved : ℕ) (key : String) (request : QuotaReservation)
    (current next : Reservations) : Type 0 where
  pub within : total next ≤ max_reserved
  pub few : length next ≤ 128
  pub granted :
      (r : QuotaReservation) × (find key next ≡ some r)
      × (r.session ≡ request.session)
      × (request.bytes ≤ r.bytes)
  pub others : delete key next ≡ delete key current

raised-le : (old : Option QuotaReservation) (n : ℕ) → n ≤ raised old n
raised-le none n = omega arith
raised-le (some old) n = ground arith

-- A new reservation under its key leaves the others as they are.
placed :
    (max_reserved : ℕ) (key : String) (request wanted : QuotaReservation) (used : ℕ)
    (current : Reservations)
    → wanted.session ≡ request.session
    → request.bytes ≤ wanted.bytes
    → used ≡ total (delete key current)
    → used + wanted.bytes ≤ max_reserved
    → length (delete key current) + 1 ≤ 128
    → Reserved max_reserved key request current ((key, wanted) ∷ delete key current)
unfolding total
placed max_reserved key request wanted used current same covers sum fits few = record {
  within = omega (arith, sum, fits);
  few = omega (arith, few);
  granted = (wanted, rw (str_eq_refl key) refl, same, covers);
  others = rw (str_eq_refl key) (delete-delete key current);
}

room :
    (key : String) (current : Reservations)
    → length current ≤ 128
    → (absent (find key current) && leb 128 (length current)) ≡ false
    → length (delete key current) + 1 ≤ 128
room key current few h = elim (Bool-cases (absent (find key current))) [
  | inl e ↦ ground (arith, length-delete-le key current)
  | inr e ↦ omega (arith, few, length-delete-lt key current e)
]

module _ (max_reserved : ℕ) (key : String) (request : QuotaReservation) (current : Reservations)
    (few : length current ≤ 128) where
  admit-Reserved :
      (wanted : QuotaReservation) (used : Option ℕ) (next : Reservations)
      → wanted.session ≡ request.session
      → request.bytes ≤ wanted.bytes
      → used_by_others key 0 current ≡ used
      → admit max_reserved key wanted current (find key current) used ≡ write next
      → Reserved max_reserved key request current next
  unfolding admit
  admit-Reserved wanted none next same covers sum h = cc
  admit-Reserved wanted (some used) next same covers sum h =
      let (fits, p) = written _ _ _ next h in
      subst (Reserved max_reserved key request current) p (
        placed max_reserved key request wanted used current same covers
          (used-total key 0 used current sum ∙ omega arith)
          (sum_fits max_reserved used wanted.bytes _ fits)
          (room key current few (or-first _ _ (or-first _ _ fits))))

  -- What a round of reserve writes, where it found at most 128 reservations, sums up to at most the
  -- quota, is at most 128 reservations, holds one for the key and the session with at least the
  -- bytes asked for, and leaves those of the other keys as they are.
  pub decide-Reserved :
      (next : Reservations)
      → decide max_reserved key request current ≡ write next
      → Reserved max_reserved key request current next
  unfolding decide
  decide-Reserved next h =
      let (_, _, e) = passed _ _ _ next h in
      admit-Reserved _ _ next refl (raised-le (find key current) request.bytes) refl e
