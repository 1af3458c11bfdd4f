-- ===== src/RegistryHub/Quota/Calls/Kept.antt =====
-- The quota as an invariant of the disk, and the writes of
-- application/registry-hub/src/internal/download/quota.go that keep it.
use k8s_at_home.Prelude.{
  ℕ, zero, suc, ◌≤◌, String, true, none, some, [], ◌∷◌, length, ◌≡◌, refl, sym, ap, subst, ◌∙◌,
  arith,
}
use k8s_at_home.RegistryHub.Storage.{Tagging, Codec, Disk, M, attempt, update, refusal}
use k8s_at_home.RegistryHub.Quota.{Reservations, delete, max_int64}
use k8s_at_home.RegistryHub.Storage.Keeps.{
  Order, Keeps, Any, IfOk, Keeps-fail, Keeps-bind, Keeps-attempt,
}
use k8s_at_home.RegistryHub.Storage.Conditional.{matching, refusal-matching}
use k8s_at_home.RegistryHub.Storage.Ensures.{at-update}
use k8s_at_home.RegistryHub.Quota.Bounds.{total, length-delete-le}
use k8s_at_home.RegistryHub.Quota.Calls.{
  quota_key, QuotaState, entries_fit, fits, usable, readable, read_quota, encoded, again,
}
use k8s_at_home.RegistryHub.Quota.Calls.Reading.{Fresh, Keeps-read_quota}

pub entries_fit-total : (rs : Reservations) → total rs ≤ max_int64 → entries_fit rs ≡ true
unfolding total
entries_fit-total [] h = refl
entries_fit-total ((k, r) ∷ rest) h = ground (arith, entries_fit-total rest)

total-delete-le : (key : String) (rs : Reservations) → total (delete key rs) ≤ total rs
unfolding total
total-delete-le key [] = omega arith
total-delete-le key ((k, r) ∷ rest) = ground (arith, total-delete-le key rest)

pub usable-some : (rs found : Reservations) → usable (some rs) ≡ some found → found ≡ rs
usable-some rs found h = ground arith

-- The reservations are within the quota.
abbrev pub Small : ℕ → Reservations → Type 0
Small most rs = (total rs ≤ most) × (length rs ≤ 128)

pub Small-delete :
    (most : ℕ) (key : String) (rs : Reservations) → Small most rs → Small most (delete key rs)
Small-delete most key rs (h, k) =
    (omega (arith, h, total-delete-le key rs), omega (arith, k, length-delete-le key rs))

some-injective : {A : Type 0} {a b : A} → some a ≡ some b → a ≡ b
some-injective e = cc

module _ {Body : Type 0} (tagging : Tagging Body) (codec : Codec Body QuotaState fits) (most : ℕ)
    (bounded : most ≤ max_int64) where
  open tagging use {version as tag}

  -- What can be read of the quota is within it.
  abbrev pub Within : Disk Body → Type 0
  Within d =
      (b : Body) (rs : Reservations)
      → d quota_key ≡ some b
      → readable (codec.decode b) ≡ some rs
      → Small most rs

  -- The quota is kept.
  abbrev pub Kept : Disk Body → Disk Body → Type 0
  Kept d e = Within d → Within e

  pub kept_order : Order Kept
  kept_order = record { stay = λ d h. h; chain = λ d e f h k w. k (h w) }

  -- A write of reservations that are within the quota keeps it.
  pub encoded-Kept :
      (d : Disk Body) (rs : Reservations)
      → (Within d → Small most rs)
      → Kept d (update d quota_key (some (encoded codec rs)))
  encoded-Kept d rs small within b found at read_as =
      let kept = small within in
      let same : encoded codec rs ≡ b =
        some-injective (sym (at-update d _ quota_key _ refl) ∙ at) in
      let back =
        codec.decode_encode (record { reservations = some rs })
          (entries_fit-total rs (omega (arith, kept.0, bounded))) in
      subst (Small most)
        (sym (
          usable-some rs found
            (ap readable (sym back) ∙ ap (λ x. readable (codec.decode x)) same ∙ read_as)))
        kept

  -- A conditional write over reservations that were read.
  pub Keeps-over :
      (rs next : Reservations) (version : String)
      → Fresh tagging codec (rs, version)
      → (Small most rs → Small most next)
      → (d : Disk Body) → refusal tag (matching tagging version) (d quota_key) ≡ none
      → Kept d (update d quota_key (some (encoded codec next)))
  Keeps-over rs next version (b, e, read_as) h d passed =
      encoded-Kept d next
        λ w. h (w b rs (refusal-matching tagging b (d quota_key) (rw e at passed)) read_as)

  module _ (wait : ℕ → M Body (Unit {0})) (Keeps-wait : (n : ℕ) → Keeps Kept Any (wait n)) where
    pub Keeps-again :
        (n : ℕ) (next : M Body (Unit {0}))
        → Keeps Kept Any next
        → Keeps Kept Any (again wait n next)
    unfolding again
    Keeps-again zero next h = Keeps-fail kept_order _
    Keeps-again (suc n) next h = Keeps-bind kept_order _ _ (Keeps-wait _) λ _ _. h

    pub Keeps-latest :
        Keeps Kept (IfOk kept_order (Fresh tagging codec)) (attempt (read_quota tagging codec))
    Keeps-latest = Keeps-attempt kept_order _ (Keeps-read_quota tagging codec kept_order)
