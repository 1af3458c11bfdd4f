-- ===== src/RegistryHub/Lease/Fencing.antt =====
-- What a manager knows after Validate and Renew, and that a superseded or released lease never
-- passes them again (application/registry-hub/src/internal/lease/lease.go).
use k8s_at_home.Prelude.{
  ℕ, zero, suc, ◌+◌, ◌<◌, String, true, false, not, ◌||◌, some, ◌≡◌, ◌≢◌, refl, ◌⊎◌, inl, inr,
  arith, eq_iff, ltb, ◌==◌,
}
use k8s_at_home.RegistryHub.Errors.{Result, ok, err, is, condition_failed, unknown_commit}
use k8s_at_home.RegistryHub.Storage.{Tagging, Codec, Disk, Object, M, World, put}
use k8s_at_home.RegistryHub.Storage.Keeps.{Order, Keeps, Any, Fair, Keeps-attempt}
use k8s_at_home.RegistryHub.Storage.Conditional.{Keeps-get}
use k8s_at_home.RegistryHub.Storage.Ensures.{
  Ensures, Ensures-pure, Ensures-fail, Ensures-weaken, Ensures-now, Ensures-if, Ensures-bind,
  Ensures-bind_known, Ensures-attempt, Ensures-put, Ensures-get, Ensures-Keeps, Ensures-any,
  at-update,
}
use k8s_at_home.RegistryHub.Lease.{
  LeaseRecord, representable, Lease, schema_current, schema_previous, decoded, matches, migrated,
  migrate, upgrade, read_attempts, read, renewed, renew, validate,
}
use k8s_at_home.RegistryHub.Lease.Reading.{Readable, Step, step_order, Keeps-read}
use k8s_at_home.RegistryHub.Lease.Guarantee.{Keeps-rewrite}
use k8s_at_home.RegistryHub.Lease.View.{
  live, Advances, Advances-trans, view, view-decoded, view-encode, view-live-token,
}

module _ {Body : Type 0} (tagging : Tagging Body) (codec : Codec Body LeaseRecord representable)
    (k : String) where
  open tagging use {version as tag}

  abbrev Moves : Disk Body → Disk Body → Type 0
  Moves = Step tagging codec k

  order : Order Moves
  order = step_order tagging codec k

  -- The record is what stands at the key.
  abbrev Stands : Object Body × LeaseRecord → Disk Body → Type 0
  Stands f e = view codec (e k) ≡ live f.1

  Ensures-migrate :
      (retry : M Body (Object Body × LeaseRecord)) (o : Object Body) (r : LeaseRecord)
      → Ensures Moves (λ d f e. Stands f e) retry
      → Readable tagging codec k (o, r)
      → Ensures Moves (λ d f e. Stands f e) (migrate tagging codec retry k o r)
  unfolding migrate migrated
  Ensures-migrate retry o r er (b, read, seen) =
      Ensures-bind _
        (elim [
          | ok v ↦
              Ensures-pure _
                λ d c tries. rw (at-update _ d k _ tries.2.3, view-encode codec s token.1, token.0)
          | err x ↦
              Ensures-if (is x condition_failed || is x unknown_commit) retry _
                (λ _. Ensures-weaken _ retry er λ d f e g c tries. g) λ _. Ensures-fail x
        ])
        _
        (Ensures-attempt _
          (Keeps-rewrite tagging codec k k o.version b r s read seen refl refl (λ h. h))
          (Ensures-put tagging order k (codec.encode s) _))
    where
      s : LeaseRecord
      s = record r { schema_version = schema_current }

      token : ((r.fencing_token == 0) ≡ false) × (representable r ≡ true)
      token = view-live-token codec b r seen

  Ensures-upgrade :
      (retry : M Body (Object Body × LeaseRecord)) (o : Object Body) (d : Result LeaseRecord)
      → Ensures Moves (λ d f e. Stands f e) retry
      → o.version ≡ tag o.body
      → decoded codec o.body ≡ d
      → Ensures Moves (λ d f e. d k ≡ some o.body → Stands f e) (upgrade tagging codec retry k o d)
  unfolding upgrade
  Ensures-upgrade retry o (err e) er t h = Ensures-fail e
  Ensures-upgrade retry o (ok r) er t h =
      Ensures-if (r.schema_version == schema_current) _ _
        (λ _. Ensures-pure (o, r) λ d at. rw at (view-decoded codec o.body r h))
        λ _.
          Ensures-if (r.schema_version == schema_previous) _ _
            (λ _.
              Ensures-weaken _ _
                (Ensures-migrate retry o r er (o.body, t, view-decoded codec o.body r h))
                λ d f e g _. g)
            λ _. Ensures-fail _

  Ensures-read_attempts :
      (n : ℕ) → Ensures Moves (λ d f e. Stands f e) (read_attempts tagging codec n k)
  unfolding read_attempts
  Ensures-read_attempts zero = Ensures-fail _
  Ensures-read_attempts (suc n) =
      let again = Ensures-read_attempts n in
      Ensures-bind_known _
        (λ o t. Ensures-weaken _ _ (Ensures-upgrade _ o _ again t refl) λ d f e g c at. g at) _
        (Keeps-get tagging order k).returns (Ensures-get tagging order k)

  -- What `read` returned stood at the key when it returned.
  Ensures-read : Ensures Moves (λ d f e. Stands f e) (read tagging codec k)
  unfolding read
  Ensures-read = Ensures-read_attempts 16

  -- At some moment of the call a record of the lease stood at the key.
  abbrev Matched : Lease → Disk Body → Type 0
  Matched l d =
      (x : Disk Body) × (r : LeaseRecord) × Moves d x
      × (view codec (x k) ≡ live r)
      × (matches r l ≡ true)

  Ensures-found : Ensures Moves (λ d f e. Moves d e × Stands f e) (read tagging codec k)
  Ensures-found = Ensures-Keeps _ (Keeps-read tagging codec k k) Ensures-read

-- The guard that Renew and Validate share.
guard_matches :
    (r : LeaseRecord) (l : Lease) (t : ℕ)
    → (not (matches r l) || not (ltb t r.expires_at)) ≡ false
    → matches r l ≡ true
guard_matches r l t h = ground arith

module _ {Body : Type 0} (tagging : Tagging Body) (codec : Codec Body LeaseRecord representable)
    (l : Lease) where
  Ensures-validate :
      Ensures
        (Moves tagging codec l.key)
        (λ d a e. Matched tagging codec l.key l d)
        (validate tagging codec l)
  unfolding validate
  Ensures-validate =
      Ensures-bind _
        (λ f.
          Ensures-bind _
            (λ t.
              Ensures-if (not (matches f.1 l) || not (ltb t f.1.expires_at)) _ _
                (λ _. Ensures-fail _)
                λ g.
                  Ensures-pure tt
                    λ d c same b found. (c, f.1, found.0, found.1, guard_matches f.1 l t g))
            _ Ensures-now)
        _ (Ensures-found tagging codec l.key)

  renewed-any :
      (r : LeaseRecord) (w : Result String) (t : ℕ)
      → Ensures (Moves tagging codec l.key) (λ d a e. Unit) (renewed tagging codec l t w)
  unfolding renewed
  renewed-any r (ok v) t = Ensures-pure _ λ d. tt
  renewed-any r (err x) t = Ensures-fail _

  Ensures-renew :
      (ttl : ℕ)
      → Ensures
          (Moves tagging codec l.key)
          (λ d a e. Matched tagging codec l.key l d)
          (renew tagging codec l ttl)
  unfolding renew
  Ensures-renew ttl =
      Ensures-bind_known _
        (λ f q.
          Ensures-bind _
            (λ t.
              Ensures-if (not (matches f.1 l) || not (ltb t f.1.expires_at)) _ _
                (λ _. Ensures-fail _)
                λ g.
                  Ensures-weaken _ _
                    (Ensures-bind _
                      (λ w.
                        Ensures-weaken (λ d a e. (c : Disk Body) → Any c → Unit) _
                          (renewed-any f.1 w (t + ttl)) λ d a e u c x. tt)
                      _ (Ensures-any _ (Keeps-attempt (order tagging codec l.key) _ (write f t q))))
                    λ d a e u c same b found. (c, f.1, found.0, found.1, guard_matches f.1 l t g))
            _ Ensures-now)
        _ (Keeps-read tagging codec l.key l.key).returns (Ensures-found tagging codec l.key)
    where
      write :
          (f : Object Body × LeaseRecord) (t : ℕ)
          → Readable tagging codec l.key f
          → Keeps
              (Moves tagging codec l.key)
              (λ v. v ≡ tagging.version (codec.encode (record (f.1) { expires_at = t + ttl })))
              (put tagging l.key
                (codec.encode (record (f.1) { expires_at = t + ttl }))
                (record { if_absent = false; if_match = f.0.version }))
      write f t q =
          Keeps-rewrite tagging codec l.key l.key f.0.version q.0 f.1
            (record (f.1) { expires_at = t + ttl }) q.1 q.2 refl refl (λ h. h)

-- A lease is stale at a record: the record has a higher token, or has the lease's token and is not
-- held any more.
abbrev pub Stale : Lease → LeaseRecord → Type 0
Stale l s =
    (l.fencing_token < s.fencing_token) ⊎ ((s.fencing_token ≡ l.fencing_token) × (s.state ≢ "held"))

pub matches-token :
    (r : LeaseRecord) (l : Lease) → matches r l ≡ true → r.fencing_token ≡ l.fencing_token
unfolding matches
matches-token r l h = ground arith

-- A lease that is stale cannot match a later record.
Stale-matches :
    (l : Lease) (s r : LeaseRecord)
    → Stale l s
    → Advances (live s) (live r)
    → matches r l ≡ true
    → ⊥
unfolding matches
Stale-matches l s r (inl above) h m = ground (arith, eq_iff r.owner l.owner)
Stale-matches l s r (inr (same, gone)) h m =
    gone (h.2 (ground arith) (ground (arith, eq_iff r.state "held")))

module _ {Body : Type 0} (tagging : Tagging Body) (codec : Codec Body LeaseRecord representable)
    (l : Lease) (s : LeaseRecord) (w : World Body) where
  Stale-unmatched :
      Stale l s
      → Advances (live s) (view codec (w.disk l.key))
      → Matched tagging codec l.key l w.disk
      → ⊥
  Stale-unmatched stale since (x, r, moved, stands, m) =
      Stale-matches l s r stale
        (Advances-trans (live s) (view codec (w.disk l.key)) (live r) since (rw stands at moved)) m

  -- A lease that was stale at a record that the key has held is refused.
  pub Stale-lost :
      (ttl : ℕ)
      → Fair (Step tagging codec l.key) w.script
      → Stale l s
      → Advances (live s) (view codec (w.disk l.key))
      → ((validate tagging codec l w).0 ≢ ok tt)
        × ((l' : Lease) → (renew tagging codec l ttl w).0 ≢ ok l')
  Stale-lost ttl fair stale since = (
    λ e. Stale-unmatched stale since ((Ensures-validate tagging codec l).returns w tt fair e),
    λ l' e. Stale-unmatched stale since ((Ensures-renew tagging codec l ttl).returns w l' fair e),
  )
