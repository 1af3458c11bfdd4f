-- ===== src/RegistryHub/Lease/Grants.antt =====
-- What Acquire promises when it returns a lease
-- (application/registry-hub/src/internal/lease/lease.go).
use Prim.Native.String.{◌++◌}
use k8s_at_home.Prelude.{
  ℕ, zero, suc, ◌^◌, ◌<◌, String, true, ◌||◌, none, some, ◌≡◌, refl, ◌⊎◌, inl, inr, arith,
  str_eq_refl,
}
use k8s_at_home.RegistryHub.Errors.{
  Result, ok, err, is, not_found, condition_failed, already_exists,
}
use k8s_at_home.RegistryHub.Storage.{
  Tagging, Codec, Disk, Object, M, attempt, PutOptions, put, refusal, World,
}
use k8s_at_home.RegistryHub.Storage.Keeps.{Keeps, IfOk, Keeps-attempt, Fair}
use k8s_at_home.RegistryHub.Storage.Conditional.{matching, absent, refusal-matching, refusal-absent}
use k8s_at_home.RegistryHub.Storage.Ensures.{
  Ensures, Tried, Written, Ensures-pure, Ensures-fail, Ensures-weaken, Ensures-now, Ensures-if,
  Ensures-bind, Ensures-bind_known, Ensures-attempt, Ensures-any, Ensures-put, at-update,
}
use k8s_at_home.RegistryHub.Lease.{
  LeaseRecord, representable, Lease, no_record, successor, unexpired, matches, read, granted, claim,
  contend, acquire_attempts, acquire,
}
use k8s_at_home.RegistryHub.Lease.Reading.{Readable, Step, step_order, Keeps-read}
use k8s_at_home.RegistryHub.Lease.Guarantee.{
  successor-representable, Keeps-first_write, Keeps-next_write,
}
use k8s_at_home.RegistryHub.Lease.View.{View, missing, dead, live, Advances, view, view-live-token}

-- The lease's token is above that of the record, unless the counter has wrapped around to 0.
abbrev pub Exceeds : View → Lease → Type 0
Exceeds missing l = Unit
Exceeds dead l = ⊥
Exceeds (live r) l = (r.fencing_token < l.fencing_token) ⊎ (l.fencing_token ≡ 0)

pub Exceeds-Advances : (u v : View) (l : Lease) → Advances u v → Exceeds v l → Exceeds u l
Exceeds-Advances missing v l h x = tt
Exceeds-Advances dead missing l h x = h
Exceeds-Advances dead dead l h x = x
Exceeds-Advances dead (live s) l h x = h
Exceeds-Advances (live r) missing l h x = elim h [ ]
Exceeds-Advances (live r) dead l h x = elim x [ ]
Exceeds-Advances (live r) (live s) l h (inl x) = inl (omega arith)
Exceeds-Advances (live r) (live s) l h (inr x) = inr x

-- What stands at the key when a write with the successor of token `n` passes.
abbrev Base : View → ℕ → Type 0
Base missing n = Unit
Base dead n = ⊥
Base (live r) n = (r.fencing_token ≡ n) × (n < 2 ^ 64)

module _ {Body : Type 0} (tagging : Tagging Body) (codec : Codec Body LeaseRecord representable)
    (k owner : String) where
  open tagging use {version as tag}

  -- The lease is new, is the owner's, and is what the disk holds.
  abbrev pub Grants : Disk Body → Lease → Disk Body → Type 0
  Grants d l e =
      Exceeds (view codec (d k)) l
      × (l.key ≡ k)
      × (l.owner ≡ owner)
      × (s : LeaseRecord) × (e k ≡ some (codec.encode s))
      × (representable s ≡ true)
      × (matches s l ≡ true)
      × (s.expires_at ≡ l.expires_at)

  abbrev Moves : Disk Body → Disk Body → Type 0
  Moves = Step tagging codec k

  abbrev Tries : Disk Body → Result String → LeaseRecord → PutOptions → Disk Body → Type 0
  Tries d w s options e =
      Tried Moves (λ v. v ≡ tag (codec.encode s)) (Written Moves tag k (codec.encode s) options) d w
        e

  Base-Exceeds :
      (v : View) (r : LeaseRecord) (ttl t : ℕ) (l : Lease)
      → Base v r.fencing_token
      → l.fencing_token ≡ (successor r owner ttl t).fencing_token
      → Exceeds v l
  unfolding successor
  Base-Exceeds missing r ttl t l h e = tt
  Base-Exceeds dead r ttl t l h e = h
  Base-Exceeds (live q) r ttl t l h e = grind arith

  matches-successor :
      (r : LeaseRecord) (ttl t : ℕ) (l : Lease)
      → l.owner ≡ owner
      → l.fencing_token ≡ (successor r owner ttl t).fencing_token
      → matches (successor r owner ttl t) l ≡ true
  unfolding successor matches
  matches-successor r ttl t l same_owner same_token =
      rw (same_owner, same_token, str_eq_refl owner) (ground arith)

  Ensures-granted :
      (retry : M Body Lease) (r : LeaseRecord) (options : PutOptions) (ttl t : ℕ)
      (w : Result String)
      → Ensures Moves Grants retry
      → ((c : Disk Body)
          → refusal tag options (c k) ≡ none
          → Base (view codec (c k)) r.fencing_token)
      → Ensures Moves
          (λ d l e. (c : Disk Body) → Tries c w (successor r owner ttl t) options d → Grants c l e)
          (granted tagging codec retry k (successor r owner ttl t) w)
  unfolding granted successor
  Ensures-granted retry r options ttl t (ok v) er base = Ensures-pure _ λ d c tries.
      let (c', moved, passed, wrote) = tries.2 in
      (
        Exceeds-Advances _ (view codec (c' k)) _ moved
            (Base-Exceeds _ r ttl t _ (base c' passed) refl),
        refl,
        refl,
        successor r owner ttl t,
        at-update c' d k _ wrote,
        successor-representable r owner ttl t,
        matches-successor r ttl t _ refl refl,
        refl,
      )
  Ensures-granted retry r options ttl t (err x) er base =
      Ensures-if (is x condition_failed || is x already_exists) retry _
        (λ _. Ensures-weaken _ retry er λ d l e g c advanced.
          (Exceeds-Advances _ _ l advanced g.0, g.1, g.2, g.3, g.4, g.5, g.6, g.7))
        λ _. Ensures-fail x

  Ensures-claim :
      (retry : M Body Lease) (r : LeaseRecord) (options : PutOptions) (ttl : ℕ)
      → Ensures Moves Grants retry
      → ((t : ℕ)
          → Keeps Moves
              (λ v. v ≡ tag (codec.encode (successor r owner ttl t)))
              (put tagging k (codec.encode (successor r owner ttl t)) options))
      → ((c : Disk Body)
          → refusal tag options (c k) ≡ none
          → Base (view codec (c k)) r.fencing_token)
      → Ensures Moves Grants (claim tagging codec retry k owner ttl r options)
  unfolding claim
  Ensures-claim retry r options ttl er keeps base =
      Ensures-bind _
        (λ t.
          Ensures-weaken (λ d l e. (c : Disk Body) → c ≡ d → Grants c l e) _
            (Ensures-bind _ (λ w. Ensures-granted retry r options ttl t w er base) _
              (Ensures-attempt _ (keeps t)
                (Ensures-put tagging (step_order tagging codec k) k _ options)))
            λ d l e g c same. rw same g)
        _ Ensures-now

  first-Base :
      (c : Disk Body) → refusal tag (absent tagging) (c k) ≡ none → Base (view codec (c k)) 0
  unfolding view
  first-Base c passed = rw (refusal-absent tagging (c k) passed) tt

  next-Base :
      (b : Body) (r : LeaseRecord) (c : Disk Body)
      → view codec (some b) ≡ live r
      → refusal tag (matching tagging (tag b)) (c k) ≡ none
      → Base (view codec (c k)) r.fencing_token
  next-Base b r c seen passed =
      rw (refusal-matching tagging b (c k) passed, seen)
        (refl, ground (arith, (view-live-token codec b r seen).1))

  Ensures-contend :
      (retry : M Body Lease) (ttl : ℕ) (f : Result (Object Body × LeaseRecord))
      → Ensures Moves Grants retry
      → IfOk (step_order tagging codec k) (Readable tagging codec k) f
      → Ensures Moves Grants (contend tagging codec retry k owner ttl f)
  unfolding contend
  Ensures-contend retry ttl (err e) er q =
      Ensures-if (is e not_found) _ _
        (λ _.
          Ensures-claim retry no_record (absent tagging) ttl er
            (λ t. Keeps-first_write tagging codec k k owner ttl t) first-Base)
        λ _. Ensures-fail e
  Ensures-contend retry ttl (ok (o, r)) er (b, e, seen) =
      Ensures-bind _
        (λ t.
          Ensures-weaken (λ d l e. (c : Disk Body) → c ≡ d → Grants c l e) _
            (Ensures-if (unexpired r t) _ _ (λ _. Ensures-fail _)
              λ _.
                Ensures-claim retry r (matching tagging o.version) ttl er
                  (λ u. Keeps-next_write tagging codec k k o.version b r owner ttl u e seen)
                  λ c passed. next-Base b r c seen (rw e at passed))
            λ d l e g c same. rw same g)
        _ Ensures-now

  Ensures-acquire_attempts :
      (n ttl : ℕ) → Ensures Moves Grants (acquire_attempts tagging codec n k owner ttl)
  unfolding acquire_attempts
  Ensures-acquire_attempts zero ttl = Ensures-fail _
  Ensures-acquire_attempts (suc n) ttl =
      let again = Ensures-acquire_attempts n ttl in
      Ensures-bind_known _
        (λ f q. Ensures-weaken _ _ (Ensures-contend _ ttl f again q) λ d l e g c tries.
          (Exceeds-Advances _ _ l (moved f c d tries) g.0, g.1, g.2, g.3, g.4, g.5, g.6, g.7))
        _ found.returns
        (Ensures-attempt _ (Keeps-read tagging codec k k)
          (Ensures-any _ (Keeps-read tagging codec k k)))
    where
      found :
          Keeps Moves
            (IfOk (step_order tagging codec k) (Readable tagging codec k))
            (attempt (read tagging codec k))
      found = Keeps-attempt (step_order tagging codec k) _ (Keeps-read tagging codec k k)

      moved :
          (f : Result (Object Body × LeaseRecord)) (c d : Disk Body)
          → Tried Moves (Readable tagging codec k) (λ x a y. Unit) c f d
          → Moves c d
      moved (ok a) c d h = h.0
      moved (err x) c d h = h

-- If Acquire returns a lease for a name, then the disk holds a record of that lease, the owner and
-- the key are the caller's, and its token is above that of any record that stood at the key when
-- the call began, unless the 64-bit counter wrapped around to 0. The other processes may write
-- within the rules before each call of the store, and any call of the store may fail.
pub acquire-Grants :
    {Body : Type 0} (tagging : Tagging Body) (codec : Codec Body LeaseRecord representable)
    (name owner : String) (ttl : ℕ) (w : World Body) (l : Lease)
    → Fair (Step tagging codec ("leases/" ++ name)) w.script
    → (acquire tagging codec name owner ttl w).0 ≡ ok l
    → Grants tagging codec
        ("leases/" ++ name)
        owner
        w.disk
        l
        (acquire tagging codec name owner ttl w).1.disk
unfolding acquire
acquire-Grants tagging codec name owner ttl w l fair e =
    (Ensures-acquire_attempts tagging codec ("leases/" ++ name) owner 3 ttl).returns w l fair e
