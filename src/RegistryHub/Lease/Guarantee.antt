-- ===== src/RegistryHub/Lease/Guarantee.antt =====
-- Whatever the other processes do within the rules of `Advances`, every operation of a manager
-- keeps to them too, on all its paths: errors, conflicts and writes of unknown outcome included.
use k8s_at_home.Prelude.{
  ℕ, zero, suc, ◌+◌, String, true, false, some, ◌≡◌, refl, arith, eq_iff, ltb, ◌==◌, if◌then◌else◌,
  ◌||◌, not,
}
use k8s_at_home.RegistryHub.Errors.{Result, ok, err, is, not_found}
use k8s_at_home.RegistryHub.Storage.{Tagging, Codec, Object, M, PutOptions, put}
use k8s_at_home.RegistryHub.Storage.Keeps.{
  Order, Keeps, Any, IfOk, Keeps-pure, Keeps-fail, Keeps-now, Keeps-if, Keeps-bind, Keeps-attempt,
}
use k8s_at_home.RegistryHub.Storage.Conditional.{matching, absent, refusal-absent, Keeps-put}
use k8s_at_home.RegistryHub.Lease.{
  LeaseRecord, representable, Lease, no_record, successor, unexpired, matches, read, granted, claim,
  contend, acquire_attempts, acquire, renewed, renew, validate, activity, active, released, release,
}
use k8s_at_home.RegistryHub.Lease.Reading.{Readable, Step, step_order, over, Keeps-read}
use k8s_at_home.RegistryHub.Lease.View.{dead, live, Advances, view, view-live-token, Fences-update}

pub successor-representable :
    (r : LeaseRecord) (owner : String) (ttl t : ℕ) → representable (successor r owner ttl t) ≡ true
unfolding successor
successor-representable r owner ttl t = ground arith

module _ {Body : Type 0} (tagging : Tagging Body) (codec : Codec Body LeaseRecord representable)
    (key : String) where
  open tagging use {version as tag}

  successor-step :
      (b : Body) (r : LeaseRecord) (owner : String) (ttl t : ℕ)
      → view codec (some b) ≡ live r
      → Advances (live r) (
          if (successor r owner ttl t).fencing_token == 0
          then dead
          else live (successor r owner ttl t))
  unfolding successor
  successor-step b r owner ttl t seen = ground (arith, view-live-token codec b r seen)

  Keeps-granted :
      (retry : M Body Lease) (k : String) (s : LeaseRecord) (w : Result String)
      → Keeps (Step tagging codec key) Any retry
      → Keeps (Step tagging codec key) Any (granted tagging codec retry k s w)
  unfolding granted
  Keeps-granted retry k s (ok v) kr = Keeps-pure (step_order tagging codec key) _ tt
  Keeps-granted retry k s (err e) kr =
      Keeps-if (step_order tagging codec key) _ retry _ (λ _. kr)
        λ _. Keeps-fail (step_order tagging codec key) e

  -- Acquire's write keeps the rules, if the write of each record that it may pick does.
  Keeps-claim :
      (retry : M Body Lease) (k owner : String) (ttl : ℕ) (r : LeaseRecord) (options : PutOptions)
      → Keeps (Step tagging codec key) Any retry
      → ((t : ℕ)
          → Keeps
              (Step tagging codec key)
              (λ v. v ≡ tag (codec.encode (successor r owner ttl t)))
              (put tagging k (codec.encode (successor r owner ttl t)) options))
      → Keeps (Step tagging codec key) Any (claim tagging codec retry k owner ttl r options)
  unfolding claim
  Keeps-claim retry k owner ttl r options kr h = Keeps-bind order _ _ (Keeps-now order) λ t _.
      Keeps-bind order _ _ (Keeps-attempt order _ (h t))
        λ w _. Keeps-granted retry k (successor r owner ttl t) w kr
    where
      order : Order (Step tagging codec key)
      order = step_order tagging codec key

  pub Keeps-first_write :
      (k owner : String) (ttl t : ℕ)
      → Keeps
          (Step tagging codec key)
          (λ v. v ≡ tag (codec.encode (successor no_record owner ttl t)))
          (put tagging k (codec.encode (successor no_record owner ttl t)) (absent tagging))
  unfolding view
  Keeps-first_write k owner ttl t =
      Keeps-put tagging (step_order tagging codec key) k _ (absent tagging) λ d passed.
        Fences-update codec key k d _ (rw (refusal-absent tagging (d k) passed, view) tt)

  pub Keeps-next_write :
      (k version : String) (b : Body) (r : LeaseRecord) (owner : String) (ttl t : ℕ)
      → version ≡ tag b
      → view codec (some b) ≡ live r
      → Keeps
          (Step tagging codec key)
          (λ v. v ≡ tag (codec.encode (successor r owner ttl t)))
          (put tagging k (codec.encode (successor r owner ttl t)) (matching tagging version))
  Keeps-next_write k version b r owner ttl t read seen = rw read (
      over tagging codec key k b r (successor r owner ttl t) seen
        (successor-representable r owner ttl t) (successor-step b r owner ttl t seen))

  Keeps-contend :
      (retry : M Body Lease) (k owner : String) (ttl : ℕ) (f : Result (Object Body × LeaseRecord))
      → Keeps (Step tagging codec key) Any retry
      → IfOk (step_order tagging codec key) (Readable tagging codec key) f
      → Keeps (Step tagging codec key) Any (contend tagging codec retry k owner ttl f)
  unfolding contend
  Keeps-contend retry k owner ttl (err e) kr q =
      Keeps-if order (is e not_found) _ _
        (λ _.
          Keeps-claim retry k owner ttl no_record (absent tagging) kr
            λ t. Keeps-first_write k owner ttl t)
        λ _. Keeps-fail order e
    where
      order : Order (Step tagging codec key)
      order = step_order tagging codec key
  Keeps-contend retry k owner ttl (ok (o, r)) kr (b, e, seen) =
      Keeps-bind order _ _ (Keeps-now order) λ t _.
        Keeps-if order (unexpired r t) _ _ (λ _. Keeps-fail order _)
          λ _.
            Keeps-claim retry k owner ttl r _ kr
              λ u. Keeps-next_write k o.version b r owner ttl u e seen
    where
      order : Order (Step tagging codec key)
      order = step_order tagging codec key

  Keeps-acquire_attempts :
      (n : ℕ) (k owner : String) (ttl : ℕ)
      → Keeps (Step tagging codec key) Any (acquire_attempts tagging codec n k owner ttl)
  unfolding acquire_attempts
  Keeps-acquire_attempts zero k owner ttl = Keeps-fail (step_order tagging codec key) _
  Keeps-acquire_attempts (suc n) k owner ttl =
      let again = Keeps-acquire_attempts n k owner ttl in
      Keeps-bind (step_order tagging codec key) _ _
        (Keeps-attempt (step_order tagging codec key) _ (Keeps-read tagging codec key k))
        λ f q. Keeps-contend _ k owner ttl f again q

  pub Keeps-acquire :
      (name owner : String) (ttl : ℕ)
      → Keeps (Step tagging codec key) Any (acquire tagging codec name owner ttl)
  unfolding acquire
  Keeps-acquire name owner ttl = Keeps-acquire_attempts 3 _ owner ttl

  Keeps-renewed :
      (l : Lease) (t : ℕ) (w : Result String)
      → Keeps (Step tagging codec key) Any (renewed tagging codec l t w)
  unfolding renewed
  Keeps-renewed l t (ok v) = Keeps-pure (step_order tagging codec key) _ tt
  Keeps-renewed l t (err e) = Keeps-fail (step_order tagging codec key) _

  -- A write of the record that was read with another expiry or a state that is not "held".
  pub Keeps-rewrite :
      (k version : String) (b : Body) (r s : LeaseRecord)
      → version ≡ tag b
      → view codec (some b) ≡ live r
      → s.fencing_token ≡ r.fencing_token
      → s.owner ≡ r.owner
      → (s.state ≡ "held" → r.state ≡ "held")
      → Keeps
          (Step tagging codec key)
          (λ v. v ≡ tag (codec.encode s))
          (put tagging k (codec.encode s) (matching tagging version))
  Keeps-rewrite k version b r s read seen same_token same_owner held = rw read (
      over tagging codec key k b r s seen (rw same_token facts.1)
        (rw (same_token, facts.0) (omega arith, λ _. same_owner, λ _. held)))
    where
      facts : ((r.fencing_token == 0) ≡ false) × (representable r ≡ true)
      facts = view-live-token codec b r seen

  pub Keeps-renew :
      (l : Lease) (ttl : ℕ) → Keeps (Step tagging codec key) Any (renew tagging codec l ttl)
  unfolding renew
  Keeps-renew l ttl = Keeps-bind order _ _ (Keeps-read tagging codec key l.key) λ f q.
      Keeps-bind order _ _ (Keeps-now order) λ t _.
        Keeps-if order (not (matches f.1 l) || not (ltb t f.1.expires_at)) _ _
          (λ _. Keeps-fail order _)
          λ _.
            Keeps-bind order _ _
              (Keeps-attempt order _ (
                Keeps-rewrite l.key f.0.version q.0 f.1 (record (f.1) { expires_at = t + ttl }) q.1
                  q.2 refl refl (λ h. h)))
              λ w _. Keeps-renewed l (t + ttl) w
    where
      order : Order (Step tagging codec key)
      order = step_order tagging codec key

  pub Keeps-validate : (l : Lease) → Keeps (Step tagging codec key) Any (validate tagging codec l)
  unfolding validate
  Keeps-validate l = Keeps-bind order _ _ (Keeps-read tagging codec key l.key) λ f q.
      Keeps-bind order _ _ (Keeps-now order) λ t _.
        Keeps-if order (not (matches f.1 l) || not (ltb t f.1.expires_at)) _ _
          (λ _. Keeps-fail order _) (λ _. Keeps-pure order tt tt)
    where
      order : Order (Step tagging codec key)
      order = step_order tagging codec key

  Keeps-released :
      (w : Result String) → Keeps (Step tagging codec key) Any (released tagging codec w)
  unfolding released
  Keeps-released (ok v) = Keeps-pure (step_order tagging codec key) tt tt
  Keeps-released (err e) = Keeps-fail (step_order tagging codec key) _

  pub Keeps-release : (l : Lease) → Keeps (Step tagging codec key) Any (release tagging codec l)
  unfolding release
  Keeps-release l = Keeps-bind order _ _ (Keeps-read tagging codec key l.key) λ f q.
      Keeps-if order (not (matches f.1 l)) _ _ (λ _. Keeps-fail order _)
        λ _. Keeps-bind order _ _ (Keeps-now order) λ t _.
          Keeps-bind order _ _
            (Keeps-attempt order _ (
              Keeps-rewrite l.key f.0.version q.0 f.1
                (record (f.1) { state = "released"; expires_at = t }) q.1 q.2 refl refl
                (λ h. released_ne f.1 h)))
            λ w _. Keeps-released w
    where
      order : Order (Step tagging codec key)
      order = step_order tagging codec key

      released_ne : (r : LeaseRecord) → ◌≡◌ {A = String} "released" "held" → r.state ≡ "held"
      released_ne r e = cc ((eq_iff "released" "held").1 e)

  Keeps-activity :
      (f : Result (Object Body × LeaseRecord))
      → Keeps (Step tagging codec key) Any (activity tagging codec f)
  unfolding activity
  Keeps-activity (err e) =
      Keeps-if (step_order tagging codec key) (is e not_found) _ _
        (λ _. Keeps-pure (step_order tagging codec key) false tt)
        λ _. Keeps-fail (step_order tagging codec key) e
  Keeps-activity (ok (o, r)) =
      Keeps-bind (step_order tagging codec key) _ _ (Keeps-now (step_order tagging codec key))
        λ t _. Keeps-pure (step_order tagging codec key) (unexpired r t) tt

  pub Keeps-active :
      (name : String) → Keeps (Step tagging codec key) Any (active tagging codec name)
  unfolding active
  Keeps-active name =
      Keeps-bind (step_order tagging codec key) _ _
        (Keeps-attempt (step_order tagging codec key) _ (Keeps-read tagging codec key _))
        λ f _. Keeps-activity f
