-- ===== src/RegistryHub/Lease/Reading.antt =====
-- `read` of application/registry-hub/src/internal/lease/lease.go keeps to the rules of `Advances`
-- while it migrates a record, and a conditional write over what it returned does.
use k8s_at_home.Prelude.{
  ℕ, zero, suc, String, true, false, some, ◌≡◌, refl, ◌∙◌, arith, ◌==◌, if◌then◌else◌,
}
use k8s_at_home.RegistryHub.Errors.{Result, ok, err}
use k8s_at_home.RegistryHub.Storage.{Tagging, Codec, Disk, Object, M, put}
use k8s_at_home.RegistryHub.Storage.Keeps.{
  Order, Keeps, IfOk, Keeps-pure, Keeps-fail, Keeps-if, Keeps-bind, Keeps-attempt,
}
use k8s_at_home.RegistryHub.Storage.Conditional.{matching, refusal-matching, Keeps-get, Keeps-put}
use k8s_at_home.RegistryHub.Lease.{
  LeaseRecord, representable, schema_current, schema_previous, decoded, migrated, migrate, upgrade,
  read_attempts, read,
}
use k8s_at_home.RegistryHub.Lease.View.{
  dead, live, Advances, view, view-decoded, view-encode, view-live-token, Fences, Fences-order,
  Fences-update,
}

module _ {Body : Type 0} (tagging : Tagging Body) (codec : Codec Body LeaseRecord representable)
    (key : String) where
  open tagging use {version as tag}

  -- What `read` returns: the version of a body that holds the record.
  abbrev pub Readable : Object Body × LeaseRecord → Type 0
  Readable (o, r) = (b : Body) × (o.version ≡ tag b) × (view codec (some b) ≡ live r)

  abbrev pub Step : Disk Body → Disk Body → Type 0
  Step = Fences codec key

  pub step_order : Order Step
  step_order = Fences-order codec key

  -- A write of a record over the one that was read.
  pub over :
      (k : String) (b : Body) (r s : LeaseRecord)
      → view codec (some b) ≡ live r
      → representable s ≡ true
      → Advances (live r) (if s.fencing_token == 0 then dead else live s)
      → Keeps Step
          (λ v. v ≡ tag (codec.encode s))
          (put tagging k (codec.encode s) (matching tagging (tag b)))
  over k b r s seen fits h =
      Keeps-put tagging step_order k (codec.encode s) (matching tagging (tag b)) λ d passed.
        Fences-update codec key k d (some (codec.encode s))
          (rw (refusal-matching tagging b (d k) passed, seen, view-encode codec s fits) h)

  Keeps-migrated :
      (retry : M Body (Object Body × LeaseRecord)) (o : Object Body) (r : LeaseRecord)
      (w : Result String)
      → Keeps Step Readable retry
      → IfOk step_order (λ v. (b : Body) × (v ≡ tag b) × (view codec (some b) ≡ live r)) w
      → Keeps Step Readable (migrated tagging codec retry o r w)
  unfolding migrated
  Keeps-migrated retry o r (ok v) kr q = Keeps-pure step_order _ q
  Keeps-migrated retry o r (err e) kr q =
      Keeps-if step_order _ retry _ (λ _. kr) (λ _. Keeps-fail step_order e)

  Keeps-migrate :
      (retry : M Body (Object Body × LeaseRecord)) (k : String) (o : Object Body) (r : LeaseRecord)
      → Keeps Step Readable retry
      → Readable (o, r)
      → Keeps Step Readable (migrate tagging codec retry k o r)
  unfolding migrate
  Keeps-migrate retry k o r kr (b, e, seen) =
      Keeps-bind step_order _ _
        (Keeps-attempt step_order _
          (rw e (over k b r s seen token.1 (rw token.0 (omega arith, λ _. refl, λ _ h. h)))))
        λ w q. Keeps-migrated retry o s w kr (written w q)
    where
      s : LeaseRecord
      s = record r { schema_version = schema_current }

      token : ((r.fencing_token == 0) ≡ false) × (representable r ≡ true)
      token = view-live-token codec b r seen

      written :
          (w : Result String)
          → IfOk step_order (λ v. v ≡ tag (codec.encode s)) w
          → IfOk step_order (λ v. (b : Body) × (v ≡ tag b) × (view codec (some b) ≡ live s)) w
      written (ok v) q = (codec.encode s, q, view-encode codec s token.1 ∙ rw token.0 refl)
      written (err e) q = tt

  Keeps-upgrade :
      (retry : M Body (Object Body × LeaseRecord)) (k : String) (o : Object Body)
      (d : Result LeaseRecord)
      → Keeps Step Readable retry
      → o.version ≡ tag o.body
      → decoded codec o.body ≡ d
      → Keeps Step Readable (upgrade tagging codec retry k o d)
  unfolding upgrade
  Keeps-upgrade retry k o (err e) kr t h = Keeps-fail step_order e
  Keeps-upgrade retry k o (ok r) kr t h =
      Keeps-if step_order (r.schema_version == schema_current) _ _
        (λ _. Keeps-pure step_order (o, r) found)
        λ _.
          Keeps-if step_order (r.schema_version == schema_previous) _ _
            (λ _. Keeps-migrate retry k o r kr found) λ _. Keeps-fail step_order _
    where
      found : Readable (o, r)
      found = (o.body, t, view-decoded codec o.body r h)

  Keeps-read_attempts : (n : ℕ) (k : String) → Keeps Step Readable (read_attempts tagging codec n k)
  unfolding read_attempts
  Keeps-read_attempts zero k = Keeps-fail step_order _
  Keeps-read_attempts (suc n) k =
      let again = Keeps-read_attempts n k in
      Keeps-bind step_order _ _ (Keeps-get tagging step_order k)
        λ o t. Keeps-upgrade _ k o _ again t refl

  -- read keeps the rules, and returns the version of a body that holds the record it returns.
  pub Keeps-read : (k : String) → Keeps Step Readable (read tagging codec k)
  unfolding read
  Keeps-read k = Keeps-read_attempts 16 k
