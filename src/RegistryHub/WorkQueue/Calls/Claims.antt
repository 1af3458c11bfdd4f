-- ===== src/RegistryHub/WorkQueue/Calls/Claims.antt =====
-- What save and Claim of application/registry-hub/src/internal/workqueue/save.go and queue.go leave
-- in the store when they return a job.
use k8s_at_home.Prelude.{
  ◌≤◌, ◌+◌, ◌%◌, ◌^◌, ap, arith, ℕ, String, true, false, not, none, some, ◌≡◌, refl, ◌⊎◌, inl, inr,
  str_eq,
}
use k8s_at_home.RegistryHub.Errors.{Error, Result, ok, err, is, not_found, unknown_commit}
use k8s_at_home.RegistryHub.Storage.{Tagging, Disk, World, update, refusal, delete_refusal, ◌>>=◌}
use k8s_at_home.RegistryHub.Storage.Keeps.{Order, Fair, Any}
use k8s_at_home.RegistryHub.Storage.Conditional.{
  matching, Versioned, refusal-Versioned, Keeps-put, Keeps-delete,
}
use k8s_at_home.RegistryHub.Storage.Ensures.{
  Ensures, Tried, Written, Ensures-pure, Ensures-fail, Ensures-weaken, Ensures-if, Ensures-bind,
  Ensures-attempt, Ensures-put, Ensures-now, Ensures-any,
}
use k8s_at_home.RegistryHub.Inventory.{Json}
use k8s_at_home.RegistryHub.Inventory.Reading.{Fresh, Keeps-read}
use k8s_at_home.RegistryHub.WorkQueue.{minute, Job, Platform, claimable, claimed, with_event}
use k8s_at_home.RegistryHub.WorkQueue.Calls.{
  job_key, receipt_key, read_back, stored, save, save_claimed, admitted, claim_at, claim,
}
use k8s_at_home.RegistryHub.WorkQueue.Calls.Reading.{Stored, Keeps-queue_read, Ensures-queue_read}

-- The job is neither done nor failed, does not wait for a later attempt, and no lease runs.
abbrev pub Free : ℕ → Job → Type 0
Free t job =
    (str_eq job.state "done" ≡ false)
    × (str_eq job.state "failed" ≡ false)
    × (job.next_attempt_at ≤ t)
    × (str_eq job.state "running" ≡ true → job.lease_until ≤ t)

claimable-Free : (t : ℕ) (job : Job) → not (claimable t job) ≡ false → Free t job
unfolding claimable
claimable-Free t job h = (ground arith, ground arith, ground arith, λ r. ground arith)

module _ {Body : Type 0} (tagging : Tagging Body) (json : Json Body Job) (p : Platform)
    (R : Disk Body → Disk Body → Type 0) (order : Order R) where
  open tagging use {version as tag}

  -- The write of `next` between disks `d` and `e`: it passed over an object of the job's version at
  -- `c`, or its fate was unknown and the store then held a job that is written alike.
  abbrev pub Wrote : Job → Disk Body → Disk Body → Type 0
  Wrote next d e =
      ((c : Disk Body) × R d c
        × Versioned tagging next.version (c (job_key next.kind next.id))
        × (e ≡ update c (job_key next.kind next.id) (some (json.encode next))))
      ⊎ ((actual : Job) × Stored tagging json p order next.kind next.id e actual
          × (json.encode actual ≡ json.encode next))

  -- The job that was saved is the given one with an event, and it was written.
  abbrev pub Saved : Job → Disk Body → Job → Disk Body → Type 0
  Saved job d j e =
      (t : ℕ) × (j ≡ record (with_event p t job) { version = j.version })
      × Wrote (with_event p t job) d e

  module _ (next : Job) (named : str_eq next.version "" ≡ false) where
    abbrev TriedPut : Disk Body → Result String → Disk Body → Type 0
    TriedPut =
        Tried R (λ t. t ≡ tag (json.encode next))
          (Written R tag (job_key next.kind next.id) (json.encode next)
            (matching tagging next.version))

    Ensures-read_back :
        (x : Error) (r : Result Job)
        → Ensures R
            (λ d v e.
              (c : Disk Body)
              → Tried R Any (λ d j e. Stored tagging json p order next.kind next.id e j) c r d
              → (b : Disk Body) → Wrote next b e)
            (read_back tagging json p (json.encode next) x r)
    unfolding read_back
    Ensures-read_back x (ok actual) =
        Ensures-if (json.same (json.encode actual) (json.encode next)) _ _
          (λ s. Ensures-pure actual.version λ d c t b. inr (actual, t.2, json.same→eq _ _ s))
          λ _. Ensures-fail x
    Ensures-read_back x (err r) = Ensures-fail _

    Ensures-stored :
        (r : Result String)
        → Ensures R
            (λ d v e. (c : Disk Body) → TriedPut c r d → Wrote next c e)
            (stored tagging json p next (json.encode next) r)
    unfolding stored
    Ensures-stored (ok v) = Ensures-pure v λ d c t.
        let (c', moved, passed, wrote) = t.2 in
        inl (c', moved, refusal-Versioned tagging next.version _ named passed, wrote)
    Ensures-stored (err x) =
        Ensures-if (is x unknown_commit) _ _
          (λ _.
            Ensures-bind _
              (λ r. Ensures-weaken _ _ (Ensures-read_back x r) λ d v e f c t y h. f c t y) _
              (Ensures-attempt _ (Keeps-queue_read tagging json p order next.kind next.id)
                (Ensures-queue_read tagging json p order next.kind next.id)))
          λ _. Ensures-fail x

  -- The writes that the relation has to allow: over an object of the job's version.
  abbrev pub Allows : Job → Type 0
  Allows job =
      (t : ℕ) (d : Disk Body)
      → refusal tag (matching tagging job.version) (d (job_key job.kind job.id)) ≡ none
      → R d (update d (job_key job.kind job.id) (some (json.encode (with_event p t job))))

  Ensures-save :
      (job : Job)
      → str_eq job.version "" ≡ false
      → Allows job
      → Ensures R (Saved job) (save tagging json p job)
  unfolding save with_event
  Ensures-save job named allowed =
      Ensures-bind _
        (λ t.
          Ensures-weaken (λ d j e. (c : Disk Body) → c ≡ d → Saved job c j e) _
            (Ensures-bind _
              (λ r.
                Ensures-bind _ (λ v. Ensures-pure _ λ d c h x tried. (t, refl, h x tried)) _
                  (Ensures-stored (with_event p t job) named r))
              _
              (Ensures-attempt _ (Keeps-put tagging order (job_key job.kind job.id) _ _ (allowed t))
                (Ensures-put tagging order (job_key job.kind job.id) _ _)))
            λ d j e s c same. rw same s)
        _ Ensures-now

  -- What a claim that began at time `t` did.
  abbrev pub ClaimedAt : Job → ℕ → Disk Body → Job → Disk Body → Type 0
  ClaimedAt job t d j e =
      Free t job
      × (j.state ≡ "running")
      × (j.fence ≡ (job.fence + 1) % 2 ^ 64)
      × (j.lease_until ≡ t + minute)
      × ((c : Disk Body) × R d c × (u : ℕ) × Saved (claimed p t u job) c j e)

  Saved-claimed :
      (job : Job) (t u : ℕ) (d : Disk Body) (j : Job) (e : Disk Body)
      → Saved (claimed p t u job) d j e
      → (j.state ≡ "running") × (j.fence ≡ (job.fence + 1) % 2 ^ 64) × (j.lease_until ≡ t + minute)
  unfolding claimed with_event
  Saved-claimed job t u d j e (v, same, wrote) =
      (ap (λ x. x.state) same, ap (λ x. x.fence) same, ap (λ x. x.lease_until) same)

  module _ (job : Job) (t : ℕ) (named : str_eq job.version "" ≡ false)
      (allowed : (u : ℕ) → Allows (claimed p t u job))
      (deletes : (d : Disk Body)
        → delete_refusal tag job.version (d (job_key job.kind job.id)) ≡ none
        → R d (update d (job_key job.kind job.id) none)) where
    abbrev Then : Disk Body → Job → Disk Body → Type 0
    Then d j e = (u : ℕ) × Saved (claimed p t u job) d j e

    Ensures-save_claimed : Ensures R Then (save_claimed tagging json p job t)
    unfolding save_claimed claimed
    Ensures-save_claimed =
        Ensures-bind _
          (λ u.
            Ensures-weaken (λ d j e. (c : Disk Body) → c ≡ d → Then c j e) _
              (Ensures-save (claimed p t u job) named (allowed u)) λ d j e s c same. (u, rw same s))
          _ Ensures-now

    Ensures-admitted :
        (r : Result (Job × String)) → Ensures R Then (admitted tagging json p job t r)
    unfolding admitted
    Ensures-admitted (ok (receipt, v)) =
        Ensures-if (str_eq receipt.state "done") _ _
          (λ _.
            Ensures-bind _ (λ r. Ensures-fail _) _
              (Ensures-attempt _ (Keeps-delete tagging order _ _ deletes)
                (Ensures-any _ (Keeps-delete tagging order _ _ deletes))))
          λ _. Ensures-save_claimed
    Ensures-admitted (err e) =
        Ensures-if (is e not_found) _ _ (λ _. Ensures-save_claimed) λ _. Ensures-fail e

    reached :
        (r : Result (Job × String)) (c d : Disk Body)
        → Tried R (Fresh tagging json) (λ x a y. Unit) c r d
        → R c d
    reached (ok a) c d h = h.0
    reached (err e) c d h = h

    Ensures-claim_at : Ensures R (ClaimedAt job t) (claim_at tagging json p job t)
    unfolding claim_at
    Ensures-claim_at =
        Ensures-if (not (claimable t job)) _ _ (λ _. Ensures-fail _)
          λ free.
            Ensures-bind _
              (λ r. Ensures-weaken _ _ (Ensures-admitted r) λ d j e s c tried.
                let f = Saved-claimed job t s.0 d j e s.1 in
                (claimable-Free t job free, f.0, f.1, f.2, (d, reached r c d tried, s.0, s.1)))
              _
              (Ensures-attempt _ (Keeps-read tagging json (receipt_key job.kind job.id) order)
                (Ensures-any _ (Keeps-read tagging json (receipt_key job.kind job.id) order)))

-- If Claim of a job that has a version returns a job, the given job could be claimed at the time of
-- the call (it was not done or failed, not waiting for a later attempt, and not running under a
-- lease), and what it returns is the claimed job, which runs for a minute under the next fence, with
-- the event of the transition; it was written over an object that had the version of the given
-- job, or its write had an unknown fate and the store then held a job that is written alike. This
-- holds for every order `R` on disks that the writes of the others follow, and those that Claim
-- makes under their conditions.
pub claim-ClaimedAt :
    {Body : Type 0} (tagging : Tagging Body) (json : Json Body Job) (p : Platform)
    (R : Disk Body → Disk Body → Type 0) (order : Order R) (job j : Job) (w : World Body)
    → str_eq job.version "" ≡ false
    → ((t u : ℕ) → Allows tagging json p R order (claimed p t u job))
    → ((d : Disk Body)
        → delete_refusal tagging.version job.version (d (job_key job.kind job.id)) ≡ none
        → R d (update d (job_key job.kind job.id) none))
    → Fair R w.script
    → (claim tagging json p job w).0 ≡ ok j
    → ClaimedAt tagging json p R order job w.clock w.disk j (claim tagging json p job w).1.disk
unfolding claim ◌>>=◌
claim-ClaimedAt tagging json p R order job j w named allowed deletes fair e =
    (Ensures-claim_at tagging json p R order job w.clock named (allowed w.clock) deletes).returns w
      j fair e
