-- ===== src/RegistryHub/WorkQueue/Calls/Enqueued.antt =====
-- What Enqueue and Validate of application/registry-hub/src/internal/workqueue/queue.go promise.
use k8s_at_home.Prelude.{
  ◌<◌, arith, ℕ, ◌*◌, ◌^◌, String, true, some, ◌||◌, ◌==◌, ltb, ◌≡◌, refl, inl, inr, Bool-cases,
  str_eq, eq_of-str_eq,
}
use k8s_at_home.RegistryHub.Errors.{
  Error, Result, ok, err, is, not_found, already_exists, condition_failed, unknown_commit,
}
use k8s_at_home.RegistryHub.Storage.{Tagging, Disk, World, continue, ◌>>=◌}
use k8s_at_home.RegistryHub.Storage.Keeps.{
  Order, Fair, Keeps, Keeps-pure, Keeps-fail, Keeps-if, Keeps-bind, Keeps-attempt, Keeps-now,
}
use k8s_at_home.RegistryHub.Storage.Conditional.{Keeps-put}
use k8s_at_home.RegistryHub.Inventory.{Json}
use k8s_at_home.RegistryHub.Inventory.Reading.{Keeps-read}
use k8s_at_home.RegistryHub.WorkQueue.{Job, Platform, running_under}
use k8s_at_home.RegistryHub.WorkQueue.Calls.{
  job_key, new_job, still_runs, validate, enqueue_conflict, enqueued, enqueue_new, enqueue_over,
  enqueue_payload, enqueue,
}
use k8s_at_home.RegistryHub.WorkQueue.Calls.Reading.{Stored, Keeps-queue_read, Ensures-queue_read}

module _ {Body : Type 0} (tagging : Tagging Body) (json : Json Body Job) (p : Platform)
    (R : Disk Body → Disk Body → Type 0) (order : Order R) where
  -- A job of the given payload.
  abbrev Carries : String → Job → Type 0
  Carries payload j = j.payload ≡ payload

  Keeps-enqueue_conflict :
      (payload : String) (e : Error) (r : Result Job)
      → Keeps R (Carries payload) (enqueue_conflict tagging json p payload e r)
  unfolding enqueue_conflict
  Keeps-enqueue_conflict payload e (ok j) =
      Keeps-if order (str_eq j.payload payload) _ _ (λ h. Keeps-pure order j (eq_of-str_eq _ _ h))
        λ _. Keeps-fail order _
  Keeps-enqueue_conflict payload e (err r) = Keeps-fail order _

  Keeps-enqueued :
      (job : Job) (r : Result String)
      → Keeps R (Carries job.payload) (enqueued tagging json p job r)
  unfolding enqueued
  Keeps-enqueued job (ok v) = Keeps-pure order _ refl
  Keeps-enqueued job (err e) =
      Keeps-if order (is e already_exists || is e condition_failed || is e unknown_commit) _ _
        (λ _.
          Keeps-bind order _ _
            (Keeps-attempt order _ (Keeps-queue_read tagging json p order job.kind job.id))
            λ r _. Keeps-enqueue_conflict job.payload e r)
        λ _. Keeps-fail order e

  module _ (total : (d e : Disk Body) → R d e) where
    Keeps-enqueue_new : (job : Job) → Keeps R (Carries job.payload) (enqueue_new tagging json p job)
    unfolding enqueue_new
    Keeps-enqueue_new job =
        Keeps-bind order _ _
          (Keeps-attempt order _
            (Keeps-put tagging order (job_key job.kind job.id) _ _ λ d h. total _ _))
          λ r _. Keeps-enqueued job r

    Keeps-enqueue_over :
        (job : Job) (r : Result (Job × String))
        → Keeps R (Carries job.payload) (enqueue_over tagging json p job r)
    unfolding enqueue_over
    Keeps-enqueue_over job (ok (receipt, v)) =
        Keeps-if order (str_eq receipt.payload job.payload) _ _
          (λ h. Keeps-pure order receipt (eq_of-str_eq _ _ h)) λ _. Keeps-fail order _
    Keeps-enqueue_over job (err e) =
        Keeps-if order (is e not_found) _ _ (λ _. Keeps-enqueue_new job) λ _. Keeps-fail order e

    Keeps-enqueue :
        (kind source payload : String) (observed : ℕ)
        → Keeps R
            (Carries payload)
            (enqueue_payload tagging json p kind source (some payload) observed)
    unfolding enqueue_payload new_job
    Keeps-enqueue kind source payload observed =
        Keeps-if order (ltb (8 * 2 ^ 20) (p.size payload) || (observed == 0)) _ _
          (λ _. Keeps-fail order _)
          λ _. Keeps-bind order _ _ (Keeps-now order) λ t _.
            Keeps-bind order _ _ (Keeps-attempt order _ (Keeps-read tagging json _ order))
              λ r _. Keeps-enqueue_over (new_job p kind source payload observed t) r

-- If Enqueue returns a job, the job has the payload that was given, on every path: where the job is
-- new, where a job or a receipt of the source was there before, and where the fate of the write
-- was unknown; whatever other processes write and whichever calls fail.
pub enqueue-payload :
    {Body : Type 0} (tagging : Tagging Body) (json : Json Body Job) (p : Platform)
    (kind source payload : String) (observed : ℕ) (w : World Body) (j : Job)
    → (enqueue tagging json p kind source (some payload) observed w).0 ≡ ok j
    → j.payload ≡ payload
unfolding enqueue
enqueue-payload {Body} tagging json p kind source payload observed w j e =
    (Keeps-enqueue tagging json p (λ d c. Unit) anything (λ d c. tt) kind source payload
        observed).returns
      w j e
  where
    anything : Order (λ (d : Disk Body) (c : Disk Body). Unit {0})
    anything = record { stay = λ d. tt; chain = λ d c f h k. tt }

module _ {Body : Type 0} (tagging : Tagging Body) (json : Json Body Job) (p : Platform)
    {R : Disk Body → Disk Body → Type 0} (order : Order R) (job : Job) where
  -- The job of the name is in the store, as a job or a receipt, and it runs under the fence of the
  -- given job with a lease that has not ended on the clock.
  abbrev pub Runs : World Body → Type 0
  Runs w =
      (current : Job) × Stored tagging json p order job.kind job.id w.disk current
      × (current.fence ≡ job.fence)
      × (current.state ≡ "running")
      × (w.clock < current.lease_until)

  -- What the test of Validate says.
  running_under-true :
      (t : ℕ) (current : Job)
      → running_under t job.fence current ≡ true
      → (current.fence ≡ job.fence) × (current.state ≡ "running") × (t < current.lease_until)
  unfolding running_under
  running_under-true t current h = (ground arith, eq_of-str_eq _ _ (ground arith), ground arith)

  not-ok : (x : Error) (r : Result (Unit {0})) → r ≡ err x → r ≡ ok tt → ⊥
  not-ok x r h k = cc

  still_runs-Runs :
      (current : Job) (w : World Body)
      → Stored tagging json p order job.kind job.id w.disk current
      → (still_runs tagging json p job current w).0 ≡ ok tt
      → Runs (still_runs tagging json p job current w).1
  unfolding still_runs ◌>>=◌
  still_runs-Runs current w h e = elim (Bool-cases (running_under w.clock job.fence current)) [
    | inl r ↦ rw r (let a = running_under-true w.clock current r in (current, h, a.0, a.1, a.2))
    | inr r ↦ absurd (not-ok _ _ refl (rw r at e))
  ]

  continue-Runs :
      (r : Result Job) (w : World Body)
      → ((c : Job) → r ≡ ok c → Stored tagging json p order job.kind job.id w.disk c)
      → (continue r (still_runs tagging json p job) w).0 ≡ ok tt
      → Runs (continue r (still_runs tagging json p job) w).1
  unfolding ◌>>=◌
  continue-Runs (ok c) w h e = still_runs-Runs c w (h c refl) e
  continue-Runs (err x) w h e = cc

-- If Validate accepts a job, then at the end of the call the store holds a job of its kind and id
-- that runs under the same fence, with a lease that has not ended; whatever the other processes
-- write within an order `R`, and whichever calls fail.
pub validate-Runs :
    {Body : Type 0} (tagging : Tagging Body) (json : Json Body Job) (p : Platform)
    (R : Disk Body → Disk Body → Type 0) (order : Order R) (job : Job) (w : World Body)
    → Fair R w.script
    → (validate tagging json p job w).0 ≡ ok tt
    → Runs tagging json p order job (validate tagging json p job w).1
unfolding validate ◌>>=◌
validate-Runs {Body} tagging json p R order job w fair e =
    continue-Runs tagging json p order job _ _
      (λ c h. (Ensures-queue_read tagging json p order job.kind job.id).returns w c fair h) e
