-- ===== src/RegistryHub/WorkQueue/Calls/Reading.antt =====
-- What the calls of application/registry-hub/src/internal/workqueue/queue.go and save.go leave in
-- the store.
use k8s_at_home.Prelude.{String, true, ◌≡◌, refl, ◌⊎◌, inl, inr}
use k8s_at_home.RegistryHub.Errors.{Result, ok, err, is, not_found}
use k8s_at_home.RegistryHub.Storage.{Tagging, Disk}
use k8s_at_home.RegistryHub.Storage.Keeps.{
  Order, Keeps, Any, Keeps-pure, Keeps-fail, Keeps-bind, Keeps-attempt, Keeps-if,
}
use k8s_at_home.RegistryHub.Storage.Ensures.{
  Ensures, Tried, Ensures-pure, Ensures-fail, Ensures-weaken, Ensures-if, Ensures-bind,
  Ensures-attempt,
}
use k8s_at_home.RegistryHub.Inventory.{Json, read as read_value}
use k8s_at_home.RegistryHub.Inventory.Reading.{Holds, Fresh, Keeps-read, Ensures-read}
use k8s_at_home.RegistryHub.WorkQueue.{Job, Platform}
use k8s_at_home.RegistryHub.WorkQueue.Calls.{
  job_key, receipt_key, well_formed, accepted, read_receipt, read,
}

module _ {Body : Type 0} (tagging : Tagging Body) (json : Json Body Job) (p : Platform)
    {R : Disk Body → Disk Body → Type 0} (order : Order R) where
  open tagging use {version as tag}

  -- The disk holds the job, up to its version, as a job or as a receipt.
  abbrev pub Stored : String → String → Disk Body → Job → Type 0
  Stored kind id d j =
      (stored_job : Job) × (Holds json (job_key kind id) d stored_job
        ⊎ Holds json (receipt_key kind id) d stored_job)
      × (well_formed kind id stored_job ≡ true)
      × (j ≡ record stored_job { version = j.version })

  abbrev Either : String → String → Disk Body → Job × String → Type 0
  Either kind id d a = Holds json (job_key kind id) d a.0 ⊎ Holds json (receipt_key kind id) d a.0

  Keeps-accepted :
      (kind id : String) (a : Job × String) → Keeps R Any (accepted tagging json p kind id a)
  unfolding accepted
  Keeps-accepted kind id (j, v) =
      Keeps-if order (well_formed kind id j) _ _ (λ _. Keeps-pure order _ tt)
        λ _. Keeps-fail order _

  Keeps-read_receipt :
      (kind id : String) (r : Result (Job × String))
      → Keeps R Any (read_receipt tagging json p kind id r)
  unfolding read_receipt
  Keeps-read_receipt kind id (ok a) = Keeps-pure order a tt
  Keeps-read_receipt kind id (err e) =
      Keeps-if order (is e not_found) _ _ (λ _. any) λ _. Keeps-fail order e
    where
      any : Keeps R Any (read_value tagging json (receipt_key kind id))
      any =
          let k = Keeps-read tagging json (receipt_key kind id) order in
          record { steps = k.steps; fair = k.fair; returns = λ w a e. tt }

  pub Keeps-queue_read : (kind id : String) → Keeps R Any (read tagging json p kind id)
  unfolding read
  Keeps-queue_read kind id =
      Keeps-bind order _ _ (Keeps-attempt order _ (Keeps-read tagging json (job_key kind id) order))
        λ r q. Keeps-bind order _ _ (Keeps-read_receipt kind id r) λ a _. Keeps-accepted kind id a

  Ensures-accepted :
      (kind id : String) (a : Job × String)
      → Ensures R
          (λ d j e. (c : Disk Body) → Either kind id d a → Stored kind id e j)
          (accepted tagging json p kind id a)
  unfolding accepted
  Ensures-accepted kind id (j, v) =
      Ensures-if (well_formed kind id j) _ _ (λ h. Ensures-pure _ λ d c held. (j, held, h, refl))
        λ _. Ensures-fail _

  Ensures-read_receipt :
      (kind id : String) (r : Result (Job × String))
      → Ensures R
          (λ d a e.
            (c : Disk Body)
            → Tried R (Fresh tagging json) (λ d a e. Holds json (job_key kind id) e a.0) c r d
            → Either kind id e a)
          (read_receipt tagging json p kind id r)
  unfolding read_receipt
  Ensures-read_receipt kind id (ok a) = Ensures-pure a λ d c t. inl t.2
  Ensures-read_receipt kind id (err e) =
      Ensures-if (is e not_found) _ _
        (λ _.
          Ensures-weaken _ _ (Ensures-read tagging json (receipt_key kind id) order)
            λ d a e h c t. inr h)
        λ _. Ensures-fail e

  -- What Read returns stands in the store, under the key of a job or of a receipt.
  pub Ensures-queue_read :
      (kind id : String) → Ensures R (λ d j e. Stored kind id e j) (read tagging json p kind id)
  unfolding read
  Ensures-queue_read kind id =
      Ensures-bind _
        (λ r.
          Ensures-bind _
            (λ a. Ensures-weaken _ _ (Ensures-accepted kind id a) λ d j e f c h x t. f c (h x t)) _
            (Ensures-read_receipt kind id r))
        _
        (Ensures-attempt _ (Keeps-read tagging json (job_key kind id) order)
          (Ensures-read tagging json (job_key kind id) order))
