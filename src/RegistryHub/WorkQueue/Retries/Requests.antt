-- ===== src/RegistryHub/WorkQueue/Retries/Requests.antt =====
-- What AcceptRetry of application/registry-hub/src/internal/workqueue/management.go answers with.
use k8s_at_home.Prelude.{String, false, ◌≡◌, ◌⊎◌}
use k8s_at_home.RegistryHub.Errors.{Error, ok, err}
use k8s_at_home.RegistryHub.Storage.{Tagging, World, M, put}
use k8s_at_home.RegistryHub.Inventory.{Json, read as read_value}
use k8s_at_home.RegistryHub.WorkQueue.{Job, Platform}
use k8s_at_home.RegistryHub.WorkQueue.Retries.{RetryRequest, RetryAcceptance, request_key}

-- A postcondition of what a function returns from one world, and from all of them.
abbrev ReturnsAt : {Body A : Type 0} → (A → Type 0) → M Body A → World Body → Type 0
ReturnsAt {Body} {A} Q m w = (a : A) → (m w).0 ≡ ok a → Q a

abbrev Returns : {Body A : Type 0} → (A → Type 0) → M Body A → Type 0
Returns {Body} Q m = (w : World Body) → ReturnsAt Q m w

module _ {Body : Type 0} (tagging : Tagging Body) (json : Json Body Job)
    (acceptances : Json Body RetryAcceptance) (p : Platform)
    (check_source : Job → M Body (Unit {0})) (request : RetryRequest) (kind work_id : String) where
  -- The acceptance is one of this request for this job.
  abbrev pub Matches : RetryAcceptance → Type 0
  Matches a = (a.request ≡ request) × (a.kind ≡ kind) × (a.work_id ≡ work_id)

  -- The last write of AcceptRetry, over an object of a given version.
  abbrev pub finish : String → RetryAcceptance → String → M Body String
  finish id next version =
      put tagging (request_key id) (acceptances.encode next)
        (record { if_absent = false; if_match = version })

  -- That write failed for an acceptance that matches, and the next read found this one.
  abbrev pub ReadBack : String → RetryAcceptance → Type 0
  ReadBack id a =
      (x : World Body) × (next : RetryAcceptance) × (version : String) × (e : Error) × (v : String)
      × Matches next
      × ((finish id next version x).0 ≡ err e)
      × ((read_value tagging acceptances (request_key id) (finish id next version x).1).0
          ≡ ok (a, v))

  abbrev pub Answers : String → RetryAcceptance → Type 0
  Answers id a = Matches a ⊎ ((a.request ≡ request) × ReadBack id a)

  module _ (acceptance : RetryAcceptance) (asked : Matches acceptance) where
    abbrev Answered : RetryAcceptance → Type 0
    Answered = Answers acceptance.id
