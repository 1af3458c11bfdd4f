-- ===== src/RegistryHub/WorkQueue/Retries.antt =====
-- Retries that a person asks for: application/registry-hub/src/internal/workqueue/management.go. A
-- request that fails leaves its acceptance out of the result.
pub mod Requests
use Prim.Native.String.{◌++◌}
use k8s_at_home.Prelude.{
  ℕ, String, Bool, true, false, ◌&&◌, ◌||◌, not, none, [], ◌∷◌, ltb, ◌==◌, str_eq, if◌then◌else◌,
}
use k8s_at_home.RegistryHub.Errors.{
  Error, sentinel, Result, ok, err, is, already_exists, condition_failed, corrupt_object,
  unknown_commit, invalid,
}
use k8s_at_home.RegistryHub.Storage.{Tagging, M, pure, fail, now, ◌>>=◌, attempt, put}
use k8s_at_home.RegistryHub.Inventory.{Json, read as read_value, update_value}
use k8s_at_home.RegistryHub.Diagnostics.{no_event, record_event}
use k8s_at_home.RegistryHub.WorkQueue.{Job, Platform, retryable}
use k8s_at_home.RegistryHub.WorkQueue.Calls.{prefix, read, save}

pub record RetryRequest : Type 0 where
  pub expected_revision : String
  pub source_revision : String
  pub idempotency_key : String

pub record RetryAcceptance : Type 0 where
  pub id : String
  pub kind : String
  pub work_id : String
  pub request : RetryRequest
  pub accepted_at : ℕ
  pub revision : String
  pub status_url : String

-- `RetryAcceptance{}`
abbrev pub no_acceptance : RetryAcceptance
no_acceptance = record {
  id = "";
  kind = "";
  work_id = "";
  request = record { expected_revision = ""; source_revision = ""; idempotency_key = "" };
  accepted_at = 0;
  revision = "";
  status_url = "";
}

unfoldable pub same_request : RetryRequest → RetryRequest → Bool
same_request a b =
    str_eq a.expected_revision b.expected_revision
    && str_eq a.source_revision b.source_revision
    && str_eq a.idempotency_key b.idempotency_key

unfoldable pub request_key : String → String
request_key id = prefix ++ "retry-requests/" ++ id ++ ".json"

module _ (p : Platform) where
  unfoldable pub revision : Job → String
  revision job = p.naming.id ("revision" ∷ job.version ∷ [])

  unfoldable pub source_revision : Job → String
  source_revision job = p.naming.id ("source" ∷ job.payload ∷ [])

  unfoldable pub well_formed_request : RetryRequest → Bool
  well_formed_request r =
      not (str_eq r.expected_revision "")
      && not (str_eq r.source_revision "")
      && not (ltb (p.size r.idempotency_key) 8)
      && not (ltb 128 (p.size r.idempotency_key))

  -- What AcceptRetry first writes.
  unfoldable pub acceptance_of : String → String → String → RetryRequest → RetryAcceptance
  acceptance_of principal kind id request = record {
    id = p.naming.id ("retry" ∷ principal ∷ request.idempotency_key ∷ []);
    kind = kind;
    work_id = id;
    request = request;
    accepted_at = 0;
    revision = "";
    status_url = "/api/v1/background/" ++ kind ++ "/" ++ id;
  }

  -- The change that finalizeRetryMarker makes.
  unfoldable pub marked : Job → RetryAcceptance → Result RetryAcceptance
  unfolding revision
  marked job prior =
      if not (str_eq prior.id job.retry_request_id)
      then err (sentinel corrupt_object)
      else if prior.accepted_at == 0
      then ok (record prior {
        accepted_at = if job.retry_accepted_at == 0 then job.progress_at else job.retry_accepted_at;
        revision = revision job;
      })
      else ok prior

  -- The job of an accepted retry, before it is saved.
  unfoldable pub retried_by : ℕ → String → Job → Job
  retried_by t request job = record job {
    state = "pending";
    next_attempt_at = 0;
    retry_request_id = request;
    runnable_at = t;
    retry_accepted_at = t;
    diagnostic_outbox = record_event p.naming t job.diagnostic_outbox (record no_event {
      component = "background";
      operation = job.kind;
      entity_id = job.id;
      work_id = job.id;
      work_kind = job.kind;
      run_id = request;
      stage = "manual_retry";
      result = "accepted";
      attempt = job.fence;
      attempt_layer = "management_request";
    });
  }

module _ {Body : Type 0} (tagging : Tagging Body) (json : Json Body Job)
    (acceptances : Json Body RetryAcceptance) (p : Platform)
    (check_source : Job → M Body (Unit {0})) where
  -- finalizeRetryMarker; the context carries no guard.
  unfoldable pub finalize_retry_marker : Job → M Body (Unit {0})
  unfolding marked
  finalize_retry_marker job =
      if str_eq job.retry_request_id ""
      then pure tt
      else update_value tagging acceptances (request_key job.retry_request_id) (pure tt)
          no_acceptance (marked p job)

  -- The job of the request is put back in the queue, unless an earlier call did so.
  requeued : RetryAcceptance → Job → M Body Job
  requeued acceptance job = if str_eq job.retry_request_id acceptance.id then pure job else (do
    _ ← finalize_retry_marker job
    if not (str_eq (revision p job) acceptance.request.expected_revision)
          || not (str_eq (source_revision p job) acceptance.request.source_revision)
          || not (retryable job)
        then fail (sentinel condition_failed)
        else (do
          _ ← check_source job
          t ← now
          save tagging json p (retried_by p t acceptance.id job)))

  -- The answer to the write of the acceptance.
  read_accepted : RetryRequest → Error → Result (RetryAcceptance × String) → M Body RetryAcceptance
  read_accepted request e (ok (actual, version)) =
      if same_request actual.request request && not (actual.accepted_at == 0)
      then pure actual
      else fail e
  read_accepted request e (err r) = fail e

  recorded : String → RetryAcceptance → RetryRequest → Result String → M Body RetryAcceptance
  recorded id next request (ok version) = pure next
  recorded id next request (err e) = do
    actual ← attempt (read_value tagging acceptances (request_key id))
    read_accepted request e actual

  conclude : RetryAcceptance → RetryAcceptance → String → Job → M Body RetryAcceptance
  conclude acceptance prior version job = do
    t ← now
    let next = record prior {
      accepted_at = if job.retry_accepted_at == 0 then t else job.retry_accepted_at;
      revision = revision p job;
    }
    written ← attempt (
        put tagging (request_key acceptance.id) (acceptances.encode next)
          (record { if_absent = false; if_match = version }))
    recorded acceptance.id next acceptance.request written

  -- The acceptance that stands in the store, which an earlier call may have written.
  continue_with : RetryAcceptance → RetryAcceptance × String → M Body RetryAcceptance
  continue_with acceptance (prior, version) =
      if not (str_eq prior.kind acceptance.kind)
        || not (str_eq prior.work_id acceptance.work_id)
        || not (same_request prior.request acceptance.request)
      then fail (sentinel condition_failed)
      else if not (prior.accepted_at == 0)
      then pure prior
      else (do
        job ← read tagging json p acceptance.kind acceptance.work_id
        next ← requeued acceptance job
        conclude acceptance prior version next)

  reserved : RetryAcceptance → Result String → M Body RetryAcceptance
  reserved acceptance (ok version) = do
    found ← read_value tagging acceptances (request_key acceptance.id)
    continue_with acceptance found
  reserved acceptance (err e) =
      if is e already_exists || is e condition_failed || is e unknown_commit
      then (do
        found ← read_value tagging acceptances (request_key acceptance.id)
        continue_with acceptance found)
      else fail e

  -- AcceptRetry
  unfoldable pub accept_retry : String → String → String → RetryRequest → M Body RetryAcceptance
  unfolding well_formed_request same_request requeued recorded read_accepted conclude continue_with
      reserved acceptance_of
  accept_retry principal kind id request =
      if not (well_formed_request p request) then fail (sentinel invalid) else (do
        let acceptance = acceptance_of p principal kind id request
        written ← attempt (
            put tagging (request_key acceptance.id) (acceptances.encode acceptance)
              (record { if_absent = true; if_match = "" }))
        reserved acceptance written)
