-- ===== src/RegistryHub/WorkQueue/Calls.antt =====
-- The calls of the store of application/registry-hub/src/internal/workqueue/queue.go and save.go.
--
-- A call that fails leaves the caller's job out of the result. The source that a retry checks first
-- (Queue.ValidateRetrySource) is an action of the caller, `pure tt` where there is none; Retry takes
-- finalizeRetryMarker, which WorkQueue/Retries defines, as an argument. What json.Marshal makes of a payload or a
-- progress is an argument, `none` for its error.
pub mod Reading
pub mod Claims
pub mod Enqueued
use Prim.Native.String.{◌++◌}
use k8s_at_home.Prelude.{
  ℕ, ◌*◌, ◌^◌, String, Bool, true, false, ◌&&◌, ◌||◌, not, Option, none, some, ltb, ◌==◌, str_eq,
  [], ◌∷◌, if◌then◌else◌,
}
use k8s_at_home.RegistryHub.Errors.{
  Error, sentinel, join, Result, ok, err, is, not_found, already_exists, condition_failed,
  corrupt_object, unknown_commit, lease_lost, other,
}
use k8s_at_home.RegistryHub.Storage.{
  Tagging, Object, M, pure, fail, now, ◌>>=◌, attempt, put, delete_if_match,
}
use k8s_at_home.RegistryHub.Inventory.{Json, read as read_value}
use k8s_at_home.RegistryHub.Diagnostics.{no_event, record_event}
use k8s_at_home.RegistryHub.WorkQueue.{
  Job, Checkpoint, Platform, claimable, running_under, retryable, claimed, finished, retried,
  with_event,
}

abbrev pub prefix : String
prefix = "background/v1/"

-- Key
unfoldable pub job_key : String → String → String
job_key kind id = prefix ++ "jobs/" ++ kind ++ "/" ++ id ++ ".json"

-- ReceiptKey
unfoldable pub receipt_key : String → String → String
receipt_key kind id = prefix ++ "receipts/" ++ kind ++ "/" ++ id ++ ".json"

-- `Checkpoint{}` and the job that Enqueue makes.
abbrev no_checkpoint : Checkpoint
no_checkpoint = record {
  phase = 0;
  offset = 0;
  index = 0;
  session_offset = 0;
  processed = 0;
  confirmed_targets = 0;
  page_position = 0;
  buffered_entities = 0;
  scan_complete = false;
  has_continuation = false;
  total = none;
  unit = "";
}

module _ (p : Platform) where
  -- Enqueue, up to the calls of the store, at time `t`
  unfoldable pub new_job : String → String → String → ℕ → ℕ → Job
  new_job kind source payload observed t =
      let id = p.naming.id (kind ∷ source ∷ []) in
      record {
        diagnostic_outbox = record_event p.naming t [] (record no_event {
          component = "background";
          operation = kind;
          entity_id = id;
          work_id = id;
          work_kind = kind;
          stage = "enqueue";
          result = "pending";
          occurred_at = t;
        });
        schema_version = 1;
        id = id;
        kind = kind;
        payload = payload;
        progress = "";
        state = "pending";
        created_at = observed;
        enqueued_at = t;
        recovered_at = 0;
        retry_request_id = "";
        retry_accepted_at = 0;
        run_id = "";
        lease_owner = "";
        previous_lease_owner = "";
        attempt_id = "";
        parent_attempt_id = "";
        first_attempt_at = 0;
        last_attempt_at = 0;
        attempt_finished_at = 0;
        completed_at = 0;
        runnable_at = t;
        wait_reason = "";
        responsible_work_id = "";
        responsible_work_kind = "";
        superseded = false;
        checkpoint = no_checkpoint;
        admission_wait_seconds = 0;
        execution_duration_seconds = 0;
        execution_budget_seconds = 0;
        timeout_scope = "";
        progress_at = t;
        lease_until = 0;
        fence = 0;
        retry_count = 0;
        next_attempt_at = 0;
        error_at = 0;
        error_class = "";
        phase = 0;
        error_phase = 0;
        version = "";
      }

-- The checks of Read on a job that was decoded.
unfoldable pub well_formed : String → String → Job → Bool
well_formed kind id job =
    (job.schema_version == 1)
    && str_eq job.id id
    && str_eq job.kind kind
    && not (job.created_at == 0)

module _ {Body : Type 0} (tagging : Tagging Body) (json : Json Body Job) (p : Platform) where
  accepted : String → String → Job × String → M Body Job
  accepted kind id (job, version) =
      if well_formed kind id job
      then pure (record job { version = version })
      else fail (sentinel corrupt_object)

  read_receipt : String → String → Result (Job × String) → M Body (Job × String)
  read_receipt kind id (ok found) = pure found
  read_receipt kind id (err e) =
      if is e not_found then read_value tagging json (receipt_key kind id) else fail e

  -- Read
  unfoldable pub read : String → String → M Body Job
  unfolding accepted read_receipt
  read kind id = do
    first ← attempt (read_value tagging json (job_key kind id))
    found ← read_receipt kind id first
    accepted kind id found

  read_back : Body → Error → Result Job → M Body String
  read_back body e (ok actual) =
      if json.same (json.encode actual) body then pure actual.version else fail e
  read_back body e (err r) = fail (join e r)

  stored : Job → Body → Result String → M Body String
  stored job body (ok version) = pure version
  stored job body (err e) =
      if is e unknown_commit
      then (do actual ← attempt (read job.kind job.id); read_back body e actual)
      else fail e

  -- save: the job with its event and its new version
  unfoldable pub save : Job → M Body Job
  unfolding read read_back stored
  save job = do
    t ← now
    let next = with_event p t job
    let body = json.encode next
    written ← attempt (
        put tagging (job_key job.kind job.id) body
          (record { if_absent = false; if_match = job.version }))
    version ← stored next body written
    pure (record next { version = version })

  save_claimed : Job → ℕ → M Body Job
  save_claimed job t = do u ← now; save (claimed p t u job)

  -- The receipt of a job, looked at before it is claimed.
  admitted : Job → ℕ → Result (Job × String) → M Body Job
  admitted job t (ok (receipt, version)) =
      if str_eq receipt.state "done"
      then (do
        _ ← attempt (delete_if_match tagging (job_key job.kind job.id) job.version)
        fail (sentinel condition_failed))
      else save_claimed job t
  admitted job t (err e) = if is e not_found then save_claimed job t else fail e

  claim_at : Job → ℕ → M Body Job
  claim_at job t = if not (claimable t job) then fail (sentinel condition_failed) else do
    receipt ← attempt (read_value tagging json (receipt_key job.kind job.id))
    admitted job t receipt

  -- Claim
  unfoldable pub claim : Job → M Body Job
  unfolding claim_at admitted save_claimed save
  claim job = do t ← now; claim_at job t

  still_runs : Job → Job → M Body (Unit {0})
  still_runs job current = do
    t ← now
    if running_under t job.fence current then pure tt else fail (sentinel lease_lost)

  -- Validate
  unfoldable pub validate : Job → M Body (Unit {0})
  unfolding read still_runs
  validate job = do current ← read job.kind job.id; still_runs job current

  archived : Job → Error → Result (Job × String) → M Body (Unit {0})
  archived job e (ok (receipt, version)) =
      if str_eq receipt.payload job.payload then pure tt else fail e
  archived job e (err r) = fail (join e r)

  -- The write of the receipt, and what stands there if it is refused.
  receipt_written : Job → Result String → M Body (Unit {0})
  receipt_written job (ok version) = pure tt
  receipt_written job (err e) =
      if is e already_exists || is e condition_failed || is e unknown_commit
      then (do
        found ← attempt (read_value tagging json (receipt_key job.kind job.id))
        archived job e found)
      else fail e

  deleted : Result (Unit {0}) → M Body (Unit {0})
  deleted (ok u) = pure tt
  deleted (err e) = if is e not_found then pure tt else fail e

  -- Archive
  unfoldable pub archive : Job → M Body (Unit {0})
  unfolding archived receipt_written deleted
  archive job = do
    let body = json.encode (record job { progress = "" })
    written ← attempt (
        put tagging (receipt_key job.kind job.id) body (record { if_absent = true; if_match = "" }))
    _ ← receipt_written job written
    gone ← attempt (delete_if_match tagging (job_key job.kind job.id) job.version)
    deleted gone

  finish_with : Job → Option String → Bool → Option Error → M Body Job
  finish_with job none done cause = fail (sentinel other)
  finish_with job (some progress) done cause = do
    t ← now
    next ← save (finished p t progress done cause job)
    if str_eq next.state "done" then (do _ ← archive next; pure next) else pure next

  -- Finish, with the job that it leaves to the caller
  unfoldable pub finish : Job → Option String → Bool → Option Error → M Body Job
  unfolding finish_with save archive validate
  finish job progress done cause = do _ ← validate job; finish_with job progress done cause

  enqueue_conflict : String → Error → Result Job → M Body Job
  enqueue_conflict payload e (ok job) =
      if str_eq job.payload payload then pure job else fail (sentinel corrupt_object)
  enqueue_conflict payload e (err r) = fail (join e r)

  enqueued : Job → Result String → M Body Job
  enqueued job (ok version) = pure (record job { version = version })
  enqueued job (err e) =
      if is e already_exists || is e condition_failed || is e unknown_commit
      then (do found ← attempt (read job.kind job.id); enqueue_conflict job.payload e found)
      else fail e

  enqueue_new : Job → M Body Job
  enqueue_new job = do
    written ← attempt (
        put tagging (job_key job.kind job.id) (json.encode job)
          (record { if_absent = true; if_match = "" }))
    enqueued job written

  -- The receipt of an earlier run of the same source.
  enqueue_over : Job → Result (Job × String) → M Body Job
  enqueue_over job (ok (receipt, version)) =
      if str_eq receipt.payload job.payload then pure receipt else fail (sentinel corrupt_object)
  enqueue_over job (err e) = if is e not_found then enqueue_new job else fail e

  enqueue_payload : String → String → Option String → ℕ → M Body Job
  enqueue_payload kind source none observed = fail (join (sentinel corrupt_object) (sentinel other))
  enqueue_payload kind source (some payload) observed =
      if ltb (8 * 2 ^ 20) (p.size payload) || (observed == 0)
      then fail (sentinel corrupt_object)
      else do
        t ← now
        let job = new_job p kind source payload observed t
        receipt ← attempt (read_value tagging json (receipt_key kind job.id))
        enqueue_over job receipt

  -- Enqueue
  unfoldable pub enqueue : String → String → Option String → ℕ → M Body Job
  unfolding enqueue_payload enqueue_over enqueue_new enqueued enqueue_conflict
  enqueue = enqueue_payload

  -- Retry
  unfoldable pub retry :
      (Job → M Body (Unit {0})) → (Job → M Body (Unit {0})) → String → String → M Body Job
  unfolding save
  retry mark check_source kind id = do
    job ← read kind id
    _ ← mark job
    if not (retryable job)
        then fail (sentinel condition_failed)
        else do _ ← check_source job; t ← now; save (retried t job)
