-- ===== src/RegistryHub/WorkQueue.antt =====
-- Background jobs: application/registry-hub/src/internal/workqueue/job.go, checkpoint.go, and the
-- state that save.go, queue.go and management.go give a job. WorkQueue/Calls has the calls of the
-- store, WorkQueue/Status the summary of status.go.
--
-- Times and durations are nanoseconds, with 0 for the zero time; integers that the code never
-- makes negative are natural numbers, and counters of attempts stay below their 63 bits. Raw JSON
-- and float64 values, which are only passed on and compared, are texts and their bits.
pub mod Status
pub mod Delays
pub mod Calls
pub mod Retries
mod Tests
use k8s_at_home.Prelude.{
  ℕ, ◌+◌, ◌-◌, ◌*◌, ◌/◌, ◌%◌, ◌^◌, min, String, Bool, true, false, ◌&&◌, ◌||◌, not, Option, none,
  some, List, [], ◌∷◌, ltb, ◌==◌, str_eq, if◌then◌else◌,
}
use k8s_at_home.RegistryHub.Errors.{
  Error, is, timeout, corrupt_object, source_missing, deadline_exceeded, canceled,
}
use k8s_at_home.RegistryHub.Diagnostics.{Naming, Event, no_event, record_event}

abbrev pub second : ℕ
second = 10 ^ 9

abbrev pub minute : ℕ
minute = 60 * second

pub record Checkpoint : Type 0 where
  pub phase : ℕ
  pub offset : ℕ
  pub index : ℕ
  pub session_offset : ℕ
  pub processed : ℕ
  pub confirmed_targets : ℕ
  pub page_position : ℕ
  pub buffered_entities : ℕ
  pub scan_complete : Bool
  pub has_continuation : Bool
  pub total : Option ℕ
  pub unit : String

pub record Job : Type 0 where
  pub diagnostic_outbox : List Event
  pub schema_version : ℕ
  pub id : String
  pub kind : String
  pub payload : String
  pub progress : String
  pub state : String
  pub created_at : ℕ
  pub enqueued_at : ℕ
  pub recovered_at : ℕ
  pub retry_request_id : String
  pub retry_accepted_at : ℕ
  pub run_id : String
  pub lease_owner : String
  pub previous_lease_owner : String
  pub attempt_id : String
  pub parent_attempt_id : String
  pub first_attempt_at : ℕ
  pub last_attempt_at : ℕ
  pub attempt_finished_at : ℕ
  pub completed_at : ℕ
  pub runnable_at : ℕ
  pub wait_reason : String
  pub responsible_work_id : String
  pub responsible_work_kind : String
  pub superseded : Bool
  pub checkpoint : Checkpoint
  pub admission_wait_seconds : ℕ
  pub execution_duration_seconds : ℕ
  pub execution_budget_seconds : ℕ
  pub timeout_scope : String
  pub progress_at : ℕ
  pub lease_until : ℕ
  pub fence : ℕ
  pub retry_count : ℕ
  pub next_attempt_at : ℕ
  pub error_at : ℕ
  pub error_class : String
  pub phase : ℕ
  pub error_phase : ℕ
  pub version : String

-- What checkpointSummary reads of a progress: the fields that it decodes, with the number of
-- entries in place of the entries.
pub record Cursor : Type 0 where
  pub phase : ℕ
  pub offset : ℕ
  pub index : ℕ
  pub session_offset : ℕ
  pub confirmed_targets : ℕ
  pub token : String
  pub cursor_entities : ℕ
  pub cursor_offset : ℕ
  pub cursor_entries : ℕ
  pub cursor_token : String
  pub cursor_next : String
  pub cursor_done : Bool

-- encoding/json on a progress, the hash of texts, and the time package.
pub record Platform : Type 0 where
  pub naming : Naming
  pub cursor_of : String → Cursor
  pub phase_of : String → Option ℕ
  pub unix_nano : ℕ → ℕ
  -- len of a text, in bytes
  pub size : String → ℕ

-- checkpointSummary of a decoded progress
unfoldable pub checkpoint_summary : Cursor → Checkpoint
checkpoint_summary c = record {
  phase = c.phase;
  offset = c.offset;
  index = c.index;
  session_offset = c.session_offset;
  processed = c.cursor_entities;
  confirmed_targets = c.confirmed_targets;
  page_position = c.cursor_offset;
  buffered_entities = c.cursor_entries - c.cursor_offset;
  scan_complete = c.cursor_done;
  has_continuation =
      not (str_eq c.cursor_token "") || not (str_eq c.cursor_next "") || not (str_eq c.token "");
  total = none;
  unit = "source_entities; total unknown until scan completion";
}

-- The guard of Claim at time `t`.
unfoldable pub claimable : ℕ → Job → Bool
claimable t job = not (
    str_eq job.state "done"
    || str_eq job.state "failed"
    || ltb t job.next_attempt_at
    || (str_eq job.state "running" && ltb t job.lease_until))

-- The guard of Validate at time `t`: the stored job still runs under the fence.
unfoldable pub running_under : ℕ → ℕ → Job → Bool
running_under t fence current =
    (current.fence == fence) && str_eq current.state "running" && ltb t current.lease_until

unfoldable pub retryable : Job → Bool
retryable job = str_eq job.state "failed" || str_eq job.state "retry_wait"

-- The delay after the given number of failures, before the random part.
unfoldable pub retry_delay : ℕ → ℕ
retry_delay count = min (second * 2 ^ min (count - 1) 8) (5 * minute)

phase_after : Option ℕ → ℕ → ℕ
phase_after none old = old
phase_after (some phase) old = phase

unfoldable pub completed : ℕ → Bool → Job → Job
completed t done job =
    if done
    then record job {
      state = "done";
      completed_at = job.attempt_finished_at;
      recovered_at = if job.error_at == 0 then job.recovered_at else t;
    }
    else job

unfoldable pub error_class_of : Error → String
error_class_of cause =
    if is cause source_missing
    then "source_missing"
    else if is cause corrupt_object
    then "corrupt_source"
    else if is cause canceled
    then "cancelled"
    else if is cause deadline_exceeded || is cause timeout
    then "timeout"
    else "storage"

unfoldable pub state_after : Error → String
state_after cause =
    if is cause corrupt_object || is cause source_missing then "failed" else "retry_wait"

-- The job that Retry saves.
unfoldable pub retried : ℕ → Job → Job
retried t job = record job { state = "pending"; next_attempt_at = 0; runnable_at = t }

save_result : Job → String
save_result job =
    if job.superseded
    then "superseded"
    else if str_eq job.state "pending" && not (job.attempt_finished_at == 0)
    then (if str_eq job.wait_reason "" then "budget_yield" else "waiting_dependency")
    else job.state

module _ (p : Platform) where
  -- Claim records a takeover at the time of the save.
  takeover_outbox : ℕ → Job → List Event
  takeover_outbox t job =
      if str_eq job.state "running"
      then record_event p.naming t job.diagnostic_outbox (record no_event {
        component = "background";
        operation = job.kind;
        entity_id = job.id;
        work_id = job.id;
        work_kind = job.kind;
        stage = "lease_takeover";
        result = "recovered";
        attempt_id = job.attempt_id;
        run_id = job.run_id;
      })
      else job.diagnostic_outbox

  -- The job that Claim, begun at time `t`, saves at time `u`.
  unfoldable pub claimed : ℕ → ℕ → Job → Job
  unfolding takeover_outbox
  claimed t u job = record job {
    diagnostic_outbox = takeover_outbox u job;
    parent_attempt_id = job.attempt_id;
    state = "running";
    lease_until = t + minute;
    fence = (job.fence + 1) % 2 ^ 64;
    attempt_id = p.naming.id ("attempt" ∷ job.id ∷ p.naming.format_time t ∷ job.run_id ∷ []);
    last_attempt_at = t;
    attempt_finished_at = 0;
    first_attempt_at = if job.first_attempt_at == 0 then t else job.first_attempt_at;
    wait_reason = "";
    responsible_work_id = "";
    responsible_work_kind = "";
  }

  -- Finish, up to the outcome: the progress is stored and the lease ends.
  unfoldable pub progressed : ℕ → String → Bool → Job → Job
  unfolding phase_after
  progressed t progress done job = record job {
    progress_at = if not (str_eq job.progress progress) || done then t else job.progress_at;
    attempt_finished_at = t;
    progress = progress;
    state = "pending";
    lease_until = 0;
    checkpoint = checkpoint_summary (p.cursor_of progress);
    phase = phase_after (p.phase_of progress) job.phase;
    next_attempt_at = 0;
  }

  -- The time of the next attempt: a random part of at most a quarter is added to the delay.
  unfoldable pub next_attempt : ℕ → ℕ → ℕ
  next_attempt t count = t + (retry_delay count + p.unix_nano t % (retry_delay count / 4 + 1))

  unfoldable pub failed_with : ℕ → Error → Job → Job
  unfolding error_class_of state_after next_attempt
  failed_with t cause job = record job {
    retry_count = job.retry_count + 1;
    state = state_after cause;
    error_class = error_class_of cause;
    error_at = t;
    error_phase = job.phase;
    next_attempt_at = next_attempt t (job.retry_count + 1);
    runnable_at = next_attempt t (job.retry_count + 1);
  }

  outcome : ℕ → Bool → Option Error → Job → Job
  unfolding failed_with
  outcome t done none job =
      if done then job else record job { runnable_at = job.attempt_finished_at }
  outcome t done (some cause) job = failed_with t cause job

  -- The job that Finish saves.
  unfoldable pub finished : ℕ → String → Bool → Option Error → Job → Job
  unfolding progressed completed outcome
  finished t progress done cause job =
      outcome t done cause (completed t done (progressed t progress done job))

  -- save, up to the call of the store: the event of the transition is recorded.
  unfoldable pub with_event : ℕ → Job → Job
  unfolding save_result
  with_event t job = record job {
    diagnostic_outbox = record_event p.naming t job.diagnostic_outbox (record no_event {
      component = "background";
      operation = job.kind;
      entity_id = job.id;
      work_id = job.id;
      work_kind = job.kind;
      run_id = job.run_id;
      stage = job.state;
      result = save_result job;
      attempt = job.fence;
      attempt_layer = "background_unit";
      retryable = str_eq job.state "retry_wait";
      error_class = if retryable job then job.error_class else "";
      next_attempt_at = job.next_attempt_at;
      recovered_at = job.recovered_at;
      timeout_scope = job.timeout_scope;
      admission_wait_seconds = some job.admission_wait_seconds;
      execution_duration_seconds = some job.execution_duration_seconds;
      execution_budget_seconds = some job.execution_budget_seconds;
      attempt_id = job.attempt_id;
      parent_attempt_id = job.parent_attempt_id;
      started_at = job.last_attempt_at;
      finished_at = job.attempt_finished_at;
      source_revision = p.naming.id ("source" ∷ job.payload ∷ []);
      reason = job.wait_reason;
    });
  }
