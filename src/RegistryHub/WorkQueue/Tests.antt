-- ===== src/RegistryHub/WorkQueue/Tests.antt =====
-- Runs and instances for the background jobs of
-- application/registry-hub/src/internal/workqueue: bodies are the states of one job.
use k8s_at_home.Prelude.{
  ℕ, ◌+◌, ◌*◌, ◌≤◌, String, true, false, none, some, List, [], ◌∷◌, ◌≡◌, refl, arith, str_eq,
  eq_of-str_eq, not, ltb, if◌then◌else◌,
}
use k8s_at_home.RegistryHub.Errors.{ok, is, sentinel, timeout}
use k8s_at_home.RegistryHub.Storage.Keeps.{Order}
use k8s_at_home.RegistryHub.Storage.{Disk, update, delete_refusal, World, attempt, get, put, ◌>>=◌}
use k8s_at_home.RegistryHub.Inventory.{Json, read as read_value}
use k8s_at_home.RegistryHub.Inventory.Sample.{tagging, Free, free_order}
use k8s_at_home.RegistryHub.Diagnostics.{record_event}
use k8s_at_home.RegistryHub.WorkQueue.{
  second, minute, Job, Cursor, Platform, claimable, claimed, finished, next_attempt, with_event,
  running_under,
}
use k8s_at_home.RegistryHub.WorkQueue.Calls.{
  new_job, job_key, receipt_key, claim, validate, enqueue, save, read, well_formed,
}
use k8s_at_home.RegistryHub.WorkQueue.Calls.Claims.{Allows, ClaimedAt, claim-ClaimedAt}
use k8s_at_home.RegistryHub.WorkQueue.Calls.Enqueued.{enqueue-payload, Runs, validate-Runs}
use k8s_at_home.RegistryHub.WorkQueue.Retries.{RetryRequest, RetryAcceptance, acceptance_of}
use k8s_at_home.RegistryHub.WorkQueue.Delays.{
  next_attempt-Within, claimable_after, claimable-finished, claimable-claimed,
}
use k8s_at_home.RegistryHub.WorkQueue.Status.{new_status, add_all, Numbered, counts-new_status}

abbrev first : List String → String
first [] = ""
first (s ∷ rest) = s

abbrev cursor : String → Cursor
cursor s = record {
  phase = 1;
  offset = 0;
  index = 0;
  session_offset = 0;
  confirmed_targets = 0;
  token = "";
  cursor_entities = 0;
  cursor_offset = 0;
  cursor_entries = 0;
  cursor_token = "";
  cursor_next = "";
  cursor_done = false;
}

abbrev platform : Platform
platform = record {
  naming = record { id = first; format_uint = λ n. "n"; format_time = λ t. "t" };
  cursor_of = cursor;
  phase_of = λ s. some 1;
  unix_nano = λ t. t;
  size = λ s. 0;
}

abbrev pending : Job
pending = new_job platform "image" "source" "payload" 5 6

next_attempt-Within_example :
    (7 + second ≤ next_attempt platform 7 3) × (next_attempt platform 7 3 ≤ 7 + 320 * second)
next_attempt-Within_example = next_attempt-Within platform 7 3

claimable-finished_example :
    claimable 9 (finished platform 7 "{}" false (some (sentinel timeout)) pending)
    ≡ claimable_after platform 7 9 pending.retry_count false (some (sentinel timeout))
claimable-finished_example =
    claimable-finished platform 7 9 "{}" false (some (sentinel timeout)) pending

pending_free : claimable 7 pending ≡ true
unfolding claimable new_job
pending_free = refl

claimable-claimed_example : claimable 9 (claimed platform 7 8 pending) ≡ not (ltb 9 (7 + minute))
claimable-claimed_example = claimable-claimed platform 7 8 9 pending (omega arith) pending_free

counts-new_status_example :
    (n : ℕ) × Numbered "running" (pending ∷ claimed platform 7 8 pending ∷ []) n
    × ((add_all (new_status 9) (pending ∷ claimed platform 7 8 pending ∷ [])).counts "running"
        ≡ some n)
counts-new_status_example =
    counts-new_status 9 "running" (pending ∷ claimed platform 7 8 pending ∷ []) refl

-- A body is the state of the one job.
abbrev json : Json String Job
json = record {
  encode = λ j. j.state;
  decode = λ b. some (record pending { state = b; lease_until = 100; fence = 1 });
  size = λ b. 0;
  same = str_eq;
  same→eq = eq_of-str_eq;
}

abbrev holding : String → World String
holding state = record {
  disk = λ k. if str_eq k (job_key "image" "image") then some state else none;
  clock = 7;
  script = [];
}

abbrev queued : Job
queued = record pending { version = "vpending" }

abbrev running : Job
running = record (with_event platform 7 (claimed platform 7 7 queued)) { version = "vrunning" }

claim_runs : (claim tagging json platform queued (holding "pending")).0 ≡ ok running
unfolding claim ◌>>=◌ attempt read_value get put is job_key receipt_key save new_job claimable
    claimed with_event record_event
claim_runs = refl

-- A job that runs stays so.
abbrev StaysRunning : Disk String → Disk String → Type 0
StaysRunning d e =
    d (job_key "image" "image") ≡ some "running" → e (job_key "image" "image") ≡ some "running"

order_of_jobs : Order StaysRunning
order_of_jobs = record { stay = λ d h. h; chain = λ d e f h k r. k (h r) }

claims_allowed :
    (t u : ℕ)
    → Allows tagging json platform StaysRunning order_of_jobs (claimed platform t u queued)
unfolding claimed with_event job_key update new_job
claims_allowed t u v d h r = refl

deletes_allowed :
    (d : Disk String)
    → delete_refusal tagging.version queued.version (d (job_key queued.kind queued.id)) ≡ none
    → StaysRunning d (update d (job_key queued.kind queued.id) none)
unfolding delete_refusal new_job job_key
deletes_allowed d h r = absurd (cc (rw r at h))

claim-ClaimedAt_example :
    ClaimedAt tagging json platform StaysRunning order_of_jobs queued 7
      (holding "pending").disk
      running
      (claim tagging json platform queued (holding "pending")).1.disk
claim-ClaimedAt_example =
    claim-ClaimedAt tagging json platform StaysRunning order_of_jobs queued running
      (holding "pending") refl claims_allowed deletes_allowed tt claim_runs

abbrev held : Job
held = record pending { fence = 1 }

validate_runs : (validate tagging json platform held (holding "running")).0 ≡ ok tt
unfolding validate ◌>>=◌ attempt read_value get is job_key receipt_key new_job running_under
    well_formed
validate_runs = refl

validate-Runs_example :
    Runs tagging json platform free_order held
      (validate tagging json platform held (holding "running")).1
validate-Runs_example =
    validate-Runs tagging json platform Free free_order held (holding "running") tt validate_runs

enqueue_runs :
    (enqueue tagging json platform "image" "source" (some "payload") 5 (holding "pending")).0
    ≡ ok (record pending { state = "pending"; lease_until = 100; fence = 1; version = "vpending" })
unfolding enqueue ◌>>=◌ attempt read_value read get put is job_key receipt_key new_job well_formed
enqueue_runs = refl

enqueue-payload_example : pending.payload ≡ "payload"
enqueue-payload_example =
    enqueue-payload tagging json platform "image" "source" "payload" 5 (holding "pending")
      (record pending { state = "pending"; lease_until = 100; fence = 1; version = "vpending" })
      enqueue_runs

-- A body is a retry that was accepted.
abbrev asked : RetryRequest
asked = record {
  expected_revision = "revision";
  source_revision = "source";
  idempotency_key = "12345678";
}

abbrev accepted_retry : RetryAcceptance
accepted_retry = record (acceptance_of platform "me" "image" "image" asked) { accepted_at = 5 }

abbrev acceptances : Json String RetryAcceptance
acceptances = record {
  encode = λ a. a.id;
  decode = λ b. some accepted_retry;
  size = λ b. 0;
  same = str_eq;
  same→eq = eq_of-str_eq;
}

abbrev sized : Platform
sized = record platform { size = λ s. 8 }
