-- ===== src/RegistryHub/Diagnostics.antt =====
-- The diagnostic events that a record carries with it until they are published:
-- application/registry-hub/src/internal/diagnostics/events.go.
--
-- Times are nanoseconds, with 0 for the zero time. A float64 is the number of its bits, since it
-- is only passed on. Fields that point to a value are options.
pub mod Outbox
mod Tests
use k8s_at_home.Prelude.{
  ℕ, ◌-◌, ◌^◌, String, Bool, true, false, ◌&&◌, ◌||◌, not, Option, none, some, List, [], ◌∷◌, ◌++◌,
  length, ltb, ◌==◌, str_eq, if◌then◌else◌,
}

abbrev pub outbox_limit : ℕ
outbox_limit = 32

-- What the package takes from the outside: the hash of texts (ID) and time.RFC3339Nano.
pub record Naming : Type 0 where
  pub id : List String → String
  pub format_uint : ℕ → String
  pub format_time : ℕ → String

pub record Event : Type 0 where
  pub id : String
  pub occurred_at : ℕ
  pub component : String
  pub operation : String
  pub stage : String
  pub result : String
  pub entity_id : String
  pub image_id : String
  pub authority : String
  pub repository : String
  pub digest : String
  pub task_id : String
  pub intent_id : String
  pub transfer_id : String
  pub work_id : String
  pub work_kind : String
  pub run_id : String
  pub attempt : ℕ
  pub attempt_layer : String
  pub attempt_id : String
  pub parent_attempt_id : String
  pub source_revision : String
  pub started_at : ℕ
  pub finished_at : ℕ
  pub error_summary : String
  pub http_status : ℕ
  pub retryable : Bool
  pub error_class : String
  pub reason : String
  pub timeout_scope : String
  pub responsibility : String
  pub next_attempt_at : ℕ
  pub recovered_at : ℕ
  pub admission_wait_seconds : Option ℕ
  pub execution_duration_seconds : Option ℕ
  pub deadline_remaining_seconds : Option ℕ
  pub execution_budget_seconds : Option ℕ
  pub request_id : String
  pub operation_id : String
  pub s3_request_id : String
  pub transport_bytes : Option ℕ
  pub expected_bytes : Option ℕ
  pub body_complete : Option Bool

-- `Event{}`
abbrev pub no_event : Event
no_event = record {
  id = "";
  occurred_at = 0;
  component = "";
  operation = "";
  stage = "";
  result = "";
  entity_id = "";
  image_id = "";
  authority = "";
  repository = "";
  digest = "";
  task_id = "";
  intent_id = "";
  transfer_id = "";
  work_id = "";
  work_kind = "";
  run_id = "";
  attempt = 0;
  attempt_layer = "";
  attempt_id = "";
  parent_attempt_id = "";
  source_revision = "";
  started_at = 0;
  finished_at = 0;
  error_summary = "";
  http_status = 0;
  retryable = false;
  error_class = "";
  reason = "";
  timeout_scope = "";
  responsibility = "";
  next_attempt_at = 0;
  recovered_at = 0;
  admission_wait_seconds = none;
  execution_duration_seconds = none;
  deadline_remaining_seconds = none;
  execution_budget_seconds = none;
  request_id = "";
  operation_id = "";
  s3_request_id = "";
  transport_bytes = none;
  expected_bytes = none;
  body_complete = none;
}

default_text : String → String → String
default_text text s = if str_eq s "" then text else s

-- The defaults of Record at time `t`.
unfoldable pub with_defaults : ℕ → Event → Event
unfolding default_text
with_defaults t e = record e {
  occurred_at = if e.occurred_at == 0 then t else e.occurred_at;
  timeout_scope = default_text "unknown" e.timeout_scope;
  attempt_layer = default_text "source_transition" e.attempt_layer;
  responsibility = default_text "unknown" e.responsibility;
}

unfoldable pub same_entity : Event → Event → Bool
same_entity l e =
    str_eq l.component e.component
    && str_eq l.operation e.operation
    && str_eq l.entity_id e.entity_id
    && str_eq l.work_id e.work_id
    && str_eq l.task_id e.task_id
    && str_eq l.intent_id e.intent_id
    && str_eq l.transfer_id e.transfer_id

-- The event repeats the last one.
unfoldable pub repeats : Event → Event → Bool
unfolding same_entity
repeats l e =
    same_entity l e
    && str_eq l.run_id e.run_id
    && str_eq l.attempt_id e.attempt_id
    && str_eq l.source_revision e.source_revision
    && str_eq l.stage e.stage
    && str_eq l.result e.result
    && (l.attempt == e.attempt)
    && str_eq l.error_class e.error_class

-- The event ends a failure of the last one.
unfoldable pub recovers : Event → Event → Bool
unfolding same_entity
recovers l e =
    same_entity l e
    && not (str_eq l.error_class "")
    && str_eq e.error_class ""
    && (str_eq e.result "done"
        || str_eq e.result "solidified"
        || str_eq e.result "anchored"
        || str_eq e.result "verified_local")

unfoldable pub last : List Event → Option Event
last [] = none
last (e ∷ []) = some e
last (e ∷ f ∷ rest) = last (f ∷ rest)

-- The last `n` events.
unfoldable pub newest : ℕ → List Event → List Event
newest n [] = []
newest n (e ∷ rest) =
    let tail = newest n rest in if ltb n (length (e ∷ rest)) then tail else e ∷ rest

module _ (naming : Naming) where
  identified : Event → Event
  identified e = record e {
    id = naming.id (
        e.component
        ∷ e.entity_id
        ∷ e.stage
        ∷ e.result
        ∷ naming.format_uint e.attempt
        ∷ naming.format_time e.occurred_at
        ∷ []);
  }

  appended : List Event → Event → List Event
  unfolding identified newest
  appended outbox e = newest outbox_limit (outbox ++ identified e ∷ [])

  against : List Event → Event → Option Event → List Event
  unfolding appended repeats recovers
  against outbox e none = appended outbox e
  against outbox e (some l) =
      if repeats l e
      then outbox
      else appended outbox (if recovers l e then record e { recovered_at = e.occurred_at } else e)

  -- Record at time `t`
  unfoldable pub record_event : ℕ → List Event → Event → List Event
  unfolding against with_defaults last
  record_event t outbox event = against outbox (with_defaults t event) (last outbox)

pub record Failure : Type 0 where
  pub class : String
  pub summary : String
  pub stage : String
  pub occurred_at : ℕ
  pub attempt_id : String

-- The failure is another one than the last, or the last has been recovered from.
unfoldable pub is_new_failure : Option Failure → ℕ → String → String → String → Bool
is_new_failure none recovered class stage attempt_id = true
is_new_failure (some l) recovered class stage attempt_id =
    not (str_eq l.class class)
    || not (str_eq l.stage stage)
    || not (str_eq l.attempt_id attempt_id)
    || (not (recovered == 0) && not (ltb recovered l.occurred_at))

unfoldable pub recovered_of : Option Failure → ℕ → ℕ → Bool → ℕ
recovered_of none recovered t success = recovered
recovered_of (some l) recovered t success =
    if success && ltb recovered l.occurred_at then t else recovered

-- ObserveFailure: the last failure and the time of the recovery from it
unfoldable pub observe_failure :
    Option Failure × ℕ → String → String → String → String → ℕ → Bool → Option Failure × ℕ
unfolding is_new_failure recovered_of
observe_failure (l, recovered) class summary stage attempt_id t success =
    if not (str_eq class "")
    then (
      if is_new_failure l recovered class stage attempt_id
          then some (record {
            class = class;
            summary = summary;
            stage = stage;
            occurred_at = t;
            attempt_id = attempt_id;
          })
          else l,
      recovered,
    )
    else (l, recovered_of l recovered t success)
