-- ===== src/RegistryHub/Diagnostics/Tests.antt =====
-- Runs and instances for the diagnostic events of
-- application/registry-hub/src/internal/diagnostics/events.go.
use k8s_at_home.Prelude.{String, List, [], ◌∷◌, ◌≡◌, refl, length, some, none, true, false}
use k8s_at_home.RegistryHub.Diagnostics.{
  Naming, Event, no_event, with_defaults, record_event, observe_failure,
}
use k8s_at_home.RegistryHub.Diagnostics.Outbox.{Recorded, record_event-Recorded}

abbrev first : List String → String
first [] = ""
first (s ∷ rest) = s

abbrev naming : Naming
naming = record { id = first; format_uint = λ n. "n"; format_time = λ t. "t" }

abbrev enqueued : Event
enqueued = record no_event { component = "background"; stage = "enqueue"; attempt = 1 }

-- A repeated transition is recorded once, another one is appended.
record_event_runs :
    length (
      record_event naming 9
        (record_event naming 8 (record_event naming 7 [] enqueued) enqueued)
        (record enqueued { attempt = 2 }))
    ≡ 2
unfolding record_event
record_event_runs = refl

record_event-Recorded_example :
    Recorded
      (enqueued ∷ [])
      (with_defaults 5 (record enqueued { stage = "done" }))
      (record_event naming 5 (enqueued ∷ []) (record enqueued { stage = "done" }))
record_event-Recorded_example =
    record_event-Recorded naming 5 (enqueued ∷ []) (record enqueued { stage = "done" })

-- A success after a failure is a recovery.
observe_failure_runs :
    observe_failure
      (observe_failure (none, 0) "timeout" "slow" "fetch" "a" 5 false)
      ""
      ""
      ""
      ""
      7
      true
    ≡ (
      some (record {
        class = "timeout";
        summary = "slow";
        stage = "fetch";
        occurred_at = 5;
        attempt_id = "a";
      }),
      7,
    )
unfolding observe_failure
observe_failure_runs = refl
