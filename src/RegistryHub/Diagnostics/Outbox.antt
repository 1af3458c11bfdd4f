-- ===== src/RegistryHub/Diagnostics/Outbox.antt =====
-- What Record of application/registry-hub/src/internal/diagnostics/events.go leaves in an outbox.
use k8s_at_home.Prelude.{
  ℕ, ◌≤◌, true, Option, none, some, List, [], ◌∷◌, ◌++◌, length, ◌≡◌, refl, ◌∙◌, ap, ◌⊎◌, inl, inr,
  arith, Bool-cases, str_eq_refl, ltb,
}
use k8s_at_home.RegistryHub.Diagnostics.{
  outbox_limit, Naming, Event, with_defaults, repeats, recovers, last, newest, identified, appended,
  against, record_event, same_entity,
}

length-newest-le : (n : ℕ) (es : List Event) → length (newest n es) ≤ n
unfolding newest
length-newest-le n [] = omega arith
length-newest-le n (e ∷ es) = ground (arith, length-newest-le n es)

last-append : (es : List Event) (e : Event) → last (es ++ e ∷ []) ≡ some e
unfolding last
last-append [] e = refl
last-append (a ∷ []) e = refl
last-append (a ∷ b ∷ es) e = last-append (b ∷ es) e

last-newest : (n : ℕ) (es : List Event) → 1 ≤ n → last (newest n es) ≡ last es
unfolding newest last
last-newest n [] h = refl
last-newest n (e ∷ []) h = ground arith
last-newest n (e ∷ f ∷ es) h = ground (arith, last-newest n (f ∷ es) h)

-- A tail of `es`: what `newest` keeps is in the order in which it was recorded.
newest-suffix : (n : ℕ) (es : List Event) → (dropped : List Event) × (es ≡ dropped ++ newest n es)
unfolding newest
newest-suffix n [] = ([], refl)
newest-suffix n (e ∷ es) = elim (Bool-cases (ltb n (length (e ∷ es)))) [
  | inl h ↦ (let (dropped, p) = newest-suffix n es in (e ∷ dropped, rw h (ap (λ x. e ∷ x) p)))
  | inr h ↦ ([], rw h refl)
]

-- Events that differ in what Record itself sets stand for one transition.
repeats_refl :
    (naming : Naming) (e : Event) (n : ℕ)
    → (repeats (identified naming e) e ≡ true)
      × (repeats (identified naming (record e { recovered_at = n })) e ≡ true)
unfolding repeats same_entity identified
repeats_refl naming e n = (
  rw
      (
        str_eq_refl e.component,
        str_eq_refl e.operation,
        str_eq_refl e.entity_id,
        str_eq_refl e.work_id,
        str_eq_refl e.task_id,
        str_eq_refl e.intent_id,
        str_eq_refl e.transfer_id,
        str_eq_refl e.run_id,
        str_eq_refl e.attempt_id,
        str_eq_refl e.source_revision,
        str_eq_refl e.stage,
        str_eq_refl e.result,
        str_eq_refl e.error_class,
      )
      (ground arith),
  rw
      (
        str_eq_refl e.component,
        str_eq_refl e.operation,
        str_eq_refl e.entity_id,
        str_eq_refl e.work_id,
        str_eq_refl e.task_id,
        str_eq_refl e.intent_id,
        str_eq_refl e.transfer_id,
        str_eq_refl e.run_id,
        str_eq_refl e.attempt_id,
        str_eq_refl e.source_revision,
        str_eq_refl e.stage,
        str_eq_refl e.result,
        str_eq_refl e.error_class,
      )
      (ground arith),
)

-- What is in the outbox after an event: at most as many events as before or the limit, the last of
-- them for the transition of the event, and the events before the call, in order, of which only
-- the oldest are dropped.
pub record Recorded (outbox : List Event) (event : Event) (result : List Event) : Type 0 where
  pub bounded : (length result ≤ outbox_limit) ⊎ (result ≡ outbox)
  pub newest_event : (l : Event) × (last result ≡ some l) × (repeats l event ≡ true)
  pub kept :
      (result ≡ outbox)
      ⊎ ((e : Event) × (dropped : List Event) × (outbox ++ e ∷ [] ≡ dropped ++ result))

module _ (naming : Naming) where
  appended-Recorded :
      (outbox : List Event) (e event : Event)
      → repeats (identified naming e) event ≡ true
      → Recorded outbox event (appended naming outbox e)
  unfolding appended
  appended-Recorded outbox e event h =
      let l = identified naming e in
      let (dropped, p) = newest-suffix outbox_limit (outbox ++ l ∷ []) in
      record {
        bounded = inl (length-newest-le outbox_limit (outbox ++ l ∷ []));
        newest_event = (
          l,
          last-newest outbox_limit (outbox ++ l ∷ []) (omega arith) ∙ last-append outbox l,
          h,
        );
        kept = inr (l, dropped, p);
      }

  against-Recorded :
      (outbox : List Event) (event : Event) (o : Option Event)
      → last outbox ≡ o
      → Recorded outbox event (against naming outbox event o)
  unfolding against
  against-Recorded outbox event none h =
      appended-Recorded outbox event event (repeats_refl naming event 0).0
  against-Recorded outbox event (some l) h = elim (Bool-cases (repeats l event)) [
    | inl same ↦
        rw same (record { bounded = inr refl; newest_event = (l, h, same); kept = inl refl })
    | inr new ↦ elim (Bool-cases (recovers l event)) [
      | inl r ↦
          rw (new, r)
            (appended-Recorded outbox (record event { recovered_at = event.occurred_at }) event
              (repeats_refl naming event event.occurred_at).1)
      | inr r ↦ rw (new, r) (appended-Recorded outbox event event (repeats_refl naming event 0).0)
    ]
  ]

  -- After Record the outbox holds at most 32 events, unless it is as it was before; its last event
  -- is one of the transition that was recorded; and either nothing changed, or one event was
  -- appended and only events at the front were dropped.
  pub record_event-Recorded :
      (t : ℕ) (outbox : List Event) (event : Event)
      → Recorded outbox (with_defaults t event) (record_event naming t outbox event)
  unfolding record_event
  record_event-Recorded t outbox event = against-Recorded outbox _ (last outbox) refl
