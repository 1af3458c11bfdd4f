-- ===== src/RegistryHub/WorkQueue/Status.antt =====
-- The summary of a queue: application/registry-hub/src/internal/workqueue/status.go. Times that may
-- be missing are options; the map of counts answers none for a key that is not in it; sums stay
-- below their 63 bits. The fields that Add leaves alone, which the handlers fill, are left out.
use k8s_at_home.Prelude.{
  ℕ, zero, suc, ◌+◌, String, Bool, true, false, ◌&&◌, ◌||◌, not, Option, none, some, List, [], ◌∷◌,
  ltb, ◌==◌, str_eq, eq_of-str_eq, ne_of-str_eq, str_eq-eq-false, ◌≡◌, ◌≢◌, ◌⊎◌, refl, sym, ◌∙◌, ap,
  arith, Bool-cases, inl, inr, if◌then◌else◌,
}
use k8s_at_home.RegistryHub.WorkQueue.{Job}

pub record Status : Type 0 where
  pub counts : String → Option ℕ
  pub observed_at : ℕ
  pub oldest_at : Option ℕ
  pub progress_at : ℕ
  pub retry_count : ℕ
  pub next_attempt_at : Option ℕ
  pub error_at : ℕ
  pub error_class : String
  pub error_entity : String
  pub error_phase : ℕ
  pub error_recovered : Bool
  pub oldest_enqueued_at : Option ℕ
  pub oldest_runnable_at : Option ℕ

abbrev pub known : String → Bool
known s =
    str_eq "pending" s
    || str_eq "running" s
    || str_eq "retry_wait" s
    || str_eq "waiting_dependency" s
    || str_eq "failed" s
    || str_eq "done" s
    || str_eq "superseded" s

-- NewStatus
unfoldable pub new_status : ℕ → Status
new_status t = record {
  counts = λ s. if known s then some 0 else none;
  observed_at = t;
  oldest_at = none;
  progress_at = 0;
  retry_count = 0;
  next_attempt_at = none;
  error_at = 0;
  error_class = "";
  error_entity = "";
  error_phase = 0;
  error_recovered = false;
  oldest_enqueued_at = none;
  oldest_runnable_at = none;
}

-- The state that a job is counted under.
unfoldable pub category : Job → String
category job =
    let state = if job.superseded then "superseded" else job.state in
    if str_eq state "pending" && not (str_eq job.wait_reason "")
    then "waiting_dependency"
    else state

abbrev one_more : Option ℕ → Option ℕ
one_more none = some 1
one_more (some n) = some (n + 1)

abbrev earliest : Option ℕ → ℕ → Option ℕ
earliest none t = some t
earliest (some o) t = if ltb t o then some t else some o

-- Status.Add
unfoldable pub add : Status → Job → Status
unfolding category
add s job = record s {
  counts = λ k. if str_eq (category job) k then one_more (s.counts k) else s.counts k;
  oldest_enqueued_at =
      if not (str_eq (category job) "done")
        && not (str_eq (category job) "superseded")
        && not (job.enqueued_at == 0)
      then earliest s.oldest_enqueued_at job.enqueued_at
      else s.oldest_enqueued_at;
  oldest_runnable_at =
      if (str_eq (category job) "pending"
          || (str_eq (category job) "retry_wait" && not (ltb s.observed_at job.next_attempt_at)))
        && not (job.runnable_at == 0)
      then earliest s.oldest_runnable_at job.runnable_at
      else s.oldest_runnable_at;
  retry_count = s.retry_count + job.retry_count;
  oldest_at =
      if not (str_eq job.state "done") then earliest s.oldest_at job.created_at else s.oldest_at;
  progress_at = if ltb s.progress_at job.progress_at then job.progress_at else s.progress_at;
  next_attempt_at =
      if not (job.next_attempt_at == 0)
      then earliest s.next_attempt_at job.next_attempt_at
      else s.next_attempt_at;
  error_at = if ltb s.error_at job.error_at then job.error_at else s.error_at;
  error_class = if ltb s.error_at job.error_at then job.error_class else s.error_class;
  error_entity = if ltb s.error_at job.error_at then job.id else s.error_entity;
  error_recovered =
      if ltb s.error_at job.error_at then str_eq job.state "done" else s.error_recovered;
  error_phase = if ltb s.error_at job.error_at then job.error_phase else s.error_phase;
}

-- The jobs of a queue, added one after the other.
unfoldable pub add_all : Status → List Job → Status
add_all s [] = s
add_all s (job ∷ jobs) = add_all (add s job) jobs

-- The states of a job in the summary, one after the other: a superseded job has the state
-- superseded, whatever else it is; one that is pending and names what it waits for is
-- waiting_dependency; every other job has its own state.
abbrev pub InState : String → Job → Type 0
InState k job =
    ((job.superseded ≡ true) × (k ≡ "superseded"))
    ⊎ ((job.superseded ≡ false)
        × (job.state ≡ "pending")
        × (job.wait_reason ≢ "")
        × (k ≡ "waiting_dependency"))
    ⊎ ((job.superseded ≡ false)
        × ((job.state ≢ "pending") ⊎ (job.wait_reason ≡ ""))
        × (k ≡ job.state))

-- The number of jobs of a list that are in a state.
pub data Numbered (k : String) : List Job → ℕ → Type 0 where
  nothing : Numbered k [] 0
  counts_in :
      (job : Job) (jobs : List Job) (n : ℕ)
      → InState k job
      → Numbered k jobs n
      → Numbered k (job ∷ jobs) (suc n)
  leaves_out :
      (job : Job) (jobs : List Job) (n : ℕ)
      → ¬ InState k job
      → Numbered k jobs n
      → Numbered k (job ∷ jobs) n

raise : Option ℕ → ℕ → Option ℕ
raise o zero = o
raise o (suc n) = raise (one_more o) n

InState-of_category : (k : String) (job : Job) → str_eq (category job) k ≡ true → InState k job
unfolding category
InState-of_category k job h = elim (Bool-cases job.superseded) [
  | inl over ↦ inl (over, sym (eq_of-str_eq _ _ (rw over at h)))
  | inr not_over ↦
      elim (Bool-cases (str_eq job.state "pending" && not (str_eq job.wait_reason ""))) [
        | inl waits ↦ inr (
            inl (
              not_over,
              eq_of-str_eq _ _ (ground (arith, waits)),
              ne_of-str_eq _ _ (ground (arith, waits)),
              sym (eq_of-str_eq _ _ (rw (not_over, waits) at h)),
            ))
        | inr free ↦ inr (
            inr (
              not_over,
              apart job.state job.wait_reason free,
              sym (eq_of-str_eq _ _ (rw (not_over, free) at h)),
            ))
      ]
]
  where
    apart :
        (s r : String)
        → (str_eq s "pending" && not (str_eq r "")) ≡ false
        → (s ≢ "pending") ⊎ (r ≡ "")
    apart s r f = elim (Bool-cases (str_eq s "pending")) [
      | inl is ↦ inr (eq_of-str_eq _ _ (ground (arith, f, is)))
      | inr other ↦ inl (ne_of-str_eq _ _ other)
    ]

category-InState : (k : String) (job : Job) → InState k job → category job ≡ k
unfolding category
category-InState k job (inl (over, same)) = rw (over, same) refl
category-InState k job (inr (inl (not_over, is, waits, same))) =
    rw (not_over, is, str_eq-eq-false _ _ waits, same) refl
category-InState k job (inr (inr (not_over, inl other, same))) =
    rw (not_over, str_eq-eq-false _ _ other, same) refl
category-InState k job (inr (inr (not_over, inr idle, same))) =
    elim (Bool-cases (str_eq job.state "pending")) [
      | inl is ↦ rw (not_over, is, idle, same) refl
      | inr other ↦ rw (not_over, other, same) refl
    ]

-- Each job raises the count of its state by one, and no other count.
Numbered-add_all :
    (s : Status) (k : String) (jobs : List Job)
    → (n : ℕ) × Numbered k jobs n × ((add_all s jobs).counts k ≡ raise (s.counts k) n)
unfolding add_all add raise
Numbered-add_all s k [] = (0, nothing, refl)
Numbered-add_all s k (job ∷ jobs) =
    let (n, numbered, counted) = Numbered-add_all (add s job) k jobs in
    elim (Bool-cases (str_eq (category job) k)) [
      | inl h ↦
          (suc n, counts_in job jobs n (InState-of_category k job h) numbered, (rw h at counted))
      | inr h ↦ (
        n,
        leaves_out job jobs n (λ i. ne_of-str_eq (category job) k h (category-InState k job i))
            numbered,
        (rw h at counted),
      )
    ]

raise-some : (n m : ℕ) → raise (some n) m ≡ some (n + m)
unfolding raise
raise-some n zero = ap (λ x. some x) (omega arith)
raise-some n (suc m) = raise-some (n + 1) m ∙ ap (λ x. some x) (omega arith)

-- The summary of a list of jobs counts, under each state that it lists from the start, exactly the
-- jobs that are in that state: a superseded job is in the state superseded alone, a pending one that
-- names what it waits for in waiting_dependency alone, and any other in its own state alone.
pub counts-new_status :
    (t : ℕ) (k : String) (jobs : List Job)
    → known k ≡ true
    → (n : ℕ) × Numbered k jobs n × ((add_all (new_status t) jobs).counts k ≡ some n)
unfolding new_status
counts-new_status t k jobs h =
    let (n, numbered, counted) = Numbered-add_all (new_status t) k jobs in
    (n, numbered, counted ∙ rw h (raise-some 0 n ∙ ap (λ x. some x) (omega arith)))
