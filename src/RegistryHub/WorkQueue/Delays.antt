-- ===== src/RegistryHub/WorkQueue/Delays.antt =====
-- When a job of application/registry-hub/src/internal/workqueue/queue.go can be claimed again.
use k8s_at_home.Prelude.{
  ℕ, zero, suc, ◌+◌, ◌-◌, ◌*◌, ◌^◌, ◌≤◌, min, String, Bool, true, false, ◌&&◌, not, Option, none,
  some, ltb, ◌≡◌, refl, arith, Bool-cases, inl, inr,
}
use k8s_at_home.RegistryHub.Errors.{Error, is, corrupt_object, source_missing}
use k8s_at_home.RegistryHub.WorkQueue.{
  second, minute, Job, Platform, claimable, retry_delay, next_attempt, claimed, finished,
  progressed, completed, failed_with, state_after,
}

pow_bounds : (n : ℕ) → n ≤ 8 → (1 ≤ 2 ^ n) × (2 ^ n ≤ 256)
pow_bounds zero h = omega arith
pow_bounds (suc zero) h = omega arith
pow_bounds (suc (suc zero)) h = omega arith
pow_bounds (suc (suc (suc zero))) h = omega arith
pow_bounds (suc (suc (suc (suc zero)))) h = omega arith
pow_bounds (suc (suc (suc (suc (suc zero))))) h = omega arith
pow_bounds (suc (suc (suc (suc (suc (suc zero)))))) h = omega arith
pow_bounds (suc (suc (suc (suc (suc (suc (suc zero))))))) h = omega arith
pow_bounds (suc (suc (suc (suc (suc (suc (suc (suc zero)))))))) h = omega arith
pow_bounds (suc (suc (suc (suc (suc (suc (suc (suc (suc n))))))))) h = absurd (omega arith)

delay_bounds : (count : ℕ) → (second ≤ retry_delay count) × (retry_delay count ≤ 256 * second)
unfolding retry_delay
delay_bounds count =
    let b = pow_bounds (min (count - 1) 8) (omega arith) in ground (arith, b.0, b.1)

-- The next attempt after a failure comes at least a second and at most 320 seconds (256 and a
-- quarter) later, however often the job has failed before.
pub next_attempt-Within :
    (p : Platform) (t count : ℕ)
    → (t + second ≤ next_attempt p t count) × (next_attempt p t count ≤ t + 320 * second)
unfolding next_attempt
next_attempt-Within p t count = let b = delay_bounds count in grind (arith, b.0, b.1)

-- When a job that Finish saved at time `t` can be claimed at time `u`.
abbrev pub claimable_after : Platform → ℕ → ℕ → ℕ → Bool → Option Error → Bool
claimable_after p t u count done none = not done
claimable_after p t u count done (some cause) =
    not (is cause corrupt_object)
    && not (is cause source_missing)
    && not (ltb u (next_attempt p t (count + 1)))

claimable-failed_with :
    (p : Platform) (t u : ℕ) (done : Bool) (cause : Error) (job : Job)
    → claimable u (failed_with p t cause job)
      ≡ claimable_after p t u job.retry_count done (some cause)
unfolding claimable failed_with state_after
claimable-failed_with p t u done cause job = elim (Bool-cases (is cause corrupt_object)) [
  | inl a ↦ rw a refl
  | inr a ↦ elim (Bool-cases (is cause source_missing)) [
    | inl b ↦ rw (a, b) refl
    | inr b ↦ rw (a, b) (ground arith)
  ]
]

-- What Finish saves can be claimed again exactly if it ended with no error and is not done, then at
-- any time, or if it ended with an error other than a corrupt or a missing source, then from its
-- next attempt on.
pub claimable-finished :
    (p : Platform) (t u : ℕ) (progress : String) (done : Bool) (cause : Option Error) (job : Job)
    → claimable u (finished p t progress done cause job)
      ≡ claimable_after p t u job.retry_count done cause
unfolding claimable finished progressed completed
claimable-finished p t u progress true none job = ground arith
claimable-finished p t u progress false none job = ground arith
claimable-finished p t u progress true (some cause) job =
    claimable-failed_with p t u true cause (completed t true (progressed p t progress true job))
claimable-finished p t u progress false (some cause) job =
    claimable-failed_with p t u false cause (progressed p t progress false job)

-- While a job that was claimed at time `t` stands, nobody else claims it before its lease of a
-- minute ends; from then on it can be claimed, if it could be at time `t`.
pub claimable-claimed :
    (p : Platform) (t u v : ℕ) (job : Job)
    → t ≤ v
    → claimable t job ≡ true
    → claimable v (claimed p t u job) ≡ not (ltb v (t + minute))
unfolding claimable claimed
claimable-claimed p t u v job h free = ground arith
