-- ===== src/GitRepoBackup/Settings/Running.antt =====
-- The retention options that internal/runner/runner.go makes of a configuration, and what the
-- cleanup of internal/retention/policy.go spares under them.
use k8s_at_home.Prelude.{ℕ, ◌+◌, ◌^◌, ◌≤◌, ◌<◌, false, if◌then◌else◌, ◌≡◌, inl, inr, arith}
use k8s_at_home.Prelude.Checks.{ok}
use k8s_at_home.GitRepoBackup.Retention.{Options, incomplete_eligible}
use k8s_at_home.GitRepoBackup.Settings.{Config, Durations, Platform}
use k8s_at_home.GitRepoBackup.Settings.Checks.{ten_minutes, duration_sum, is_negative, validate}
use k8s_at_home.GitRepoBackup.Settings.Valid.{validate-Usable}

-- The grace is the maximal duration of a run and a window of ten minutes. Retention only asks
-- whether it exceeds the limit of incomplete runs, which is positive: 0 stands for a negative one.
unfoldable pub retention_options : Config → Durations → ℕ → Options
retention_options c d now =
    let grace = duration_sum d.max_run_duration ten_minutes in
    record {
      enabled = c.retention.enabled;
      max_backups = c.retention.max_backups;
      max_age = d.max_age;
      incomplete_max_age = d.incomplete_max_age;
      max_run_grace = if is_negative grace then 0 else grace;
      now = now;
    }

young :
    (o : Options) (started : ℕ)
    → o.now ≤ started + o.incomplete_max_age
    → incomplete_eligible started o ≡ false
unfolding incomplete_eligible
young o started h = ground arith

-- Under a configuration that Validate accepts, whose maximal duration of a run and ten minutes are
-- a duration of 64 bits, a run that started within its maximal duration and the grace of ten minutes
-- is not cleaned up as incomplete.
pub validate-incomplete_eligible :
    (platform : Platform) (c : Config) (d : Durations) (started now : ℕ)
    → validate platform c ≡ ok d
    → d.max_run_duration + ten_minutes < 2 ^ 63
    → now ≤ started + d.max_run_duration + ten_minutes
    → incomplete_eligible started (retention_options c d now) ≡ false
unfolding retention_options
validate-incomplete_eligible platform c d started now h fits k =
    elim (validate-Usable platform c d h).durations.incomplete_exceeds [
      | inl longer ↦ young (retention_options c d now) started (omega (arith, k, longer))
      | inr over ↦ absurd (omega (arith, fits, over))
    ]
