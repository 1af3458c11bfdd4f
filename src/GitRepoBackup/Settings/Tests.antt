-- ===== src/GitRepoBackup/Settings/Tests.antt =====
-- A configuration with its defaults, runs of its checks, and instances of their theorems.
use k8s_at_home.Prelude.{
  ℕ, ◌+◌, ◌-◌, ◌*◌, ◌^◌, true, false, none, some, [], ◌≡◌, refl, arith, if◌then◌else◌,
}
use k8s_at_home.Prelude.Bytes.{codes, eqb}
use k8s_at_home.Prelude.Checks.{ok, err}
use k8s_at_home.GitRepoBackup.Retention.{incomplete_eligible}
use k8s_at_home.GitRepoBackup.Settings.{Config, Durations, Platform}
use k8s_at_home.GitRepoBackup.Settings.Defaults.{apply_defaults}
use k8s_at_home.GitRepoBackup.Settings.Checks.{ten_minutes, duration_sum, signed_leb, validate}
use k8s_at_home.GitRepoBackup.Settings.Valid.{Usable, validate-Usable}
use k8s_at_home.GitRepoBackup.Settings.Running.{retention_options, validate-incomplete_eligible}

abbrev hour : ℕ
hour = 3600000000000

abbrev empty : Config
empty = record {
  schema_version = 1;
  repositories_file = [];
  ssh = record {
    enabled = none;
    host_key_policy = [];
    private_key_file = [];
    known_hosts_file = [];
  };
  storage = record {
    kind = codes "local";
    local_root = [];
    s3 = record {
      endpoint = [];
      allow_insecure_http = false;
      region = [];
      bucket = [];
      prefix = [];
      force_path_style = false;
      server_side_encrypt = [];
      kms_key_id = [];
      credentials_mode = [];
      credentials_dir = [];
      role_arn = [];
      ca_bundle_file = [];
      web_identity_token_dir = [];
    };
  };
  workspace_root = [];
  cache = record { enabled = true; root = [] };
  prepare = record {
    target_uid = 0;
    target_gid = 0;
    input_private_key_file = [];
    input_known_hosts_file = [];
    known_hosts_state_file = [];
    ssh_dir = [];
    temp_dir = [];
  };
  backup = record {
    compression_level = 0;
    max_run_duration = [];
    git_timeout = [];
    min_free_bytes = 0;
  };
  retention = record { enabled = false; max_backups = 0; max_age = []; incomplete_max_age = [] };
  log_level = [];
  retention_present = false;
}

unfoldable config : Config
unfolding apply_defaults
config = apply_defaults empty

abbrev platform : Platform
platform = record {
  parse_url = λ s. none;
  parse_duration = λ s.
      if eqb s (codes "24h")
      then some (24 * hour)
      else if eqb s (codes "720h")
      then some (720 * hour)
      else some hour;
  to_lower = λ s. s;
  trim_space = λ s. s;
}

abbrev durations : Durations
durations = record {
  max_run_duration = hour;
  git_timeout = hour;
  max_age = 720 * hour;
  incomplete_max_age = 24 * hour;
}

accepted : validate platform config ≡ ok durations
unfolding validate config
accepted = refl

nested :
    validate platform (record config { workspace_root = codes "/backup/work" })
    ≡ err "must not be inside"
unfolding validate config
nested = refl

-- The largest duration and ten minutes are negative: any limit of incomplete runs is accepted.
sum_wraps : signed_leb hour (duration_sum (2 ^ 63 - 1) ten_minutes) ≡ false
sum_wraps = refl

validate-Usable_example : Usable platform config durations
validate-Usable_example = validate-Usable platform config durations accepted

validate-incomplete_eligible_example :
    incomplete_eligible 100 (retention_options config durations (hour + 100)) ≡ false
validate-incomplete_eligible_example =
    validate-incomplete_eligible platform config durations 100 (hour + 100) accepted (omega arith)
      (omega arith)
