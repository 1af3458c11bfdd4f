-- ===== src/GitRepoBackup/Settings.antt =====
-- The run configuration: internal/config/types.go, defaults.go, validate.go and validate_s3.go,
-- and the path checks of internal/safefs/paths.go. A text is the list of its code points and is
-- valid UTF-8; url.Parse, time.ParseDuration, strings.ToLower and strings.TrimSpace are a parameter.
pub mod Defaults
pub mod Checks
pub mod Valid
pub mod Running
mod Tests
use k8s_at_home.Prelude.{ℕ, Bool, true, false, Option, none, some, [], ◌∷◌, if◌then◌else◌}
use k8s_at_home.Prelude.Bytes.{Bytes, codes}

abbrev pub Text : Type 0
Text = Bytes

pub record SshConfig : Type 0 where
  -- nil if the field is left out
  pub enabled : Option Bool
  pub host_key_policy : Text
  pub private_key_file : Text
  pub known_hosts_file : Text

pub record S3Storage : Type 0 where
  pub endpoint : Text
  pub allow_insecure_http : Bool
  pub region : Text
  pub bucket : Text
  pub prefix : Text
  pub force_path_style : Bool
  pub server_side_encrypt : Text
  pub kms_key_id : Text
  pub credentials_mode : Text
  pub credentials_dir : Text
  pub role_arn : Text
  pub ca_bundle_file : Text
  pub web_identity_token_dir : Text

pub record StorageConfig : Type 0 where
  pub kind : Text
  pub local_root : Text
  pub s3 : S3Storage

pub record CacheConfig : Type 0 where
  pub enabled : Bool
  pub root : Text

-- A negative id counts as 0 where only positive ones pass.
pub record PrepareConfig : Type 0 where
  pub target_uid : ℕ
  pub target_gid : ℕ
  pub input_private_key_file : Text
  pub input_known_hosts_file : Text
  pub known_hosts_state_file : Text
  pub ssh_dir : Text
  pub temp_dir : Text

pub record BackupConfig : Type 0 where
  pub compression_level : ℕ
  pub max_run_duration : Text
  pub git_timeout : Text
  pub min_free_bytes : ℕ

-- The number of backups is not negative.
pub record RetentionConfig : Type 0 where
  pub enabled : Bool
  pub max_backups : ℕ
  pub max_age : Text
  pub incomplete_max_age : Text

pub record Config : Type 0 where
  pub schema_version : ℕ
  pub repositories_file : Text
  pub ssh : SshConfig
  pub storage : StorageConfig
  pub workspace_root : Text
  pub cache : CacheConfig
  pub prepare : PrepareConfig
  pub backup : BackupConfig
  pub retention : RetentionConfig
  pub log_level : Text
  pub retention_present : Bool

-- The durations that Validate parses, in nanoseconds; 0 disables the age rule.
pub record Durations : Type 0 where
  pub max_run_duration : ℕ
  pub git_timeout : ℕ
  pub max_age : ℕ
  pub incomplete_max_age : ℕ

-- url.URL of an endpoint
pub record EndpointUrl : Type 0 where
  pub scheme : Text
  pub has_user : Bool
  pub path : Text
  pub raw_query : Text
  pub fragment : Text
  pub hostname : Text

pub record Platform : Type 0 where
  pub parse_url : Text → Option EndpointUrl
  -- time.ParseDuration, in nanoseconds below 2 ^ 63; a negative duration counts as 0
  pub parse_duration : Text → Option ℕ
  pub to_lower : Text → Text
  pub trim_space : Text → Text

abbrev pub blank : Text → Bool
blank [] = true
blank (c ∷ s) = false

-- IsEnabled
abbrev pub is_enabled : SshConfig → Bool
is_enabled c = elim c.enabled [ none ↦ true | some b ↦ b ]

-- EffectiveHostKeyPolicy
abbrev pub effective_policy : SshConfig → Text
effective_policy c = if blank c.host_key_policy then codes "accept-new" else c.host_key_policy
