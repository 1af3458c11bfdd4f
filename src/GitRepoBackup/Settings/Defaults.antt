-- ===== src/GitRepoBackup/Settings/Defaults.antt =====
-- applyDefaults of internal/config/defaults.go.
use k8s_at_home.Prelude.{
  ℕ, ◌^◌, Bool, true, false, not, ◌&&◌, Option, none, some, [], ◌∷◌, ◌==◌, if◌then◌else◌, ◌≡◌, refl,
  ap, ◌∙◌, arith, Bool-cases, inl, inr,
}
use k8s_at_home.Prelude.Bytes.{codes, eqb}
use k8s_at_home.GitRepoBackup.Settings.{
  Text, SshConfig, PrepareConfig, BackupConfig, RetentionConfig, Config, blank, effective_policy,
}

-- A field that is left empty, or 0.
abbrev pub or_text : Text → Text → Text
or_text s d = if blank s then d else s

abbrev pub or_number : ℕ → ℕ → ℕ
or_number n d = if n == 0 then d else n

unfoldable pub default_known_hosts : Text → Text
default_known_hosts policy =
    if eqb policy (codes "none")
    then codes "/dev/null"
    else if eqb policy (codes "accept-new")
    then codes "/etc/git-repo-backup/ssh-state/state/known_hosts"
    else codes "/etc/git-repo-backup/ssh/known_hosts"

abbrev pub or_enabled : Option Bool → Option Bool
or_enabled none = some true
or_enabled (some b) = some b

unfoldable pub default_ssh : SshConfig → SshConfig
unfolding default_known_hosts
default_ssh c =
    let policy = or_text c.host_key_policy (codes "accept-new") in
    record {
      enabled = or_enabled c.enabled;
      host_key_policy = policy;
      private_key_file = or_text c.private_key_file (codes "/etc/git-repo-backup/ssh/id");
      known_hosts_file = or_text c.known_hosts_file (default_known_hosts policy);
    }

unfoldable pub default_prepare : Text → PrepareConfig → PrepareConfig
default_prepare policy p = record {
  target_uid = or_number p.target_uid 10001;
  target_gid = or_number p.target_gid 10001;
  input_private_key_file = or_text p.input_private_key_file (codes "/input/ssh/id");
  input_known_hosts_file =
      if eqb policy (codes "pinned")
      then or_text p.input_known_hosts_file (codes "/input/known-hosts/known_hosts")
      else p.input_known_hosts_file;
  known_hosts_state_file =
      if eqb policy (codes "accept-new")
      then or_text p.known_hosts_state_file (codes "/known-hosts-state/state/known_hosts")
      else p.known_hosts_state_file;
  ssh_dir = or_text p.ssh_dir (codes "/prepared-ssh");
  temp_dir = or_text p.temp_dir (codes "/tmp");
}

unfoldable pub default_backup : BackupConfig → BackupConfig
default_backup b = record {
  compression_level = or_number b.compression_level 6;
  max_run_duration = or_text b.max_run_duration (codes "5h30m");
  git_timeout = or_text b.git_timeout (codes "1h");
  min_free_bytes = or_number b.min_free_bytes (2 ^ 30);
}

unfoldable pub default_retention : Bool → RetentionConfig → RetentionConfig
default_retention present r =
    if (r.max_backups == 0) && blank r.max_age && blank r.incomplete_max_age && not present
    then record {
      enabled = true;
      max_backups = 30;
      max_age = codes "720h";
      incomplete_max_age = codes "24h";
    }
    else record r { incomplete_max_age = or_text r.incomplete_max_age (codes "24h") }

unfoldable pub apply_defaults : Config → Config
unfolding default_ssh default_prepare default_backup default_retention
apply_defaults c = record c {
  repositories_file =
      or_text c.repositories_file (codes "/etc/git-repo-backup/repositories/repositories.yaml");
  ssh = default_ssh c.ssh;
  storage = record (c.storage) {
    local_root = or_text c.storage.local_root (codes "/backup");
    s3 = record (c.storage.s3) {
      credentials_dir = or_text c.storage.s3.credentials_dir (codes "/etc/git-repo-backup/s3");
      web_identity_token_dir =
          or_text c.storage.s3.web_identity_token_dir (codes "/etc/git-repo-backup/web-identity");
    };
  };
  workspace_root = or_text c.workspace_root (codes "/workspace");
  cache = record (c.cache) { root = or_text c.cache.root (codes "/backup/cache") };
  prepare = default_prepare (effective_policy (default_ssh c.ssh)) c.prepare;
  backup = default_backup c.backup;
  retention = default_retention c.retention_present c.retention;
  log_level = or_text c.log_level (codes "info");
}

or_text_twice : (s d : Text) → or_text (or_text s d) d ≡ or_text s d
or_text_twice [] d = twice (blank d) d
  where
    twice : (b : Bool) (d : Text) → (if b then d else d) ≡ d
    twice true d = refl
    twice false d = refl
or_text_twice (c ∷ s) d = refl

or_number_twice : (n d : ℕ) → or_number (or_number n d) d ≡ or_number n d
or_number_twice n d = ground arith

or_enabled_twice : (o : Option Bool) → or_enabled (or_enabled o) ≡ or_enabled o
or_enabled_twice none = refl
or_enabled_twice (some b) = refl

default_ssh_twice : (c : SshConfig) → default_ssh (default_ssh c) ≡ default_ssh c
unfolding default_ssh
default_ssh_twice c = simp (or_text_twice, or_enabled_twice)

kept_if :
    (t : Bool) (s d : Text)
    → (if t then or_text (if t then or_text s d else s) d else (if t then or_text s d else s))
      ≡ (if t then or_text s d else s)
kept_if true s d = or_text_twice s d
kept_if false s d = refl

default_prepare_twice :
    (policy : Text) (p : PrepareConfig)
    → default_prepare policy (default_prepare policy p) ≡ default_prepare policy p
unfolding default_prepare
default_prepare_twice policy p = simp (or_text_twice, or_number_twice, kept_if)

default_backup_twice : (b : BackupConfig) → default_backup (default_backup b) ≡ default_backup b
unfolding default_backup
default_backup_twice b = simp (or_text_twice, or_number_twice)

or_text_filled : (s : Text) → blank (or_text s (codes "24h")) ≡ false
or_text_filled [] = refl
or_text_filled (c ∷ s) = refl

third : (a b c : Bool) → (a && b && false && c) ≡ false
third true true c = refl
third true false c = refl
third false b c = refl

default_retention_twice :
    (present : Bool) (r : RetentionConfig)
    → default_retention present (default_retention present r) ≡ default_retention present r
unfolding default_retention
default_retention_twice present r =
    elim (Bool-cases
      ((r.max_backups == 0) && blank r.max_age && blank r.incomplete_max_age && not present)) [
        | inl e ↦ rw e refl
        | inr e ↦
            rw
              (
                e,
                or_text_filled r.incomplete_max_age,
                third (r.max_backups == 0) (blank r.max_age) (not present),
              )
              refl
      ]

prepare_twice :
    (c : Config) → (apply_defaults (apply_defaults c)).prepare ≡ (apply_defaults c).prepare
unfolding apply_defaults
prepare_twice c =
    ap
      (λ s.
        default_prepare (effective_policy s)
          (default_prepare (effective_policy (default_ssh c.ssh)) c.prepare))
      (default_ssh_twice c.ssh)
    ∙ default_prepare_twice (effective_policy (default_ssh c.ssh)) c.prepare

-- Applying the defaults a second time changes nothing.
pub apply_defaults_idempotent : (c : Config) → apply_defaults (apply_defaults c) ≡ apply_defaults c
unfolding apply_defaults
apply_defaults_idempotent c = λ i. record c {
  repositories_file =
      or_text_twice c.repositories_file
        (codes "/etc/git-repo-backup/repositories/repositories.yaml") i;
  ssh = default_ssh_twice c.ssh i;
  storage = record (c.storage) {
    local_root = or_text_twice c.storage.local_root (codes "/backup") i;
    s3 = record (c.storage.s3) {
      credentials_dir =
          or_text_twice c.storage.s3.credentials_dir (codes "/etc/git-repo-backup/s3") i;
      web_identity_token_dir =
          or_text_twice c.storage.s3.web_identity_token_dir
            (codes "/etc/git-repo-backup/web-identity") i;
    };
  };
  workspace_root = or_text_twice c.workspace_root (codes "/workspace") i;
  cache = record (c.cache) { root = or_text_twice c.cache.root (codes "/backup/cache") i };
  prepare = prepare_twice c i;
  backup = default_backup_twice c.backup i;
  retention = default_retention_twice c.retention_present c.retention i;
  log_level = or_text_twice c.log_level (codes "info") i;
}
