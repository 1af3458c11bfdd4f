-- ===== src/GitRepoBackup/Settings/Checks.antt =====
-- Config.Validate with its parts, of internal/config/validate.go and validate_s3.go, and
-- ValidateAbsolutePath and ContainsPath of internal/safefs/paths.go.
use k8s_at_home.Prelude.{
  ℕ, ◌+◌, ◌%◌, ◌^◌, Bool, true, false, not, ◌&&◌, ◌||◌, Option, none, some, List, [], ◌∷◌, ◌++◌,
  ltb, leb, ◌==◌, if◌then◌else◌,
}
use k8s_at_home.Prelude.Bytes.{codes, eqb, has_prefix, holds, contains, last_is, split}
use k8s_at_home.Prelude.Checks.{Result, ok, err, ◌>>=◌, ◌>>◌, refuse_if, each}
use k8s_at_home.GitRepoBackup.Settings.{
  Text, S3Storage, Config, Durations, EndpointUrl, Platform, blank, is_enabled, effective_policy,
}

abbrev pub control : ℕ → Bool
control c = ltb c 32 || c == 127

abbrev pub dotted : Text → Bool
dotted s = eqb s (codes ".") || eqb s (codes "..")

-- The parts after the leading slash are canonical.
abbrev pub parts_bad : List Text → Bool
parts_bad [] = false
parts_bad (p ∷ ps) = let rest = parts_bad ps in (blank p || dotted p || rest)

abbrev pub after_root : List Text → List Text
after_root ([] ∷ ps) = ps
after_root ps = ps

abbrev pub any_control : Text → Bool
any_control [] = false
any_control (c ∷ s) = let rest = any_control s in (control c || rest)

unfoldable pub validate_absolute_path : Text → Result (Unit {0})
validate_absolute_path path = do
  refuse_if (blank path) "must not be empty"
  refuse_if (not (has_prefix (codes "/") path)) "must be an absolute path"
  refuse_if (eqb path (codes "/")) "must not be the filesystem root"
  refuse_if (any_control path) "must not contain control characters"
  refuse_if (parts_bad (after_root (split b'/' path)))
      "must be a canonical path without '.', '..', or empty segments"

abbrev pub ensure_trailing_slash : Text → Text
ensure_trailing_slash p = if last_is b'/' p then p else p ++ codes "/"

unfoldable pub contains_path : Text → Text → Bool
contains_path parent child =
    if eqb parent child then true else has_prefix (ensure_trailing_slash parent) child

unfoldable pub check_not_nested : Text → Text → Result (Unit {0})
unfolding contains_path
check_not_nested a b = do
  refuse_if (eqb a b) "must not be the same path"
  refuse_if (contains_path a b) "must not be inside"
  refuse_if (contains_path b a) "must not be inside"

unfoldable pub check_cache_root : Text → Text → Text → Result (Unit {0})
unfolding check_not_nested contains_path
check_cache_root local cache workspace =
    if eqb cache local || contains_path local cache
    then refuse_if (not (eqb cache (local ++ codes "/cache")))
        "cache.root inside storage.local.root must be exactly <local-root>/cache"
    else (do check_not_nested cache local; check_not_nested cache workspace)

unfoldable pub validate_path_containment : Config → Result (Unit {0})
unfolding check_not_nested check_cache_root
validate_path_containment c =
    if eqb c.storage.kind (codes "local")
    then (do
      check_not_nested c.storage.local_root c.workspace_root
      if c.cache.enabled
          then check_cache_root c.storage.local_root c.cache.root c.workspace_root
          else ok tt)
    else if c.cache.enabled
    then check_not_nested c.cache.root c.workspace_root
    else ok tt

abbrev pub when : Bool → List Text → List Text
when true paths = paths
when false paths = []

-- The paths that are checked, in order.
unfoldable pub checked_paths : Config → List Text
checked_paths c =
    let policy = effective_policy c.ssh in
    c.repositories_file
    ∷ c.workspace_root
    ∷ c.prepare.temp_dir
    ∷ (when (is_enabled c.ssh) (
          c.ssh.private_key_file
          ∷ c.ssh.known_hosts_file
          ∷ c.prepare.input_private_key_file
          ∷ c.prepare.ssh_dir
          ∷ (when (eqb policy (codes "pinned") || not (blank c.prepare.input_known_hosts_file))
                (c.prepare.input_known_hosts_file ∷ [])
              ++ when (eqb policy (codes "accept-new")) (c.prepare.known_hosts_state_file ∷ [])))
        ++ when (eqb c.storage.kind (codes "local")) (c.storage.local_root ∷ [])
        ++ when (eqb c.storage.kind (codes "s3")) (
            c.storage.s3.credentials_dir
            ∷ c.storage.s3.web_identity_token_dir
            ∷ when (not (blank c.storage.s3.ca_bundle_file)) (c.storage.s3.ca_bundle_file ∷ []))
        ++ when c.cache.enabled (c.cache.root ∷ []))

unfoldable pub validate_paths : Config → Result (Unit {0})
unfolding checked_paths validate_absolute_path validate_path_containment
validate_paths c = do each validate_absolute_path (checked_paths c); validate_path_containment c

unfoldable pub validate_ssh_policy : Config → Result (Unit {0})
validate_ssh_policy c =
    let policy = effective_policy c.ssh in
    refuse_if
      (not (
        eqb policy (codes "pinned")
        || eqb policy (codes "accept-new")
        || eqb policy (codes "none")))
      "ssh.hostKeyPolicy must be pinned, accept-new, or none"
    >> (if not (is_enabled c.ssh)
        then ok tt
        else if eqb policy (codes "pinned")
        then refuse_if (blank c.prepare.input_known_hosts_file)
            "prepare.inputKnownHostsFile is required for pinned host keys"
        else if eqb policy (codes "accept-new")
        then refuse_if (blank c.prepare.known_hosts_state_file)
            "prepare.knownHostsStateFile is required for accept-new host keys"
        else ok tt)

unfoldable pub validate_encryption : S3Storage → Result (Unit {0})
validate_encryption s =
    if blank s.server_side_encrypt || eqb s.server_side_encrypt (codes "AES256")
    then refuse_if (not (blank s.kms_key_id))
        "storage.s3.kmsKeyId must be empty unless serverSideEncryption is aws:kms"
    else if eqb s.server_side_encrypt (codes "aws:kms")
    then refuse_if (blank s.kms_key_id)
        "storage.s3.kmsKeyId is required when serverSideEncryption is aws:kms"
    else err "storage.s3.serverSideEncryption must be empty, AES256, or aws:kms"

unfoldable pub validate_credentials : S3Storage → Result (Unit {0})
validate_credentials s =
    if eqb s.credentials_mode (codes "secret")
    then ok tt
    else if eqb s.credentials_mode (codes "workloadIdentity")
    then refuse_if (blank s.role_arn) "storage.s3.roleArn is required for workloadIdentity mode"
    else err "storage.s3.credentialsMode must be secret or workloadIdentity"

abbrev pub ten_minutes : ℕ
ten_minutes = 600000000000

-- The sum of two durations as Go computes it, the 64 bits of a signed number: from 2 ^ 63 on, the
-- number is negative.
abbrev pub duration_sum : ℕ → ℕ → ℕ
duration_sum a b = (a + b) % 2 ^ 64

abbrev pub is_negative : ℕ → Bool
is_negative a = leb (2 ^ 63) a

-- a <= b of signed numbers
abbrev pub signed_leb : ℕ → ℕ → Bool
signed_leb a b =
    if is_negative a then not (is_negative b) || leb a b else not (is_negative b) && leb a b

abbrev pub log_level_known : Text → Bool
log_level_known level =
    eqb level (codes "debug")
    || eqb level (codes "info")
    || eqb level (codes "warn")
    || eqb level (codes "error")

module _ (platform : Platform) where
  unfoldable pub validate_prefix : Text → Result (Unit {0})
  validate_prefix prefix = do
    refuse_if (blank prefix) "storage.s3.prefix is required"
    refuse_if
        (not (eqb prefix (platform.trim_space prefix))
          || has_prefix (codes "/") prefix
          || last_is b'/' prefix)
        "storage.s3.prefix must be relative without leading or trailing slashes"
    refuse_if (holds 92 prefix || contains (codes "//") prefix)
        "storage.s3.prefix must not contain backslashes or empty segments"
    each (λ c. refuse_if (control c) "storage.s3.prefix must not contain control characters") prefix
    each (λ s. refuse_if (dotted s) "storage.s3.prefix must not contain '.' or '..' segments")
        (split b'/' prefix)

  unfoldable pub endpoint_url_ok : Bool → Option EndpointUrl → Result (Unit {0})
  endpoint_url_ok allow none = err "storage.s3.endpoint is not a valid URL"
  endpoint_url_ok allow (some u) = do
    let scheme = platform.to_lower u.scheme
    if eqb scheme (codes "https")
        then ok tt
        else if eqb scheme (codes "http")
        then refuse_if (not allow)
            "storage.s3.endpoint must use https unless storage.s3.allowInsecureHttp is true"
        else err "storage.s3.endpoint must use https or explicitly allow http"
    refuse_if u.has_user "storage.s3.endpoint must not contain userinfo"
    refuse_if (not (blank u.path) && not (eqb u.path (codes "/")))
        "storage.s3.endpoint must not contain a path"
    refuse_if (not (blank u.raw_query) || not (blank u.fragment))
        "storage.s3.endpoint must not contain a query or fragment"
    refuse_if (blank u.hostname) "storage.s3.endpoint must contain a host"

  unfoldable pub validate_endpoint : Text → Bool → Result (Unit {0})
  unfolding endpoint_url_ok
  validate_endpoint endpoint allow =
      if blank endpoint then ok tt else endpoint_url_ok allow (platform.parse_url endpoint)

  unfoldable pub validate_s3 : S3Storage → Result (Unit {0})
  unfolding validate_prefix validate_endpoint validate_credentials validate_encryption
  validate_s3 s = do
    refuse_if (blank s.bucket) "storage.s3.bucket is required"
    refuse_if (holds b'/' s.bucket || has_prefix (codes "s3://") s.bucket)
        "storage.s3.bucket must be a bare bucket name"
    refuse_if (blank s.region) "storage.s3.region is required"
    validate_prefix s.prefix
    validate_endpoint s.endpoint s.allow_insecure_http
    validate_credentials s
    validate_encryption s

  -- time.ParseDuration with the error of errDuration
  abbrev pub duration : Option ℕ → Result ℕ
  duration none = err "invalid duration (use Go duration syntax such as 24h, 30m, 10s)"
  duration (some d) = ok d

  unfoldable pub parse_max_age : Text → Result ℕ
  parse_max_age text = if blank text then ok 0 else (do
    age ← duration (platform.parse_duration text)
    refuse_if (age == 0) "retention.maxAge must be positive when set"
    ok age)

  unfoldable pub validate_durations : Config → Result Durations
  unfolding parse_max_age
  validate_durations c = do
    run ← duration (platform.parse_duration c.backup.max_run_duration)
    git ← duration (platform.parse_duration c.backup.git_timeout)
    refuse_if (run == 0 || git == 0) "backup.maxRunDuration and backup.gitTimeout must be positive"
    age ← parse_max_age c.retention.max_age
    incomplete ← duration (platform.parse_duration c.retention.incomplete_max_age)
    refuse_if (incomplete == 0) "retention.incompleteMaxAge must be positive"
    refuse_if (c.retention.enabled && c.retention.max_backups == 0 && blank c.retention.max_age)
        "retention requires maxBackups or maxAge when enabled"
    refuse_if (signed_leb incomplete (duration_sum run ten_minutes))
        "retention.incompleteMaxAge must exceed backup.maxRunDuration by at least 10m"
    ok (record {
      max_run_duration = run;
      git_timeout = git;
      max_age = age;
      incomplete_max_age = incomplete;
    })

  unfoldable pub validate_storage : Config → Result (Unit {0})
  unfolding validate_s3
  validate_storage c =
      if eqb c.storage.kind (codes "local")
      then ok tt
      else if eqb c.storage.kind (codes "s3")
      then validate_s3 c.storage.s3
      else err "storage.type must be local or s3"

  unfoldable pub validate : Config → Result Durations
  unfolding validate_ssh_policy validate_paths validate_storage validate_durations
  validate c = do
    refuse_if (not (c.schema_version == 1)) "unsupported schemaVersion"
    validate_ssh_policy c
    validate_paths c
    validate_storage c
    durations ← validate_durations c
    refuse_if (ltb c.backup.compression_level 1 || ltb 9 c.backup.compression_level)
        "backup.compressionLevel must be between 1 and 9"
    refuse_if (c.backup.min_free_bytes == 0) "backup.minFreeBytes must be positive"
    refuse_if (not (log_level_known c.log_level))
        "log.level must be one of debug, info, warn, error"
    refuse_if (c.prepare.target_uid == 0 || c.prepare.target_gid == 0)
        "prepare.targetUID and prepare.targetGID must be positive"
    ok durations
