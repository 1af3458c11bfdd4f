-- ===== src/GitRepoBackup/Settings/Valid.antt =====
-- What a run configuration is that Config.Validate of internal/config/validate.go accepts, and what
-- the retention of internal/retention/policy.go does under it.
use k8s_at_home.Prelude.{
  ℕ, ◌+◌, ◌^◌, ◌≤◌, ◌<◌, String, Bool, true, false, not, ◌&&◌, ◌||◌, Option, none, some, ◌++◌, ltb,
  ◌==◌, if◌then◌else◌, All, ◌≡◌, refl, subst, ◌⊎◌, inl, inr, arith, Bool-cases,
}
use k8s_at_home.Prelude.Bytes.{codes, eqb, eqb→eq}
use k8s_at_home.Prelude.Checks.{
  ok, ◌>>=◌, ◌>>◌, refuse_if, each, ok-injective, >>=-ok, >>-ok, refuse_if-ok, refuse-then, each-ok,
}
use k8s_at_home.GitRepoBackup.Settings.{Text, Config, Durations, Platform, blank}
use k8s_at_home.GitRepoBackup.Settings.Checks.{
  validate_absolute_path, contains_path, check_not_nested, check_cache_root,
  validate_path_containment, checked_paths, validate_paths, validate_ssh_policy, ten_minutes,
  duration_sum, signed_leb, duration, parse_max_age, validate_durations, validate_storage,
  log_level_known, validate,
}

-- Neither path is the other or stands in it.
pub Apart : Text → Text → Type 0
Apart a b = (contains_path a b ≡ false) × (contains_path b a ≡ false)

not-false : (b : Bool) → not b ≡ false → b ≡ true
not-false true h = refl
not-false false h = cc

check_not_nested-Apart : (a b : Text) → check_not_nested a b ≡ ok tt → Apart a b
unfolding check_not_nested Apart
check_not_nested-Apart a b h =
    let (_, h1) = refuse-then (eqb a b) _ _ _ h in
    let (p, q) = refuse-then (contains_path a b) _ _ _ h1 in
    (p, refuse_if-ok (contains_path b a) _ _ q)

pub record DurationsValid (c : Config) (d : Durations) : Type 0 where
  pub run_positive : 0 < d.max_run_duration
  pub git_positive : 0 < d.git_timeout
  pub incomplete_exceeds :
      (d.max_run_duration + ten_minutes < d.incomplete_max_age)
      ⊎ (2 ^ 63 ≤ d.max_run_duration + ten_minutes)
  pub rule_exists :
      (c.retention.enabled ≡ false) ⊎ ((0 < c.retention.max_backups) ⊎ (0 < d.max_age))

either_zero : (a b : ℕ) → (a == 0 || b == 0) ≡ false → (0 < a) × (0 < b)
either_zero a b h = ground arith

-- Below the largest duration, the sum is the one of numbers.
exceeds :
    (run incomplete : ℕ)
    → signed_leb incomplete (duration_sum run ten_minutes) ≡ false
    → (run + ten_minutes < incomplete) ⊎ (2 ^ 63 ≤ run + ten_minutes)
exceeds run incomplete h = elim (Bool-cases (ltb (run + ten_minutes) (2 ^ 63))) [
  | inl fits ↦ inl (ground (arith, h, fits))
  | inr over ↦ inr (ground (arith, over))
]

module _ (platform : Platform) where
  parse_max_age-blank :
      (text : Text) (age : ℕ)
      → parse_max_age platform text ≡ ok age
      → (blank text ≡ true) ⊎ (0 < age)
  unfolding parse_max_age
  parse_max_age-blank text age h = elim (Bool-cases (blank text)) [
    | inl e ↦ inl e
    | inr e ↦ inr (positive (blank text) (platform.parse_duration text) e h)
  ]
    where
      positive :
          (b : Bool) (o : Option ℕ)
          → b ≡ false
          → (if b
              then ok 0
              else (duration platform o >>= λ age.
                  (refuse_if (age == 0) "retention.maxAge must be positive when set" >> ok age)))
            ≡ ok age
          → 0 < age
      positive true o e h = cc
      positive false none e h = cc
      positive false (some d) e h =
          let (z, k) = refuse-then (d == 0) _ (ok d) _ h in
          subst (λ n. 0 < n) (ok-injective k) (ground arith)

  rule :
      (on : Bool) (n : ℕ) (empty : Bool) (age : ℕ)
      → (on && (n == 0) && empty) ≡ false
      → (empty ≡ true) ⊎ (0 < age)
      → (on ≡ false) ⊎ ((0 < n) ⊎ (0 < age))
  rule on n empty age h (inr k) = inr (inr k)
  rule on n empty age h (inl k) = ground arith

  validate_durations-Valid :
      (c : Config) (d : Durations) → validate_durations platform c ≡ ok d → DurationsValid c d
  unfolding validate_durations
  validate_durations-Valid c d h =
      let (run, _, h1) =
        >>=-ok (duration platform (platform.parse_duration c.backup.max_run_duration)) _ _ h in
      let (git, _, h2) =
        >>=-ok (duration platform (platform.parse_duration c.backup.git_timeout)) _ _ h1 in
      let (z, h3) = refuse-then (run == 0 || git == 0) _ _ _ h2 in
      let (age, aged, h4) = >>=-ok (parse_max_age platform c.retention.max_age) _ _ h3 in
      let (inc, _, h5) =
        >>=-ok (duration platform (platform.parse_duration c.retention.incomplete_max_age)) _ _
          h4 in
      let (_, h6) = refuse-then (inc == 0) _ _ _ h5 in
      let (r, h7) =
        refuse-then
          (c.retention.enabled && c.retention.max_backups == 0 && blank c.retention.max_age) _ _ _
          h6 in
      let (l, h8) = refuse-then (signed_leb inc (duration_sum run ten_minutes)) _ _ _ h7 in
      let (p, q) = either_zero run git z in
      subst (DurationsValid c) (ok-injective h8) (record {
        run_positive = p;
        git_positive = q;
        incomplete_exceeds = exceeds run inc l;
        rule_exists = rule _ _ _ age r (parse_max_age-blank _ age aged);
      })

  pub record Usable (c : Config) (d : Durations) : Type 0 where
    pub durations : DurationsValid c d
    pub paths : All (λ p. validate_absolute_path p ≡ ok tt) (checked_paths c)
    pub local_apart :
        (eqb c.storage.kind (codes "local") ≡ false) ⊎ Apart c.storage.local_root c.workspace_root
    pub cache_placed :
        (c.cache.enabled ≡ false)
        ⊎ ((c.cache.root ≡ c.storage.local_root ++ codes "/cache")
            ⊎ Apart c.cache.root c.workspace_root)
    pub compression : (1 ≤ c.backup.compression_level) × (c.backup.compression_level ≤ 9)
    pub log_known : log_level_known c.log_level ≡ true

  -- A cache in the local root stands at its one allowed place; any other is apart.
  placed :
      (b : Bool) (local cache workspace : Text) (text : String)
      → (if b
          then refuse_if (not (eqb cache (local ++ codes "/cache"))) text
          else check_not_nested cache local >> check_not_nested cache workspace)
        ≡ ok tt
      → (cache ≡ local ++ codes "/cache") ⊎ Apart cache workspace
  placed true local cache workspace text h =
      inl (eqb→eq cache _ (not-false _ (refuse_if-ok _ _ _ h)))
  placed false local cache workspace text h =
      inr (check_not_nested-Apart cache workspace (>>-ok (check_not_nested cache local) _ _ h).1)

  cached :
      (t : Bool) (local cache workspace : Text)
      → (if t then check_cache_root local cache workspace else ok tt) ≡ ok tt
      → (t ≡ false) ⊎ ((cache ≡ local ++ codes "/cache") ⊎ Apart cache workspace)
  unfolding check_cache_root
  cached false local cache workspace h = inl refl
  cached true local cache workspace h =
      inr (placed (eqb cache local || contains_path local cache) local cache workspace _ h)

  remote :
      (t : Bool) (local cache workspace : Text)
      → (if t then check_not_nested cache workspace else ok tt) ≡ ok tt
      → (t ≡ false) ⊎ ((cache ≡ local ++ codes "/cache") ⊎ Apart cache workspace)
  remote false local cache workspace h = inl refl
  remote true local cache workspace h = inr (inr (check_not_nested-Apart cache workspace h))

  Contained : Config → Type 0
  Contained c =
      ((eqb c.storage.kind (codes "local") ≡ false) ⊎ Apart c.storage.local_root c.workspace_root)
      × ((c.cache.enabled ≡ false)
          ⊎ ((c.cache.root ≡ c.storage.local_root ++ codes "/cache")
              ⊎ Apart c.cache.root c.workspace_root))

  by_kind :
      (b on : Bool) (local cache workspace : Text)
      → (if b
          then check_not_nested local workspace
            >> (if on then check_cache_root local cache workspace else ok tt)
          else if on
          then check_not_nested cache workspace
          else ok tt)
        ≡ ok tt
      → ((b ≡ false) ⊎ Apart local workspace)
        × ((on ≡ false) ⊎ ((cache ≡ local ++ codes "/cache") ⊎ Apart cache workspace))
  by_kind true on local cache workspace h =
      let (n, k) = >>-ok (check_not_nested local workspace) _ _ h in
      (inr (check_not_nested-Apart local workspace n), cached on local cache workspace k)
  by_kind false on local cache workspace h = (inl refl, remote on local cache workspace h)

  validate_paths-Contained :
      (c : Config)
      → validate_paths c ≡ ok tt
      → All (λ p. validate_absolute_path p ≡ ok tt) (checked_paths c) × Contained c
  unfolding validate_paths validate_path_containment Contained
  validate_paths-Contained c h =
      let (p, q) = >>-ok (each validate_absolute_path (checked_paths c)) _ _ h in
      (each-ok validate_absolute_path (checked_paths c) p, by_kind _ c.cache.enabled _ _ _ q)

  -- A configuration that Validate accepts has positive durations, a limit for incomplete runs that
  -- exceeds that of a run by more than ten minutes, unless the limit of a run and ten minutes exceed
  -- the largest duration of 64 bits, and a retention rule if retention is on; its
  -- paths are absolute and canonical, the local root and the workspace stand apart, a cache stands
  -- in its place in the local root or apart from the workspace, the compression level is from 1 to
  -- 9, and the log level is known.
  pub validate-Usable : (c : Config) (d : Durations) → validate platform c ≡ ok d → Usable c d
  unfolding validate Contained
  validate-Usable c d h =
      let (_, h1) = refuse-then (not (c.schema_version == 1)) _ _ _ h in
      let (_, h2) = >>-ok (validate_ssh_policy c) _ _ h1 in
      let (p, h3) = >>-ok (validate_paths c) _ _ h2 in
      let (_, h4) = >>-ok (validate_storage platform c) _ _ h3 in
      let (e, t, h5) = >>=-ok (validate_durations platform c) _ _ h4 in
      let (l, h6) =
        refuse-then (ltb c.backup.compression_level 1 || ltb 9 c.backup.compression_level) _ _ _
          h5 in
      let (_, h7) = refuse-then (c.backup.min_free_bytes == 0) _ _ _ h6 in
      let (k, h8) = refuse-then (not (log_level_known c.log_level)) _ _ _ h7 in
      let (_, h9) = refuse-then (c.prepare.target_uid == 0 || c.prepare.target_gid == 0) _ _ _ h8 in
      let (paths, (local, cache)) = validate_paths-Contained c p in
      subst (Usable c) (ok-injective h9) (record {
        durations = validate_durations-Valid c e t;
        paths = paths;
        local_apart = local;
        cache_placed = cache;
        compression = (ground arith, ground arith);
        log_known = not-false _ k;
      })
