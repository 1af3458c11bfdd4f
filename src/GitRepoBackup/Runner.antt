-- ===== src/GitRepoBackup/Runner.antt =====
-- One run of the backup job: Run, commit and backupRepository of internal/runner/runner.go and
-- repo.go of application/git-repo-backup/src, from the start of the store's use on. The store is the
-- interface RunStore of internal/storage/storage.go, retention that of internal/retention/run.go.
--
-- Git, archives, the clock and the context are a parameter (internal/gitmirror, internal/archive).
-- Logging is left out, and so is what comes before: preflight, the workspace, the cache.
pub mod Steps
pub mod Published
pub mod Unsupported
pub mod Retained
mod Tests
use k8s_at_home.Prelude.{
  ℕ, String, Bool, true, false, Option, none, some, List, [], ◌∷◌, ◌⊎◌, inl, inr, str_eq,
  if◌then◌else◌,
}
use k8s_at_home.GitRepoBackup.Action.{
  PublishState, not_published, published, durability_uncertain, publication_unknown, Failure, safe,
  commit_error, plain, Action, pure, fail, ◌>>=◌, attempt,
}
use k8s_at_home.GitRepoBackup.Files.{Os}
use k8s_at_home.GitRepoBackup.Manifest.{
  RepositoryEntry, Manifest, SuccessMarker, Encoding, schema_version, archive_path, build_checksums,
  build_marker, sort_repositories,
}
use k8s_at_home.GitRepoBackup.Local.{World, RunIdentity, Artifact, ArchiveFile}
use k8s_at_home.GitRepoBackup.Local as Local
use k8s_at_home.GitRepoBackup.Retention.{Options, SortSlice}
use k8s_at_home.GitRepoBackup.Retention.Catalog.{Catalog, Problem}
use k8s_at_home.GitRepoBackup.Retention.Catalog as Catalog

pub record RunStore (W : Type 0) : Type 0 where
  pub begin : RunIdentity → Action W (Unit {0})
  pub archive_file : String → W → ArchiveFile
  pub put_archive : Artifact → Action W (Unit {0})
  pub put_metadata : String → String → Action W (Unit {0})
  pub commit : SuccessMarker → Action W (Unit {0})
  pub abort : Action W (Unit {0})

-- The local store as a RunStore.
abbrev pub local_store : {S : Type 0} → Os S String → Encoding → RunStore (World S)
local_store os encoding = record {
  begin = Local.begin os;
  archive_file = Local.archive_file os;
  put_archive = Local.put_archive os;
  put_metadata = Local.put_metadata os;
  commit = λ marker. Local.commit os (encoding.encode_marker marker);
  abort = Local.abort os;
}

pub record Repository : Type 0 where
  pub name : String
  pub url : String

pub record HeadState : Type 0 where
  pub symbolic : Bool
  pub ref : String
  pub oid : String

-- What a run asks of Git, of the archiver, of the clock and of its context.
pub record Pipeline (W : Type 0) : Type 0 where
  pub git_version : Action W String
  pub run_error : Action W (Unit {0})
  pub now : W → W × ℕ
  -- the mirror's path, and whether it is thrown away afterwards
  pub prepare_mirror : Repository → Action W (String × Bool)
  pub count_refs : String → Action W ℕ
  pub local_head : String → Action W HeadState
  -- the configuration of the mirror with the placeholder URL, rendered
  pub bare_config : String → Action W String
  -- the archive's digest and size
  pub create_archive : ArchiveFile → String → String → String → Action W (String × ℕ)
  pub remove_all : String → Action W (Unit {0})
  pub remove_file : ArchiveFile → Action W (Unit {0})

-- The entry that backupRepository starts with.
abbrev pub new_entry : String → ℕ → RepositoryEntry
new_entry name started = record {
  name = name;
  archive = archive_path name;
  sha256 = "";
  size_bytes = 0;
  ref_count = 0;
  started_at = started;
  completed_at = 0;
  head_ref = "";
  head_oid = "";
}

-- Whether the backup is published, and the error.
pub record Result (E : Type 0) : Type 0 where
  pub is_published : Bool
  pub error : Option E

module _ {W : Type 0} (store : RunStore W) (pipeline : Pipeline W) (encoding : Encoding)
    (uses_s3 : Bool) where
  -- A deferred call, whose error is dropped.
  abbrev pub deferred : {A : Type 0} → Bool → Action W (Unit {0}) → Action W A → Action W A
  deferred wanted last m w = let (next, r) = m w in if wanted then ((last next).0, r) else (next, r)

  clock : Action W ℕ
  clock w = let (next, t) = pipeline.now w in (next, inr t)

  archived : Repository → RepositoryEntry → String → Action W RepositoryEntry
  archived repo entry mirror = do
    refs ← pipeline.count_refs mirror
    head ← pipeline.local_head mirror
    config ← pipeline.bare_config mirror
    dest ← (λ w. (w, inr (store.archive_file repo.name w)))
    created ← pipeline.create_archive dest mirror repo.name config
    _ ← store.put_archive (record {
      name = repo.name;
      path = dest;
      sha256 = created.0;
      size = created.1;
      ref_count = refs;
    })
    _ ← (if uses_s3 then pipeline.remove_file dest else pure tt)
    finished ← clock
    pure (record entry {
      ref_count = refs;
      head_ref = if head.symbolic then head.ref else "";
      head_oid = if head.symbolic then "" else head.oid;
      sha256 = created.0;
      size_bytes = created.1;
      completed_at = finished;
    })

  -- backupRepository
  unfoldable pub backup_repository : Repository → Action W RepositoryEntry
  unfolding archived clock
  backup_repository repo = do
    started ← clock
    mirror ← pipeline.prepare_mirror repo
    deferred mirror.1 (pipeline.remove_all mirror.0)
        (archived repo (new_entry repo.name started) mirror.0)

  -- The loop over the repositories; the first error ends it.
  backup_each : List Repository → Action W (List RepositoryEntry)
  backup_each [] = pure []
  backup_each (repo ∷ repos) = do
    _ ← pipeline.run_error
    entry ← backup_repository repo
    rest ← backup_each repos
    pure (entry ∷ rest)

  or_failed : Failure → Option String → Action W String
  or_failed e none = fail e
  or_failed e (some text) = pure text

  -- The steps up to the commit; the marker is the one to commit.
  unfoldable pub prepare : RunIdentity → String → List Repository → Action W SuccessMarker
  unfolding backup_each or_failed clock
  prepare id tool repos = do
    _ ← store.begin id
    git ← pipeline.git_version
    entries ← backup_each repos
    _ ← pipeline.run_error
    completed ← clock
    let m : Manifest = record {
      schema = schema_version;
      backup_id = id.backup_id;
      started_at = id.started_at;
      completed_at = completed;
      repositories = sort_repositories entries;
      tool_versions = record { backup = tool; git = git };
    }
    manifest ← or_failed (safe "storage_failed") (encoding.marshal m)
    checksums ← or_failed (plain "checksums") (build_checksums encoding manifest m)
    _ ← store.put_metadata manifest checksums
    pure (build_marker encoding id.backup_id manifest checksums)

  -- Whether the error of a commit says that the backup is there.
  abbrev pub says_published : Failure → Bool
  says_published (commit_error published code) = true
  says_published (commit_error durability_uncertain code) = true
  says_published (commit_error not_published code) = false
  says_published (commit_error publication_unknown code) = false
  says_published (safe code) = false
  says_published (plain text) = false

-- The error of a run: of one of its steps, or of retention.
pub data RunError (E : Type 0) : Type 0 where
  of_step : Failure → RunError E
  of_retention : Problem E → RunError E

module _ {W E : Type 0} (store : RunStore W) (pipeline : Pipeline W) (encoding : Encoding)
    (uses_s3 : Bool) (catalog : Catalog W E) (slice : SortSlice) (options : ℕ → Options) where
  abbrev pub problem : Option (Problem E) → Option (RunError E)
  problem none = none
  problem (some p) = some (of_retention p)

  -- The error comes before the commit, or the commit did not publish: the store is aborted.
  abbrev pub aborted : Failure → W → W × Result (RunError E)
  aborted e w = ((store.abort w).0, record { is_published = false; error = some (of_step e) })

  retained : String → W → W × Result (RunError E)
  retained id w =
      let (timed, t) = pipeline.now w in
      let (last, p) = Catalog.run catalog slice id (options t) timed in
      (last, record { is_published = true; error = problem p })

  after_commit : String → W × (Failure ⊎ Unit {0}) → W × Result (RunError E)
  unfolding retained
  after_commit id (w, inl e) = (w, record { is_published = true; error = some (of_step e) })
  after_commit id (w, inr tt) = retained id w

  concluded : String → W × (Failure ⊎ Unit {0}) → W × Result (RunError E)
  unfolding after_commit
  concluded id (w, inl e) =
      let there : W × Result (RunError E) =
        (w, record { is_published = true; error = some (of_step e) }) in
      if says_published store pipeline encoding uses_s3 e then there else aborted e w
  concluded id (w, inr tt) = after_commit id (pipeline.run_error w)

  prepared : String → W × (Failure ⊎ SuccessMarker) → W × Result (RunError E)
  unfolding concluded
  prepared id (w, inl e) = aborted e w
  prepared id (w, inr marker) = concluded id (store.commit marker w)

  -- Run, from Begin on
  unfoldable pub run : RunIdentity → String → List Repository → W → W × Result (RunError E)
  unfolding prepared prepare
  run id tool repos w =
      prepared id.backup_id (prepare store pipeline encoding uses_s3 id tool repos w)
