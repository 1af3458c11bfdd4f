-- ===== src/GitRepoBackup/Local.antt =====
-- The local backup store: internal/storage/local/local.go and commit.go of
-- application/git-repo-backup/src, with the records of internal/storage/storage.go. New, which takes
-- the lock, and Close, which gives it back, are outside; a warning that is only logged is nothing.
pub mod Phases
pub mod Committed
pub mod Catalog
pub mod Incomplete
pub mod Unsupported
use Prim.Native.String.{◌++◌}
use k8s_at_home.Prelude.{
  ℕ, String, Bool, true, false, not, ◌&&◌, ◌||◌, Option, none, some, List, [], ◌∷◌, ◌⊎◌, inl, inr,
  ◌==◌, str_eq, if◌then◌else◌,
}
use k8s_at_home.GitRepoBackup.Action.{
  PublishState, not_published, durability_uncertain, Failure, safe, commit_error, Action, pure,
  fail, ◌>>=◌, guarded,
}
use k8s_at_home.GitRepoBackup.Files.{
  Base, base_eq, backups, staging, Place, Directory, top, at, FileInfo, Os, FileError, exists,
  no_replace_unsupported, dir_sync_unsupported, broken, sync_dir, rename_no_replace,
  write_file_durable,
}
use k8s_at_home.GitRepoBackup.Manifest.{
  SuccessMarker, manifest_name, checksums_name, marker_name, repositories_dir, archive_path,
}

-- The fields of `Store` that change; no staging directory is the empty path.
pub record Store : Type 0 where
  pub backup_id : String
  pub staging_dir : Option Place
  pub published : Bool

pub record World (S : Type 0) : Type 0 where
  pub store : Store
  pub files : S

pub record RunIdentity : Type 0 where
  pub backup_id : String
  pub owner_uuid : String
  pub started_at : ℕ

-- An archive, by the directory and the name of its file.
abbrev pub ArchiveFile : Type 0
ArchiveFile = Option Place × String

pub record Artifact : Type 0 where
  pub name : String
  pub path : ArchiveFile
  pub sha256 : String
  pub size : ℕ
  pub ref_count : ℕ

-- ContainsPath of a directory and a file in one
abbrev pub contains : Place → Option Place → Bool
contains p none = false
contains p (some q) = base_eq p.base q.base && str_eq p.name q.name

abbrev pub final_place : String → Place
final_place id = record { base = backups; name = id }

abbrev pub staging_place : RunIdentity → Place
staging_place id = record { base = staging; name = id.backup_id ++ "-" ++ id.owner_uuid }

-- The store in the state that PutArchive, PutMetadata and Commit want.
abbrev pub in_staging : Store → Option Place
in_staging st = if st.published then none else st.staging_dir

module _ {S : Type 0} where
  -- A call on the files.
  unfoldable pub call : {A : Type 0} → (S → S × A) → Action (World S) A
  call op w = let (next, a) = op w.files in (record w { files = next }, inr a)

  -- A call on the files whose failure becomes the error `e`.
  unfoldable pub checked : Failure → (S → S × Bool) → Action (World S) (Unit {0})
  unfolding guarded
  checked e op = guarded e (λ w. let (next, a) = op w.files in (record w { files = next }, a))

  unfoldable pub get_store : Action (World S) Store
  get_store w = (w, inr w.store)

  unfoldable pub set_store : Store → Action (World S) (Unit {0})
  set_store st w = (record w { store = st }, inr tt)

abbrev pub storage_failed : Failure
storage_failed = safe "storage_failed"

abbrev pub unpublished : String → Failure
unpublished code = commit_error not_published code

-- renameError
abbrev pub rename_error : FileError → String
rename_error exists = "publish_conflict"
rename_error no_replace_unsupported = "filesystem_capability_missing"
rename_error dir_sync_unsupported = "storage_failed"
rename_error broken = "storage_failed"

module _ {S : Type 0} (os : Os S String) where
  start : RunIdentity → Bool → Action (World S) (Unit {0})
  start id true = fail (safe "publish_conflict")
  start id false = do
    _ ← checked storage_failed (os.mkdir (staging_place id))
    _ ← checked storage_failed (os.ensure_dir (staging_place id) repositories_dir)
    set_store (record {
      backup_id = id.backup_id;
      staging_dir = some (staging_place id);
      published = false;
    })

  -- Begin
  unfoldable pub begin : RunIdentity → Action (World S) (Unit {0})
  unfolding start
  begin id = do found ← call (os.lstat (final_place id.backup_id)); start id found

  -- ArchivePath
  abbrev pub archive_file : String → World S → ArchiveFile
  archive_file name w = (w.store.staging_dir, archive_path name)

  abbrev pub archive_fits : Place → Artifact → Option FileInfo → Bool
  archive_fits p a none = false
  archive_fits p a (some info) = info.is_regular && contains p a.path.0 && (info.size == a.size)

  archive_of : Artifact → Option Place → Action (World S) (Unit {0})
  archive_of a none = fail storage_failed
  archive_of a (some p) = do
    info ← call (os.lstat_file a.path.0 a.path.1)
    if archive_fits p a info then pure tt else fail storage_failed

  -- PutArchive
  unfoldable pub put_archive : Artifact → Action (World S) (Unit {0})
  unfolding archive_of
  put_archive a = do st ← get_store; archive_of a (in_staging st)

  succeeded : Option FileError → Action (World S) (Unit {0})
  succeeded none = pure tt
  succeeded (some e) = fail storage_failed

  metadata_in : String → String → Option Place → Action (World S) (Unit {0})
  metadata_in manifest checksums none = fail storage_failed
  metadata_in manifest checksums (some p) = do
    e ← call (write_file_durable os p manifest_name manifest)
    _ ← succeeded e
    f ← call (write_file_durable os p checksums_name checksums)
    succeeded f

  -- PutMetadata
  unfoldable pub put_metadata : String → String → Action (World S) (Unit {0})
  unfolding metadata_in succeeded
  put_metadata manifest checksums = do
    st ← get_store
    metadata_in manifest checksums (in_staging st)

  abbrev pub first_fault : Option FileError → Bool → Bool
  first_fault none rest = rest
  first_fault (some dir_sync_unsupported) rest = rest
  first_fault (some exists) rest = true
  first_fault (some no_replace_unsupported) rest = true
  first_fault (some broken) rest = true

  -- syncParents: whether one of the directories failed to sync
  sync_parents : List Base → Action (World S) Bool
  sync_parents [] = pure false
  sync_parents (b ∷ bs) = do
    e ← call (sync_dir os (top b))
    rest ← sync_parents bs
    pure (first_fault e rest)

  parents_synced : Bool → Action (World S) (Unit {0})
  parents_synced true = fail (commit_error durability_uncertain "storage_failed")
  parents_synced false = pure tt

  renamed : String → Option FileError → Action (World S) (Unit {0})
  unfolding sync_parents parents_synced
  renamed id (some e) = fail (unpublished (rename_error e))
  renamed id none = do
    _ ← set_store (record { backup_id = id; staging_dir = none; published = true })
    failed ← sync_parents (staging ∷ backups ∷ [])
    parents_synced failed

  marked : Place → Option FileError → Action (World S) (Unit {0})
  unfolding renamed
  marked p (some e) = fail (unpublished "storage_failed")
  marked p none = do
    _ ← call (sync_dir os (at p))
    st ← get_store
    e ← call (rename_no_replace os p (final_place st.backup_id))
    renamed st.backup_id e

  publish_from : Option String → Option Place → Action (World S) (Unit {0})
  unfolding marked
  publish_from marker none = fail (unpublished "storage_failed")
  publish_from none (some p) = fail (unpublished "storage_failed")
  publish_from (some text) (some p) = do
    e ← call (write_file_durable os p marker_name text)
    marked p e

  -- Commit, of the marker as it is encoded
  unfoldable pub commit : Option String → Action (World S) (Unit {0})
  unfolding publish_from
  commit marker = do st ← get_store; publish_from marker (in_staging st)

  removed : Place → Bool → Action (World S) (Unit {0})
  removed p false = fail storage_failed
  removed p true = do
    st ← get_store
    _ ← set_store (record st { staging_dir = none })
    _ ← call (sync_dir os (top p.base))
    pure tt

  abort_of : Option Place → Action (World S) (Unit {0})
  unfolding removed
  abort_of none = pure tt
  abort_of (some p) = do done ← call (os.remove_all p); removed p done

  -- Abort
  unfoldable pub abort : Action (World S) (Unit {0})
  unfolding abort_of
  abort = do st ← get_store; abort_of (in_staging st)
