-- ===== src/GitRepoBackup/Local/Catalog.antt =====
-- ListBackups and DeleteBackup of application/git-repo-backup/src/internal/storage/local/catalog.go.
-- Times are a parameter (ParseBackupID rests on package time), and so are the decoder of
-- encoding/json, the process id and the random suffix.
pub mod Deletion
mod Tests
use Prim.Native.String.{◌++◌}
use k8s_at_home.Prelude.{
  ℕ, ◌^◌, String, Bool, true, false, not, ◌||◌, Option, none, some, List, [], ◌∷◌, ◌==◌, ltb,
  str_eq, if◌then◌else◌,
}
use k8s_at_home.GitRepoBackup.Action.{Failure, safe, Action, pure, fail, ◌>>=◌}
use k8s_at_home.GitRepoBackup.Files.{
  Base, base_eq, backups, trash, Place, top, Errno, eexist, enosys, einval, enotty, other_errno,
  FileInfo, Os, FileError, exists, no_replace_unsupported, dir_sync_unsupported, broken, sync_dir,
  rename_no_replace,
}
use k8s_at_home.GitRepoBackup.Manifest.{Manifest, marker_name, manifest_name, schema_version}
use k8s_at_home.GitRepoBackup.Local.{World, call, checked, final_place, first_fault, storage_failed}
use k8s_at_home.GitRepoBackup.Retention.{Backup}

pub data Completeness : Type 0 where
  incomplete complete anomalous : Completeness

-- What the standard library does for the catalog.
pub record Reader : Type 0 where
  pub parse_backup_id : String → Option ℕ
  pub decode : String → Option Manifest
  pub byte_length : String → ℕ
  pub pid : String
  pub random_suffix : String

abbrev pub retention_failed : Failure
retention_failed = safe "retention_failed"

abbrev pub is_complete : Completeness → Bool
is_complete complete = true
is_complete incomplete = false
is_complete anomalous = false

abbrev pub is_anomalous : Completeness → Bool
is_anomalous anomalous = true
is_anomalous incomplete = false
is_anomalous complete = false

-- ContainsPath of a directory of the root and an entry
abbrev pub in_base : Base → Place → Bool
in_base b p = base_eq p.base b

module _ {S : Type 0} (os : Os S String) (reader : Reader) where
  abbrev pub judged : String → Option Manifest → Completeness
  judged id none = anomalous
  judged id (some m) =
      if not (str_eq m.backup_id id) || not (m.schema == schema_version)
      then anomalous
      else complete

  abbrev pub read_as : String → Option String → Completeness
  read_as id none = anomalous
  read_as id (some text) =
      if ltb (2 ^ 20) (reader.byte_length text) then anomalous else judged id (reader.decode text)

  classified : String → Option FileInfo → Action (World S) Completeness
  classified id none = pure incomplete
  classified id (some info) = do
    text ← call (os.read_file (final_place id) manifest_name)
    pure (read_as id text)

  -- classifyComplete
  unfoldable pub classify_complete : String → Action (World S) Completeness
  unfolding classified
  classify_complete id = do
    info ← call (os.lstat_file (some (final_place id)) marker_name)
    classified id info

  listed_one : String → Option ℕ → Action (World S) (List Backup) → Action (World S) (List Backup)
  listed_one id none rest = rest
  listed_one id (some t) rest = do
    c ← classify_complete id
    others ← rest
    pure (
        record { id = id; complete = is_complete c; anomaly = is_anomalous c; started_at = t }
        ∷ others)

  listed : List String → Action (World S) (List Backup)
  unfolding listed_one
  listed [] = pure []
  listed (id ∷ ids) = listed_one id (reader.parse_backup_id id) (listed ids)

  listed_in : Option (List String) → Action (World S) (List Backup)
  unfolding listed
  listed_in none = fail storage_failed
  listed_in (some ids) = listed ids

  -- ListBackups
  unfoldable pub list_backups : Action (World S) (List Backup)
  unfolding listed_in
  list_backups = do entries ← call (os.read_dir backups); listed_in entries

  abbrev pub trash_place : String → Place
  trash_place id = record { base = trash; name = id ++ "-" ++ reader.pid }

  abbrev pub other_trash_place : String → Place
  other_trash_place id = record {
    base = trash;
    name = id ++ "-" ++ reader.pid ++ "-" ++ reader.random_suffix;
  }

  synced_after : Option FileError → Option FileError → Action (World S) (Unit {0})
  synced_after e f =
      if first_fault os e (first_fault os f false) then fail retention_failed else pure tt

  -- What follows the move to the place in the trash.
  trashed : Place → Option FileError → Action (World S) (Unit {0})
  unfolding synced_after
  trashed p (some e) = fail retention_failed
  trashed p none = do
    _ ← checked retention_failed (os.remove_all p)
    e ← call (sync_dir os (top trash))
    f ← call (sync_dir os (top backups))
    synced_after e f

  -- What follows the first attempt to move.
  moved : String → Option FileError → Action (World S) (Unit {0})
  unfolding trashed
  moved id none = trashed (trash_place id) none
  moved id (some exists) = do
    e ← call (rename_no_replace os (final_place id) (other_trash_place id))
    trashed (other_trash_place id) e
  moved id (some no_replace_unsupported) = trashed (trash_place id) (some no_replace_unsupported)
  moved id (some dir_sync_unsupported) = trashed (trash_place id) (some dir_sync_unsupported)
  moved id (some broken) = trashed (trash_place id) (some broken)

  -- The trash directory was made, or was there.
  moved_from : String → Option Errno → Action (World S) (Unit {0})
  unfolding moved
  moved_from id none = do
    e ← call (rename_no_replace os (final_place id) (trash_place id))
    moved id e
  moved_from id (some eexist) = do
    e ← call (rename_no_replace os (final_place id) (trash_place id))
    moved id e
  moved_from id (some enosys) = fail retention_failed
  moved_from id (some einval) = fail retention_failed
  moved_from id (some enotty) = fail retention_failed
  moved_from id (some other_errno) = fail retention_failed

  verified : String → Completeness → Action (World S) (Unit {0})
  unfolding moved_from
  verified id incomplete = fail retention_failed
  verified id anomalous = fail retention_failed
  verified id complete = do made ← call (os.mkdir_base trash); moved_from id made

  allowed : String → Option ℕ → Action (World S) (Unit {0})
  unfolding verified
  allowed id none = fail retention_failed
  allowed id (some t) =
      if not (in_base backups (final_place id))
      then fail retention_failed
      else (do c ← classify_complete id; verified id c)

  -- DeleteBackup
  unfoldable pub delete_backup : Backup → Action (World S) (Unit {0})
  unfolding allowed
  delete_backup b = allowed b.id (reader.parse_backup_id b.id)
