-- ===== src/GitRepoBackup/Files.antt =====
-- The file system under a backup root: the calls of the operating system, which are a parameter,
-- and the functions of application/git-repo-backup/src/internal/safefs over them (write.go,
-- rename.go, sync.go).
--
-- A backup, a staging or a trash directory is a `Place`: <root>/backups/<name>,
-- <root>/.staging/<name> or <root>/.trash/<name>. A file in it has a name relative to it.
pub mod Laws
pub mod Sample
use k8s_at_home.Prelude.{
  ℕ, String, Bool, true, false, not, Option, none, some, List, ◌≡◌, ◌≢◌, refl, if◌then◌else◌,
}

pub data Base : Type 0 where
  backups staging trash : Base

abbrev pub base_eq : Base → Base → Bool
base_eq backups backups = true
base_eq staging staging = true
base_eq trash trash = true
base_eq _ _ = false

pub record Place : Type 0 where
  pub base : Base
  pub name : String

pub data Directory : Type 0 where
  top : Base → Directory
  at : Place → Directory

pub data Errno : Type 0 where
  eexist enosys einval enotty other_errno : Errno

-- What Lstat says of a file.
pub record FileInfo : Type 0 where
  pub is_regular : Bool
  pub size : ℕ

-- Calls that answer a truth value say whether they succeeded.
pub record Os (S Body : Type 0) : Type 0 where
  pub lstat : Place → S → S × Bool
  -- in the working directory, where there is no place
  pub lstat_file : Option Place → String → S → S × Option FileInfo
  pub mkdir : Place → S → S × Bool
  -- EnsureDir on a directory inside the place
  pub ensure_dir : Place → String → S → S × Bool
  -- OpenFile with O_CREATE and O_EXCL
  pub open_new : Place → String → S → S × Bool
  pub write : Place → String → Body → S → S × Bool
  pub sync_file : Place → String → S → S × Bool
  pub close_file : Place → String → S → S × Bool
  pub open_dir : Directory → S → S × Bool
  pub sync_open_dir : Directory → S → S × Option Errno
  pub renameat2 : Place → Place → S → S × Option Errno
  pub remove_all : Place → S → S × Bool
  pub read_file : Place → String → S → S × Option Body
  pub read_dir : Base → S → S × Option (List String)
  -- of a directory of the root, which may be there
  pub mkdir_base : Base → S → S × Option Errno

-- An error of SyncDir, of WriteFileDurable or of RenameNoReplace.
pub data FileError : Type 0 where
  exists no_replace_unsupported dir_sync_unsupported broken : FileError

module _ {S Body : Type 0} (os : Os S Body) where
  abbrev pub sync_fault : Option Errno → Option FileError
  sync_fault none = none
  sync_fault (some einval) = some dir_sync_unsupported
  sync_fault (some enotty) = some dir_sync_unsupported
  sync_fault (some eexist) = some broken
  sync_fault (some enosys) = some broken
  sync_fault (some other_errno) = some broken

  -- SyncDir
  unfoldable pub sync_dir : Directory → S → S × Option FileError
  sync_dir d s =
      let (opened, done) = os.open_dir d s in
      let (synced, e) = os.sync_open_dir d opened in
      if done then (synced, sync_fault e) else (opened, some broken)

  abbrev pub rename_fault : Option Errno → Option FileError
  rename_fault none = none
  rename_fault (some eexist) = some exists
  rename_fault (some enosys) = some no_replace_unsupported
  rename_fault (some einval) = some no_replace_unsupported
  rename_fault (some enotty) = some no_replace_unsupported
  rename_fault (some other_errno) = some broken

  -- RenameNoReplace
  unfoldable pub rename_no_replace : Place → Place → S → S × Option FileError
  rename_no_replace old new s = let (next, e) = os.renameat2 old new s in (next, rename_fault e)

  close_written : Place → String → S → S × Option FileError
  unfolding sync_dir
  close_written p n s =
      let (closed, done) = os.close_file p n s in
      if done then sync_dir (at p) closed else (closed, some broken)

  sync_written : Place → String → S → S × Option FileError
  unfolding close_written
  sync_written p n s =
      let (synced, done) = os.sync_file p n s in
      if done then close_written p n synced else ((os.close_file p n synced).0, some broken)

  write_opened : Place → String → Body → S → S × Option FileError
  unfolding sync_written
  write_opened p n text s =
      let (wrote, done) = os.write p n text s in
      if done then sync_written p n wrote else ((os.close_file p n wrote).0, some broken)

  -- WriteFileDurable
  unfoldable pub write_file_durable : Place → String → Body → S → S × Option FileError
  unfolding write_opened
  write_file_durable p n text s =
      let (opened, done) = os.open_new p n s in
      if done then write_opened p n text opened else (opened, some broken)
