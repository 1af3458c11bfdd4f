-- ===== src/GitRepoBackup/Local/Incomplete.antt =====
-- ListIncomplete and DeleteIncomplete of
-- application/git-repo-backup/src/internal/storage/local/catalog.go: runs that
-- left something behind.
pub mod Kept
use k8s_at_home.Prelude.{
  ℕ, String, Bool, true, false, Option, none, some, List, [], ◌∷◌, ◌++◌, str_eq, if◌then◌else◌, All,
  ◌≡◌, ◌≢◌, refl, sym, ap, ◌∙◌, ◌⊎◌, inl, inr,
}
use k8s_at_home.GitRepoBackup.Action.{
  Failure, Action, pure, fail, ◌>>=◌, After, After-bind, After-pure, After-fail, After-if,
  After-guarded,
}
use k8s_at_home.GitRepoBackup.Files.{
  Base, backups, staging, trash, Place, top, FileInfo, Os, FileError, exists,
  no_replace_unsupported, dir_sync_unsupported, broken, sync_dir,
}
use k8s_at_home.GitRepoBackup.Files.Laws.{
  View, Same, Quiet, Only, Same-trans, Quiet-trans, Lawful, sync_dir-Quiet,
}
use k8s_at_home.GitRepoBackup.Manifest.{marker_name}
use k8s_at_home.GitRepoBackup.Local.{World, call, checked, storage_failed}
use k8s_at_home.GitRepoBackup.Local.Phases.{After-call}
use k8s_at_home.GitRepoBackup.Local.Catalog.{Reader, retention_failed}
use k8s_at_home.GitRepoBackup.Retention.{IncompleteRun}

-- What the standard library does with the paths under the root.
pub record Locator (S : Type 0) : Type 0 where
  -- filepath.Join of a directory of the root and an entry
  pub join : Place → String
  -- the entry of a directory of the root that a location is, if it is one
  pub place : String → Option Place
  pub place-join : (p : Place) → place (join p) ≡ some p
  -- os.IsNotExist of the error of ReadDir
  pub is_not_exist : Base → S → Bool
  -- what stands before strings.LastIndex of a dash
  pub before_last_dash : String → Option String

module _ {S : Type 0} (os : Os S String) (reader : Reader) (locator : Locator S) where
  -- stagingIDPart
  abbrev pub staging_id_part : String → String
  staging_id_part name = elim (locator.before_last_dash name) [ none ↦ "" | some id ↦ id ]

  abbrev pub id_of : Base → String → String
  id_of backups name = name
  id_of staging name = staging_id_part name
  id_of trash name = staging_id_part name

  abbrev pub found_in : Place → String → ℕ → IncompleteRun
  found_in p id t = record { id = id; started_at = t; location = locator.join p }

  -- A backup that has its marker is skipped.
  unmarked :
      IncompleteRun
      → Action (World S) (List IncompleteRun)
      → Option FileInfo
      → Action (World S) (List IncompleteRun)
  unmarked r rest none = do others ← rest; pure (r ∷ others)
  unmarked r rest (some info) = rest

  kept_in :
      Base
      → Place
      → IncompleteRun
      → Action (World S) (List IncompleteRun)
      → Action (World S) (List IncompleteRun)
  unfolding unmarked
  kept_in backups p r rest = do
    info ← call (os.lstat_file (some p) marker_name)
    unmarked r rest info
  kept_in staging p r rest = do others ← rest; pure (r ∷ others)
  kept_in trash p r rest = do others ← rest; pure (r ∷ others)

  collect_one :
      Base
      → String
      → Option ℕ
      → Action (World S) (List IncompleteRun)
      → Action (World S) (List IncompleteRun)
  unfolding kept_in
  collect_one b name none rest = rest
  collect_one b name (some t) rest =
      let p : Place = record { base = b; name = name } in
      if str_eq (id_of b name) "" then rest else kept_in b p (found_in p (id_of b name) t) rest

  collect_each : Base → List String → Action (World S) (List IncompleteRun)
  unfolding collect_one
  collect_each b [] = pure []
  collect_each b (name ∷ names) =
      collect_one b name (reader.parse_backup_id (id_of b name)) (collect_each b names)

  collect_in : Base → Option (List String) → Action (World S) (List IncompleteRun)
  unfolding collect_each
  collect_in b none w = (if locator.is_not_exist b w.files then pure [] else fail storage_failed) w
  collect_in b (some names) w = collect_each b names w

  collect : Base → Action (World S) (List IncompleteRun)
  unfolding collect_in
  collect b = do names ← call (os.read_dir b); collect_in b names

  -- ListIncomplete
  unfoldable pub list_incomplete : Action (World S) (List IncompleteRun)
  unfolding collect
  list_incomplete = do
    staged ← collect staging
    trashed ← collect trash
    unfinished ← collect backups
    pure (staged ++ trashed ++ unfinished)

  synced : Option FileError → Action (World S) (Unit {0})
  synced none = pure tt
  synced (some dir_sync_unsupported) = pure tt
  synced (some exists) = fail retention_failed
  synced (some no_replace_unsupported) = fail retention_failed
  synced (some broken) = fail retention_failed

  removed : Option Place → Action (World S) (Unit {0})
  unfolding synced
  removed none = fail retention_failed
  removed (some p) = do
    _ ← checked retention_failed (os.remove_all p)
    e ← call (sync_dir os (top p.base))
    synced e

  -- DeleteIncomplete, of a location right in a directory of the root
  unfoldable pub delete_incomplete : IncompleteRun → Action (World S) (Unit {0})
  unfolding removed
  delete_incomplete r = removed (locator.place r.location)
