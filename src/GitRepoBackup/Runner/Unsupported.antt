-- ===== src/GitRepoBackup/Runner/Unsupported.antt =====
-- A run on a local store whose file system cannot sync directories: internal/runner/runner.go over
-- internal/storage/local and internal/safefs of application/git-repo-backup/src.
use k8s_at_home.Prelude.{ℕ, String, Bool, false, some, List, ◌≡◌, refl, ◌⊎◌, inl, inr}
use k8s_at_home.GitRepoBackup.Action.{Failure, Outcome, After, After-bind}
use k8s_at_home.GitRepoBackup.Files.{Directory, einval, Os}
use k8s_at_home.GitRepoBackup.Manifest.{Encoding, SuccessMarker}
use k8s_at_home.GitRepoBackup.Local.{World, RunIdentity}
use k8s_at_home.GitRepoBackup.Local.Unsupported.{After-any, put_metadata-fails}
use k8s_at_home.GitRepoBackup.Retention.{Options, SortSlice}
use k8s_at_home.GitRepoBackup.Retention.Catalog.{Catalog}
use k8s_at_home.GitRepoBackup.Runner.{local_store, Repository, Pipeline, prepare, prepared, run}

module _ {S E : Type 0} (os : Os S String)
    (unsupported : (d : Directory) (s : S) → (os.sync_open_dir d s).1 ≡ some einval)
    (encoding : Encoding) (pipeline : Pipeline (World S)) (uses_s3 : Bool)
    (catalog : Catalog (World S) E) (slice : SortSlice) (options : ℕ → Options) where
  prepare-fails :
      (id : RunIdentity) (tool : String) (repos : List Repository)
      → After
          (λ w. Unit {0})
          (prepare (local_store os encoding) pipeline encoding uses_s3 id tool repos)
          (λ a w. ⊥)
          (λ e w. Unit {0})
  unfolding prepare
  prepare-fails id tool repos = After-bind _ _ (After-any _) λ _.
      After-bind _ _ (After-any _) λ git. After-bind _ _ (After-any _) λ entries.
        After-bind _ _ (After-any _) λ _. After-bind _ _ (After-any _) λ completed.
          After-bind _ _ (After-any _) λ manifest. After-bind _ _ (After-any _) λ checksums.
            After-bind _ _ (put_metadata-fails os unsupported manifest checksums)
              λ _. record { ends = λ w h. absurd h }

  prepared-unpublished :
      (id : String) (r : World S × (Failure ⊎ SuccessMarker))
      → Outcome (λ a w. ⊥) (λ e w. Unit {0}) r
      → (prepared
          (local_store os encoding)
          pipeline
          encoding
          uses_s3
          catalog
          slice
          options
          id
          r).1.is_published
        ≡ false
  unfolding prepared
  prepared-unpublished id (w, inl e) h = refl
  prepared-unpublished id (w, inr marker) h = absurd h

  -- On a file system whose answer to every sync of a directory is that it does not support it, no
  -- run on the local store publishes a backup.
  pub run-unpublished :
      (id : RunIdentity) (tool : String) (repos : List Repository) (w : World S)
      → (run
          (local_store os encoding)
          pipeline
          encoding
          uses_s3
          catalog
          slice
          options
          id
          tool
          repos
          w).1.is_published
        ≡ false
  unfolding run
  run-unpublished id tool repos w =
      prepared-unpublished id.backup_id _ ((prepare-fails id tool repos).ends w tt)
