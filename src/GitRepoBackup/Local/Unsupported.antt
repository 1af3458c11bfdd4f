-- ===== src/GitRepoBackup/Local/Unsupported.antt =====
-- Directories that cannot be synced: SyncDir of
-- application/git-repo-backup/src/internal/safefs/sync.go answers that this is unsupported, and
-- WriteFileDurable passes the answer on to PutMetadata of internal/storage/local/local.go.
use k8s_at_home.Prelude.{String, Option, none, some, ◌≡◌, ◌≢◌, refl, ◌⊎◌, inl, inr}
use k8s_at_home.GitRepoBackup.Action.{
  Failure, Action, Outcome, After, After-bind, After-pure, After-fail,
}
use k8s_at_home.GitRepoBackup.Files.{Directory, Place, einval, Os, FileError}
use k8s_at_home.GitRepoBackup.Files.Laws.{write_file_durable-some}
use k8s_at_home.GitRepoBackup.Manifest.{manifest_name}
use k8s_at_home.GitRepoBackup.Local.{get_store, in_staging, succeeded, metadata_in, put_metadata}
use k8s_at_home.GitRepoBackup.Local.Phases.{After-call}

-- Nothing is said of the state, or of the failure.
pub Outcome-any :
    {S A : Type 0} (r : S × (Failure ⊎ A)) → Outcome (λ a s. Unit {0}) (λ e s. Unit {0}) r
Outcome-any (s, inl e) = tt
Outcome-any (s, inr a) = tt

pub After-any :
    {S A : Type 0} (m : Action S A) → After (λ s. Unit {0}) m (λ a s. Unit {0}) (λ e s. Unit {0})
After-any m = record { ends = λ s p. Outcome-any (m s) }

module _ {S : Type 0} (os : Os S String)
    (unsupported : (d : Directory) (s : S) → (os.sync_open_dir d s).1 ≡ some einval) where
  not_succeeded :
      (e : Option FileError) → After (λ w. e ≢ none) (succeeded os e) (λ a w. ⊥) (λ f w. Unit {0})
  unfolding succeeded
  not_succeeded none = After-pure tt λ w h. h refl
  not_succeeded (some e) = After-fail _ λ w h. tt

  metadata_in-fails :
      (m c : String) (p : Option Place)
      → After (λ w. Unit {0}) (metadata_in os m c p) (λ a w. ⊥) (λ e w. Unit {0})
  unfolding metadata_in
  metadata_in-fails m c none = After-fail _ λ w h. tt
  metadata_in-fails m c (some p) =
      After-bind {Q = λ e w. e ≢ none} _ _
        (After-call _ λ w h. write_file_durable-some os unsupported p manifest_name m w.files)
        λ e. After-bind {Q = λ a w. ⊥} _ _ (not_succeeded e) λ a. record { ends = λ s h. absurd h }

  -- PutMetadata never succeeds.
  pub put_metadata-fails :
      (m c : String) → After (λ w. Unit {0}) (put_metadata os m c) (λ a w. ⊥) (λ e w. Unit {0})
  unfolding put_metadata
  put_metadata-fails m c =
      After-bind _ _ (After-any get_store) λ st. metadata_in-fails m c (in_staging st)
