-- ===== src/GitRepoBackup/Runner/Published.antt =====
-- A run on the local store, with any failures of the file system, of Git, of the archiver and of its
-- context: internal/runner/runner.go over internal/storage/local of application/git-repo-backup/src.
use k8s_at_home.Prelude.{
  ℕ, String, Bool, true, false, Option, none, some, List, ◌≡◌, refl, sym, ap, ◌∙◌, ◌⊎◌, inl, inr,
  Bool-cases,
}
use k8s_at_home.GitRepoBackup.Action.{
  not_published, published, publication_unknown, durability_uncertain, Failure, safe, plain,
  commit_error, Outcome, After, After-weaken,
}
use k8s_at_home.GitRepoBackup.Files.{backups, Place, Os}
use k8s_at_home.GitRepoBackup.Files.Laws.{View, Same, Lawful}
use k8s_at_home.GitRepoBackup.Manifest.{SuccessMarker, Encoding, build_marker}
use k8s_at_home.GitRepoBackup.Local.{World, RunIdentity, final_place, commit}
use k8s_at_home.GitRepoBackup.Local.Phases.{Pending, Described, Done, Ended, After-abort}
use k8s_at_home.GitRepoBackup.Local.Committed.{After-commit, After-commit_none}
use k8s_at_home.GitRepoBackup.Retention.{Options, Backup, IncompleteRun, SortSlice}
use k8s_at_home.GitRepoBackup.Retention.Catalog.{Catalog, Respects, run-Respects}
use k8s_at_home.GitRepoBackup.Runner.{
  local_store, Repository, Pipeline, Result, says_published, RunError, aborted, retained,
  after_commit, concluded, prepared, run,
}
use k8s_at_home.GitRepoBackup.Runner.Steps.{Harmless, Leaves, Prepared, After-prepare}

module _ {S : Type 0} (view : View S String) (encoding : Encoding) (id : RunIdentity) where
  -- The backup stands under its id: a manifest, its checksums, and the marker that was built of both.
  abbrev pub Stands : World S → Type 0
  Stands w =
      (m : String) × (c : String) × (k : String) × (encoding.encode_marker
          (build_marker encoding id.backup_id m c)
        ≡ some k)
      × (view.present w.files (final_place id.backup_id) ≡ true)
      × (view.file w.files (final_place id.backup_id) "manifest.json" ≡ some m)
      × (view.file w.files (final_place id.backup_id) "checksums.sha256" ≡ some c)
      × (view.file w.files (final_place id.backup_id) "_SUCCESS" ≡ some k)

  -- No backup has changed.
  abbrev pub Unchanged : World S → World S → Type 0
  Unchanged w x = (q : Place) → q.base ≡ backups → Same view w.files x.files q

  -- The result says what happened.
  abbrev pub Truthful : {E : Type 0} → World S → World S × Result (RunError E) → Type 0
  Truthful w (x, r) = (r.is_published ≡ true → Stands x) × (r.is_published ≡ false → Unchanged w x)

  Stands-Leaves : (w x : World S) → Leaves view w x → Stands w → Stands x
  Stands-Leaves w x (same, files) (m, c, k, e, there, a, b, d) =
      let (p, f) = files (final_place id.backup_id) refl in
      (m, c, k, e, p ∙ there, f _ ∙ a, f _ ∙ b, f _ ∙ d)

module _ {S E : Type 0} (os : Os S String) (view : View S String) (lawful : Lawful os view)
    (encoding : Encoding) (pipeline : Pipeline (World S)) (harmless : Harmless view pipeline)
    (uses_s3 : Bool) (catalog : Catalog (World S) E) (slice : SortSlice) (options : ℕ → Options)
    (id : RunIdentity) (w : World S) where
  -- What an error of the commit means.
  Fate : Failure → World S → Type 0
  Fate e x =
      (says_published (local_store os encoding) pipeline encoding uses_s3 e ≡ true
        → Stands view encoding id x)
      × (says_published (local_store os encoding) pipeline encoding uses_s3 e ≡ false
          → Pending os view lawful id w.files x)

  Done-Stands :
      (m c k : String) (x : World S)
      → encoding.encode_marker (build_marker encoding id.backup_id m c) ≡ some k
      → Done os view lawful id w.files m c k x
      → Stands view encoding id x
  Done-Stands m c k x e (others, (there, a, b, d)) = (m, c, k, e, there, a, b, d)

  Ended-Fate :
      (m c k : String) (e : Failure) (x : World S)
      → encoding.encode_marker (build_marker encoding id.backup_id m c) ≡ some k
      → Ended os view lawful id w.files m c k e x
      → Fate e x
  unfolding Fate
  Ended-Fate m c k (commit_error durability_uncertain code) x h d =
      (λ t. Done-Stands m c k x h d, λ f. cc)
  Ended-Fate m c k (commit_error published code) x h d = (λ t. Done-Stands m c k x h d, λ f. cc)
  Ended-Fate m c k (commit_error not_published code) x h d = (λ t. cc, λ f. d)
  Ended-Fate m c k (commit_error publication_unknown code) x h d = (λ t. cc, λ f. d)
  Ended-Fate m c k (safe code) x h d = (λ t. cc, λ f. d)
  Ended-Fate m c k (plain text) x h d = (λ t. cc, λ f. d)

  unpublished-Fate :
      (e : Failure) (x : World S)
      → e ≡ commit_error not_published "storage_failed"
      → Pending os view lawful id w.files x
      → Fate e x
  unfolding Fate
  unpublished-Fate e x same p = rw same (λ t. cc, λ f. p)

  After-commit_of :
      (m c : String) (text : Option String)
      → encoding.encode_marker (build_marker encoding id.backup_id m c) ≡ text
      → After
          (Described os view lawful id w.files m c)
          (commit os text)
          (λ a x. Stands view encoding id x)
          Fate
  After-commit_of m c none h = record {
    ends = λ x p.
        (After-weaken {R = λ a y. Stands view encoding id y} _
            (After-commit_none os view lawful id w.files) (λ a y b. absurd b)
            (λ e y b. unpublished-Fate e y b.0 b.1)).ends
          x p.0;
  }
  After-commit_of m c (some k) h =
      After-weaken _ (After-commit os view lawful id w.files m c k)
        (λ a y d. Done-Stands m c k y h d) (λ e y d. Ended-Fate m c k e y h d)

  aborted-Truthful :
      (e : Failure) (x : World S)
      → Pending os view lawful id w.files x
      → Truthful view encoding id {E = E} w
          (aborted (local_store os encoding) pipeline encoding uses_s3 catalog slice options e x)
  aborted-Truthful e x p = (λ t. cc, λ f. left _ ((After-abort os view lawful id w.files).ends x p))
    where
      left :
          (r : World S × (Failure ⊎ Unit {0}))
          → Outcome
              (λ a y. Pending os view lawful id w.files y)
              (λ y z. Pending os view lawful id w.files z)
              r
          → Unchanged view encoding id w r.0
      left (y, inl f) h = h.0
      left (y, inr a) h = h.0

  module _ (Listed : Backup → Type 0) (Found : IncompleteRun → Type 0)
      (respects : (x : World S)
        → Respects catalog slice
            (Stands view encoding id)
            Listed
            Found
            id.backup_id
            (options (pipeline.now x).1)) where
    retained-Stands :
        (x : World S)
        → Stands view encoding id x
        → Truthful view encoding id w (
            retained
              (local_store os encoding)
              pipeline
              encoding
              uses_s3
              catalog
              slice
              options
              id.backup_id
              x)
    unfolding retained
    retained-Stands x h = (
      λ t.
          run-Respects catalog slice id.backup_id (options (pipeline.now x).1) (respects x)
            (pipeline.now x).0 (Stands-Leaves view encoding id x _ (harmless.now x) h),
      λ f. cc,
    )

    after_commit-Stands :
        (r : World S × (Failure ⊎ Unit {0}))
        → Stands view encoding id r.0
        → Truthful view encoding id w (
            after_commit
              (local_store os encoding)
              pipeline
              encoding
              uses_s3
              catalog
              slice
              options
              id.backup_id
              r)
    unfolding after_commit
    after_commit-Stands (x, inl e) h = (λ t. h, λ f. cc)
    after_commit-Stands (x, inr tt) h = retained-Stands x h

    concluded-Truthful :
        (r : World S × (Failure ⊎ Unit {0}))
        → Outcome (λ a x. Stands view encoding id x) Fate r
        → Truthful view encoding id w (
            concluded
              (local_store os encoding)
              pipeline
              encoding
              uses_s3
              catalog
              slice
              options
              id.backup_id
              r)
    unfolding concluded Fate
    concluded-Truthful (x, inl e) h =
        elim (Bool-cases (says_published (local_store os encoding) pipeline encoding uses_s3 e)) [
          | inl p ↦ rw p (λ t. h.0 p, λ f. cc)
          | inr p ↦ rw p (aborted-Truthful e x (h.1 p))
        ]
    concluded-Truthful (x, inr tt) h =
        after_commit-Stands (pipeline.run_error x)
          (Stands-Leaves view encoding id x _ (harmless.run_error x) h)

    prepared-Truthful :
        (r : World S × (Failure ⊎ SuccessMarker))
        → Outcome
            (Prepared os view lawful encoding pipeline harmless uses_s3 id w.files)
            (λ e x. Pending os view lawful id w.files x)
            r
        → Truthful view encoding id w (
            prepared
              (local_store os encoding)
              pipeline
              encoding
              uses_s3
              catalog
              slice
              options
              id.backup_id
              r)
    unfolding prepared
    prepared-Truthful (x, inl e) h = aborted-Truthful e x h
    prepared-Truthful (x, inr marker) (m, c, same, described) = concluded-Truthful _ (
        (After-commit_of m c (encoding.encode_marker marker)
            (sym (ap encoding.encode_marker same))).ends
          x described)

    -- Whichever calls of the file system, of Git, of the archiver and of retention fail: if the result
    -- of a run on a local store that is not in use says that the backup is published, then the
    -- backup stands under its id with a manifest, its checksums and the marker of both; if it
    -- says that it is not, then every backup is as before, this id included. The file system does
    -- what its documentation says, Git, the archiver and the clock leave the backups and the store
    -- alone, and listing and each deletion of a listed backup or incomplete run that the retention
    -- policy allows at its time leave the metadata of this id standing, as retention over the
    -- local store does while the run is younger than its limit. Archives are not part of the
    -- statement.
    pub run-Truthful :
        (tool : String) (repos : List Repository)
        → w.store.staging_dir ≡ none
        → Truthful view encoding id w (
            run
              (local_store os encoding)
              pipeline
              encoding
              uses_s3
              catalog
              slice
              options
              id
              tool
              repos
              w)
    unfolding run
    run-Truthful tool repos idle = prepared-Truthful _ (
        (After-prepare os view lawful encoding pipeline harmless uses_s3 id w.files tool repos).ends
          w (λ q b. (refl, λ n. refl), inl idle))
