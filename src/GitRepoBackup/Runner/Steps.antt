-- ===== src/GitRepoBackup/Runner/Steps.antt =====
-- The steps of a run on the local store up to its commit: internal/runner/runner.go over internal/storage/local of application/git-repo-backup/src.
use k8s_at_home.Prelude.{
  String, Bool, true, false, Option, none, some, List, [], ◌∷◌, ◌≡◌, refl, sym, subst, ◌∙◌, ◌⊎◌,
  inl, inr, if◌then◌else◌,
}
use k8s_at_home.GitRepoBackup.Action.{
  Failure, Action, pure, Outcome, After, After-bind, After-pure, After-fail, After-if,
}
use k8s_at_home.GitRepoBackup.Files.{backups, Place, Os}
use k8s_at_home.GitRepoBackup.Files.Laws.{View, Same, Same-trans, Lawful}
use k8s_at_home.GitRepoBackup.Manifest.{RepositoryEntry, SuccessMarker, Encoding, build_marker}
use k8s_at_home.GitRepoBackup.Local.{World, RunIdentity, ArchiveFile}
use k8s_at_home.GitRepoBackup.Local.Phases.{
  Pending, Staged, Described, After-begin, After-put_archive, After-put_metadata,
}
use k8s_at_home.GitRepoBackup.Runner.{
  local_store, Repository, Pipeline, new_entry, deferred, clock, archived, backup_repository,
  backup_each, or_failed, prepare,
}

module _ {S : Type 0} (view : View S String) where
  -- A call that changes neither a backup nor what the store knows.
  abbrev pub Leaves : World S → World S → Type 0
  Leaves w x = (x.store ≡ w.store) × ((q : Place) → q.base ≡ backups → Same view w.files x.files q)

  abbrev pub Spares : {A : Type 0} → Action (World S) A → Type 0
  Spares m = (w : World S) → Leaves w (m w).0

  -- Git, the archiver, the clock and the context do not touch the backups.
  pub record Harmless (pipeline : Pipeline (World S)) : Type 0 where
    pub git_version : Spares pipeline.git_version
    pub run_error : Spares pipeline.run_error
    pub now : (w : World S) → Leaves w (pipeline.now w).0
    pub prepare_mirror : (r : Repository) → Spares (pipeline.prepare_mirror r)
    pub count_refs : (m : String) → Spares (pipeline.count_refs m)
    pub local_head : (m : String) → Spares (pipeline.local_head m)
    pub bare_config : (m : String) → Spares (pipeline.bare_config m)
    pub create_archive :
        (f : ArchiveFile) (m n c : String) → Spares (pipeline.create_archive f m n c)
    pub remove_all : (m : String) → Spares (pipeline.remove_all m)
    pub remove_file : (f : ArchiveFile) → Spares (pipeline.remove_file f)

module _ {S : Type 0} (os : Os S String) (view : View S String) (lawful : Lawful os view)
    (encoding : Encoding) (pipeline : Pipeline (World S)) (harmless : Harmless view pipeline)
    (uses_s3 : Bool) (id : RunIdentity) (origin : S) where
  -- A step between Begin and PutMetadata.
  abbrev Step : {A : Type 0} → Action (World S) A → Type 0
  Step {A} m =
      After (Staged os view lawful id origin) m (λ a w. Staged os view lawful id origin w)
        (λ e w. Pending os view lawful id origin w)

  Leaves-Staged :
      (w x : World S)
      → Leaves view w x
      → Staged os view lawful id origin w
      → Staged os view lawful id origin x
  Leaves-Staged w x (same, files) (h, e) = (λ q b. Same-trans view q (h q b) (files q b), same ∙ e)

  Leaves-Pending :
      (w x : World S)
      → Leaves view w x
      → Pending os view lawful id origin w
      → Pending os view lawful id origin x
  Leaves-Pending w x (same, files) (h, inl e) = (
    λ q b. Same-trans view q (h q b) (files q b),
    inl (subst (λ s. s.staging_dir ≡ none) (sym same) e),
  )
  Leaves-Pending w x (same, files) (h, inr e) =
      (λ q b. Same-trans view q (h q b) (files q b), inr (same ∙ e))

  either :
      {A : Type 0} (r : World S × (Failure ⊎ A))
      → Staged os view lawful id origin r.0
      → Outcome
          (λ a w. Staged os view lawful id origin w)
          (λ e w. Pending os view lawful id origin w)
          r
  either (w, inl e) h = (h.0, inr h.1)
  either (w, inr a) h = h

  Step-Spares : {A : Type 0} (m : Action (World S) A) → Spares view m → Step m
  Step-Spares m spares = record { ends = λ w h. either (m w) (Leaves-Staged w _ (spares w) h) }

  cleaned :
      {A : Type 0} (r : World S × (Failure ⊎ A)) (x : World S)
      → Leaves view r.0 x
      → Outcome
          (λ a w. Staged os view lawful id origin w)
          (λ e w. Pending os view lawful id origin w)
          r
      → Outcome
          (λ a w. Staged os view lawful id origin w)
          (λ e w. Pending os view lawful id origin w)
          (x, r.1)
  cleaned (w, inl e) x leaves h = Leaves-Pending w x leaves h
  cleaned (w, inr a) x leaves h = Leaves-Staged w x leaves h

  Step-deferred :
      {A : Type 0} (wanted : Bool) (last : Action (World S) (Unit {0})) (m : Action (World S) A)
      → Spares view last
      → Step m
      → Step (deferred (local_store os encoding) pipeline encoding uses_s3 wanted last m)
  Step-deferred true last m spares h = record {
    ends = λ w p. cleaned (m w) _ (spares (m w).0) (h.ends w p);
  }
  Step-deferred false last m spares h = record { ends = λ w p. h.ends w p }

  Step-clock : Step (clock (local_store os encoding) pipeline encoding uses_s3)
  unfolding clock
  Step-clock = Step-Spares _ harmless.now

  Step-remove : (dest : ArchiveFile) → Step (if uses_s3 then pipeline.remove_file dest else pure tt)
  Step-remove dest =
      After-if uses_s3 _ _ (λ _. Step-Spares _ (harmless.remove_file dest))
        λ _. After-pure tt λ w p. p

  Step-archived :
      (repo : Repository) (entry : RepositoryEntry) (mirror : String)
      → Step (archived (local_store os encoding) pipeline encoding uses_s3 repo entry mirror)
  unfolding archived
  Step-archived repo entry mirror =
      After-bind _ _ (Step-Spares _ (harmless.count_refs mirror)) λ refs.
        After-bind _ _ (Step-Spares _ (harmless.local_head mirror)) λ head.
          After-bind _ _ (Step-Spares _ (harmless.bare_config mirror)) λ config.
            After-bind _ _ (Step-Spares _ λ w. (refl, λ q b. (refl, λ n. refl))) λ dest.
              After-bind _ _ (Step-Spares _ (harmless.create_archive dest mirror repo.name config))
                λ created. After-bind _ _ (After-put_archive os view lawful id origin _) λ _.
                  After-bind _ _ (Step-remove dest)
                    λ _. After-bind _ _ Step-clock λ finished. After-pure _ λ w p. p

  Step-backup_repository :
      (repo : Repository)
      → Step (backup_repository (local_store os encoding) pipeline encoding uses_s3 repo)
  unfolding backup_repository
  Step-backup_repository repo = After-bind _ _ Step-clock λ started.
      After-bind _ _ (Step-Spares _ (harmless.prepare_mirror repo)) λ mirror.
        Step-deferred mirror.1 (pipeline.remove_all mirror.0)
          (archived (local_store os encoding) pipeline encoding uses_s3 repo
            (new_entry repo.name started) mirror.0)
          (harmless.remove_all mirror.0) (Step-archived repo (new_entry repo.name started) mirror.0)

  Step-backup_each :
      (repos : List Repository)
      → Step (backup_each (local_store os encoding) pipeline encoding uses_s3 repos)
  unfolding backup_each
  Step-backup_each [] = After-pure [] λ w p. p
  Step-backup_each (repo ∷ repos) = After-bind _ _ (Step-Spares _ harmless.run_error) λ _.
      After-bind _ _ (Step-backup_repository repo)
        λ entry. After-bind _ _ (Step-backup_each repos) λ rest. After-pure _ λ w p. p

  Step-or_failed :
      (e : Failure) (text : Option String)
      → Step (or_failed (local_store os encoding) pipeline encoding uses_s3 e text)
  unfolding or_failed
  Step-or_failed e none = After-fail e λ w p. (p.0, inr p.1)
  Step-or_failed e (some text) = After-pure text λ w p. p

  -- The metadata of the marker stands in the staging directory.
  abbrev pub Prepared : SuccessMarker → World S → Type 0
  Prepared marker w =
      (m : String) × (c : String) × (marker ≡ build_marker encoding id.backup_id m c)
      × Described os view lawful id origin m c w

  pub After-prepare :
      (tool : String) (repos : List Repository)
      → After
          (Pending os view lawful id origin)
          (prepare (local_store os encoding) pipeline encoding uses_s3 id tool repos)
          Prepared
          (λ e w. Pending os view lawful id origin w)
  unfolding prepare
  After-prepare tool repos = After-bind _ _ (After-begin os view lawful id origin) λ _.
      After-bind _ _ (Step-Spares _ harmless.git_version) λ git.
        After-bind _ _ (Step-backup_each repos) λ entries.
          After-bind _ _ (Step-Spares _ harmless.run_error) λ _.
            After-bind _ _ Step-clock λ completed. After-bind _ _ (Step-or_failed _ _) λ manifest.
              After-bind _ _ (Step-or_failed _ _) λ checksums.
                After-bind _ _ (After-put_metadata os view lawful id origin manifest checksums)
                  λ _. After-pure _ λ w p. (manifest, checksums, refl, p)
