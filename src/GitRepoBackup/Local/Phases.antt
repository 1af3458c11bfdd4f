-- ===== src/GitRepoBackup/Local/Phases.antt =====
-- The phases of a run on the local store of
-- application/git-repo-backup/src/internal/storage/local: what holds of the files after Begin, PutArchive,
-- PutMetadata and Abort, whether they succeed or fail.
use k8s_at_home.Prelude.{
  String, Bool, true, false, Option, none, some, ◌≡◌, ◌≢◌, refl, sym, subst, ◌∙◌, ◌⊎◌, inl, inr,
  Bool-cases,
}
use k8s_at_home.GitRepoBackup.Action.{
  not_published, published, publication_unknown, durability_uncertain, Failure, safe, plain,
  After-if, commit_error, Action, pure, fail, ◌>>=◌, After, After-bind, After-pure, After-fail,
  After-guarded,
}
use k8s_at_home.GitRepoBackup.Files.{backups, Place, Os, FileError, write_file_durable}
use k8s_at_home.GitRepoBackup.Files.Laws.{
  View, Same, Quiet, Only, Same-trans, Lawful, sync_dir-Quiet, write_file_durable-Changes,
}
use k8s_at_home.GitRepoBackup.Manifest.{manifest_name, checksums_name, marker_name}
use k8s_at_home.GitRepoBackup.Local.{
  Store, World, RunIdentity, Artifact, final_place, staging_place, in_staging, call, checked,
  get_store, set_store, storage_failed, start, begin, archive_fits, archive_of, put_archive,
  succeeded, metadata_in, put_metadata, removed, abort_of, abort,
}

module _ {S : Type 0} where
  pub After-call :
      {A : Type 0} {P : World S → Type 0} {Q : A → World S → Type 0}
      {F : Failure → World S → Type 0} (op : S → S × A)
      → ((w : World S) → P w → Q (op w.files).1 (record w { files = (op w.files).0 }))
      → After P (call op) Q F
  unfolding call
  After-call op h = record { ends = h }

  -- Where the store is known, so is what follows.
  pub After-store :
      {A : Type 0} {P : World S → Type 0} {Q : A → World S → Type 0}
      {F : Failure → World S → Type 0} (st : Store) (f : Store → Action (World S) A)
      → ((w : World S) → P w → w.store ≡ st)
      → After P (f st) Q F
      → After P (get_store >>= f) Q F
  unfolding get_store ◌>>=◌
  After-store {A} {P} {Q} {F} st f known h = record {
    ends = λ w p. (subst (λ x. After P (f x) Q F) (sym (known w p)) h).ends w p;
  }

  pub After-set :
      {P : World S → Type 0} {Q : Unit {0} → World S → Type 0} {F : Failure → World S → Type 0}
      (st : Store)
      → ((w : World S) → P w → Q tt (record w { store = st }))
      → After P (set_store st) Q F
  unfolding set_store
  After-set st h = record { ends = h }

module _ {S : Type 0} (os : Os S String) (view : View S String) (lawful : Lawful os view)
    (id : RunIdentity) (origin : S) where
  stage : Place
  stage = staging_place id

  final : Place
  final = final_place id.backup_id

  -- No backup has changed.
  abbrev pub Untouched : S → Type 0
  Untouched s = (q : Place) → q.base ≡ backups → Same view origin s q

  -- No other backup has changed.
  abbrev pub Others : S → Type 0
  Others s = (q : Place) → q.base ≡ backups → q ≢ final_place id.backup_id → Same view origin s q

  abbrev pub open_store : Store
  open_store = record {
    backup_id = id.backup_id;
    staging_dir = some (staging_place id);
    published = false;
  }

  -- A backup that is not published.
  abbrev pub Pending : World S → Type 0
  Pending w = Untouched w.files × ((w.store.staging_dir ≡ none) ⊎ (w.store ≡ open_store))

  abbrev pub Staged : World S → Type 0
  Staged w = Untouched w.files × (w.store ≡ open_store)

  abbrev pub Holds : World S → String → String → Type 0
  Holds w n text = view.file w.files (staging_place id) n ≡ some text

  abbrev pub Described : String → String → World S → Type 0
  Described m c w = Staged w × Holds w manifest_name m × Holds w checksums_name c

  -- The backup stands with its metadata and its marker.
  abbrev pub Complete : String → String → String → S → Type 0
  Complete m c k s =
      (view.present s (final_place id.backup_id) ≡ true)
      × (view.file s (final_place id.backup_id) manifest_name ≡ some m)
      × (view.file s (final_place id.backup_id) checksums_name ≡ some c)
      × (view.file s (final_place id.backup_id) marker_name ≡ some k)

  pub not_stage : (q : Place) → q.base ≡ backups → q ≢ staging_place id
  not_stage q b e = cc

  pub Untouched-Only : (s t : S) → Only view (staging_place id) s t → Untouched s → Untouched t
  Untouched-Only s t only h q b = Same-trans view q (h q b) (only q (not_stage q b))

  pub Untouched-Quiet : (s t : S) → Quiet view s t → Untouched s → Untouched t
  Untouched-Quiet s t quiet h q b = Same-trans view q (h q b) (quiet q)

  pub Complete-Quiet :
      (m c k : String) (s t : S) → Quiet view s t → Complete m c k s → Complete m c k t
  Complete-Quiet m c k s t quiet (p, a, b, d) =
      let (same, files) = quiet (final_place id.backup_id) in
      (same ∙ p, files _ ∙ a, files _ ∙ b, files _ ∙ d)

  pub staged-Pending : (w : World S) → Staged w → Pending w
  staged-Pending w (h, e) = (h, inr e)

  After-start :
      (found : Bool) → After Pending (start os id found) (λ a w. Staged w) (λ e w. Pending w)
  unfolding start checked
  After-start true = After-fail _ λ w p. p
  After-start false =
      After-bind {Q = λ a w. Pending w} _ _
        (After-guarded _ _ (λ w p _. (Untouched-Only _ _ (lawful.mkdir_only _ _) p.0, p.1))
          (λ w p _. (Untouched-Only _ _ (lawful.mkdir_only _ _) p.0, p.1)))
        λ _.
          After-bind {Q = λ a w. Pending w} _ _
            (After-guarded _ _
              (λ w p _. (Untouched-Quiet _ _ (lawful.ensure_dir_quiet _ _ _) p.0, p.1))
              (λ w p _. (Untouched-Quiet _ _ (lawful.ensure_dir_quiet _ _ _) p.0, p.1)))
            λ _. After-set _ λ w p. (p.0, refl)

  -- Begin leaves every backup, and prepares the staging directory if it succeeds.
  pub After-begin : After Pending (begin os id) (λ a w. Staged w) (λ e w. Pending w)
  unfolding begin
  After-begin =
      After-bind {Q = λ a w. Pending w} _ _
        (After-call _ λ w p. (Untouched-Quiet _ _ (lawful.lstat_quiet _ _) p.0, p.1))
        λ found. After-start found

  -- PutArchive leaves everything.
  pub After-put_archive :
      (a : Artifact) → After Staged (put_archive os a) (λ x w. Staged w) (λ e w. Pending w)
  unfolding put_archive archive_of
  After-put_archive a =
      After-store open_store _ (λ w p. p.1)
        (After-bind {Q = λ i w. Staged w} _ _
          (After-call _ λ w p. (Untouched-Quiet _ _ (lawful.lstat_file_quiet _ _ _) p.0, p.1))
          λ info.
            After-if (archive_fits os (staging_place id) a info) (pure tt) (fail storage_failed)
              (λ _. After-pure tt λ w p. p) λ _. After-fail _ staged-Pending)

  After-succeeded :
      {P Q : World S → Type 0} (e : Option FileError)
      → ((w : World S) → P w → Staged w)
      → ((w : World S) → e ≡ none → P w → Q w)
      → After P (succeeded os e) (λ a w. Q w) (λ x w. Pending w)
  unfolding succeeded
  After-succeeded none h q = After-pure tt λ w p. q w refl p
  After-succeeded (some f) h q = After-fail _ λ w p. staged-Pending w (h w p)

  -- A file written in the staging directory.
  abbrev Wrote : String → String → Option FileError → World S → Type 0
  Wrote n text e w = Staged w × (e ≡ none → Holds w n text)

  After-write :
      {P : World S → Type 0} (n text : String)
      → ((w : World S) → P w → Staged w)
      → After P
          (call (write_file_durable os (staging_place id) n text))
          (Wrote n text)
          (λ e w. Pending w)
  After-write n text h = After-call _ λ w p.
      let (changes, full) =
        write_file_durable-Changes os view lawful (staging_place id) n text w.files in
      ((Untouched-Only _ _ changes.0 (h w p).0, (h w p).1), full)

  -- Another file of the staging directory stays when one is written.
  After-write_other :
      {P : World S → Type 0} (n text m kept : String)
      → ((w : World S) → P w → Staged w × Holds w m kept)
      → m ≢ n
      → After P
          (call (write_file_durable os (staging_place id) n text))
          (λ e w. Wrote n text e w × Holds w m kept)
          (λ e w. Pending w)
  After-write_other n text m kept h apart = After-call _ λ w p.
      let (changes, full) =
        write_file_durable-Changes os view lawful (staging_place id) n text w.files in
      (
        ((Untouched-Only _ _ changes.0 (h w p).0.0, (h w p).0.1), full),
        changes.2 m apart ∙ (h w p).1,
      )

  -- PutMetadata leaves every backup, and writes both files if it succeeds.
  pub After-put_metadata :
      (m c : String)
      → After Staged (put_metadata os m c) (λ a w. Described m c w) (λ e w. Pending w)
  unfolding put_metadata metadata_in
  After-put_metadata m c =
      After-store open_store _ (λ w p. p.1)
        (After-bind _ _ (After-write manifest_name m λ w p. p) λ e.
          After-bind _ _
            (After-succeeded {Q = λ w. Staged w × Holds w manifest_name m} e (λ w p. p.0)
              λ w none_of p. (p.0, p.1 none_of))
            λ _.
              After-bind _ _
                (After-write_other checksums_name c manifest_name m (λ w p. p) (λ e. cc))
                λ f. After-succeeded f (λ w p. p.0.0) λ w none_of p. (p.0.0, p.1, p.0.1 none_of))

  After-removed :
      (done : Bool)
      → After Pending (removed os (staging_place id) done) (λ a w. Pending w) (λ e w. Pending w)
  unfolding removed ◌>>=◌ get_store set_store call
  After-removed false = After-fail _ λ w p. p
  After-removed true = record {
    ends = λ w p. (Untouched-Quiet _ _ (sync_dir-Quiet os view lawful _ _) p.0, inl refl);
  }

  in_staging-none : (st : Store) → st.staging_dir ≡ none → in_staging st ≡ none
  in_staging-none st e = elim (Bool-cases st.published) [ inl p ↦ rw p refl | inr p ↦ rw p e ]

  After-abort_of :
      (st : Store)
      → ((st.staging_dir ≡ none) ⊎ (st ≡ open_store))
      → After Pending (abort_of os (in_staging st)) (λ a w. Pending w) (λ e w. Pending w)
  unfolding abort_of
  After-abort_of st (inl e) =
      subst (λ x. After Pending (abort_of os x) (λ a w. Pending w) (λ e w. Pending w))
        (sym (in_staging-none st e)) (After-pure tt λ w p. p)
  After-abort_of st (inr e) =
      subst (λ x. After Pending (abort_of os (in_staging x)) (λ a w. Pending w) (λ e w. Pending w))
        (sym e)
        (After-bind _ _ (After-call _ λ w p. (Untouched-Only _ _ (lawful.remove_only _ _) p.0, p.1))
          After-removed)

  -- Abort leaves every backup.
  pub After-abort : After Pending (abort os) (λ a w. Pending w) (λ e w. Pending w)
  unfolding abort get_store ◌>>=◌
  After-abort = record { ends = λ w p. (After-abort_of w.store p.1).ends w p }

  -- A backup that is published.
  abbrev pub Done : String → String → String → World S → Type 0
  Done m c k w = Others w.files × Complete m c k w.files

  -- What a failed Commit means.
  abbrev pub Ended : String → String → String → Failure → World S → Type 0
  Ended m c k (commit_error durability_uncertain code) w = Done m c k w
  Ended m c k (commit_error published code) w = Done m c k w
  Ended m c k (commit_error not_published code) w = Pending w
  Ended m c k (commit_error publication_unknown code) w = Pending w
  Ended m c k (safe code) w = Pending w
  Ended m c k (plain text) w = Pending w
