-- ===== src/GitRepoBackup/Retention/Catalog.antt =====
-- Run of internal/retention/run.go over the Catalog interface of internal/storage/storage.go,
-- whose operations change a state `S` and may fail with an `E`. Log lines are left out.
use k8s_at_home.Prelude.{
  ℕ, ◌-◌, String, true, Option, none, some, List, [], ◌∷◌, ◌++◌, ltb, if◌then◌else◌, All, ◌≡◌, refl,
  ◌⊎◌, inl, inr, Bool-cases,
}
use k8s_at_home.GitRepoBackup.Retention.{
  Options, Backup, IncompleteRun, SortSlice, select_deletions, incomplete_eligible,
}
use k8s_at_home.GitRepoBackup.Retention.Selection.{Deletable, select_deletions-Deletable}

pub record Catalog (S E : Type 0) : Type 0 where
  pub list_backups : S → S × (E ⊎ List Backup)
  pub delete_backup : Backup → S → S × Option E
  pub list_incomplete : S → S × (E ⊎ List IncompleteRun)
  pub delete_incomplete : IncompleteRun → S → S × Option E
  pub cleanup_stale_uploads : ℕ → S → S × Option E

pub data Problem (E : Type 0) : Type 0 where
  broken : String → Problem E
  failed : E → Problem E

module _ {S E : Type 0} (catalog : Catalog S E) (slice : SortSlice) where
  abbrev pub note : Option E → List (Problem E) → List (Problem E)
  note none problems = problems
  note (some e) problems = failed e ∷ problems

  -- The problems of the backups whose marker or metadata is broken.
  abbrev pub anomalies : List Backup → List (Problem E)
  anomalies [] = []
  anomalies (b ∷ bs) = let rest = anomalies bs in if b.anomaly then broken b.id ∷ rest else rest

  -- A failure is noted and the loop goes on.
  abbrev pub delete_each : List Backup → S → S × List (Problem E)
  delete_each [] s = (s, [])
  delete_each (b ∷ bs) s =
      let (next, e) = catalog.delete_backup b s in
      let (last, problems) = delete_each bs next in (last, note e problems)

  complete_deletions : List Backup → String → Options → S → S × List (Problem E)
  complete_deletions backups current o s =
      let (last, problems) = delete_each (select_deletions slice backups current o) s in
      (last, anomalies backups ++ problems)

  deletions_of : S × (E ⊎ List Backup) → String → Options → S × List (Problem E)
  unfolding complete_deletions
  deletions_of (s, inl e) current o = (s, failed e ∷ [])
  deletions_of (s, inr backups) current o = complete_deletions backups current o s

  pub run_complete_deletions : String → Options → S → S × List (Problem E)
  unfolding deletions_of
  run_complete_deletions current o s = deletions_of (catalog.list_backups s) current o

  abbrev pub clean_each : Options → List IncompleteRun → S → S × List (Problem E)
  clean_each o [] s = (s, [])
  clean_each o (r ∷ rs) s =
      let kept = clean_each o rs s in
      let (next, e) = catalog.delete_incomplete r s in
      let (last, problems) = clean_each o rs next in
      if incomplete_eligible r.started_at o then (last, note e problems) else kept

  abbrev pub upload_cutoff : Options → ℕ
  upload_cutoff o =
      if ltb o.max_run_grace o.incomplete_max_age
      then o.now - o.incomplete_max_age
      else o.now - o.max_run_grace

  stale_uploads : Options → S × List (Problem E) → S × List (Problem E)
  stale_uploads o (s, problems) =
      let (last, e) = catalog.cleanup_stale_uploads (upload_cutoff o) s in
      (last, problems ++ note e [])

  cleanup_of : S × (E ⊎ List IncompleteRun) → Options → S × List (Problem E)
  unfolding stale_uploads
  cleanup_of (s, inl e) o = (s, failed e ∷ [])
  cleanup_of (s, inr stale) o = stale_uploads o (clean_each o stale s)

  pub run_incomplete_cleanup : Options → S → S × List (Problem E)
  unfolding cleanup_of
  run_incomplete_cleanup o s = cleanup_of (catalog.list_incomplete s) o

  -- The first problem is the one that the error wraps.
  abbrev pub first_problem : List (Problem E) → Option (Problem E)
  first_problem [] = none
  first_problem (p ∷ ps) = some p

  unfoldable pub run : String → Options → S → S × Option (Problem E)
  unfolding run_complete_deletions run_incomplete_cleanup
  run current o s =
      let (middle, deleting) = run_complete_deletions current o s in
      let (last, cleaning) = run_incomplete_cleanup o middle in
      (last, first_problem (deleting ++ cleaning))

  -- A property of the state that listing keeps, and so does each deletion that the policy allows.
  pub record Respects (P : S → Type 0) (Listed : Backup → Type 0) (Found : IncompleteRun → Type 0)
      (current : String) (o : Options) : Type 0 where
    pub listing : (s : S) → P s → P (catalog.list_backups s).0
    pub listed :
        (s : S) (bs : List Backup) → P s → (catalog.list_backups s).1 ≡ inr bs → All Listed bs
    pub deletion :
        (b : Backup) (s : S)
        → Listed b
        → Deletable current o b
        → P s
        → P (catalog.delete_backup b s).0
    pub incomplete_listing : (s : S) → P s → P (catalog.list_incomplete s).0
    pub incomplete_found :
        (s : S) (rs : List IncompleteRun)
        → P s
        → (catalog.list_incomplete s).1 ≡ inr rs
        → All Found rs
    pub incomplete_deletion :
        (r : IncompleteRun) (s : S)
        → Found r
        → incomplete_eligible r.started_at o ≡ true
        → P s
        → P (catalog.delete_incomplete r s).0
    pub uploads : (s : S) → P s → P (catalog.cleanup_stale_uploads (upload_cutoff o) s).0

  module _ {P : S → Type 0} {Listed : Backup → Type 0} {Found : IncompleteRun → Type 0}
      (current : String) (o : Options) (respects : Respects P Listed Found current o) where
    delete_each-Respects :
        (bs : List Backup) (s : S)
        → All (λ b. Listed b × Deletable current o b) bs
        → P s
        → P (delete_each bs s).0
    delete_each-Respects [] s h p = p
    delete_each-Respects (b ∷ bs) s ((l, d), h) p =
        delete_each-Respects bs _ h (respects.deletion b s l d p)

    clean_each-Respects :
        (rs : List IncompleteRun) (s : S) → All Found rs → P s → P (clean_each o rs s).0
    clean_each-Respects [] s h p = p
    clean_each-Respects (r ∷ rs) s (f, h) p =
        elim (Bool-cases (incomplete_eligible r.started_at o)) [
          | inl e ↦ rw e (clean_each-Respects rs _ h (respects.incomplete_deletion r s f e p))
          | inr e ↦ rw e (clean_each-Respects rs s h p)
        ]

    deletions_of-Respects :
        (answer : S × (E ⊎ List Backup))
        → P answer.0
        → ((bs : List Backup) → answer.1 ≡ inr bs → All Listed bs)
        → P (deletions_of answer current o).0
    unfolding deletions_of complete_deletions
    deletions_of-Respects (s, inl e) p h = p
    deletions_of-Respects (s, inr bs) p h =
        delete_each-Respects _ s (select_deletions-Deletable slice bs current o Listed (h bs refl))
          p

    cleanup_of-Respects :
        (answer : S × (E ⊎ List IncompleteRun))
        → P answer.0
        → ((rs : List IncompleteRun) → answer.1 ≡ inr rs → All Found rs)
        → P (cleanup_of answer o).0
    unfolding cleanup_of stale_uploads
    cleanup_of-Respects (s, inl e) p h = p
    cleanup_of-Respects (s, inr rs) p h =
        respects.uploads _ (clean_each-Respects rs s (h rs refl) p)

    -- A property of the state that the catalog's listings keep, and so does each deletion of a
    -- listed backup that is complete, not anomalous, not the current one and not newer, each
    -- deletion of a listed incomplete run that is old enough, and the cleanup of uploads, is kept by Run,
    -- whichever of the calls fail.
    pub run-Respects : (s : S) → P s → P (run current o s).0
    unfolding run run_complete_deletions run_incomplete_cleanup
    run-Respects s p =
        let middle =
          deletions_of-Respects (catalog.list_backups s) (respects.listing s p)
            (λ bs e. respects.listed s bs p e) in
        cleanup_of-Respects _ (respects.incomplete_listing _ middle)
          (λ rs e. respects.incomplete_found _ rs middle e)
