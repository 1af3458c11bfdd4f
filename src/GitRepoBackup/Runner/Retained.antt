-- ===== src/GitRepoBackup/Runner/Retained.antt =====
-- The local store as the catalog of retention:
-- application/git-repo-backup/src/internal/storage/local/catalog.go.
use k8s_at_home.Prelude.{
  ℕ, subst, String, Option, none, some, List, [], ◌∷◌, ◌≡◌, ◌≢◌, refl, sym, ap, ◌∙◌, ◌⊎◌, inl, inr,
  true, false, All, str_eq, ne_of-str_eq,
}
use k8s_at_home.GitRepoBackup.Action.{Failure, Outcome}
use k8s_at_home.GitRepoBackup.Files.{backups, Place, Os}
use k8s_at_home.GitRepoBackup.Files.Laws.{View, Same, Quiet, Lawful}
use k8s_at_home.GitRepoBackup.Manifest.{Encoding}
use k8s_at_home.GitRepoBackup.Local.{World, RunIdentity, final_place}
use k8s_at_home.GitRepoBackup.Local.Catalog.{Reader, list_backups, delete_backup}
use k8s_at_home.GitRepoBackup.Local.Catalog.Deletion.{list_backups-Quiet, delete_backup-Deleted}
use k8s_at_home.GitRepoBackup.Local.Incomplete.{Locator, list_incomplete, delete_incomplete}
use k8s_at_home.GitRepoBackup.Local.Incomplete.Kept.{
  Located, list_incomplete-Lists, delete_incomplete-But,
}
use k8s_at_home.GitRepoBackup.Retention.{
  Options, Backup, IncompleteRun, SortSlice, incomplete_eligible,
}
use k8s_at_home.GitRepoBackup.Retention.Catalog.{Catalog, Respects}
use k8s_at_home.GitRepoBackup.Runner.Published.{Stands}

module _ {S : Type 0} (os : Os S String) (reader : Reader) (locator : Locator S) where
  abbrev pub failure : Failure ⊎ Unit {0} → Option Failure
  failure (inl e) = some e
  failure (inr tt) = none

  abbrev pub local_catalog : Catalog (World S) Failure
  local_catalog = record {
    list_backups = list_backups os reader;
    delete_backup = λ b w. let (next, r) = delete_backup os reader b w in (next, failure r);
    list_incomplete = list_incomplete os reader locator;
    delete_incomplete =
        λ r w. let (next, e) = delete_incomplete os reader locator r w in (next, failure e);
    cleanup_stale_uploads = λ t w. (w, none);
  }

  module _ (view : View S String) (lawful : Lawful os view) (encoding : Encoding) (id : RunIdentity)
      (slice : SortSlice) (o : Options) where
    Stands-Same :
        (w x : World S)
        → Same view w.files x.files (final_place id.backup_id)
        → Stands view encoding id w
        → Stands view encoding id x
    Stands-Same w x (p, f) (m, c, k, e, there, a, b, d) =
        (m, c, k, e, p ∙ there, f _ ∙ a, f _ ∙ b, f _ ∙ d)

    other_place :
        (b : Backup)
        → str_eq b.id id.backup_id ≡ false
        → final_place id.backup_id ≢ final_place b.id
    other_place b h e = ne_of-str_eq b.id id.backup_id h (sym (ap (λ p. p.name) e))

    everything : (bs : List Backup) → All (λ b. Unit {0}) bs
    everything [] = tt
    everything (b ∷ bs) = (tt, everything bs)

    same_list :
        (rs qs : List IncompleteRun) (x : Failure ⊎ List IncompleteRun)
        → x ≡ inr rs
        → x ≡ inr qs
        → rs ≡ qs
    same_list rs qs x h k = cc

    -- What is listed, whatever the state.
    located :
        (w : World S)
        → Quiet view w.files (list_incomplete os reader locator w).0.files
          × ((rs : List IncompleteRun)
              → (list_incomplete os reader locator w).1 ≡ inr rs
              → All (Located os reader locator) rs)
    located w =
        split (list_incomplete os reader locator w)
          ((list_incomplete-Lists os reader locator view lawful w).ends w λ p. (refl, λ n. refl))
      where
        split :
            (r : World S × (Failure ⊎ List IncompleteRun))
            → Outcome
                (λ rs x. All (Located os reader locator) rs × Quiet view w.files x.files)
                (λ e x. Quiet view w.files x.files)
                r
            → Quiet view w.files r.0.files
              × ((rs : List IncompleteRun) → r.1 ≡ inr rs → All (Located os reader locator) rs)
        split (x, inl e) h = (h, λ rs k. cc)
        split (x, inr rs) h = (
          h.1,
          λ qs k. subst (All (Located os reader locator)) (same_list rs qs (inr rs) refl k) h.0,
        )

    -- The entry of an old incomplete run is not the backup of the run, which is younger.
    another :
        (started : ℕ) (r : IncompleteRun) (p : Place)
        → reader.parse_backup_id id.backup_id ≡ some started
        → incomplete_eligible started o ≡ false
        → incomplete_eligible r.started_at o ≡ true
        → (p.base ≡ backups → reader.parse_backup_id p.name ≡ some r.started_at)
        → final_place id.backup_id ≢ p
    another started r p date young old dated e =
        let dated_by_id = dated (sym (ap (λ q. q.base) e)) in
        cc (dated_by_id, ap (λ q. q.name) e, date, young, old)

    -- Retention over the local store leaves the backup of the run standing, whichever calls fail, as
    -- long as the run is not old enough to be cleaned up itself.
    pub local_catalog-Respects :
        (started : ℕ)
        → reader.parse_backup_id id.backup_id ≡ some started
        → incomplete_eligible started o ≡ false
        → Respects local_catalog slice
            (Stands view encoding id)
            (λ b. Unit {0})
            (Located os reader locator)
            id.backup_id
            o
    local_catalog-Respects started date young = record {
      listing = λ w h.
          Stands-Same w (list_backups os reader w).0
            (list_backups-Quiet os view lawful reader w (final_place id.backup_id)) h;
      listed = λ w bs h e. everything bs;
      deletion = λ b w l d h.
          Stands-Same w (delete_backup os reader b w).0
            ((delete_backup-Deleted os view lawful reader b w).0 (final_place id.backup_id) refl
              (other_place b d.not_current))
            h;
      incomplete_listing = λ w h.
          Stands-Same w (list_incomplete os reader locator w).0
            ((located w).0 (final_place id.backup_id)) h;
      incomplete_found = λ w rs h e. (located w).1 rs e;
      incomplete_deletion = λ r w (p, at, dated) old h.
          Stands-Same w (delete_incomplete os reader locator r w).0
            (delete_incomplete-But os reader locator view lawful r p w at (final_place id.backup_id)
              (another started r p date young old dated))
            h;
      uploads = λ w h. h;
    }
