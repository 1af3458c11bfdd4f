-- ===== src/GitRepoBackup/Retention/Tests.antt =====
-- Runs of the retention policy on concrete backups, and instances of its theorems.
use k8s_at_home.Prelude.{
  ℕ, ◌+◌, ◌≤◌, ◌<◌, String, Bool, true, false, not, str_eq, if◌then◌else◌, eq_iff, none, some, List,
  [], ◌∷◌, ◌≡◌, refl, inl, inr, arith, All, filter, length,
}
use k8s_at_home.GitRepoBackup.Retention.{
  Options, Backup, sound, select_deletions, incomplete_eligible,
}
use k8s_at_home.GitRepoBackup.Retention.Selection.{
  Deletable, Justified, holds_slot, unpinned, select_deletions-Deletable,
  select_deletions-Justified, select_deletions-enough,
}
use k8s_at_home.GitRepoBackup.Retention.Catalog.{Catalog, broken, Respects, run, run-Respects}
use k8s_at_home.GitRepoBackup.Retention.Sorting.{insertion}

abbrev options : Options
options = record {
  enabled = true;
  max_backups = 2;
  max_age = 50;
  incomplete_max_age = 20;
  max_run_grace = 10;
  now = 100;
}

abbrev backup : String → ℕ → Backup
backup id started = record { id = id; complete = true; anomaly = false; started_at = started }

abbrev oldest : Backup
oldest = backup "20240101T000000Z" 10

abbrev older : Backup
older = backup "20240102T000000Z" 60

abbrev old : Backup
old = backup "20240103T000000Z" 70

abbrev current : Backup
current = backup "20240104T000000Z" 80

abbrev newer : Backup
newer = backup "20240105T000000Z" 90

abbrev listing : List Backup
listing =
    older
    ∷ newer
    ∷ oldest
    ∷ current
    ∷ record (backup "20231201T000000Z" 1) { anomaly = true }
    ∷ record (backup "20231202T000000Z" 2) { complete = false }
    ∷ old
    ∷ []

selected : select_deletions insertion listing current.id options ≡ older ∷ oldest ∷ []
unfolding select_deletions
selected = refl

selected_off :
    select_deletions insertion listing current.id (record options { enabled = false }) ≡ []
unfolding select_deletions
selected_off = refl

eligible : incomplete_eligible 79 options ≡ true
unfolding incomplete_eligible
eligible = refl

too_young : incomplete_eligible 80 options ≡ false
unfolding incomplete_eligible
too_young = refl

-- A catalog that is the list of its backups; its incomplete runs cannot be listed.
abbrev without : String → List Backup → List Backup
without id s = filter (λ b. not (str_eq b.id id)) s

abbrev catalog : Catalog (List Backup) String
catalog = record {
  list_backups = λ s. (s, inr s);
  delete_backup = λ b s. (without b.id s, none);
  list_incomplete = λ s. (s, inl "listing failed");
  delete_incomplete = λ r s. (s, none);
  cleanup_stale_uploads = λ t s. (s, none);
}

kept :
    run catalog insertion current.id options listing
    ≡ (without older.id (without oldest.id listing), some (broken "20231201T000000Z"))
unfolding run select_deletions
kept = refl

abbrev stands : String → List Backup → Bool
stands id [] = false
stands id (b ∷ bs) = let found = stands id bs in if str_eq b.id id then true else found

stands-without :
    (id gone : String) (bs : List Backup)
    → str_eq gone id ≡ false
    → stands id bs ≡ true
    → stands id (without gone bs) ≡ true
stands-without id gone [] ne h = h
stands-without id gone (b ∷ bs) ne h =
    ground (arith, stands-without id gone bs ne, eq_iff b.id id, eq_iff b.id gone, eq_iff gone id)

All-listed : (bs : List Backup) → All (λ b. Unit {0}) bs
All-listed [] = tt
All-listed (b ∷ bs) = (tt, All-listed bs)

respects :
    Respects catalog insertion
      (λ s. stands current.id s ≡ true)
      (λ b. Unit {0})
      (λ r. Unit {0})
      current.id
      options
respects = record {
  listing = λ s p. p;
  listed = λ s bs p e. All-listed bs;
  deletion = λ b s l d p. stands-without current.id b.id s d.not_current p;
  incomplete_listing = λ s p. p;
  incomplete_found = λ s rs p e. cc;
  incomplete_deletion = λ r s f e p. p;
  uploads = λ s p. p;
}

select_deletions-Deletable_example :
    All
      (λ b. (0 < b.started_at) × Deletable current.id options b)
      (select_deletions insertion listing current.id options)
select_deletions-Deletable_example =
    select_deletions-Deletable insertion listing current.id options (λ b. 0 < b.started_at)
      (
        omega arith,
        (
          omega arith,
          (omega arith, (omega arith, (omega arith, (omega arith, (omega arith, tt))))),
        ),
      )

select_deletions-Justified_example :
    All
      (λ b.
        Justified current.id options
          (length (filter (holds_slot current.id options b) (filter sound listing)))
          b)
      (select_deletions insertion listing current.id options)
select_deletions-Justified_example = select_deletions-Justified insertion listing current.id options

select_deletions-enough_example :
    length (filter (unpinned current.id options) (filter sound listing))
    ≤ length (select_deletions insertion listing current.id options) + 2
select_deletions-enough_example =
    select_deletions-enough insertion listing current.id options refl (omega arith)

run-Respects_example : stands current.id (run catalog insertion current.id options listing).0 ≡ true
run-Respects_example = run-Respects catalog insertion current.id options respects listing refl
