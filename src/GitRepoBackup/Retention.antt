-- ===== src/GitRepoBackup/Retention.antt =====
-- The retention policy: internal/retention/policy.go and run.go, with the records and the
-- catalog of internal/storage/storage.go. Times and durations are natural numbers of nanoseconds,
-- 0 the zero time; sort.Slice is a parameter that keeps its documented promise.
pub mod Catalog
mod Items
pub mod Selection
pub mod Sorting
mod Tests
use mathlib.Core.List.{Permᴰ}
use k8s_at_home.Prelude.{
  ℕ, ◌+◌, ◌-◌, String, Bool, true, false, not, ◌&&◌, ◌||◌, List, [], ◌∷◌, ltb, ◌==◌, str_eq,
  str_ltb, if◌then◌else◌, filter, All, ◌≡◌,
}

pub record Options : Type 0 where
  pub enabled : Bool
  pub max_backups : ℕ
  pub max_age : ℕ
  pub incomplete_max_age : ℕ
  pub max_run_grace : ℕ
  pub now : ℕ

pub record Backup : Type 0 where
  pub id : String
  pub complete : Bool
  pub anomaly : Bool
  pub started_at : ℕ

pub record IncompleteRun : Type 0 where
  pub id : String
  pub started_at : ℕ
  pub location : String

-- What sort.Slice asks of `less`.
pub record IsStrictWeak (less : Backup → Backup → Bool) : Type 0 where
  pub asymm : (a b : Backup) → less a b ≡ true → less b a ≡ false
  pub negtrans : (a b c : Backup) → less a b ≡ false → less b c ≡ false → less a c ≡ false

abbrev pub Ordered : (Backup → Backup → Bool) → List Backup → Type 0
Ordered less [] = Unit
Ordered less (b ∷ bs) = All (λ c. less c b ≡ false) bs × Ordered less bs

-- sort.Slice, which need not be stable.
pub record SortSlice : Type 0 where
  pub sort : (Backup → Backup → Bool) → List Backup → List Backup
  pub sort-Perm : (less : Backup → Backup → Bool) (bs : List Backup) → Permᴰ bs (sort less bs)
  pub sort-Ordered :
      (less : Backup → Backup → Bool) (bs : List Backup)
      → IsStrictWeak less
      → Ordered less (sort less bs)

abbrev pub sound : Backup → Bool
sound b = b.complete && not b.anomaly

abbrev pub newer_id : Backup → Backup → Bool
newer_id a b = str_ltb b.id a.id

-- `currentID != "" && b.ID > currentID`
abbrev pub protected : String → Backup → Bool
protected current b = not (str_eq current "") && str_ltb current b.id

abbrev pub cutoff : Options → ℕ
cutoff o = if ltb 0 o.max_age then o.now - o.max_age else 0

abbrev pub by_count : Options → ℕ → Bool
by_count o newer = o.enabled && ltb 0 o.max_backups && not (ltb newer o.max_backups)

abbrev pub by_age : Options → Backup → Bool
by_age o b = o.enabled && ltb 0 o.max_age && ltb b.started_at (cutoff o)

-- The loop of SelectDeletions over the sorted backups.
abbrev pub select : String → Options → ℕ → List Backup → List Backup
select current o newer [] = []
select current o newer (b ∷ bs) =
    let skipped = select current o newer bs in
    let rest = select current o (newer + 1) bs in
    if protected current b
    then skipped
    else if not (str_eq b.id current) && (by_count o newer || by_age o b)
    then b ∷ rest
    else rest

unfoldable pub select_deletions : SortSlice → List Backup → String → Options → List Backup
select_deletions slice backups current o =
    select current o 0 (slice.sort newer_id (filter sound backups))

unfoldable pub incomplete_eligible : ℕ → Options → Bool
incomplete_eligible started_at o =
    let min_age =
      if ltb o.incomplete_max_age o.max_run_grace then o.max_run_grace else o.incomplete_max_age in
    if started_at == 0 || ltb o.now started_at then false else ltb min_age (o.now - started_at)
