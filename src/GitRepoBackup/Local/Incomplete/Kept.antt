-- ===== src/GitRepoBackup/Local/Incomplete/Kept.antt =====
-- What ListIncomplete and DeleteIncomplete of
-- application/git-repo-backup/src/internal/storage/local/catalog.go touch.
use k8s_at_home.Prelude.{
  ℕ, String, Bool, Option, none, some, List, [], ◌∷◌, ◌++◌, str_eq, if◌then◌else◌, All, ◌≡◌, ◌≢◌,
  refl, ◌⊎◌, inl, inr,
}
use k8s_at_home.GitRepoBackup.Action.{
  Failure, Action, pure, fail, ◌>>=◌, After, After-bind, After-weaken, After-pure, After-fail,
  After-if, After-guarded, Outcome,
}
use k8s_at_home.GitRepoBackup.Files.{
  Base, backups, staging, trash, Place, FileInfo, Os, FileError, exists, no_replace_unsupported,
  dir_sync_unsupported, broken,
}
use k8s_at_home.GitRepoBackup.Files.Laws.{
  View, Same, Quiet, Same-trans, Quiet-trans, Lawful, sync_dir-Quiet,
}
use k8s_at_home.GitRepoBackup.Local.{World, checked, storage_failed}
use k8s_at_home.GitRepoBackup.Local.Phases.{After-call}
use k8s_at_home.GitRepoBackup.Local.Catalog.{Reader}
use k8s_at_home.GitRepoBackup.Retention.{IncompleteRun}
use k8s_at_home.GitRepoBackup.Local.Incomplete.{
  Locator, id_of, unmarked, kept_in, collect_one, collect_each, collect_in, collect,
  list_incomplete, synced, removed, delete_incomplete,
}

module _ {S : Type 0} (os : Os S String) (reader : Reader) (locator : Locator S) where
  -- The run is an entry of a directory of the root; one among the backups is dated by its name.
  abbrev pub Located : IncompleteRun → Type 0
  Located r =
      (p : Place) × (r.location ≡ locator.join p)
      × (p.base ≡ backups → reader.parse_backup_id p.name ≡ some r.started_at)

  All-append :
      (rs qs : List IncompleteRun) → All Located rs → All Located qs → All Located (rs ++ qs)
  All-append [] qs h k = k
  All-append (r ∷ rs) qs h k = (h.0, All-append rs qs h.1 k)

  module _ (view : View S String) (lawful : Lawful os view) (w : World S) where
    abbrev Still : World S → Type 0
    Still x = Quiet view w.files x.files

    abbrev Lists : Action (World S) (List IncompleteRun) → Type 0
    Lists m = After Still m (λ rs x. All Located rs × Still x) (λ e x. Still x)

    Lists-more :
        (r : IncompleteRun) (rest : Action (World S) (List IncompleteRun))
        → Located r
        → Lists rest
        → Lists (rest >>= λ others. pure (r ∷ others))
    Lists-more r rest at h = After-bind _ _ h λ others. After-pure _ λ x k. ((at, k.0), k.1)

    Lists-unmarked :
        (r : IncompleteRun) (rest : Action (World S) (List IncompleteRun)) (info : Option FileInfo)
        → Located r
        → Lists rest
        → Lists (unmarked os reader locator r rest info)
    unfolding unmarked
    Lists-unmarked r rest none at h = Lists-more r rest at h
    Lists-unmarked r rest (some info) at h = h

    Lists-kept_in :
        (b : Base) (p : Place) (r : IncompleteRun) (rest : Action (World S) (List IncompleteRun))
        → Located r
        → Lists rest
        → Lists (kept_in os reader locator b p r rest)
    unfolding kept_in
    Lists-kept_in backups p r rest at h =
        After-bind {Q = λ a x. Still x} _ _
          (After-call _ λ x k. Quiet-trans view k (lawful.lstat_file_quiet _ _ _))
          λ info. Lists-unmarked r rest info at h
    Lists-kept_in staging p r rest at h = Lists-more r rest at h
    Lists-kept_in trash p r rest at h = Lists-more r rest at h

    dated :
        (b : Base) (name : String) (t : ℕ)
        → reader.parse_backup_id (id_of os reader locator b name) ≡ some t
        → b ≡ backups
        → reader.parse_backup_id name ≡ some t
    dated backups name t h e = h
    dated staging name t h e = cc
    dated trash name t h e = cc

    Lists-collect_one :
        (b : Base) (name : String) (t : Option ℕ) (rest : Action (World S) (List IncompleteRun))
        → reader.parse_backup_id (id_of os reader locator b name) ≡ t
        → Lists rest
        → Lists (collect_one os reader locator b name t rest)
    unfolding collect_one
    Lists-collect_one b name none rest e h = h
    Lists-collect_one b name (some t) rest e h =
        After-if (str_eq (id_of os reader locator b name) "") _ _ (λ _. h)
          λ _. Lists-kept_in b _ _ rest (_, refl, dated b name t e) h

    Lists-collect_each :
        (b : Base) (names : List String) → Lists (collect_each os reader locator b names)
    unfolding collect_each
    Lists-collect_each b [] = After-pure [] λ x h. (tt, h)
    Lists-collect_each b (name ∷ names) =
        Lists-collect_one b name _ _ refl (Lists-collect_each b names)

    Lists-missing : (b : Bool) → Lists (if b then pure [] else fail storage_failed)
    Lists-missing b = After-if b _ _ (λ _. After-pure [] λ x h. (tt, h)) λ _. After-fail _ λ x h. h

    Lists-collect_in :
        (b : Base) (names : Option (List String)) → Lists (collect_in os reader locator b names)
    unfolding collect_in
    Lists-collect_in b none = record {
      ends = λ x h. (Lists-missing (locator.is_not_exist b x.files)).ends x h;
    }
    Lists-collect_in b (some names) = Lists-collect_each b names

    Lists-collect : (b : Base) → Lists (collect os reader locator b)
    unfolding collect
    Lists-collect b =
        After-bind {Q = λ a x. Still x} _ _
          (After-call _ λ x k. Quiet-trans view k (lawful.read_dir_quiet _ _)) (Lists-collect_in b)

    -- What is known of the earlier parts stays known.
    carry :
        (K : Type 0) (m : Action (World S) (List IncompleteRun))
        → Lists m
        → After (λ x. K × Still x) m (λ rs x. K × All Located rs × Still x) (λ e x. Still x)
    carry K m h = record {
      ends = λ x k.
          (After-weaken {R = λ rs x. K × All Located rs × Still x} m h (λ a s q. (k.0, q.0, q.1))
              (λ e s f. f)).ends
            x k.1;
    }

    -- Listing touches nothing, and what it lists are entries of the directories of the root.
    pub list_incomplete-Lists : Lists (list_incomplete os reader locator)
    unfolding list_incomplete
    list_incomplete-Lists = After-bind _ _ (Lists-collect staging) λ a.
        After-bind _ _
          (After-weaken {R = λ b x. All Located (a ++ b) × Still x} _
            (carry (All Located a) _ (Lists-collect trash)) (λ b x h. (All-append a b h.0 h.1, h.2))
            λ e x h. h)
          λ b.
            After-bind _ _ (carry (All Located (a ++ b)) _ (Lists-collect backups))
              λ c. After-pure _ λ x h. (All-append (a ++ b) c h.0 h.1, h.2)

  module _ (view : View S String) (lawful : Lawful os view) where
    abbrev But : Place → World S → World S → Type 0
    But p w x = (q : Place) → q ≢ p → Same view w.files x.files q

    ended :
        (Q : World S → Type 0) (r : World S × (Failure ⊎ Unit {0}))
        → Outcome (λ a x. Q x) (λ e x. Q x) r
        → Q r.0
    ended Q (x, inl e) h = h
    ended Q (x, inr a) h = h

    Ends-synced :
        (p : Place) (w : World S) (e : Option FileError)
        → After (But p w) (synced os reader locator e) (λ a x. But p w x) (λ f x. But p w x)
    unfolding synced
    Ends-synced p w none = After-pure tt λ x h. h
    Ends-synced p w (some dir_sync_unsupported) = After-pure tt λ x h. h
    Ends-synced p w (some exists) = After-fail _ λ x h. h
    Ends-synced p w (some no_replace_unsupported) = After-fail _ λ x h. h
    Ends-synced p w (some broken) = After-fail _ λ x h. h

    removed-But :
        (p : Place) (w x : World S)
        → But p w x
        → But p w (record x { files = (os.remove_all p x.files).0 })
    removed-But p w x h q d = Same-trans view q (h q d) (lawful.remove_only p x.files q d)

    Ends-removed :
        (p : Place) (w : World S)
        → After (But p w) (removed os reader locator (some p)) (λ a x. But p w x) (λ f x. But p w x)
    unfolding removed checked
    Ends-removed p w =
        After-bind {Q = λ a x. But p w x} _ _
          (After-guarded _ _ (λ x h _. removed-But p w x h) (λ x h _. removed-But p w x h))
          λ _.
            After-bind {Q = λ a x. But p w x} _ _
              (After-call _
                λ x h q d. Same-trans view q (h q d) (sync_dir-Quiet os view lawful _ _ q))
              (Ends-synced p w)

    -- Whichever calls fail, DeleteIncomplete touches nothing but the entry that the location names.
    pub delete_incomplete-But :
        (r : IncompleteRun) (p : Place) (w : World S)
        → r.location ≡ locator.join p
        → But p w (delete_incomplete os reader locator r w).0
    unfolding delete_incomplete
    delete_incomplete-But r p w at =
        rw (at, locator.place-join p)
          (ended (But p w) (removed os reader locator (some p) w)
            ((Ends-removed p w).ends w λ q d. (refl, λ n. refl)))
