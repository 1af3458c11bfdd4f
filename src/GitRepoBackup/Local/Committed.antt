-- ===== src/GitRepoBackup/Local/Committed.antt =====
-- Commit of application/git-repo-backup/src/internal/storage/local/commit.go: what holds of the files
-- after it, whether it succeeds or fails.
use k8s_at_home.Prelude.{
  String, Bool, true, false, Option, none, some, List, [], ◌∷◌, ◌≡◌, refl, ◌∙◌,
}
use k8s_at_home.GitRepoBackup.Action.{After, After-bind, After-pure, After-fail}
use k8s_at_home.GitRepoBackup.Files.{Base, backups, staging, Os, FileError, rename_no_replace}
use k8s_at_home.GitRepoBackup.Files.Laws.{
  View, Quiet, Same-trans, Lawful, sync_dir-Quiet, write_file_durable-Changes,
  rename_no_replace-none, rename_no_replace-some,
}
use k8s_at_home.GitRepoBackup.Manifest.{marker_name}
use k8s_at_home.GitRepoBackup.Local.{
  World, RunIdentity, final_place, staging_place, unpublished, sync_parents, parents_synced,
  renamed, marked, publish_from, commit,
}
use k8s_at_home.GitRepoBackup.Local.Phases.{
  After-call, After-store, After-set, open_store, Pending, Staged, Holds, Described, Done, Ended,
  Untouched-Only, Untouched-Quiet, Complete-Quiet, staged-Pending, not_stage,
}

module _ {S : Type 0} (os : Os S String) (view : View S String) (lawful : Lawful os view)
    (id : RunIdentity) (origin : S) where
  Done-Quiet :
      (m c k : String) (w : World S) (t : S)
      → Quiet view w.files t
      → Done os view lawful id origin m c k w
      → Done os view lawful id origin m c k (record w { files = t })
  Done-Quiet m c k w t quiet (others, complete) = (
    λ q b d. Same-trans view q (others q b d) (quiet q),
    Complete-Quiet os view lawful id origin m c k w.files t quiet complete,
  )

  -- A marker that is not encoded is not published.
  pub After-commit_none :
      After
        (Staged os view lawful id origin)
        (commit os none)
        (λ a w. ⊥)
        (λ e w. (e ≡ unpublished "storage_failed") × Pending os view lawful id origin w)
  unfolding commit publish_from
  After-commit_none =
      After-store (open_store os view lawful id origin) _ (λ w p. p.1)
        (After-fail _ λ w p. (refl, staged-Pending os view lawful id origin w p))

  module _ (m c k : String) where
    After-sync_parents :
        (bs : List Base)
        → After
            (Done os view lawful id origin m c k)
            (sync_parents os bs)
            (λ a w. Done os view lawful id origin m c k w)
            (Ended os view lawful id origin m c k)
    unfolding sync_parents
    After-sync_parents [] = After-pure false λ w p. p
    After-sync_parents (b ∷ bs) =
        After-bind {Q = λ e w. Done os view lawful id origin m c k w} _ _
          (After-call _ λ w p. Done-Quiet m c k w _ (sync_dir-Quiet os view lawful _ _) p)
          λ e.
            After-bind {Q = λ r w. Done os view lawful id origin m c k w} _ _
              (After-sync_parents bs) λ rest. After-pure _ λ w p. p

    After-parents_synced :
        (failed : Bool)
        → After
            (Done os view lawful id origin m c k)
            (parents_synced os failed)
            (λ a w. Done os view lawful id origin m c k w)
            (Ended os view lawful id origin m c k)
    unfolding parents_synced
    After-parents_synced true = After-fail _ λ w p. p
    After-parents_synced false = After-pure tt λ w p. p

    -- What the rename leaves.
    abbrev Moved : Option FileError → World S → Type 0
    Moved none w = Done os view lawful id origin m c k w
    Moved (some e) w = Pending os view lawful id origin w

    After-renamed :
        (e : Option FileError)
        → After
            (Moved e)
            (renamed os id.backup_id e)
            (λ a w. Done os view lawful id origin m c k w)
            (Ended os view lawful id origin m c k)
    unfolding renamed
    After-renamed (some e) = After-fail _ λ w p. p
    After-renamed none =
        After-bind _ _ (After-set _ λ w p. p)
          λ _. After-bind _ _ (After-sync_parents (staging ∷ backups ∷ [])) After-parents_synced

    abbrev Marked : World S → Type 0
    Marked w =
        Described os view lawful id origin m c w × Holds os view lawful id origin w marker_name k

    Marked-Quiet :
        (w : World S) (t : S) → Quiet view w.files t → Marked w → Marked (record w { files = t })
    Marked-Quiet w t quiet ((staged, a, b), d) =
        let files = (quiet (staging_place id)).1 in
        (
          (
            (Untouched-Quiet os view lawful id origin _ _ quiet staged.0, staged.1),
            files _ ∙ a,
            files _ ∙ b,
          ),
          files _ ∙ d,
        )

    after_rename :
        (w : World S) (e : Option FileError)
        → Marked w
        → (rename_no_replace os (staging_place id) (final_place id.backup_id) w.files).1 ≡ e
        → Moved e (record w {
          files = (rename_no_replace os (staging_place id) (final_place id.backup_id) w.files).0;
        })
    after_rename w none ((staged, a, b), d) h =
        let (there, files, rest) = rename_no_replace-none os view lawful _ _ w.files h in
        (
          λ q base apart.
              Same-trans view q (staged.0 q base)
                (rest q (not_stage os view lawful id origin q base) apart),
          (there, files _ ∙ a, files _ ∙ b, files _ ∙ d),
        )
    after_rename w (some f) ((staged, a, b), d) h = staged-Pending os view lawful id origin _ (
      Untouched-Quiet os view lawful id origin _ _
          (rename_no_replace-some os view lawful _ _ w.files f h) staged.0,
      staged.1,
    )

    After-marked :
        (e : Option FileError)
        → After
            (λ w. Staged os view lawful id origin w × (e ≡ none → Marked w))
            (marked os (staging_place id) e)
            (λ a w. Done os view lawful id origin m c k w)
            (Ended os view lawful id origin m c k)
    unfolding marked
    After-marked (some e) = After-fail _ λ w p. staged-Pending os view lawful id origin w p.0
    After-marked none =
        After-bind {Q = λ a w. Marked w} _ _
          (After-call _ λ w p. Marked-Quiet w _ (sync_dir-Quiet os view lawful _ _) (p.1 refl))
          λ _.
            After-store (open_store os view lawful id origin) _ (λ w p. p.0.0.1)
              (After-bind _ _ (After-call _ λ w p. after_rename w _ p refl) After-renamed)

    -- Commit publishes the whole backup, or leaves every backup as it was; its error says which.
    pub After-commit :
        After
          (Described os view lawful id origin m c)
          (commit os (some k))
          (λ a w. Done os view lawful id origin m c k w)
          (Ended os view lawful id origin m c k)
    unfolding commit publish_from
    After-commit =
        After-store (open_store os view lawful id origin) _ (λ w p. p.0.1)
          (After-bind {Q = λ e w. Staged os view lawful id origin w × (e ≡ none → Marked w)} _ _
            (After-call _ λ w p.
              let (changes, full) =
                write_file_durable-Changes os view lawful (staging_place id) marker_name k
                  w.files in
              let staged : Staged os view lawful id origin _ =
                (Untouched-Only os view lawful id origin _ _ changes.0 p.0.0, p.0.1) in
              (
                staged,
                λ none_of. (
                  (staged, changes.2 _ (λ e. cc) ∙ p.1, changes.2 _ (λ e. cc) ∙ p.2),
                  full none_of,
                ),
              ))
            After-marked)
