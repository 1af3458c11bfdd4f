-- ===== src/GitRepoBackup/Local/Catalog/Deletion.antt =====
-- What DeleteBackup of application/git-repo-backup/src/internal/storage/local/catalog.go leaves.
use k8s_at_home.Prelude.{
  List, [], ◌∷◌, ℕ, String, false, Option, none, some, ◌≡◌, ◌≢◌, refl, sym, ap, subst, ◌∙◌, ◌⊎◌,
  inl, inr,
}
use k8s_at_home.GitRepoBackup.Action.{
  Failure, Action, Outcome, ◌>>=◌, After, After-bind, After-pure, After-fail, After-if,
  After-guarded,
}
use k8s_at_home.GitRepoBackup.Files.{
  backups, trash, Place, Errno, eexist, enosys, einval, enotty, other_errno, FileInfo, Os,
  FileError, exists, no_replace_unsupported, dir_sync_unsupported, broken, rename_no_replace,
}
use k8s_at_home.GitRepoBackup.Files.Laws.{
  View, Same, Quiet, Only, Same-trans, Quiet-trans, Lawful, sync_dir-Quiet, rename_no_replace-none,
  rename_no_replace-some, rename_no_replace-gone,
}
use k8s_at_home.GitRepoBackup.Local.{World, call, checked, final_place, first_fault}
use k8s_at_home.GitRepoBackup.Local.Phases.{After-call}
use k8s_at_home.GitRepoBackup.Retention.{Backup}
use k8s_at_home.GitRepoBackup.Local.Catalog.{
  listed_one, listed, listed_in, list_backups, Completeness, incomplete, complete, anomalous,
  Reader, classified, classify_complete, trash_place, other_trash_place, synced_after, trashed,
  moved, moved_from, verified, allowed, delete_backup,
}

module _ {S : Type 0} (os : Os S String) (view : View S String) (reader : Reader) (id : String)
    (w : World S) where
  -- The other backups have not changed.
  abbrev pub Elsewhere : World S → Type 0
  Elsewhere x = (q : Place) → q.base ≡ backups → q ≢ final_place id → Same view w.files x.files q

  -- The marker and the manifest of the backup were found in order.
  abbrev pub Verified : Type 0
  Verified = (classify_complete os reader id w).1 ≡ inr complete

  -- Nothing has changed, or the one backup is gone after it was verified.
  abbrev pub Deleted : World S → Type 0
  Deleted x =
      Elsewhere x
      × (Same view w.files x.files (final_place id)
          ⊎ ((view.present x.files (final_place id) ≡ false) × Verified))

module _ {S : Type 0} (os : Os S String) (view : View S String) (lawful : Lawful os view)
    (reader : Reader) (id : String) (w : World S) where
  abbrev Calm : World S → Type 0
  Calm x = Quiet view w.files x.files × Verified os view reader id w

  abbrev Gone : World S → Type 0
  Gone x =
      Elsewhere os view reader id w x
      × (view.present x.files (final_place id) ≡ false)
      × Verified os view reader id w

  abbrev Ends : {A : Type 0} → (World S → Type 0) → Action (World S) A → Type 0
  Ends P m = After P m (λ a x. Deleted os view reader id w x) (λ e x. Deleted os view reader id w x)

  Calm-Deleted : (x : World S) → Quiet view w.files x.files → Deleted os view reader id w x
  Calm-Deleted x quiet = (λ q b d. quiet q, inl (quiet (final_place id)))

  Gone-Deleted : (x : World S) → Gone x → Deleted os view reader id w x
  Gone-Deleted x (others, gone, verified) = (others, inr (gone, verified))

  not_trash : (q p : Place) → q.base ≡ backups → p.base ≡ trash → q ≢ p
  not_trash q p c b e = clash (sym c ∙ ap (λ z. z.base) e ∙ b)
    where
      clash : backups ≡ trash → ⊥
      clash h = cc

  -- A call that touches only a place in the trash.
  Gone-Only :
      (x : World S) (t : S) (p : Place)
      → p.base ≡ trash
      → Only view p x.files t
      → Gone x
      → Gone (record x { files = t })
  Gone-Only x t p b only (others, gone, verified) = (
    λ q c d. Same-trans view q (others q c d) (only q (not_trash q p c b)),
    (only (final_place id) (not_trash (final_place id) p refl b)).0 ∙ gone,
    verified,
  )

  Gone-Quiet : (x : World S) (t : S) → Quiet view x.files t → Gone x → Gone (record x { files = t })
  Gone-Quiet x t quiet (others, gone, verified) =
      (λ q c d. Same-trans view q (others q c d) (quiet q), (quiet _).0 ∙ gone, verified)

  abbrev Moved : Option FileError → World S → Type 0
  Moved none x = Gone x
  Moved (some e) x = Calm x

  Ends-trashed :
      (p : Place) (e : Option FileError) → p.base ≡ trash → Ends (Moved e) (trashed os reader p e)
  unfolding trashed synced_after checked
  Ends-trashed p (some e) b = After-fail _ λ x h. Calm-Deleted x h.0
  Ends-trashed p none b =
      After-bind {Q = λ a x. Gone x} _ _
        (After-guarded _ _ (λ x h _. Gone-Only x _ p b (lawful.remove_only p x.files) h)
          (λ x h _.
            Gone-Deleted (record x { files = (os.remove_all p x.files).0 })
              (Gone-Only x _ p b (lawful.remove_only p x.files) h)))
        λ _.
          After-bind {Q = λ a x. Gone x} _ _
            (After-call _ λ x h. Gone-Quiet x _ (sync_dir-Quiet os view lawful _ _) h)
            λ e.
              After-bind {Q = λ a x. Gone x} _ _
                (After-call _ λ x h. Gone-Quiet x _ (sync_dir-Quiet os view lawful _ _) h)
                λ f.
                  After-if (first_fault os e (first_fault os f false)) _ _
                    (λ _. After-fail _ Gone-Deleted) λ _. After-pure tt Gone-Deleted

  -- The move to a place in the trash.
  move_result :
      (x : World S) (p : Place) (e : Option FileError)
      → p.base ≡ trash
      → Calm x
      → (rename_no_replace os (final_place id) p x.files).1 ≡ e
      → Moved e (record x { files = (rename_no_replace os (final_place id) p x.files).0 })
  move_result x p none b (quiet, verified) h =
      let (_, _, rest) = rename_no_replace-none os view lawful (final_place id) p x.files h in
      (
        λ q c d. Same-trans view q (quiet q) (rest q d (not_trash q p c b)),
        rename_no_replace-gone os view lawful (final_place id) p x.files
            (not_trash (final_place id) p refl b) h,
        verified,
      )
  move_result x p (some f) b (quiet, verified) h =
      (Quiet-trans view quiet (rename_no_replace-some os view lawful _ _ x.files f h), verified)

  Ends-moved : (e : Option FileError) → Ends (Moved e) (moved os reader id e)
  unfolding moved
  Ends-moved none = Ends-trashed (trash_place os reader id) none refl
  Ends-moved (some exists) =
      After-bind {Q = Moved} _ _
        (After-call _ λ x h. move_result x (other_trash_place os reader id) _ refl h refl)
        λ e. Ends-trashed (other_trash_place os reader id) e refl
  Ends-moved (some no_replace_unsupported) =
      Ends-trashed (trash_place os reader id) (some no_replace_unsupported) refl
  Ends-moved (some dir_sync_unsupported) =
      Ends-trashed (trash_place os reader id) (some dir_sync_unsupported) refl
  Ends-moved (some broken) = Ends-trashed (trash_place os reader id) (some broken) refl

  Ends-first : Ends Calm (
      call (rename_no_replace os (final_place id) (trash_place os reader id))
      >>= moved os reader id)
  Ends-first =
      After-bind {Q = Moved} _ _
        (After-call _ λ x h. move_result x (trash_place os reader id) _ refl h refl) Ends-moved

  Ends-moved_from : (e : Option Errno) → Ends Calm (moved_from os reader id e)
  unfolding moved_from
  Ends-moved_from none = Ends-first
  Ends-moved_from (some eexist) = Ends-first
  Ends-moved_from (some enosys) = After-fail _ λ x h. Calm-Deleted x h.0
  Ends-moved_from (some einval) = After-fail _ λ x h. Calm-Deleted x h.0
  Ends-moved_from (some enotty) = After-fail _ λ x h. Calm-Deleted x h.0
  Ends-moved_from (some other_errno) = After-fail _ λ x h. Calm-Deleted x h.0

  abbrev Found : Completeness → World S → Type 0
  Found c x = Quiet view w.files x.files × ((classify_complete os reader id w).1 ≡ inr c)

  Ends-verified : (c : Completeness) → Ends (Found c) (verified os reader id c)
  unfolding verified
  Ends-verified incomplete = After-fail _ λ x h. Calm-Deleted x h.0
  Ends-verified anomalous = After-fail _ λ x h. Calm-Deleted x h.0
  Ends-verified complete =
      After-bind {Q = λ e x. Calm x} _ _
        (After-call _ λ x h. (Quiet-trans view h.0 (lawful.mkdir_base_quiet _ _), h.1))
        Ends-moved_from

  classified-Quiet :
      (info : Option FileInfo) (x : World S)
      → Quiet view x.files (classified os reader id info x).0.files
  unfolding classified ◌>>=◌ call
  classified-Quiet none x = λ p. (refl, λ n. refl)
  classified-Quiet (some info) x = lawful.read_quiet _ _ _

  pub classify_complete-Quiet :
      (x : World S) → Quiet view x.files (classify_complete os reader id x).0.files
  unfolding classify_complete ◌>>=◌ call
  classify_complete-Quiet x =
      Quiet-trans view (lawful.lstat_file_quiet _ _ _) (classified-Quiet _ _)

  found :
      (r : World S × (Failure ⊎ Completeness))
      → classify_complete os reader id w ≡ r
      → Quiet view w.files r.0.files
      → Outcome Found (λ e x. Deleted os view reader id w x) r
  found (x, inl e) h quiet = Calm-Deleted x quiet
  found (x, inr c) h quiet = (quiet, ap (λ r. r.1) h)

  Ends-allowed : (t : Option ℕ) → Ends (λ x. x ≡ w) (allowed os reader id t)
  unfolding allowed
  Ends-allowed none =
      After-fail _
        λ x e. subst (Deleted os view reader id w) (sym e) (Calm-Deleted w λ p. (refl, λ n. refl))
  Ends-allowed (some t) =
      After-bind {Q = Found} _ _
        (record {
          ends = λ x e.
              subst
                (λ y.
                  Outcome Found (λ f z. Deleted os view reader id w z)
                    (classify_complete os reader id y))
                (sym e) (found (classify_complete os reader id w) refl (classify_complete-Quiet w));
        })
        Ends-verified

module _ {S : Type 0} (os : Os S String) (view : View S String) (lawful : Lawful os view)
    (reader : Reader) where
  both :
      (Q : World S → Type 0) (r : World S × (Failure ⊎ Unit {0}))
      → Outcome (λ a x. Q x) (λ e x. Q x) r
      → Q r.0
  both Q (x, inl e) h = h
  both Q (x, inr a) h = h

  -- Whichever calls of the file system fail, DeleteBackup leaves all other backups as they are, and
  -- either leaves its own backup as it is or has moved it away as a whole, after it found its
  -- marker and its manifest in order.
  pub delete_backup-Deleted :
      (b : Backup) (w : World S) → Deleted os view reader b.id w (delete_backup os reader b w).0
  unfolding delete_backup
  delete_backup-Deleted b w =
      both (Deleted os view reader b.id w) (delete_backup os reader b w)
        ((Ends-allowed os view lawful reader b.id w (reader.parse_backup_id b.id)).ends w refl)

  anyway :
      {A : Type 0} (Q : World S → Type 0) (r : World S × (Failure ⊎ A))
      → Q r.0
      → Outcome (λ a x. Q x) (λ e x. Q x) r
  anyway Q (x, inl e) h = h
  anyway Q (x, inr a) h = h

  -- A call that touches nothing, whatever it answers.
  abbrev Reads : {A : Type 0} → World S → Action (World S) A → Type 0
  Reads w m =
      After (λ x. Quiet view w.files x.files) m (λ a x. Quiet view w.files x.files)
        (λ e x. Quiet view w.files x.files)

  Reads-classify_complete : (w : World S) (id : String) → Reads w (classify_complete os reader id)
  Reads-classify_complete w id = record {
    ends = λ x h.
        anyway (λ y. Quiet view w.files y.files) (classify_complete os reader id x)
          (Quiet-trans view h (classify_complete-Quiet os view lawful reader id w x));
  }

  Reads-listed_one :
      (w : World S) (id : String) (t : Option ℕ) (rest : Action (World S) (List Backup))
      → Reads w rest
      → Reads w (listed_one os reader id t rest)
  unfolding listed_one
  Reads-listed_one w id none rest h = h
  Reads-listed_one w id (some t) rest h =
      After-bind _ _ (Reads-classify_complete w id)
        λ c. After-bind _ _ h λ others. After-pure _ λ x k. k

  Reads-listed : (w : World S) (ids : List String) → Reads w (listed os reader ids)
  unfolding listed
  Reads-listed w [] = After-pure [] λ x h. h
  Reads-listed w (id ∷ ids) =
      Reads-listed_one w id (reader.parse_backup_id id) _ (Reads-listed w ids)

  Reads-listed_in :
      (w : World S) (found : Option (List String)) → Reads w (listed_in os reader found)
  unfolding listed_in
  Reads-listed_in w none = After-fail _ λ x h. h
  Reads-listed_in w (some ids) = Reads-listed w ids

  -- ListBackups touches nothing.
  pub list_backups-Quiet : (w : World S) → Quiet view w.files (list_backups os reader w).0.files
  unfolding list_backups
  list_backups-Quiet w =
      let reads : Reads w (list_backups os reader) =
        After-bind {Q = λ a x. Quiet view w.files x.files} _ _
          (After-call _ λ x h. Quiet-trans view h (lawful.read_dir_quiet _ _))
          (Reads-listed_in w) in
      ended (λ x. Quiet view w.files x.files) (list_backups os reader w)
        (reads.ends w λ p. (refl, λ n. refl))
    where
      ended :
          {A : Type 0} (Q : World S → Type 0) (r : World S × (Failure ⊎ A))
          → Outcome (λ a x. Q x) (λ e x. Q x) r
          → Q r.0
      ended Q (x, inl e) h = h
      ended Q (x, inr a) h = h
