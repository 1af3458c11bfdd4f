-- ===== src/GitRepoBackup/Files/Laws.antt =====
-- What the code relies on in the file system: the documented behaviour of its calls, over a view of
-- the directories and files under a backup root, and what follows for the functions of
-- application/git-repo-backup/src/internal/safefs.
use k8s_at_home.Prelude.{
  String, Bool, true, false, Option, none, some, ◌≡◌, ◌≢◌, refl, ◌∙◌, Bool-cases, inl, inr,
}
use k8s_at_home.GitRepoBackup.Files.{
  Base, Place, Directory, at, Errno, eexist, enosys, einval, enotty, other_errno, Os, FileError,
  sync_dir, rename_fault, rename_no_replace, close_written, sync_written, write_opened,
  write_file_durable,
}

-- What stands under a backup root.
pub record View (S Body : Type 0) : Type 0 where
  pub present : S → Place → Bool
  pub file : S → Place → String → Option Body

module _ {S Body : Type 0} (view : View S Body) where
  -- A directory is in the second state what it is in the first.
  abbrev pub Same : S → S → Place → Type 0
  Same s t p =
      (view.present t p ≡ view.present s p) × ((n : String) → view.file t p n ≡ view.file s p n)

  abbrev pub Quiet : S → S → Type 0
  Quiet s t = (p : Place) → Same s t p

  -- Only the one directory is touched.
  abbrev pub Only : Place → S → S → Type 0
  Only p s t = (q : Place) → q ≢ p → Same s t q

  -- Only the one file is touched.
  abbrev pub Changes : Place → String → S → S → Type 0
  Changes p n s t =
      Only p s t
      × (view.present t p ≡ view.present s p)
      × ((m : String) → m ≢ n → view.file t p m ≡ view.file s p m)

  pub Same-trans : {s t u : S} (p : Place) → Same s t p → Same t u p → Same s u p
  Same-trans p h k = (k.0 ∙ h.0, λ n. k.1 n ∙ h.1 n)

  pub Changes-trans :
      {s t u : S} (p : Place) (n : String) → Changes p n s t → Changes p n t u → Changes p n s u
  Changes-trans p n h k =
      (λ q d. Same-trans q (h.0 q d) (k.0 q d), k.1 ∙ h.1, λ m d. k.2 m d ∙ h.2 m d)

  pub Quiet-Changes : {s t : S} (p : Place) (n : String) → Quiet s t → Changes p n s t
  Quiet-Changes p n h = (λ q d. h q, (h p).0, λ m d. (h p).1 m)

  pub Quiet-trans : {s t u : S} → Quiet s t → Quiet t u → Quiet s u
  Quiet-trans h k p = Same-trans p (h p) (k p)

-- The calls that only read or sync touch nothing; each other call touches what it is about, and
-- renameat2 with RENAME_NOREPLACE moves a whole directory where there was none, or does nothing.
pub record Lawful {S Body : Type 0} (os : Os S Body) (view : View S Body) : Type 0 where
  pub lstat_quiet : (p : Place) (s : S) → Quiet view s (os.lstat p s).0
  pub lstat_file_quiet :
      (p : Option Place) (n : String) (s : S) → Quiet view s (os.lstat_file p n s).0
  pub mkdir_only : (p : Place) (s : S) → Only view p s (os.mkdir p s).0
  pub mkdir_empty :
      (p : Place) (s : S) (n : String)
      → (os.mkdir p s).1 ≡ true
      → view.file (os.mkdir p s).0 p n ≡ none
  pub ensure_dir_quiet : (p : Place) (n : String) (s : S) → Quiet view s (os.ensure_dir p n s).0
  pub open_changes : (p : Place) (n : String) (s : S) → Changes view p n s (os.open_new p n s).0
  pub write_changes :
      (p : Place) (n : String) (b : Body) (s : S) → Changes view p n s (os.write p n b s).0
  pub write_done :
      (p : Place) (n : String) (b : Body) (s : S)
      → (os.open_new p n s).1 ≡ true
      → (os.write p n b (os.open_new p n s).0).1 ≡ true
      → view.file (os.write p n b (os.open_new p n s).0).0 p n ≡ some b
  pub sync_quiet : (p : Place) (n : String) (s : S) → Quiet view s (os.sync_file p n s).0
  pub close_quiet : (p : Place) (n : String) (s : S) → Quiet view s (os.close_file p n s).0
  pub open_dir_quiet : (d : Directory) (s : S) → Quiet view s (os.open_dir d s).0
  pub sync_dir_quiet : (d : Directory) (s : S) → Quiet view s (os.sync_open_dir d s).0
  pub rename_moves :
      (p q : Place) (s : S)
      → (os.renameat2 p q s).1 ≡ none
      → (view.present s q ≡ false)
        × (view.present (os.renameat2 p q s).0 q ≡ true)
        × ((n : String) → view.file (os.renameat2 p q s).0 q n ≡ view.file s p n)
        × ((r : Place) → r ≢ p → r ≢ q → Same view s (os.renameat2 p q s).0 r)
  pub rename_fails :
      (p q : Place) (s : S) (e : Errno)
      → (os.renameat2 p q s).1 ≡ some e
      → Quiet view s (os.renameat2 p q s).0
  pub rename_leaves :
      (p q : Place) (s : S)
      → p ≢ q
      → (os.renameat2 p q s).1 ≡ none
      → view.present (os.renameat2 p q s).0 p ≡ false
  pub read_quiet : (p : Place) (n : String) (s : S) → Quiet view s (os.read_file p n s).0
  pub read_dir_quiet : (b : Base) (s : S) → Quiet view s (os.read_dir b s).0
  pub mkdir_base_quiet : (b : Base) (s : S) → Quiet view s (os.mkdir_base b s).0
  pub remove_only : (p : Place) (s : S) → Only view p s (os.remove_all p s).0

module _ {S Body : Type 0} (os : Os S Body) (view : View S Body) (lawful : Lawful os view) where
  pub sync_dir-Quiet : (d : Directory) (s : S) → Quiet view s (sync_dir os d s).0
  unfolding sync_dir
  sync_dir-Quiet d s =
      let opened = lawful.open_dir_quiet d s in
      elim (Bool-cases (os.open_dir d s).1) [
        | inl e ↦ rw e (Quiet-trans view opened (lawful.sync_dir_quiet d (os.open_dir d s).0))
        | inr e ↦ rw e opened
      ]

  close_written-Quiet : (p : Place) (n : String) (s : S) → Quiet view s (close_written os p n s).0
  unfolding close_written
  close_written-Quiet p n s =
      let closed = lawful.close_quiet p n s in
      elim (Bool-cases (os.close_file p n s).1) [
        | inl e ↦ rw e (Quiet-trans view closed (sync_dir-Quiet _ _))
        | inr e ↦ rw e closed
      ]

  sync_written-Quiet : (p : Place) (n : String) (s : S) → Quiet view s (sync_written os p n s).0
  unfolding sync_written
  sync_written-Quiet p n s =
      let synced = lawful.sync_quiet p n s in
      elim (Bool-cases (os.sync_file p n s).1) [
        | inl e ↦ rw e (Quiet-trans view synced (close_written-Quiet p n _))
        | inr e ↦ rw e (Quiet-trans view synced (lawful.close_quiet p n _))
      ]

  -- WriteFileDurable touches its file only, and leaves the whole text in it if it succeeds.
  pub write_file_durable-Changes :
      (p : Place) (n : String) (b : Body) (s : S)
      → Changes view p n s (write_file_durable os p n b s).0
        × ((write_file_durable os p n b s).1 ≡ none
            → view.file (write_file_durable os p n b s).0 p n ≡ some b)
  unfolding write_file_durable write_opened
  write_file_durable-Changes p n b s =
      let opened = lawful.open_changes p n s in
      elim (Bool-cases (os.open_new p n s).1) [
        | inr e ↦ rw e (opened, λ h. cc)
        | inl e ↦
            let wrote = lawful.write_changes p n b (os.open_new p n s).0 in
            let so_far = Changes-trans view p n opened wrote in
            elim (Bool-cases (os.write p n b (os.open_new p n s).0).1) [
              | inr f ↦
                  rw (e, f)
                    (
                      Changes-trans view p n so_far
                          (Quiet-Changes view p n (lawful.close_quiet p n _)),
                      λ h. cc,
                    )
              | inl f ↦
                  rw (e, f)
                    (
                      Changes-trans view p n so_far
                          (Quiet-Changes view p n (sync_written-Quiet p n _)),
                      λ h. (sync_written-Quiet p n _ p).1 n ∙ lawful.write_done p n b s e f,
                    )
            ]
      ]

  rename_fault-none : (e : Option Errno) → rename_fault os e ≡ none → e ≡ none
  rename_fault-none none h = refl
  rename_fault-none (some eexist) h = cc
  rename_fault-none (some enosys) h = cc
  rename_fault-none (some einval) h = cc
  rename_fault-none (some enotty) h = cc
  rename_fault-none (some other_errno) h = cc

  rename_fault-some :
      (e : Option Errno) (f : FileError) → rename_fault os e ≡ some f → (x : Errno) × (e ≡ some x)
  rename_fault-some none f h = cc
  rename_fault-some (some x) f h = (x, refl)

  -- What RenameNoReplace moved is gone.
  pub rename_no_replace-gone :
      (p q : Place) (s : S)
      → p ≢ q
      → (rename_no_replace os p q s).1 ≡ none
      → view.present (rename_no_replace os p q s).0 p ≡ false
  unfolding rename_no_replace
  rename_no_replace-gone p q s apart h = lawful.rename_leaves p q s apart (rename_fault-none _ h)

  -- RenameNoReplace moves the directory, or does nothing.
  pub rename_no_replace-none :
      (p q : Place) (s : S)
      → (rename_no_replace os p q s).1 ≡ none
      → (view.present (rename_no_replace os p q s).0 q ≡ true)
        × ((n : String) → view.file (rename_no_replace os p q s).0 q n ≡ view.file s p n)
        × ((r : Place) → r ≢ p → r ≢ q → Same view s (rename_no_replace os p q s).0 r)
  unfolding rename_no_replace
  rename_no_replace-none p q s h =
      let m = lawful.rename_moves p q s (rename_fault-none _ h) in (m.1, m.2, m.3)

  pub rename_no_replace-some :
      (p q : Place) (s : S) (f : FileError)
      → (rename_no_replace os p q s).1 ≡ some f
      → Quiet view s (rename_no_replace os p q s).0
  unfolding rename_no_replace
  rename_no_replace-some p q s f h =
      let (x, e) = rename_fault-some _ f h in lawful.rename_fails p q s x e

module _ {S Body : Type 0} (os : Os S Body)
    (unsupported : (d : Directory) (s : S) → (os.sync_open_dir d s).1 ≡ some einval) where
  sync_dir-some : (d : Directory) (s : S) → (sync_dir os d s).1 ≢ none
  unfolding sync_dir
  sync_dir-some d s h = elim (Bool-cases (os.open_dir d s).1) [
    | inl e ↦ cc (e, unsupported d (os.open_dir d s).0)
    | inr e ↦ cc
  ]

  close_written-some : (p : Place) (n : String) (s : S) → (close_written os p n s).1 ≢ none
  unfolding close_written
  close_written-some p n s h = elim (Bool-cases (os.close_file p n s).1) [
    | inl e ↦ sync_dir-some (at p) _ (rw e at h)
    | inr e ↦ cc
  ]

  sync_written-some : (p : Place) (n : String) (s : S) → (sync_written os p n s).1 ≢ none
  unfolding sync_written
  sync_written-some p n s h = elim (Bool-cases (os.sync_file p n s).1) [
    | inl e ↦ close_written-some p n _ (rw e at h)
    | inr e ↦ cc
  ]

  write_opened-some :
      (p : Place) (n : String) (b : Body) (s : S) → (write_opened os p n b s).1 ≢ none
  unfolding write_opened
  write_opened-some p n b s h = elim (Bool-cases (os.write p n b s).1) [
    | inl e ↦ sync_written-some p n _ (rw e at h)
    | inr e ↦ cc
  ]

  -- Where directories cannot be synced, WriteFileDurable always answers an error.
  pub write_file_durable-some :
      (p : Place) (n : String) (b : Body) (s : S) → (write_file_durable os p n b s).1 ≢ none
  unfolding write_file_durable
  write_file_durable-some p n b s h = elim (Bool-cases (os.open_new p n s).1) [
    | inl e ↦ write_opened-some p n b _ (rw e at h)
    | inr e ↦ cc
  ]
