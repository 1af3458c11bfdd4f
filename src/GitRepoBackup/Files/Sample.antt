-- ===== src/GitRepoBackup/Files/Sample.antt =====
-- A concrete file system for the tests: a function from places to their files. Directories can be
-- synced, and no call fails without a reason. It stands for the calls of the operating system under
-- application/git-repo-backup/src/internal/safefs.
use k8s_at_home.Prelude.{
  List, String, Bool, true, false, Option, none, some, ◌≡◌, ◌≢◌, refl, sym, ap, ◌∙◌, ◌&&◌, str_eq,
  str_eq_refl, eq_iff, if◌then◌else◌, Bool-cases, inl, inr,
}
use k8s_at_home.GitRepoBackup.Files.{
  Base, backups, staging, trash, Place, Errno, eexist, other_errno, Os, base_eq,
}
use k8s_at_home.GitRepoBackup.Files.Laws.{View, Same, Quiet, Only, Changes, Lawful}

abbrev pub Contents : Type 0
Contents = String → Option String

abbrev pub Disk : Type 0
Disk = Place → Option Contents

abbrev pub same_place : Place → Place → Bool
same_place p q = base_eq p.base q.base && str_eq p.name q.name

abbrev pub set : Disk → Place → Option Contents → Disk
set d p c q = if same_place q p then c else d q

abbrev pub set_file : Contents → String → String → Contents
set_file c n b m = if str_eq m n then some b else c m

abbrev pub has : Option Contents → Bool
has none = false
has (some c) = true

abbrev pub content : Option Contents → String → Option String
content none n = none
content (some c) n = c n

abbrev pub view : View Disk String
view = record { present = λ d p. has (d p); file = λ d p n. content (d p) n }

abbrev pub answer : {A : Type 0} → Bool → Disk × A → Disk × A → Disk × A
answer true x y = x
answer false x y = y

abbrev pub make : Place → Bool → Disk → Disk × Bool
make p true d = (d, false)
make p false d = (set d p (some (λ n. none)), true)

abbrev pub create_in : Place → String → Option Contents → Disk → Disk × Bool
create_in p n none d = (d, false)
create_in p n (some c) d = (set d p (some (set_file c n "")), true)

abbrev pub write_in : Place → String → String → Option Contents → Disk → Disk × Bool
write_in p n b none d = (d, false)
write_in p n b (some c) d = (set d p (some (set_file c n b)), true)

abbrev pub move : Place → Place → Option Contents → Bool → Disk → Disk × Option Errno
move p q c true d = (d, some eexist)
move p q none false d = (d, some other_errno)
move p q (some c) false d = (set (set d p none) q (some c), none)

-- The places of a base are listed by the given names.
unfoldable pub os : List String → Os Disk String
os names = record {
  lstat = λ p d. (d, has (d p));
  lstat_file = λ p n d. (d, some (record { is_regular = true; size = 0 }));
  mkdir = λ p d. make p (has (d p)) d;
  ensure_dir = λ p n d. (d, true);
  open_new = λ p n d. create_in p n (d p) d;
  write = λ p n b d. write_in p n b (d p) d;
  sync_file = λ p n d. (d, true);
  close_file = λ p n d. (d, true);
  open_dir = λ p d. (d, true);
  sync_open_dir = λ p d. (d, none);
  renameat2 = λ p q d. move p q (d p) (has (d q)) d;
  remove_all = λ p d. (set d p none, true);
  read_file = λ p n d. (d, content (d p) n);
  read_dir = λ b d. (d, some names);
  mkdir_base = λ b d. (d, some eexist);
}

base_eq-eq : (a b : Base) → base_eq a b ≡ true → a ≡ b
base_eq-eq backups backups h = refl
base_eq-eq staging staging h = refl
base_eq-eq trash trash h = refl
base_eq-eq backups staging h = cc
base_eq-eq backups trash h = cc
base_eq-eq staging backups h = cc
base_eq-eq staging trash h = cc
base_eq-eq trash backups h = cc
base_eq-eq trash staging h = cc

base_eq_refl : (a : Base) → base_eq a a ≡ true
base_eq_refl backups = refl
base_eq_refl staging = refl
base_eq_refl trash = refl

same_place_refl : (p : Place) → same_place p p ≡ true
same_place_refl p = rw (base_eq_refl p.base) (str_eq_refl p.name)

and-both : (a b : Bool) → (a && b) ≡ true → (a ≡ true) × (b ≡ true)
and-both true b h = (refl, h)
and-both false b h = cc

same_place-eq : (p q : Place) → same_place p q ≡ true → p ≡ q
same_place-eq p q h =
    let (b, n) = and-both _ _ h in
    let base = base_eq-eq p.base q.base b in
    let name = (eq_iff p.name q.name).0 n in λ i. record { base = base i; name = name i }

same_place-ne : (p q : Place) → p ≢ q → same_place p q ≡ false
same_place-ne p q h = elim (Bool-cases (same_place p q)) [
  | inl e ↦ absurd (h (same_place-eq p q e))
  | inr e ↦ e
]

set-other : (d : Disk) (p q : Place) (c : Option Contents) → q ≢ p → set d p c q ≡ d q
set-other d p q c h = rw (same_place-ne q p h) refl

set-same : (d : Disk) (p : Place) (c : Option Contents) → set d p c p ≡ c
set-same d p c = rw (same_place_refl p) refl

-- Directories with the same contents are the same.
agreeing : (d e : Disk) (p : Place) → e p ≡ d p → Same view d e p
agreeing d e p h = (ap has h, λ n. ap (λ c. content c n) h)

pub set-Only : (d : Disk) (p : Place) (c : Option Contents) → Only view p d (set d p c)
set-Only d p c q h = agreeing d (set d p c) q (set-other d p q c h)

pub still : (d : Disk) → Quiet view d d
still d p = (refl, λ n. refl)

make-Only : (p : Place) (b : Bool) (d : Disk) → Only view p d (make p b d).0
make-Only p true d = λ q h. still d q
make-Only p false d = set-Only d p _

make-empty :
    (p : Place) (b : Bool) (d : Disk) (n : String)
    → (make p b d).1 ≡ true
    → content ((make p b d).0 p) n ≡ none
make-empty p true d n h = cc
make-empty p false d n h = ap (λ c. content c n) (set-same d p _)

-- A file set in a directory that is there.
set_file-Changes :
    (p : Place) (n b : String) (c : Contents) (d : Disk)
    → d p ≡ some c
    → Changes view p n d (set d p (some (set_file c n b)))
set_file-Changes p n b c d h = (
  set-Only d p _,
  ap has (set-same d p _) ∙ sym (ap has h),
  λ m apart.
      ap (λ x. content x m) (set-same d p _)
      ∙ rw (apart_texts m n apart) (sym (ap (λ x. content x m) h)),
)
  where
    apart_texts : (m n : String) → m ≢ n → str_eq m n ≡ false
    apart_texts m n apart = elim (Bool-cases (str_eq m n)) [
      | inl e ↦ absurd (apart ((eq_iff m n).0 e))
      | inr e ↦ e
    ]

same_Changes : (p : Place) (n : String) (d : Disk) → Changes view p n d d
same_Changes p n d = (λ q h. still d q, refl, λ m h. refl)

create_in-Changes :
    (p : Place) (n : String) (c : Option Contents) (d : Disk)
    → d p ≡ c
    → Changes view p n d (create_in p n c d).0
create_in-Changes p n none d h = same_Changes p n d
create_in-Changes p n (some c) d h = set_file-Changes p n "" c d h

write_in-Changes :
    (p : Place) (n b : String) (c : Option Contents) (d : Disk)
    → d p ≡ c
    → Changes view p n d (write_in p n b c d).0
write_in-Changes p n b none d h = same_Changes p n d
write_in-Changes p n b (some c) d h = set_file-Changes p n b c d h

write_in-done :
    (p : Place) (n b : String) (c : Option Contents) (d : Disk)
    → (write_in p n b c d).1 ≡ true
    → content ((write_in p n b c d).0 p) n ≡ some b
write_in-done p n b none d h = cc
write_in-done p n b (some c) d h = ap (λ x. content x n) (set-same d p _) ∙ rw (str_eq_refl n) refl

move-moves :
    (p q : Place) (c : Option Contents) (b : Bool) (d : Disk)
    → d p ≡ c
    → has (d q) ≡ b
    → (move p q c b d).1 ≡ none
    → (has (d q) ≡ false)
      × (has ((move p q c b d).0 q) ≡ true)
      × ((n : String) → content ((move p q c b d).0 q) n ≡ content (d p) n)
      × ((r : Place) → r ≢ p → r ≢ q → Same view d (move p q c b d).0 r)
move-moves p q c true d h k e = cc
move-moves p q none false d h k e = cc
move-moves p q (some c) false d h k e = (
  k,
  ap has (set-same (set d p none) q (some c)),
  λ n. ap (λ x. content x n) (set-same (set d p none) q (some c) ∙ sym h),
  λ r np nq.
      agreeing d (set (set d p none) q (some c)) r
        (set-other (set d p none) q r (some c) nq ∙ set-other d p r none np),
)

move-leaves :
    (p q : Place) (c : Option Contents) (b : Bool) (d : Disk)
    → p ≢ q
    → (move p q c b d).1 ≡ none
    → has ((move p q c b d).0 p) ≡ false
move-leaves p q c true d apart h = cc
move-leaves p q none false d apart h = cc
move-leaves p q (some c) false d apart h =
    ap has (set-other (set d p none) q p (some c) apart ∙ set-same d p none)

move-fails :
    (p q : Place) (c : Option Contents) (b : Bool) (d : Disk) (e : Errno)
    → (move p q c b d).1 ≡ some e
    → Quiet view d (move p q c b d).0
move-fails p q c true d e h = still d
move-fails p q none false d e h = still d
move-fails p q (some c) false d e h = cc

pub lawful : (names : List String) → Lawful (os names) view
unfolding os
lawful names = record {
  lstat_quiet = λ p d. still d;
  lstat_file_quiet = λ p n d. still d;
  mkdir_only = λ p d. make-Only p (has (d p)) d;
  mkdir_empty = λ p d n h. make-empty p (has (d p)) d n h;
  ensure_dir_quiet = λ p n d. still d;
  open_changes = λ p n d. create_in-Changes p n (d p) d refl;
  write_changes = λ p n b d. write_in-Changes p n b (d p) d refl;
  write_done = λ p n b d h k. write_in-done p n b _ (create_in p n (d p) d).0 k;
  sync_quiet = λ p n d. still d;
  close_quiet = λ p n d. still d;
  open_dir_quiet = λ p d. still d;
  sync_dir_quiet = λ p d. still d;
  rename_moves = λ p q d h. move-moves p q (d p) (has (d q)) d refl refl h;
  rename_fails = λ p q d e h. move-fails p q (d p) (has (d q)) d e h;
  rename_leaves = λ p q d apart h. move-leaves p q (d p) (has (d q)) d apart h;
  read_quiet = λ p n d. still d;
  read_dir_quiet = λ b d. still d;
  mkdir_base_quiet = λ b d. still d;
  remove_only = λ p d. set-Only d p none;
}
