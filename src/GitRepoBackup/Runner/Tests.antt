-- ===== src/GitRepoBackup/Runner/Tests.antt =====
-- Runs at concrete inputs, and instances of the theorems.
use Prim.Native.String.{◌∷◌ as text_cons}
use k8s_at_home.Prelude.{
  Option, str_eq, if◌then◌else◌, ℕ, String, true, false, none, some, List, [], ◌∷◌, ◌≡◌, refl,
}
use k8s_at_home.GitRepoBackup.Action.{Failure, pure, ◌>>=◌}
use k8s_at_home.GitRepoBackup.Files.{
  Base, backups, staging, trash, Place, Os, einval, sync_dir, rename_no_replace, write_file_durable,
}
use k8s_at_home.GitRepoBackup.Files.Sample.{set, has, Contents, Disk, os, view, lawful, still}
use k8s_at_home.GitRepoBackup.Manifest.{Encoding, build_marker, build_checksums, sort_repositories}
use k8s_at_home.GitRepoBackup.Local.{
  final_place, World, RunIdentity, begin, put_archive, put_metadata, commit, abort, call, checked,
  get_store, set_store,
}
use k8s_at_home.GitRepoBackup.Local.Catalog.{Reader, list_backups, delete_backup, classify_complete}
use k8s_at_home.GitRepoBackup.Local.Incomplete.{Locator, list_incomplete, delete_incomplete}
use k8s_at_home.GitRepoBackup.Local.Incomplete.Kept.{Located}
use k8s_at_home.GitRepoBackup.Runner.Retained.{local_catalog, local_catalog-Respects}
use k8s_at_home.GitRepoBackup.Retention.{Options, select_deletions, incomplete_eligible}
use k8s_at_home.GitRepoBackup.Retention.Catalog.{Catalog, Respects}
use k8s_at_home.GitRepoBackup.Retention.Catalog as Catalog
use k8s_at_home.GitRepoBackup.Retention.Sorting.{insertion}
use k8s_at_home.GitRepoBackup.Runner.{
  RunStore, local_store, Repository, Pipeline, backup_repository, prepare, run,
}
use k8s_at_home.GitRepoBackup.Runner.Steps.{Harmless, Leaves}
use k8s_at_home.GitRepoBackup.Runner.Published.{Truthful, run-Truthful}
use k8s_at_home.GitRepoBackup.Runner.Unsupported.{run-unpublished}

abbrev encoding : Encoding
encoding = record {
  digest = λ t. t;
  marshal = λ m. some m.backup_id;
  encode_marker = λ m. some m.manifest_sha256;
  decode_marker = λ t. none;
  is_hex = λ t. true;
  has_length = λ t. 64;
  sort = λ es. es;
}

abbrev pipeline : Pipeline (World Disk)
pipeline = record {
  git_version = pure "2.43";
  run_error = pure tt;
  now = λ w. (w, 7);
  prepare_mirror = λ r. pure (r.name, true);
  count_refs = λ m. pure 3;
  local_head = λ m. pure (record { symbolic = true; ref = "refs/heads/main"; oid = "" });
  bare_config = λ m. pure "";
  create_archive = λ f m n c. pure ("aa", 0);
  remove_all = λ m. pure tt;
  remove_file = λ f. pure tt;
}

leaves : (w : World Disk) → Leaves view w w
leaves w = (refl, λ q b. still w.files q)

harmless : Harmless view pipeline
unfolding ◌>>=◌
harmless = record {
  git_version = leaves;
  run_error = leaves;
  now = leaves;
  prepare_mirror = λ r. leaves;
  count_refs = λ m. leaves;
  local_head = λ m. leaves;
  bare_config = λ m. leaves;
  create_archive = λ f m n c. leaves;
  remove_all = λ m. leaves;
  remove_file = λ f. leaves;
}

abbrev reader : Reader
reader = record {
  parse_backup_id = λ s. if str_eq s "20260914T020000Z" then some 5 else some 3;
  decode = λ s. some (record {
    schema = 1;
    backup_id = s;
    started_at = 5;
    completed_at = 6;
    repositories = [];
    tool_versions = record { backup = "dev"; git = "2.43" };
  });
  byte_length = λ s. 100;
  pid = "17";
  random_suffix = "x1";
}

-- The root lists the backup of the run and an older one.
abbrev files : Os Disk String
files = os ("20260914T020000Z" ∷ "20260101T000000Z" ∷ [])

-- A location is the letter of its directory and a name.
abbrev join : Place → String
join p = elim p.base [
  | backups ↦ text_cons "b" p.name
  | staging ↦ text_cons "s" p.name
  | trash ↦ text_cons "t" p.name
]

abbrev place_of : String → Option Place
place_of String.[] = none
place_of (text_cons c s) =
    if str_eq (text_cons c String.[]) "b"
    then some (record { base = backups; name = s })
    else if str_eq (text_cons c String.[]) "s"
    then some (record { base = staging; name = s })
    else if str_eq (text_cons c String.[]) "t"
    then some (record { base = trash; name = s })
    else none

place_of-join :
    (b : Base) (n : String)
    → place_of (join (record { base = b; name = n })) ≡ some (record { base = b; name = n })
place_of-join backups n = refl
place_of-join staging n = refl
place_of-join trash n = refl

abbrev locator : Locator Disk
locator = record {
  join = join;
  place = place_of;
  place-join = λ p. place_of-join p.base p.name;
  is_not_exist = λ b d. true;
  before_last_dash = λ s. none;
}

abbrev catalog : Catalog (World Disk) Failure
catalog = local_catalog files reader locator

abbrev options : ℕ → Options
options t = record {
  enabled = true;
  max_backups = 1;
  max_age = 100;
  incomplete_max_age = 3;
  max_run_grace = 2;
  now = t;
}

abbrev id : RunIdentity
id = record { backup_id = "20260914T020000Z"; owner_uuid = "u1"; started_at = 5 }

abbrev repos : List Repository
repos = record { name = "alpha"; url = "git@host:alpha" } ∷ []

-- The manifest of the older backup is its id.
abbrev older : Contents
older n = if str_eq n "manifest.json" then some "20260101T000000Z" else none

abbrev start : World Disk
start = record {
  store = record { backup_id = ""; staging_dir = none; published = false };
  files = set (λ p. none) (final_place "20260101T000000Z") (some older);
}

-- The definitions that a run computes with.
program : Unit {0}
unfolding list_incomplete delete_incomplete list_backups delete_backup classify_complete run prepare
    backup_repository begin put_archive put_metadata commit abort call checked get_store set_store
    sync_dir rename_no_replace write_file_durable os build_marker build_checksums sort_repositories
    select_deletions Catalog.run ◌>>=◌
program = tt

abbrev local : RunStore (World Disk)
local = local_store files encoding

published_run :
    (run local pipeline encoding false catalog insertion options id "dev" repos
      start).1.is_published
    ≡ true
unfolding program
published_run = refl

-- Retention deletes the older backup, and the new one stands.
older_deleted :
    has (
      (run local pipeline encoding false catalog insertion options id "dev" repos start).0.files
        (final_place "20260101T000000Z"))
    ≡ false
unfolding program
older_deleted = refl

newer_stands :
    has (
      (run local pipeline encoding false catalog insertion options id "dev" repos start).0.files
        (final_place "20260914T020000Z"))
    ≡ true
unfolding program
newer_stands = refl

-- The run began at 5, and it is 7.
young : incomplete_eligible 5 (options 7) ≡ false
unfolding incomplete_eligible
young = refl

run-Truthful_example :
    Truthful view encoding id start
      (run local pipeline encoding false catalog insertion options id "dev" repos start)
run-Truthful_example =
    run-Truthful files view (lawful _) encoding pipeline harmless false catalog insertion options id
      start (λ b. Unit {0}) (Located files reader locator)
      (λ x.
        local_catalog-Respects files reader locator view (lawful _) encoding id insertion
          (options 7) 5 refl young)
      "dev" repos refl

-- The same file system, but no directory can be synced.
abbrev unsyncable : Os Disk String
unsyncable = record files { sync_open_dir = λ d s. (s, some einval) }

run-unpublished_example :
    (run
      (local_store unsyncable encoding)
      pipeline
      encoding
      false
      catalog
      insertion
      options
      id
      "dev"
      repos
      start).1.is_published
    ≡ false
run-unpublished_example =
    run-unpublished unsyncable (λ d s. refl) encoding pipeline false catalog insertion options id
      "dev" repos start
