-- ===== src/GitRepoBackup/Local/Catalog/Tests.antt =====
-- Runs of the catalog at a concrete root, and an instance of its theorem.
use k8s_at_home.Prelude.{String, true, false, none, some, [], ◌≡◌, refl, str_eq, if◌then◌else◌}
use k8s_at_home.GitRepoBackup.Action.{◌>>=◌}
use k8s_at_home.GitRepoBackup.Files.{sync_dir, rename_no_replace}
use k8s_at_home.GitRepoBackup.Files.Sample.{Disk, Contents, os, view, lawful, has, set}
use k8s_at_home.GitRepoBackup.Local.{World, call, checked, final_place}
use k8s_at_home.GitRepoBackup.Retention.{Backup}
use k8s_at_home.GitRepoBackup.Local.Catalog.{Reader, classify_complete, delete_backup, list_backups}
use k8s_at_home.GitRepoBackup.Local.Catalog.Deletion.{Deleted, delete_backup-Deleted}

abbrev reader : Reader
reader = record {
  parse_backup_id = λ id. some 9;
  decode = λ text. some (record {
    schema = 1;
    backup_id = text;
    started_at = 5;
    completed_at = 6;
    repositories = [];
    tool_versions = record { backup = "dev"; git = "2.43" };
  });
  byte_length = λ text. 100;
  pid = "17";
  random_suffix = "x1";
}

-- The manifest is the id.
abbrev contents : Contents
contents n = if str_eq n "manifest.json" then some "a" else none

abbrev start : World Disk
start = record {
  store = record { backup_id = ""; staging_dir = none; published = false };
  files = set (set (λ p. none) (final_place "a") (some contents)) (final_place "b") (some contents);
}

abbrev backup : String → Backup
backup id = record { id = id; complete = true; anomaly = false; started_at = 9 }

-- The definitions that a run computes with.
program : Unit {0}
unfolding delete_backup list_backups classify_complete call checked ◌>>=◌ os sync_dir
    rename_no_replace
program = tt

deleted : has ((delete_backup (os []) reader (backup "a") start).0.files (final_place "a")) ≡ false
unfolding program
deleted = refl

-- The manifest of "b" is that of another backup.
spared : has ((delete_backup (os []) reader (backup "b") start).0.files (final_place "b")) ≡ true
unfolding program
spared = refl

delete_backup-Deleted_example :
    Deleted (os []) view reader "a" start (delete_backup (os []) reader (backup "a") start).0
delete_backup-Deleted_example =
    delete_backup-Deleted (os []) view (lawful []) reader (backup "a") start
