-- ===== src/GitRepoBackup/Manifest/Tests.antt =====
-- A manifest's entries sorted, and an instance of the theorem.
use mathlib.Core.List.{Permᴰ}
use k8s_at_home.Prelude.{String, List, [], ◌∷◌, ◌≡◌, refl}
use k8s_at_home.GitRepoBackup.Manifest.{RepositoryEntry, archive_path, sort_repositories}
use k8s_at_home.GitRepoBackup.Manifest.Sorted.{Ascending, sort_repositories-Ascending}

abbrev entry : String → RepositoryEntry
entry name = record {
  name = name;
  archive = archive_path name;
  sha256 = "aa";
  size_bytes = 2;
  ref_count = 1;
  started_at = 5;
  completed_at = 6;
  head_ref = "refs/heads/main";
  head_oid = "";
}

abbrev entries : List RepositoryEntry
entries = entry "zeta" ∷ entry "alpha" ∷ entry "mid" ∷ []

sorted : sort_repositories entries ≡ entry "alpha" ∷ entry "mid" ∷ entry "zeta" ∷ []
unfolding sort_repositories
sorted = refl

sort_repositories-Ascending_example :
    Ascending (sort_repositories entries) × Permᴰ entries (sort_repositories entries)
sort_repositories-Ascending_example = sort_repositories-Ascending entries
