-- ===== src/GitRepoBackup/Manifest.antt =====
-- The metadata of a backup: internal/manifest of application/git-repo-backup/src. Texts stand for
-- the bytes of files; SHA-256 in hexadecimal digits, encoding/json and the decoder of
-- encoding/hex are parameters. sort.Slice is a parameter.
pub mod Sorted
mod Tests
use Prim.Native.String.{◌++◌}
use k8s_at_home.Prelude.{
  ℕ, String, Bool, not, ◌&&◌, Option, none, some, List, [], ◌∷◌, ◌==◌, str_eq, str_ltb,
  if◌then◌else◌,
}

abbrev pub schema_version : ℕ
schema_version = 1

abbrev pub manifest_name : String
manifest_name = "manifest.json"

abbrev pub checksums_name : String
checksums_name = "checksums.sha256"

abbrev pub marker_name : String
marker_name = "_SUCCESS"

abbrev pub repositories_dir : String
repositories_dir = "repositories"

pub record RepositoryEntry : Type 0 where
  pub name : String
  pub archive : String
  pub sha256 : String
  pub size_bytes : ℕ
  pub ref_count : ℕ
  pub started_at : ℕ
  pub completed_at : ℕ
  pub head_ref : String
  pub head_oid : String

pub record ToolVersions : Type 0 where
  pub backup : String
  pub git : String

pub record Manifest : Type 0 where
  pub schema : ℕ
  pub backup_id : String
  pub started_at : ℕ
  pub completed_at : ℕ
  pub repositories : List RepositoryEntry
  pub tool_versions : ToolVersions

pub record SuccessMarker : Type 0 where
  pub schema : ℕ
  pub backup_id : String
  pub manifest_sha256 : String
  pub checksums_sha256 : String

-- ArchivePath
abbrev pub archive_path : String → String
archive_path name = "repositories/" ++ name ++ ".tar.gz"

-- The inner loop of SortRepositories: the entry moves down over the sorted ones before it, which
-- stand here with the last one first.
abbrev pub sink : RepositoryEntry → List RepositoryEntry → List RepositoryEntry
sink e [] = e ∷ []
sink e (d ∷ ds) = let below = sink e ds in if str_ltb e.name d.name then d ∷ below else e ∷ d ∷ ds

abbrev pub sorted_onto : List RepositoryEntry → List RepositoryEntry → List RepositoryEntry
sorted_onto done [] = done
sorted_onto done (e ∷ es) = sorted_onto (sink e done) es

abbrev pub reversed_onto : List RepositoryEntry → List RepositoryEntry → List RepositoryEntry
reversed_onto done [] = done
reversed_onto done (e ∷ es) = reversed_onto (e ∷ done) es

-- SortRepositories
unfoldable pub sort_repositories : List RepositoryEntry → List RepositoryEntry
sort_repositories entries = reversed_onto [] (sorted_onto [] entries)

-- The standard library: the digest of a text, JSON, and whether a text is one of hexadecimal digits.
pub record Encoding : Type 0 where
  pub digest : String → String
  pub marshal : Manifest → Option String
  pub encode_marker : SuccessMarker → Option String
  pub decode_marker : String → Option SuccessMarker
  pub is_hex : String → Bool
  pub has_length : String → ℕ
  pub sort : List RepositoryEntry → List RepositoryEntry

module _ (encoding : Encoding) where
  -- validateHex
  abbrev pub validate_hex : String → Bool
  validate_hex s = (encoding.has_length s == 64) && encoding.is_hex s

  abbrev pub checksum_lines : List RepositoryEntry → Option String
  checksum_lines [] = some ""
  checksum_lines (e ∷ es) =
      let rest = checksum_lines es in
      if validate_hex e.sha256
      then elim rest [
        | none ↦ none
        | some lines ↦ some (e.sha256 ++ "  " ++ e.archive ++ "\n" ++ lines)
      ]
      else none

  -- BuildChecksums
  unfoldable pub build_checksums : String → Manifest → Option String
  build_checksums text m = elim (checksum_lines (encoding.sort m.repositories)) [
    | none ↦ none
    | some lines ↦ some (encoding.digest text ++ "  " ++ manifest_name ++ "\n" ++ lines)
  ]

  -- BuildMarker
  unfoldable pub build_marker : String → String → String → SuccessMarker
  build_marker id manifest checksums = record {
    schema = schema_version;
    backup_id = id;
    manifest_sha256 = encoding.digest manifest;
    checksums_sha256 = encoding.digest checksums;
  }

  abbrev pub checked_marker : Option SuccessMarker → Option SuccessMarker
  checked_marker none = none
  checked_marker (some m) =
      if (m.schema == schema_version)
        && not (str_eq m.backup_id "")
        && validate_hex m.manifest_sha256
        && validate_hex m.checksums_sha256
      then some m
      else none

  -- ParseMarker
  unfoldable pub parse_marker : String → Option SuccessMarker
  parse_marker text = checked_marker (encoding.decode_marker text)

  -- SuccessMarker.Matches
  unfoldable pub matches : SuccessMarker → String → String → String → Bool
  unfolding build_marker
  matches m id manifest checksums =
      let want = build_marker id manifest checksums in
      (m.schema == want.schema)
      && str_eq m.backup_id want.backup_id
      && str_eq m.manifest_sha256 want.manifest_sha256
      && str_eq m.checksums_sha256 want.checksums_sha256
