-- ===== src/GitRepoBackup.antt =====
-- The backup job for Git repositories: application/git-repo-backup/src.
pub mod Retention
pub mod Url
pub mod Settings
pub mod Files
pub mod Manifest
pub mod Local
pub mod Runner
pub mod Action
