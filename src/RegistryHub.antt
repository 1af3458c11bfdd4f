-- ===== src/RegistryHub.antt =====
-- application/registry-hub/src/internal: the conditional object store and its clients.
pub mod Diagnostics
pub mod Errors
pub mod Storage
pub mod Spelling
pub mod Inventory
pub mod Lease
pub mod Quota
pub mod Route
pub mod WorkQueue
