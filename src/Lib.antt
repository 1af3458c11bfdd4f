-- ===== src/Lib.antt =====
-- A verification library for the Go programs of this repository that keep state.
--
-- The programs. registry-hub (application/registry-hub/src) is a registry mirror whose processes
-- share one object store; leases in that store fence them from one another, and background jobs
-- are records in it that they claim, finish and archive through the same calls. split-dns
-- (application/split-dns/src) is a DNS router with a response cache. git-repo-backup
-- (application/git-repo-backup/src) is a job that backs up Git repositories and deletes old backups.
--
-- Files.
-- Prelude: the shared names, Boolean tests, lists; Prelude/Bytes functions of package strings on
--   bytes, Prelude/Checks functions that return an error text.
-- RegistryHub/Errors: the sentinel errors, errors.Is and errors.Join.
-- RegistryHub/Storage: the store of internal/storage/storage.go as storage/filesystem implements
--   it: Get, Put and DeleteIfMatch with their conditions. A version is a hash of a body, a
--   parameter that does not collide; encoding/json is a parameter that reads back what it wrote
--   (records Tagging and Codec). Each call of the store takes one event of a script: what the
--   other processes write before it, the time that passes, and whether and when it fails.
--   Storage/Keeps is a rely-guarantee logic for functions over it, Storage/Ensures one of
--   postconditions, Storage/Conditional has the rules for the calls themselves.
-- RegistryHub/Lease: internal/lease/lease.go, all operations. The 16 rounds of read and the 3 of
--   Acquire are those of the source, with its errors when they run out. Lease/View says what a
--   key holds and how it may advance; Lease/Reading and Lease/Guarantee prove that the operations
--   keep to this; Lease/Grants, Lease/Fencing and Lease/Exclusion prove what a lease is worth.
--   Fair writes of the others are those that advance each key as View.Advances says.
-- RegistryHub/Inventory: Read and Update of internal/inventory/repository.go with its 16 rounds, on
--   which the jobs rest; encoding/json is a parameter with no law but that of bytes.Equal (Json);
--   Inventory/Atomic and Inventory/Quiet what Update does with and without interference.
-- RegistryHub/Diagnostics: internal/diagnostics/events.go; Diagnostics/Outbox its bounded outbox.
-- RegistryHub/WorkQueue: internal/workqueue. WorkQueue itself has the jobs and what the operations
--   make of them, WorkQueue/Calls the operations on the store, with their theorems in Calls/Claims
--   and Calls/Enqueued, WorkQueue/Delays when a job can be claimed, WorkQueue/Status the summary.
--   WorkQueue/Retries the accepted retries of management.go, with Retries/Requests.
-- RegistryHub/Quota: internal/download/quota.go and quota_cleanup.go. Quota itself has the decision of
--   a round of Manager.reserve and the amounts, Quota/Bounds what a round writes. Quota/Calls reads
--   the quota object, Quota/Reserve and Quota/Release are the loops of reserve, release and
--   cleanupOrphanReservations over the store with their 16 rounds; Reserve/Granted has what reserve
--   leaves behind, Quota/Invariant sequences of operations. The object stays below the four
--   megabytes that readQuota reads; the order of a Go map is that of a list.
-- RegistryHub/Spelling: versions for the concrete stores of the tests.
-- RegistryHub/Route: internal/route, all of it. Route/Names has the checks of names, Route/Internal
--   the names on the internal registry, Route/Parse the parser of request paths; Route/Grammar,
--   Route/Escapes, Route/Injective and Route/Safe hold their theorems.
-- SplitDns/Message: the fields of DNS messages that the program reads; functions of
--   github.com/miekg/dns are parameters (record Library).
-- SplitDns/Ttl, SplitDns/Cache: internal/dnsrouter/cache.go; Cache/Copies says what a copy from the
--   cache is.
-- SplitDns/Config: the records and checks of internal/config/config.go and validate.go; Config/Names
--   has the names and domains, Config/Check Config.Validate, Config/Valid what it guarantees.
-- SplitDns/Router: selectGroup and the compiled rules of internal/dnsrouter/router.go, forward.go,
--   and validDNSReply of doh.go. The network is a parameter over a state of its own.
--   Router/Choice has what selectGroup picks, Router/Replies what resolveForward returns.
-- GitRepoBackup/Retention: internal/retention/policy.go; Retention/Catalog its run.go, over the
--   Catalog interface of internal/storage/storage.go with an arbitrary state; Retention/Selection
--   proves what is deleted; Retention/Sorting is a sort for the tests. sort.Slice is a parameter.
-- GitRepoBackup/Runner: Run of internal/runner/runner.go from the start of the store's use on, and
--   backupRepository, over the interface RunStore. Runner/Steps and Runner/Published prove what a
--   run leaves, Runner/Unsupported what happens without the sync of directories, Runner/Retained
--   what retention does on the local store.
-- GitRepoBackup/Local: the local store of internal/storage/local, which a run fills. Local/Phases
--   and Local/Committed hold what its operations leave; Local/Catalog lists and deletes backups, and
--   Catalog/Deletion has what a deletion leaves. Local/Incomplete lists and deletes what unfinished
--   runs left, and Incomplete/Kept has what that touches.
-- GitRepoBackup/Files: the functions of internal/safefs that it uses, over calls of the operating
--   system, which are a parameter; Files/Laws is their documented behaviour, Files/Sample one
--   file system that has it. The calls may fail in any way that these laws allow.
-- GitRepoBackup/Manifest: internal/manifest; Manifest/Sorted the order of the repositories.
-- GitRepoBackup/Action: errors and postconditions.
-- GitRepoBackup/Url: internal/config/url.go and url_validation.go; Url/Safe what is accepted.
-- GitRepoBackup/Settings: internal/config/types.go, defaults.go, validate.go and validate_s3.go with
--   the paths of internal/safefs; Settings/Valid what is accepted, Settings/Running what it means
--   for the retention. Durations are nanoseconds below 2 ^ 63, whose sums wrap around in 64 bits.
-- The modules called Tests hold runs at concrete inputs and instances of the theorems.
--
-- Not modelled: goroutine scheduling within one process beyond the interleaving of store calls,
-- network and file input and output, logging and metrics, and the packages that no file above is
-- about. Times are nanoseconds, 0 is the zero time, and the clock
-- moves with the calls of the store.
pub mod GitRepoBackup
pub mod Prelude
pub mod RegistryHub
pub mod SplitDns
