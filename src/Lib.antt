-- ===== src/Lib.antt =====
-- acemcp-relay: the parts of the relay that decide, with the theorems that make them correct.
--
-- The relay (one Go package, main) stands between MCP clients and the LCE index service. It
-- authenticates a request, counts it against daily quotas in Redis, keeps the state of index jobs,
-- leases and root deletions in PostgreSQL, and forwards the work.
--
-- Parts, and where they are.
--   Quota/Request.antt (quota.go): reserveRequestQuota with its Lua script; a request of an
--     organisation is counted against a member's limit and a pool at once. Laws has one
--     reservation, Runs any sequence of them.
--   Quota/IndexBytes.antt (quota.go): chargeIndexFiles, with the ledger that keeps a file's content
--     from being charged twice in a day, and chargeIndexBytesQuota.
--   Quota/Limits.antt, Quota/Organization.antt, Quota/Checks.antt (quota.go): the limits in force
--     (getUserDailyLimit, getMemberDailyLimit, getOrgQuotaLimits and what they call), their caches
--     (formatOrgQuotaCache, parseOrgQuotaCache), and checkRequestQuotaDetailed, which turns them into
--     a reservation of Quota/Request.
--   Quota/Swift.antt (swift_quota.go): chargeSwiftPart and the checks of reserveSwiftUpload. The pool
--     of both charges comes from resolveIndexBytesQuota in Quota/Checks.
--   Index/Path.antt (index_jobs.go, index_path_policy.go, mcp_index_tool.go): normalizeIndexPath, the
--     cloud exclusion policy and validateIndexSourcePath.
--   Index/Manifest.antt (index_jobs.go): normalizeManifest, graftUnreadablePaths and diffManifest.
--   Index/Leases.antt (index_operations.go): the table of operation leases; Safety and Calls run
--     acquisitions, renewals and releases in any order.
--   Index/Jobs.antt (index_jobs.go): the tables of index jobs. Index/Jobs/Start and Admission are
--     createIndexJob, Upload and Staging uploadIndexBatch (Uploading its outcomes), Publish and
--     Reconcile the completion and the reconciliation of publications, Ending failures, the sweep
--     and deletions. Calls makes them a step relation on the tables; Consistency, Endings,
--     Statements, Commits, Insertion and Runs are about its invariant, Counts and Exclusion about
--     the running jobs of a workspace, Tracking, Lifetime, Snapshots and Publication about one job
--     up to its snapshot, Restart about a start against a snapshot, Expiry about the two expiry
--     tests. Handlers and Refinement take the handlers apart into steps of the relation. A start
--     stands for one step, since it holds the tenant's exclusive lease of Index/Leases; a sweep
--     that comes between its commit and the end of its "begin" is run after it.
--   RootDeletion.antt (root_deletion_jobs.go): the table of root deletions with its statements;
--     RootDeletion/Submit is submitRootDeletion, RootDeletion/Worker is processRootDeletion,
--     RootDeletion/Calls any sequence of statements, and Finality what may follow a finished
--     deletion. A request for a lease carries whether a deletion is unfinished (its `deleting`).
--   PlatformConfig.antt (platform_config_jobs.go, platform_model_config.go): the queue of configuration
--     changes, and its Worker; a change of the embeddings clears Index/Jobs and Index/Leases.
--   RateLimit.antt (mcp_index_tool.go, root_admin.go): the least interval between two starts, and between
--     two deletions, of one root.
--   Auth.antt (main.go): authenticateRequest with the cache of keys, lookupAPIKey and
--     authorizeOrganizationIdentity, whose query is Auth/Members.
--   Sessions.antt (main.go): the MCP sessions: expiry, eviction and prepareMCPSessionSlot.
--   Streams.antt (main.go): the SSE streams of the sessions, in a store, since the map and a handler
--     share a stream, and a call closes a stream after it has left the mutex.
--   Lifecycle.antt (server_lifecycle.go): the background writes that a stopping server waits for.
--   Version.antt (main.go, metrics.go, mcp_index_tool.go): compareVersions and the two gates.
--   Failure.antt (index_failure.go): the diagnostics of failed index jobs, with the words of the
--     classification in Failure/Rules.antt.
--   Redis.antt is the interface of the server that the scripts run on, Redis/Memory.antt a server
--     that keeps it. Strings.antt has what the sources use of Go's strings and strconv. Prelude.antt
--     has the shared types, tests and lemmas. Each Tests.antt has runs at concrete inputs.
--
-- A property about a table (leases, deletions) is stated for any sequence of statements at any
-- times, from any table that satisfies the invariant; a worker is the sequence of its statements,
-- so that other instances' statements may stand between them.
--
-- Conventions. A Go string is the list of its bytes (Prelude/Bytes). A Go int or int64 is an
-- integer without a bound where it is a limit or a size that the code only compares, and a natural
-- number where the code keeps it from going below zero; no arithmetic of the modelled code wraps at
-- realistic values. A map is an association list. NOW() and time.Now() are arguments, as numbers of
-- milliseconds or seconds. What one SQL statement or one Lua script does is one step, as the tenant
-- lock and Redis make it. Redis is a parameter (Redis.antt): its commands with their documented
-- effect, and every call of Eval with the three things that can become of it. SHA-256,
-- base64, strings.ToLower and PostgreSQL's regexp_split_to_array are parameters.
--
-- Fuel. Trimming takes as many rounds as the string has bytes; print_nat has twenty digits, which
-- the bound of parse-format_int covers. The loops of prepare_slot evict at most as often as there are
-- sessions, and prepare_slot_fits shows that this is enough.
--
-- The trimming of a stored error takes at most four steps back, the length of a character.
--
-- Not modelled: the list of roots, the dismissals and the views of jobs for display in
-- root_admin.go; the cloud aborts that follow a commit and change no table, the retries of the
-- cloud's "begin", errors of the database between the statements of one operation, and the reading
-- of a chunk count out of a reply; HTTP and JSON plumbing, log lines, metrics other than
-- metricIndexBytes, the scheduling of goroutines, schema migrations, and a renewal of an already
-- expired lease that overlaps the acquisition which deletes it; and a sweep between a start's
-- commit and the end of its "begin", which the model runs after the start.
pub mod Prelude
pub mod Strings
pub mod Redis
pub mod Quota
pub mod Index
pub mod RootDeletion
pub mod Auth
pub mod Version
pub mod Sessions
pub mod Failure
pub mod Lifecycle
pub mod Streams
pub mod PlatformConfig
pub mod RateLimit
