-- ===== src/Lib.antt =====
-- The logic of the pawrly engine that decides what a query may reach and what it is answered.
--
-- A query names tables of sources. The scan of an HTTP table
-- (crates/pawrly-sources/http/src/typed.rs) turns the filters of the query into parameters, the
-- parameters into requests, page by page, and the responses into rows; the guard
-- (crates/pawrly-sources/http/src/guard.rs) decides where they may go: by the URL before it is sent,
-- by each redirect, and by the addresses that a name resolves to. The answer may be kept as a
-- Parquet file by the cache (crates/pawrly-engine/src/cache.rs), which several processes share
-- through one directory, its manifest and a lock file. Materialized tables live in namespaces, one
-- such directory each, which a registry opens by name. A semantic query may be answered from a
-- rollup in place of its base table, and the matcher says from which.
--
-- Files:
--
-- - Prelude: shared names; Boolean tests on numbers, lists, texts (a text is the list of its
--   characters' codes), maps and results.
-- - Guard/Host is `HostPattern`, Guard/Addr is `classify` and `normalize`, Guard/Target is
--   `check_target`, `check_ip` and `redirect_policy`, Guard/Resolver is `GuardedResolver`. Their
--   child modules prove what each accepts.
-- - Http/Json is the crate serde_json's `Value`. Http/Paginate is
--   crates/pawrly-sources/http/src/paginate.rs: JsonPath `set_json_at_path` and `json_at_path`, Link
--   `parse_link_next`, Next `seed_initial` and `next_page`.
-- - Http/Source, Http/Table and Http/Auth are crates/pawrly-sources/http/src/source.rs: the source
--   and what it uses of other crates, the declaration of a table, and `resolve_dynamic`,
--   `oauth_bearer` and `apply_auth`. Http/Expr is expr.rs beside it.
-- - The rest is typed.rs beside it: Http/Filters `can_push_down` and what it extracts, Http/Bind the
--   parameters of `scan_bound` and `expand_fanout`, Http/Body the templates of bodies, Http/Request
--   `build_url` and the request of a page, Http/Retry `send_with_retry_inner`, Http/Response
--   `detect_error` and `extract_rows`, Http/Page one round of the loop of `fetch_rows`, Http/Fetch
--   the loop, Http/Scan the loop of `scan_bound` and the call of a function (function.rs),
--   Http/Columns `build_batch`.
-- - Cache/Types has the records of the manifest and the policies, Cache/Disk the directory and the
--   calls of the system, Cache/Manager the operations of `CacheManager`, Cache/Vacuum `vacuum`,
--   `clean_old_tmp` and `new`, Cache/Provider `CachedTableProvider::scan` and `refresh`,
--   Cache/Schedule several processes over one directory, Cache/Listing what readers list, and
--   Cache/Listing/Catalog the catalog of one namespace.
-- - Namespace/Names is `validate_namespace` and Namespace/Registry `NamespaceRegistry`
--   (crates/pawrly-engine/src/namespace.rs), with what is true of its calls in the child modules:
--   Reads, Removal, and Memo for runs of calls between two opens.
-- - Semantic/Grain is `TimeGrain` (crates/pawrly-core/src/semantic.rs) and Semantic/Rollup
--   crates/pawrly-semantic/src/rollup.rs; Semantic/Rollup/Matching is about the choice.
-- - Redact is crates/pawrly-engine/src/redact.rs.
-- - Cancel is `CancelRegistry` (crates/pawrly-mcp/src/cancel.rs) with the calls that a query makes
--   of it (`run_cancellable` of crates/pawrly-mcp/src/dispatch.rs); Cancel/Overlap is about two
--   queries under one name.
-- - Guard/Tests, Http/Tests, Cache/Tests (with Processes for several processes), Namespace/Tests,
--   Semantic/Tests, Cancel/Tests and Redact/Tests evaluate the definitions and apply the theorems at
--   concrete inputs.
--
-- How state is modelled. `Session` is a `CacheManager` with the disk that it works on: `disk` is the
-- directory, `memory` the copy of the manifest behind the mutex, `inner` the live providers. An
-- operation takes what the system answers (`Io`) and the session, and returns its result with the
-- new session; an error path is a value of `Result`. `manifest_of` is the manifest that the disk
-- holds, and `read_manifest_disk` what a process reads of it: the empty manifest, where the read
-- fails, as in the code. In a `World` the processes share the disk and each has its own copy of the
-- manifest; a `run` is a list of events, each an operation of one process. The operations that a
-- lock makes atomic are single steps, and a write that another process overtakes between its rename
-- and its update of the manifest is a step of its own, `do_place`, followed by the rest.
--
-- The registry's `State` has the map of memoized managers and the directories below the storage
-- root; a manager is a handle, that says which allocation it is.
--
-- In a fetch, `FetchState` has the variables of the loop with the source's cached token, and a
-- `World` says what becomes of each attempt at the request of each page, so that a theorem about all
-- worlds is one about all servers. A fetch returns the requests that it sent, each once for all its
-- attempts.
--
-- What is a parameter. The crate url: the guard sees a URL as the record of what its accessors
-- answer, and the HTTP source as a type with `parse`, `join` and `append_pair`, of which it is
-- assumed that appending to the query changes nothing that the guard asks. The crates serde_json,
-- base64, chrono and reqwest where the HTTP source reads and prints JSON, numbers and dates or makes
-- the header of basic credentials; the store of variables and the token endpoint. The parser of the
-- crate sqlparser, with its statements. The crate psl: `suffix_str`. The lookup of names:
-- `lookup_host`. The rows and the pushed-down filters of the crate datafusion: the types `Row` and
-- `Query` and a provider, which is a function. The crates parquet and serde_json: a file holds
-- batches or is unreadable, and a manifest is there or does not parse.
--
-- Numbers. Times are numbers of milliseconds, and the sum of an instant and a `ttl` is taken to be
-- within the range of `DateTime`, beyond which the code panics; an IPv4 address has four octets and
-- an IPv6 address eight segments, with their bounds as hypotheses where a theorem needs them. The
-- loop over pages has one more round than pages may be fetched, which is enough, since each round
-- counts one page and the first over the cap ends with an error; the other definitions are by
-- structural recursion. A clock of the HTTP source is in milliseconds or seconds, and its sums fail
-- where `SystemTime` cannot hold them.
--
-- What is left out. Of HTTP sources the waits themselves, the local rate limiter, headers whose name
-- or value is not valid, the assembly of declarations, raw tables and dependent joins. Paths are
-- lists of components, so a schema or a table whose name has a separator is not covered. Of semantic
-- queries and pre-aggregations only the fields are there that the matcher reads. Empty directories,
-- the temporary file of a write that fails, column projection (with the errors and the panic that it
-- has on a snapshot of fewer columns) and telemetry are left out, so that what a scan of the cache
-- answers is what it hands to the projection. A write of the manifest either succeeds whole or
-- leaves the old one, as the rename does.
pub mod Prelude
pub mod Guard
pub mod Http
pub mod Cache
pub mod Namespace
pub mod Semantic
pub mod Cancel
pub mod Redact
