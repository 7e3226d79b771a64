-- ===== src/Lib.antt =====
-- A model of easy-proxies, a proxy pool: a process that puts many upstream nodes behind pools,
-- watches their health, and imports and tests new nodes.
--
-- The parts and their files (paths from the repository's root):
--   * Prelude: lists, integers, maps, heaps and text over the native numbers.
--   * Monitor: `internal/monitor`. Monitor/Entry is `entry` and its methods, Monitor/Manager is
--     `Manager` (`Register`, `Probe`, `SnapshotFiltered`, the periodic check), Monitor/Order the
--     comparison of `SnapshotFiltered`, Monitor/LogBuffer the type of `logbuffer.go`.
--   * Pool: `internal/outbound/pool`. Pool/Shared is `shared_state.go`: the circuit breaker of a
--     node, shared by all pools that use it, with the monitor entry it reports to. Pool/Members,
--     Pool/Select and Pool/Balance are the selection of `pool.go`, Pool/Dial the dials, closes and
--     probes, Pool/Admin the release and blacklist commands that the monitor's user gives.
--   * Importer: `internal/importer`. Importer/JobEvents and Importer/Retention are
--     `job_events.go`, Importer/TagBinding and Importer/TagBindingRun the jobs of
--     `tag_binding.go`, Importer/ProbeScheduler and Importer/ProbeWorker `probe_scheduler.go`,
--     Importer/Verification the passes over site targets of `verification.go`. Importer/Nodes is
--     the data of `types.go`, Importer/Sources `sources.go`, Importer/StateDb the tables of
--     `state_db.go`, and Importer/Store with Importer/StoreStates the operations of `store.go` on
--     managed nodes; Importer/Journal is their record of old values, and Importer/StoreJobs the
--     jobs of the store and their pruning.
--   * Proxychain: `internal/proxychain`. Proxychain/Profiles is the normal form of chain profiles.
--   * Config: `internal/config/config.go`. Config/Types is the data, Config/Loading
--     `BuildPortMap` and `NormalizeWithPortMap`, Config/Loops `validateChainProfileLoops`, with
--     which a load ends.
--   * Boxmgr: `internal/boxmgr/manager.go`. Boxmgr/Ports is the choice of ports, Boxmgr/Nodes the
--     changes of the configured nodes (`CreateNodes`, `UpdateNodes`, `DeleteNodes`,
--     `ReorderNodes`), which work on the nodes in place, Boxmgr/Result their errors and the end of
--     a change, where the copy of the nodes is put back if it fails.
-- The other files of a directory hold the lemmas and theorems on these, and Tests.antt the
-- theorems at concrete inputs.
--
-- How the parts meet: a pool selects a member through the shared states, dials it, and records the
-- result in the shared state, which passes it on to the node's monitor entry; the monitor's
-- commands and probes call closures of the pool. A closure is a value that says which function it
-- is and what it captured. `World` of Pool/Shared is the whole of this: the monitor with its
-- entries, the shared states behind their addresses, and the store from tags to states. A load gives
-- the nodes of a configuration their ports, and the box manager changes nodes and ports while the
-- process runs; both keep the ports apart.
--
-- Conventions: the code between taking and giving back a mutex is one step, and theorems on runs
-- quantify over sequences of steps. `recordFailure`, `recordSuccess`, `forceRelease` and
-- `ManualBlacklist` take the mutex of the state and then, by itself, that of the monitor entry:
-- Pool/Running has their parts as steps of their own and Pool/Race shows what may come in between,
-- while the functions of that name in Pool/Shared and Pool/Admin are the whole of an undisturbed
-- call. A theorem on one of these, or on the state alone, is about such calls. The times that one
-- operation reads are one instant, and an instant or a duration is an integer of nanoseconds.
-- Fixed-width counters (int32, uint32, uint64) wrap around; `int` and the importer's 64-bit
-- statistics do not. A random source is a sequence of draws, and where `select` may take several
-- cases a flag chooses. `sort.Slice` is an insertion sort; the theorems use its order and
-- permutation only. A Go map is an association list, and a loop over a map goes through that list.
-- `strings.ToLower` covers ASCII, and so do the blanks that `strings.TrimSpace` takes off. A write
-- to the database or to a file is an argument that says whether it succeeded; a transaction is
-- committed whole or not at all. What the system and the libraries answer (free ports, decoded
-- texts, URL schemes, hashes) is a record of functions. A manager without a configuration and a
-- cancelled context, which stop an operation before it begins, are left out. Error texts keep what
-- they tell apart; log lines are left out. Every loop is structural recursion on the rounds that
-- the source bounds (a search of ports takes one round for each port up to 65535), so no model runs
-- on fuel.
--
-- Not modelled: HTTP handlers, the SQL behind the importer and its cached summaries, YAML and files,
-- the service of the importer beyond its jobs and probes, the sing-box library and the network,
-- whose results are arguments; the workers inside a round of the health check; the staging of the
-- nodes of a tag; the reload of the box manager; the dispatcher, the dialer registry, subscriptions,
-- backups and the geo router.
pub mod Prelude
pub mod Monitor
pub mod Pool
pub mod Importer
pub mod Proxychain
pub mod Config
pub mod Boxmgr
