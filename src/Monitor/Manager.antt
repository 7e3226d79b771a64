-- ===== src/Monitor/Manager.antt =====
-- internal/monitor/manager.go: `Manager`, the registry of the entries. Entries are objects behind
-- pointers: a heap, with the map from tags to addresses. The probe target that `NewManager` has
-- parsed and the life of the background loop are fields.
use easy_proxies.Prelude.{
  ℕ, ◌+◌, String, Bool, true, false, not, ◌&&◌, ◌||◌, Option, none, some, List, [], ◌∷◌, ℤ, pos,
  leb_ℤ, if◌then◌else◌, ltb, filter, update, is_some, lookup, put,
}
use easy_proxies.Monitor.Entry.{
  Entry, NodeInfo, ProbeFn, ProbeResult, Snapshot, new_entry, snapshot, mark_initial_check_done,
  record_probe_latency,
}
use easy_proxies.Monitor.Order.{insert_snapshot}

pub record Manager : Type 0 where
  pub probe_target : Option String
  pub entries : ℕ → Entry
  pub next_entry : ℕ
  pub nodes : List (String × ℕ)
  pub stopped : Bool
  pub health_check : Bool  -- `healthCancel != nil`
  pub probe_running : Bool

pub data Error : Type 0 where
  node_not_found probe_unavailable release_unavailable : Error
  probe_error : String → Error

-- `Register`: the address of the entry, and the new registry.
unfoldable pub register : NodeInfo → Manager → Manager × ℕ
register info m = elim (lookup info.tag m.nodes) [
  | none ↦ (
    record m {
      entries = update m.entries m.next_entry (new_entry info);
      next_entry = m.next_entry + 1;
      nodes = put m.nodes info.tag m.next_entry;
    },
    m.next_entry,
  )
  | some a ↦ (record m { entries = update m.entries a (record (m.entries a) { info = info }) }, a)
]

unfoldable pub clear_nodes : Manager → Manager
clear_nodes m = record m { nodes = [] }

unfoldable pub probe_target : Manager → Option String
probe_target m = m.probe_target

-- An operation on the entry behind a handle; a nil handle does nothing.
unfoldable pub with_entry : (Entry → Entry) → Option ℕ → Manager → Manager
with_entry f none m = m
with_entry f (some a) m = record m { entries = update m.entries a (f (m.entries a)) }

-- The entries in the order of the map.
unfoldable pub addresses : List (String × ℕ) → List ℕ
addresses [] = []
addresses ((tag, a) ∷ rest) = a ∷ addresses rest

unfoldable pub mark_entries : List ℕ → Manager → Manager
unfolding with_entry
mark_entries [] m = m
mark_entries (a ∷ rest) m = mark_entries rest (with_entry (mark_initial_check_done true) (some a) m)

unfoldable pub mark_all_available : Manager → Manager
unfolding mark_entries addresses
mark_all_available m = mark_entries (addresses m.nodes) m

-- `SnapshotFiltered` skips what was checked and found unavailable, and what is blacklisted.
unfoldable pub is_listed : Bool → Snapshot → Bool
is_listed only_available s =
    not (only_available && ((s.initial_check_done && not s.available) || s.blacklisted))

unfoldable pub snapshots : (ℕ → Entry) → List ℕ → List Snapshot
unfolding snapshot
snapshots entries [] = []
snapshots entries (a ∷ rest) = snapshot (entries a) ∷ snapshots entries rest

unfoldable pub sort_snapshots : List Snapshot → List Snapshot
unfolding insert_snapshot
sort_snapshots [] = []
sort_snapshots (s ∷ rest) = insert_snapshot s (sort_snapshots rest)

unfoldable pub snapshot_filtered : Bool → Manager → List Snapshot
unfolding is_listed snapshots sort_snapshots addresses
snapshot_filtered only_available m =
    sort_snapshots (filter (is_listed only_available) (snapshots m.entries (addresses m.nodes)))

-- The part of `Manager.Probe` behind the lookup, given the result of the entry's closure.
unfoldable pub probe_entry : ℕ → Option ProbeFn → ProbeResult → Manager → Manager × Option Error
unfolding with_entry
probe_entry a none result m = (m, some probe_unavailable)
probe_entry a (some fn) (ProbeResult.failed_with err) m = (m, some (probe_error err))
probe_entry a (some fn) (ProbeResult.latency_of d) m =
    (with_entry (record_probe_latency d) (some a) m, none)

unfoldable pub probe : String → ProbeResult → Manager → Manager × Option Error
unfolding probe_entry
probe tag result m = elim (lookup tag m.nodes) [
  | none ↦ (m, some node_not_found)
  | some a ↦ probe_entry a (m.entries a).probe result m
]

-- `StartPeriodicHealthCheck`: whether the loop was started.
unfoldable pub start_periodic_health_check : ℤ → Manager → Manager × Bool
start_periodic_health_check interval m =
    if leb_ℤ interval (pos 0)
    then (m, false)
    else if not (is_some m.probe_target)
    then (m, false)
    else if m.stopped || m.health_check
    then (m, false)
    else (record m { health_check = true }, true)

unfoldable pub stop_periodic_health_check : Manager → Manager
stop_periodic_health_check m = record m { health_check = false }

unfoldable pub stop : Manager → Manager
stop m = record m { stopped = true; health_check = false }

-- `probeAllNodes` up to the snapshot of the entries: whether this call goes on, past the guard
-- against a stopped manager, a cancelled context and a check that still runs.
unfoldable pub begin_probe_all : Bool → Manager → Manager × Bool
begin_probe_all cancelled m =
    if m.stopped || cancelled
    then (m, false)
    else if m.probe_running
    then (m, false)
    else (record m { probe_running = true }, true)

unfoldable pub end_probe_all : Manager → Manager
end_probe_all m = record m { probe_running = false }

-- `workerLimit`, from the number of processors.
unfoldable pub worker_limit : ℕ → ℕ
worker_limit cpus = if ltb cpus 4 then 4 else if ltb 12 cpus then 12 else cpus
