-- ===== src/Importer/StoreStates.antt =====
-- internal/importer/store.go: changes of the states, the ports and the order of managed nodes.
use easy_proxies.Prelude.{
  ℕ, suc, Bool, true, false, not, ◌&&◌, Option, none, some, List, [], ◌∷◌, String, ℤ, pos, negsuc,
  ◌+ℤ◌, ltb_ℤ, eq_ℤ, if◌then◌else◌, lookup, put, str_eq, length, ◌==◌,
}
use easy_proxies.Importer.Nodes.{ManagedNode, ManagedNodeState}
use easy_proxies.Importer.Journal.{remember}
use easy_proxies.Importer.StateDb.{db_upsert_nodes, db_replace}
use easy_proxies.Importer.Store.{Store, Old, Change, also, unchanged, finish, change_loop}

abbrev pub state_code : ManagedNodeState → ℕ
state_code ManagedNodeState.parsed = 0
state_code ManagedNodeState.testing = 1
state_code ManagedNodeState.passed = 2
state_code ManagedNodeState.failed = 3
state_code ManagedNodeState.blocked = 4
state_code ManagedNodeState.in_pool = 5
state_code ManagedNodeState.excluded = 6

abbrev pub same_state : ManagedNodeState → ManagedNodeState → Bool
same_state a b = state_code a == state_code b

abbrev pub no_nodes : List ManagedNode → Bool
no_nodes [] = true
no_nodes (node ∷ nodes) = false

-- With nothing to write the database is not asked.
abbrev pub finish_changed : Bool → Change → Store → Store × Bool
finish_changed committed c s =
    if no_nodes c.updated
    then (s, true)
    else finish committed (db_upsert_nodes committed c.updated) c s

abbrev pub restored : ℤ → ManagedNodeState → ManagedNodeState → ManagedNode → Option ManagedNode
restored now current state node =
    if same_state node.state current
    then some (record node { state = state; updated_at = now })
    else none

unfoldable pub restore_node_states_if_current :
    Bool → ℤ → List (String × ManagedNodeState) → ManagedNodeState → Store → Store × Bool
unfolding change_loop
restore_node_states_if_current committed now states current s =
    finish_changed committed (change_loop (restored now current) states s.nodes []) s

-- The state of a node whose test was cut short.
abbrev pub recovered_state : ManagedNode → ManagedNodeState
recovered_state node =
    if node.in_pool
    then ManagedNodeState.in_pool
    else if not node.enabled
    then ManagedNodeState.excluded
    else if eq_ℤ node.last_test_at (pos 0)
    then ManagedNodeState.parsed
    else if not (str_eq node.last_error "")
    then ManagedNodeState.failed
    else ManagedNodeState.passed

abbrev pub recovered : ℤ → ManagedNode → ManagedNode → Option ManagedNode
recovered now entry node =
    if same_state node.state ManagedNodeState.testing
    then some (record node { state = recovered_state node; updated_at = now })
    else none

-- `RecoverStaleTestingNodes`, with the number of nodes that it recovered, 0 for an error.
unfoldable pub recover_stale_testing_nodes : Bool → ℤ → Store → (Store × Bool) × ℕ
unfolding change_loop
recover_stale_testing_nodes committed now s =
    let c = change_loop (recovered now) s.nodes s.nodes [] in
    (finish_changed committed c s, (if committed then length c.updated else 0))

unfoldable pub update_node_state :
    Bool → ℤ → String → ManagedNodeState → String → Store → Store × Bool
unfolding db_upsert_nodes
update_node_state committed now id state last_err s = elim (lookup id s.nodes) [
  | none ↦ (s, false)
  | some n ↦
      let n' = record n {
        state = state;
        last_error = last_err;
        last_test_at = now;
        updated_at = now;
      } in
      let db = db_upsert_nodes committed (n' ∷ []) s.db in
      if committed
      then (record s { nodes = put s.nodes id n'; db = db }, true)
      else (record s { nodes = put (put s.nodes id n') id n; db = db }, false)
]

abbrev pub is_pooled : ManagedNode → Bool
is_pooled node = node.in_pool && same_state node.state ManagedNodeState.in_pool

unfoldable pub max_order_from : ℤ → List (String × ManagedNode) → ℤ
max_order_from best [] = best
max_order_from best ((id, node) ∷ rest) =
    max_order_from (if is_pooled node && ltb_ℤ best node.order then node.order else best) rest

abbrev pub pooled : ℤ → ℕ → ℤ → ManagedNode → ManagedNode
pooled now port order node = record node {
  state = ManagedNodeState.in_pool;
  in_pool = true;
  enabled = true;
  port = port;
  order = if is_pooled node then node.order else order;
  updated_at = now;
}

-- The loop of `MarkInPoolMany`; a node that was not in the pool goes behind the last order.
unfoldable pub mark_loop : ℤ → ℤ → List (String × ℕ) → List (String × ManagedNode) → Old → Change
mark_loop now max_order [] m previous = unchanged m previous
mark_loop now max_order ((id, port) ∷ rest) m previous = elim (lookup id m) [
  | none ↦ mark_loop now max_order rest m previous
  | some n ↦
      let next = max_order +ℤ pos 1 in
      let n' = pooled now port next n in
      also n' (
        mark_loop now (if is_pooled n then max_order else next) rest (put m id n')
          (remember m previous id))
]

unfoldable pub mark_in_pool_many :
    Bool → ℤ → List (String × ℕ) → Store → (Store × Bool) × List ManagedNode
unfolding mark_loop max_order_from
mark_in_pool_many committed now ports s =
    let c = mark_loop now (max_order_from (negsuc 0) s.nodes) ports s.nodes [] in
    (finish_changed committed c s, (if committed then c.updated else []))

unfoldable pub order_loop : ℤ → ℕ → List String → List (String × ManagedNode) → Old → Change
order_loop now order [] m previous = unchanged m previous
order_loop now order (id ∷ ids) m previous = elim (lookup id m) [
  | none ↦ order_loop now (suc order) ids m previous
  | some n ↦
      let n' = record n { order = pos order; updated_at = now } in
      also n' (order_loop now (suc order) ids (put m id n') (remember m previous id))
]

unfoldable pub set_order : Bool → ℤ → List String → Store → Store × Bool
unfolding order_loop
set_order committed now ids s =
    let c = order_loop now 0 ids s.nodes [] in
    finish committed (db_upsert_nodes committed c.updated) c s

-- A snapshot with the version of its format.
pub record StoreSnapshot : Type 0 where
  pub version : ℕ
  pub nodes : List (String × ManagedNode)

abbrev pub store_version : ℕ
store_version = 1

abbrev pub backup_snapshot : Store → StoreSnapshot
backup_snapshot s = record { version = store_version; nodes = s.nodes }

-- What is written first loses the old content, jobs included, with a snapshot of the jobs at hand.
unfoldable pub restore_nodes_snapshot : Bool → StoreSnapshot → Store → Store × Bool
unfolding db_replace
restore_nodes_snapshot committed snapshot s =
    if not (snapshot.version == store_version)
    then (s, false)
    else if committed
    then (
      record s { nodes = snapshot.nodes; db = db_replace committed snapshot.nodes s.jobs s.db },
      true,
    )
    else (record s { db = db_replace committed snapshot.nodes s.jobs s.db }, false)

unfoldable pub replace_snapshot : Bool → StoreSnapshot → Store → Store × Bool
unfolding db_replace
replace_snapshot committed snapshot s =
    if not (snapshot.version == store_version)
    then (s, false)
    else if committed
    then (
      record {
        nodes = snapshot.nodes;
        jobs = [];
        db = db_replace committed snapshot.nodes [] s.db;
      },
      true,
    )
    else (record s { db = db_replace committed snapshot.nodes [] s.db }, false)
