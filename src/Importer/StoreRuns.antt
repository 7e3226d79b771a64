-- ===== src/Importer/StoreRuns.antt =====
-- The store over any sequence of operations, some of whose writes fail.
use easy_proxies.Prelude.{
  ℕ, Bool, not, List, [], ◌∷◌, String, ℤ, Distinct, negsuc, Bool-cases, inl, inr, ◌==◌,
}
use easy_proxies.Importer.Nodes.{ManagedNode, ManagedNodeState}
use easy_proxies.Importer.StateDb.{db_replace}
use easy_proxies.Importer.Store.{Store, upsert_nodes, apply_node_changes, delete_nodes, change_loop}
use easy_proxies.Importer.StoreStates.{
  restore_node_states_if_current, restored, recover_stale_testing_nodes, recovered,
  update_node_state, mark_in_pool_many, mark_loop, max_order_from, set_order, order_loop,
  StoreSnapshot, restore_nodes_snapshot, replace_snapshot, store_version,
}
use easy_proxies.Importer.StoreEdits.{Fresh, ids_of}
use easy_proxies.Importer.StoreLoops.{keys_of, change_loop-Edits, mark_loop-Edits, order_loop-Edits}
use easy_proxies.Importer.StoreKept.{Consistent}
use easy_proxies.Importer.StoreDeletes.{delete_nodes-Consistent, apply_node_changes-Consistent}
use easy_proxies.Importer.StoreSteps.{
  upsert_nodes-Consistent, changed-Consistent, Edits-Consistent, restored_id, recovered_id,
  Distinct-Fresh, update_node_state-Consistent, UnderIds, replaced-Same, Keyed-UnderIds,
}

-- A call that changes nodes.
pub data Call : Type 0 where
  upserts : ℤ → List ManagedNode → Call
  applies : ℤ → List ManagedNode → List String → Call
  deletes : List String → Call
  restores_states : ℤ → List (String × ManagedNodeState) → ManagedNodeState → Call
  recovers : ℤ → Call
  updates_state : ℤ → String → ManagedNodeState → String → Call
  marks : ℤ → List (String × ℕ) → Call
  orders : ℤ → List String → Call
  restores_snapshot : StoreSnapshot → Call
  replaces_snapshot : StoreSnapshot → Call

unfoldable pub call : Bool → Call → Store → Store
call ok (upserts now ns) s = (upsert_nodes ok now ns s).0
call ok (applies now ns ids) s = (apply_node_changes ok now ns ids s).0
call ok (deletes ids) s = (delete_nodes ok ids s).0
call ok (restores_states now states current) s =
    (restore_node_states_if_current ok now states current s).0
call ok (recovers now) s = (recover_stale_testing_nodes ok now s).0.0
call ok (updates_state now id state err) s = (update_node_state ok now id state err s).0
call ok (marks now ports) s = (mark_in_pool_many ok now ports s).0.0
call ok (orders now ids) s = (set_order ok now ids s).0
call ok (restores_snapshot snapshot) s = (restore_nodes_snapshot ok snapshot s).0
call ok (replaces_snapshot snapshot) s = (replace_snapshot ok snapshot s).0

-- No id twice in what a call is given, and a snapshot has each node under its id.
abbrev pub IsProper : Call → Type 0
IsProper (upserts now ns) = Fresh (ids_of ns) []
IsProper (applies now ns ids) = Fresh (ids_of ns) []
IsProper (deletes ids) = Fresh ids []
IsProper (restores_states now states current) = Fresh (keys_of states) []
IsProper (recovers now) = Unit
IsProper (updates_state now id state err) = Unit
IsProper (marks now ports) = Fresh (keys_of ports) []
IsProper (orders now ids) = Fresh ids []
IsProper (restores_snapshot snapshot) = Distinct snapshot.nodes × UnderIds snapshot.nodes
IsProper (replaces_snapshot snapshot) = Distinct snapshot.nodes × UnderIds snapshot.nodes

restore_nodes_snapshot-Consistent :
    (ok : Bool) (snapshot : StoreSnapshot) (s : Store)
    → Distinct snapshot.nodes
    → UnderIds snapshot.nodes
    → Consistent s
    → Consistent (restore_nodes_snapshot ok snapshot s).0
unfolding restore_nodes_snapshot db_replace
restore_nodes_snapshot-Consistent ok snapshot s d u h =
    elim (Bool-cases (not (snapshot.version == store_version))) [
      | inl y ↦ rw (restore_nodes_snapshot, y) h
      | inr n ↦ elim (Bool-cases ok) [
        | inl y ↦
            rw (restore_nodes_snapshot, n)
              (rw y (record {
                same = replaced-Same snapshot.nodes s.jobs s.db d u;
                keyed = Keyed-UnderIds snapshot.nodes u;
                distinct = d;
              }))
        | inr y ↦
            rw (restore_nodes_snapshot, n)
              (rw y (record { same = h.same; keyed = h.keyed; distinct = h.distinct }))
      ]
    ]

replace_snapshot-Consistent :
    (ok : Bool) (snapshot : StoreSnapshot) (s : Store)
    → Distinct snapshot.nodes
    → UnderIds snapshot.nodes
    → Consistent s
    → Consistent (replace_snapshot ok snapshot s).0
unfolding replace_snapshot db_replace
replace_snapshot-Consistent ok snapshot s d u h =
    elim (Bool-cases (not (snapshot.version == store_version))) [
      | inl y ↦ rw (replace_snapshot, y) h
      | inr n ↦ elim (Bool-cases ok) [
        | inl y ↦
            rw (replace_snapshot, n)
              (rw y (record {
                same = replaced-Same snapshot.nodes [] s.db d u;
                keyed = Keyed-UnderIds snapshot.nodes u;
                distinct = d;
              }))
        | inr y ↦
            rw (replace_snapshot, n)
              (rw y (record { same = h.same; keyed = h.keyed; distinct = h.distinct }))
      ]
    ]

call-Consistent :
    (ok : Bool) (c : Call) (s : Store) → IsProper c → Consistent s → Consistent (call ok c s)
unfolding call restore_node_states_if_current recover_stale_testing_nodes mark_in_pool_many
    set_order
call-Consistent ok (upserts now ns) s p h = upsert_nodes-Consistent ok now ns s p h
call-Consistent ok (applies now ns ids) s p h = apply_node_changes-Consistent ok now ns ids s p h
call-Consistent ok (deletes ids) s p h = delete_nodes-Consistent ok ids s p h
call-Consistent ok (restores_states now states current) s p h =
    changed-Consistent ok (keys_of states) (change_loop (restored now current) states s.nodes []) s
      (change_loop-Edits (restored now current) (restored_id now current) states s.nodes [] h.keyed)
      p h
call-Consistent ok (recovers now) s p h =
    changed-Consistent ok (keys_of s.nodes) (change_loop (recovered now) s.nodes s.nodes []) s
      (change_loop-Edits (recovered now) (recovered_id now) s.nodes s.nodes [] h.keyed)
      (Distinct-Fresh s.nodes h.distinct) h
call-Consistent ok (updates_state now id state err) s p h =
    update_node_state-Consistent ok now id state err s h
call-Consistent ok (marks now ports) s p h =
    let most = max_order_from (negsuc 0) s.nodes in
    changed-Consistent ok (keys_of ports) (mark_loop now most ports s.nodes []) s
      (mark_loop-Edits now most ports s.nodes [] h.keyed) p h
call-Consistent ok (orders now ids) s p h =
    Edits-Consistent ok ids (order_loop now 0 ids s.nodes []) s
      (order_loop-Edits now 0 ids s.nodes [] h.keyed) p h
call-Consistent ok (restores_snapshot snapshot) s p h =
    restore_nodes_snapshot-Consistent ok snapshot s p.0 p.1 h
call-Consistent ok (replaces_snapshot snapshot) s p h =
    replace_snapshot-Consistent ok snapshot s p.0 p.1 h

-- Each call with whether its write is committed.
unfoldable pub calls : List (Bool × Call) → Store → Store
unfolding call
calls [] s = s
calls ((ok, c) ∷ cs) s = calls cs (call ok c s)

abbrev pub AllProper : List (Bool × Call) → Type 0
AllProper [] = Unit
AllProper ((ok, c) ∷ cs) = IsProper c × AllProper cs

-- If memory and database hold the same nodes, each under its id and once, then they still do
-- after any sequence of calls, whichever of their writes fail. No call is given an id twice among
-- what it inserts, changes or deletes, and snapshots have each node under its id and once.
pub calls-Consistent :
    (cs : List (Bool × Call)) (s : Store) → AllProper cs → Consistent s → Consistent (calls cs s)
unfolding calls
calls-Consistent [] s p h = h
calls-Consistent ((ok, c) ∷ cs) s p h =
    calls-Consistent cs (call ok c s) p.1 (call-Consistent ok c s p.0 h)
