-- ===== src/Importer/Store.antt =====
-- internal/importer/store.go: the managed nodes. Each operation changes the map in memory, writes
-- to the database, and takes the change back when the write fails; `mutationMu` makes it one step.
-- The first argument of an operation says whether its write is committed; `false` as a result is an
-- error.
use easy_proxies.Prelude.{
  Bool, true, false, Option, none, some, List, [], ◌∷◌, String, ℤ, pos, eq_ℤ, if◌then◌else◌, lookup,
  put, delete,
}
use easy_proxies.Importer.Nodes.{ManagedNode, ImportJob}
use easy_proxies.Importer.Sources.{
  merge_node_source_refs, node_source_refs, deduplicate_source_refs,
}
use easy_proxies.Importer.Journal.{remember, remember_once, rollback, rollback_existing}
use easy_proxies.Importer.StateDb.{StateDb, db_upsert_nodes, db_delete_nodes, db_apply_nodes}

pub record Store : Type 0 where
  pub db : StateDb
  pub nodes : List (String × ManagedNode)
  pub jobs : List (String × ImportJob)

abbrev pub Old : Type 0
Old = List (String × Option ManagedNode)

-- A loop's result: the nodes to write, the map, and the old values.
pub record Change : Type 0 where
  pub updated : List ManagedNode
  pub nodes : List (String × ManagedNode)
  pub previous : Old

abbrev pub also : ManagedNode → Change → Change
also node c = record c { updated = node ∷ c.updated }

abbrev pub unchanged : List (String × ManagedNode) → Old → Change
unchanged m previous = record { updated = []; nodes = m; previous = previous }

-- The instant 0 is the zero time.
abbrev pub stamped : ℤ → ManagedNode → ManagedNode
stamped now node = record node {
  created_at = if eq_ℤ node.created_at (pos 0) then now else node.created_at;
  updated_at = now;
}

-- Behind a loop: the write, and the rollback.
abbrev pub finish : Bool → (StateDb → StateDb) → Change → Store → Store × Bool
finish committed write c s =
    if committed
    then (record s { nodes = c.nodes; db = write s.db }, true)
    else (record s { nodes = rollback c.previous c.nodes; db = write s.db }, false)

abbrev pub upserted : ℤ → Option ManagedNode → ManagedNode → ManagedNode
upserted now none node = stamped now (record node { source_refs = node_source_refs node })
upserted now (some old) node = stamped now (merge_node_source_refs old node)

unfoldable pub upsert_loop : ℤ → List ManagedNode → List (String × ManagedNode) → Old → Change
upsert_loop now [] m previous = unchanged m previous
upsert_loop now (node ∷ nodes) m previous =
    let node' = upserted now (lookup node.id m) node in
    also node' (upsert_loop now nodes (put m node.id node') (remember m previous node.id))

unfoldable pub upsert_nodes : Bool → ℤ → List ManagedNode → Store → Store × Bool
unfolding upsert_loop
upsert_nodes committed now nodes s =
    let c = upsert_loop now nodes s.nodes [] in
    finish committed (db_upsert_nodes committed c.updated) c s

abbrev no_refs : ManagedNode → Bool
no_refs node = elim node.source_refs [ [] ↦ true | ref ∷ refs ↦ false ]

abbrev pub applied : ℤ → ManagedNode → ManagedNode
applied now node =
    let node' = record node { source_refs = deduplicate_source_refs node.source_refs } in
    stamped now
      (if no_refs node' then record node' { source_refs = node_source_refs node' } else node')

unfoldable pub apply_loop : ℤ → List ManagedNode → List (String × ManagedNode) → Old → Change
apply_loop now [] m previous = unchanged m previous
apply_loop now (node ∷ nodes) m previous =
    also (applied now node)
      (apply_loop now nodes (put m node.id (applied now node)) (remember m previous node.id))

unfoldable pub delete_loop_once : List String → Change → Change
delete_loop_once [] c = c
delete_loop_once (id ∷ ids) c =
    delete_loop_once ids
      (record c { nodes = delete c.nodes id; previous = remember_once c.nodes c.previous id })

unfoldable pub apply_node_changes : Bool → ℤ → List ManagedNode → List String → Store → Store × Bool
unfolding apply_loop delete_loop_once
apply_node_changes committed now nodes deleted s =
    let c = delete_loop_once deleted (apply_loop now nodes s.nodes []) in
    finish committed (db_apply_nodes committed c.updated deleted) c s

unfoldable pub delete_loop : List String → List (String × ManagedNode) → Old → Change
delete_loop [] m previous = unchanged m previous
delete_loop (id ∷ ids) m previous = delete_loop ids (delete m id) (remember m previous id)

-- The rollback of `DeleteNodes` puts back only what it has recorded as there.
unfoldable pub delete_nodes : Bool → List String → Store → Store × Bool
unfolding delete_loop
delete_nodes committed ids s =
    let c = delete_loop ids s.nodes [] in
    let db = db_delete_nodes committed ids s.db in
    if committed
    then (record s { nodes = c.nodes; db = db }, true)
    else (record s { nodes = rollback_existing c.previous c.nodes; db = db }, false)

-- A loop over ids that changes those nodes that are there and pass a test.
unfoldable pub change_loop :
    {A : Type 0}
    → (A → ManagedNode → Option ManagedNode)
    → List (String × A)
    → List (String × ManagedNode)
    → Old
    → Change
change_loop f [] m previous = unchanged m previous
change_loop f ((id, a) ∷ rest) m previous = elim (lookup id m) [
  | none ↦ change_loop f rest m previous
  | some node ↦ elim (f a node) [
    | none ↦ change_loop f rest m previous
    | some node' ↦ also node' (change_loop f rest (put m id node') (remember m previous id))
  ]
]
