-- ===== src/Boxmgr/Nodes.antt =====
-- internal/boxmgr/manager.go: the changes of the configured nodes. `reloadMu` and `mu` make each one
-- step; `saved` says whether the configuration file could be written.
use Prim.Native.String.{◌++◌ as append}
use easy_proxies.Prelude.{
  ℕ, zero, suc, ◌+◌, ◌-◌, Bool, true, false, not, ◌&&◌, ◌||◌, Option, none, some, List, [], ◌∷◌,
  ◌++◌, String, str_eq, trim, length, if◌then◌else◌, ◌==◌, filter, is_some,
}
use easy_proxies.Importer.Sources.{contains}
use easy_proxies.Config.Types.{
  NodeConfig, NodeSource, Config, Env, extract_node_name, has_node_ports, inline_source,
  file_source, subscription_source,
}
use easy_proxies.Boxmgr.Result.{
  Result, ok, err, commit, empty_uri, name_taken, no_free_port, port_taken, port_in_use,
  node_not_found, ports_exhausted, save_failed,
}
use easy_proxies.Boxmgr.Ports.{
  next_available_port, assign_sequential_ports, with_credentials, find_port, port_end, base_port,
  used_ports,
}

-- `nodeIndexLocked`, as the node.
unfoldable pub node_named : String → List NodeConfig → Option NodeConfig
node_named name [] = none
node_named name (node ∷ nodes) = if str_eq node.name name then some node else node_named name nodes

unfoldable pub port_in_use_by_other : ℕ → String → List NodeConfig → Bool
port_in_use_by_other port current [] = false
port_in_use_by_other port current (node ∷ nodes) =
    (not (str_eq node.name current) && node.port == port) || port_in_use_by_other port current nodes

unfoldable pub current_node_has_port : ℕ → String → List NodeConfig → Bool
current_node_has_port port current [] = false
current_node_has_port port current (node ∷ nodes) =
    (str_eq node.name current && node.port == port) || current_node_has_port port current nodes

-- The name a node gets.
abbrev pub fallback_name : Env → Config → String → String → String
fallback_name env cfg current uri =
    let name = if str_eq current "" then extract_node_name env uri else current in
    if str_eq name "" then append "node-" (env.decimal (length cfg.nodes + 1)) else name

abbrev pub prepared_name : Env → Config → String → NodeConfig → String
prepared_name env cfg current node =
    if str_eq (trim node.name) ""
    then fallback_name env cfg current (trim node.uri)
    else trim node.name

abbrev pub is_name_taken : Config → String → String → Bool
is_name_taken cfg current name =
    is_some (node_named name cfg.nodes) && (str_eq current "" || not (str_eq name current))

-- The port a node gets, in the modes where nodes have ports.
unfoldable pub prepared_port : Env → Config → String → ℕ → Result ℕ
unfolding port_in_use_by_other current_node_has_port next_available_port
prepared_port env cfg current port =
    let free = (next_available_port env cfg).0 in
    if port == 0
    then if free == 0 then err no_free_port else ok free
    else if port_in_use_by_other port current cfg.nodes
    then err port_taken
    else if not (not (str_eq current "") && current_node_has_port port current cfg.nodes)
        && not (env.can_listen cfg.multi_port.address port)
    then err port_in_use
    else ok port

abbrev pub with_port : Config → NodeConfig → Result ℕ → Result NodeConfig
with_port cfg node (err e) = err e
with_port cfg node (ok port) = ok (with_credentials cfg (record node { port = port }))

unfoldable pub prepare_node : Env → Config → String → NodeConfig → Result NodeConfig
unfolding prepared_port node_named extract_node_name
prepare_node env cfg current node =
    let name = prepared_name env cfg current node in
    let node' = record node { name = name; uri = trim node.uri } in
    if str_eq (trim node.uri) ""
    then err empty_uri
    else if is_name_taken cfg current name
    then err name_taken
    else if has_node_ports cfg
    then with_port cfg node' (prepared_port env cfg current node.port)
    else ok node'

abbrev pub source_of : Config → NodeSource
source_of cfg = elim cfg.subscriptions [
  | url ∷ urls ↦ subscription_source
  | [] ↦ if str_eq cfg.nodes_file "" then inline_source else file_source
]

abbrev pub add_result :
    NodeConfig → Config × Result (List NodeConfig) → Config × Result (List NodeConfig)
add_result n (cfg, ok ns) = (cfg, ok (n ∷ ns))
add_result n (cfg, err e) = (cfg, err e)

-- The loop of `CreateNodes`, which appends to the nodes as it goes.
unfoldable pub create_loop : Env → List NodeConfig → Config → Config × Result (List NodeConfig)
unfolding prepare_node
create_loop env [] cfg = (cfg, ok [])
create_loop env (node ∷ nodes) cfg = elim (prepare_node env cfg "" node) [
  | err e ↦ (cfg, err e)
  | ok n ↦
      let n' = record n { source = source_of cfg } in
      add_result n' (create_loop env nodes (record cfg { nodes = cfg.nodes ++ (n' ∷ []) }))
]

unfoldable pub create_nodes :
    Env → Bool → List NodeConfig → Config → Config × Result (List NodeConfig)
unfolding create_loop
create_nodes env saved nodes cfg = commit saved cfg.nodes (create_loop env nodes cfg)

abbrev pub one_on : Option (ℕ × NodeConfig) → Option (ℕ × NodeConfig)
one_on none = none
one_on (some (i, n)) = some (suc i, n)

-- `nodeIndexLocked`, with the node at the index.
unfoldable pub located : String → List NodeConfig → Option (ℕ × NodeConfig)
located name [] = none
located name (node ∷ nodes) =
    if str_eq node.name name then some (0, node) else one_on (located name nodes)

-- `m.cfg.Nodes[idx] = node`
unfoldable pub set_at : ℕ → NodeConfig → List NodeConfig → List NodeConfig
set_at i n [] = []
set_at zero n (node ∷ nodes) = n ∷ nodes
set_at (suc i) n (node ∷ nodes) = node ∷ set_at i n nodes

abbrev pub store_at : ℕ → NodeConfig → Config → Config
store_at i n cfg = record cfg { nodes = set_at i n cfg.nodes }

-- The update of a node that was found at an index, before the file is written.
unfoldable pub update_at :
    Env → String → NodeConfig → ℕ → NodeConfig → Config → Config × Result NodeConfig
unfolding prepare_node set_at
update_at env name node i old cfg = elim (prepare_node env cfg name node) [
  | err e ↦ (cfg, err e)
  | ok n ↦ let n' = record n { source = old.source } in (store_at i n' cfg, ok n')
]

-- `UpdateNode` saves, or stores the previous node under its index again.
abbrev pub save_update :
    Bool → ℕ → NodeConfig → Config × Result NodeConfig → Config × Result NodeConfig
save_update saved i prev (cfg, err e) = (cfg, err e)
save_update saved i prev (cfg, ok n) =
    if saved then (cfg, ok n) else (store_at i prev cfg, err save_failed)

unfoldable pub update_node : Env → Bool → String → NodeConfig → Config → Config × Result NodeConfig
unfolding update_at located
update_node env saved raw node cfg = elim (located (trim raw) cfg.nodes) [
  | none ↦ (cfg, err node_not_found)
  | some (i, prev) ↦ save_update saved i prev (update_at env (trim raw) node i prev cfg)
]

-- A round of the loop of `UpdateNodes`.
unfoldable pub update_one : Env → String → NodeConfig → Config → Config × Result NodeConfig
unfolding update_at located
update_one env raw node cfg = elim (located (trim raw) cfg.nodes) [
  | none ↦ (cfg, err node_not_found)
  | some (i, old) ↦ update_at env (trim raw) node i old cfg
]

-- The next rounds, unless this one fails.
abbrev pub go_on :
    (Config → Config × Result (List NodeConfig))
    → Config × Result NodeConfig
    → Config × Result (List NodeConfig)
go_on rest (cfg, err e) = (cfg, err e)
go_on rest (cfg, ok n) = add_result n (rest cfg)

-- The loop of `UpdateNodes`; a blank name is passed over.
unfoldable pub update_loop :
    Env → List (String × NodeConfig) → Config → Config × Result (List NodeConfig)
unfolding update_one
update_loop env [] cfg = (cfg, ok [])
update_loop env ((name, node) ∷ rest) cfg = elim (str_eq (trim name) "") [
  | true ↦ update_loop env rest cfg
  | false ↦ go_on (update_loop env rest) (update_one env name node cfg)
]

-- With nothing updated nothing is saved.
abbrev pub commit_updates :
    Bool → List NodeConfig → Config × Result (List NodeConfig) → Config × Result (List NodeConfig)
commit_updates saved backup (cfg, ok []) = (cfg, ok [])
commit_updates saved backup (cfg, ok (n ∷ ns)) = commit saved backup (cfg, ok (n ∷ ns))
commit_updates saved backup (cfg, err e) = commit saved backup (cfg, err e)

unfoldable pub update_nodes :
    Env → Bool → List (String × NodeConfig) → Config → Config × Result (List NodeConfig)
unfolding update_loop
update_nodes env saved nodes cfg = commit_updates saved cfg.nodes (update_loop env nodes cfg)

-- The names of a request, trimmed, blanks left out.
abbrev pub clean_names : List String → List String
clean_names [] = []
clean_names (name ∷ names) =
    if str_eq (trim name) "" then clean_names names else trim name ∷ clean_names names

unfoldable pub delete_nodes : Bool → List String → Config → Config × Result {0} Unit
unfolding contains
delete_nodes saved names cfg =
    let kept = filter (λ node. not (contains node.name (clean_names names))) cfg.nodes in
    if length kept == length cfg.nodes
    then (cfg, err node_not_found)
    else commit saved cfg.nodes (record cfg { nodes = kept }, ok tt)

-- `byName[name]`: of several nodes of a name the last.
unfoldable pub last_named : String → List NodeConfig → Option NodeConfig
last_named name [] = none
last_named name (node ∷ nodes) = elim (last_named name nodes) [
  | some n ↦ some n
  | none ↦ if str_eq node.name name then some node else none
]

-- The nodes in front of a new order, and the names that were seen.
unfoldable pub pick_named :
    List String → List String → List NodeConfig → List NodeConfig × List String
unfolding last_named contains
pick_named [] seen nodes = ([], seen)
pick_named (name ∷ names) seen nodes = elim (last_named name nodes) [
  | none ↦ pick_named names seen nodes
  | some n ↦ elim (contains name seen) [
    | true ↦ pick_named names seen nodes
    | false ↦ let (picked, seen') = pick_named names (name ∷ seen) nodes in (n ∷ picked, seen')
  ]
]

unfoldable pub reordered : List String → List NodeConfig → List NodeConfig
unfolding pick_named contains
reordered names nodes =
    let (picked, seen) = pick_named (clean_names names) [] nodes in
    picked ++ filter (λ node. not (contains node.name seen)) nodes

-- The nodes as `assignSequentialPortsLocked` leaves them when the ports run out.
unfoldable pub unfinished :
    ℕ → Env → Config → List ℕ → List ℕ → List ℕ → List NodeConfig → List NodeConfig
unfolding find_port
unfinished port env cfg mine assigned skipped [] = []
unfinished port env cfg mine assigned skipped (node ∷ nodes) =
    let (found, skipped') = find_port (port_end - port) port env cfg mine assigned skipped in
    elim found [
      | none ↦ record node { port = 0 } ∷ nodes
      | some p ↦
          with_credentials cfg (record node { port = p })
          ∷ unfinished (suc p) env cfg mine (p ∷ assigned) skipped' nodes
    ]

-- `assignSequentialPortsLocked` on a configuration.
abbrev pub renumbered : Env → Config → Option (List NodeConfig × List ℕ) → Config × Result {0} Unit
renumbered env cfg none = (
  record cfg { nodes = unfinished (base_port cfg) env cfg (used_ports cfg.nodes) [] [] cfg.nodes },
  err ports_exhausted,
)
renumbered env cfg (some (nodes, skipped)) = (record cfg { nodes = nodes }, ok tt)

unfoldable pub reorder_nodes : Env → Bool → List String → Config → Config × Result {0} Unit
unfolding reordered assign_sequential_ports unfinished
reorder_nodes env saved names cfg =
    let cfg' = record cfg { nodes = reordered names cfg.nodes } in
    commit saved cfg.nodes (
      if has_node_ports cfg
      then renumbered env cfg' (assign_sequential_ports env cfg')
      else (cfg', ok tt))
