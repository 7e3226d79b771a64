-- ===== src/Boxmgr/Ports.antt =====
-- internal/boxmgr/manager.go: the ports of nodes. A loop over the ports from some port on takes
-- one round for each up to 65535.
pub use easy_proxies.Prelude.{holds}
use easy_proxies.Prelude.{
  ℕ, zero, suc, ◌-◌, Bool, true, false, not, ◌&&◌, ◌||◌, Option, none, some, List, [], ◌∷◌, ◌++◌,
  String, str_eq, if◌then◌else◌, ◌==◌, ltb, leb,
}
use easy_proxies.Config.Types.{NodeConfig, Config, Env}

abbrev pub port_end : ℕ
port_end = 65536

abbrev pub base_port : Config → ℕ
base_port cfg = if cfg.multi_port.base_port == 0 then 24000 else cfg.multi_port.base_port

abbrev pub address : Config → String
address cfg = if str_eq cfg.multi_port.address "" then "0.0.0.0" else cfg.multi_port.address

abbrev pub is_listener : Config → ℕ → Bool
is_listener cfg port = str_eq cfg.mode "hybrid" && port == cfg.listener_port

-- The ports that nodes have, 0 left out.
abbrev pub used_ports : List NodeConfig → List ℕ
used_ports [] = []
used_ports (node ∷ nodes) =
    if ltb 0 node.port then node.port ∷ used_ports nodes else used_ports nodes

abbrev pub max_port : List NodeConfig → ℕ → ℕ
max_port [] best = best
max_port (node ∷ nodes) best = max_port nodes (if ltb best node.port then node.port else best)

-- The search of a free port: the port, and the ports that the system has taken.
unfoldable pub next_port : ℕ → ℕ → Env → Config → List ℕ → List ℕ → ℕ × List ℕ
next_port zero port env cfg used skipped = (0, skipped)
next_port (suc rounds) port env cfg used skipped =
    let blocked = holds port used || is_listener cfg port in
    let free = env.can_listen (address cfg) port in
    let skipped' = if blocked then skipped else skipped ++ (port ∷ []) in
    let onward = next_port rounds (suc port) env cfg used skipped' in
    if not blocked && free then (port, skipped) else onward

-- `nextAvailablePortLocked`, 0 for none, with the skipped ports it records.
unfoldable pub next_available_port : Env → Config → ℕ × List ℕ
unfolding next_port
next_available_port env cfg =
    let base = base_port cfg in
    let most = max_port cfg.nodes 0 in
    let start = if leb base most then suc most else base in
    next_port (port_end - start) start env cfg (used_ports cfg.nodes) []

-- The inner loop of `assignSequentialPortsLocked`.
unfoldable pub find_port : ℕ → ℕ → Env → Config → List ℕ → List ℕ → List ℕ → Option ℕ × List ℕ
find_port zero port env cfg mine assigned skipped = (none, skipped)
find_port (suc rounds) port env cfg mine assigned skipped =
    let passed = holds port assigned || is_listener cfg port in
    let taken = not (holds port mine) && not (env.can_listen (address cfg) port) in
    let skipped' = if not passed && taken then skipped ++ (port ∷ []) else skipped in
    let onward = find_port rounds (suc port) env cfg mine assigned skipped' in
    if passed || taken then onward else (some port, skipped)

-- Nodes without a user get that of the configuration.
abbrev pub with_credentials : Config → NodeConfig → NodeConfig
with_credentials cfg node =
    if str_eq node.username ""
    then record node { username = cfg.multi_port.username; password = cfg.multi_port.password }
    else node

-- The loop over the nodes: `none` when the ports run out.
unfoldable pub assign_loop :
    ℕ
    → Env
    → Config
    → List ℕ
    → List ℕ
    → List ℕ
    → List NodeConfig
    → Option (List NodeConfig × List ℕ)
unfolding find_port
assign_loop port env cfg mine assigned skipped [] = some ([], skipped)
assign_loop port env cfg mine assigned skipped (node ∷ nodes) =
    let (found, skipped') = find_port (port_end - port) port env cfg mine assigned skipped in
    elim found [
      | none ↦ none
      | some p ↦ elim (assign_loop (suc p) env cfg mine (p ∷ assigned) skipped' nodes) [
        | none ↦ none
        | some (nodes', skipped'') ↦
            some (with_credentials cfg (record node { port = p }) ∷ nodes', skipped'')
      ]
    ]

unfoldable pub assign_sequential_ports : Env → Config → Option (List NodeConfig × List ℕ)
unfolding assign_loop
assign_sequential_ports env cfg =
    assign_loop (base_port cfg) env cfg (used_ports cfg.nodes) [] [] cfg.nodes

-- The loop of `reassignConflictingPort` over the candidates.
unfoldable pub next_candidate : ℕ → ℕ → Env → Config → List ℕ → Option ℕ
next_candidate zero port env cfg used = none
next_candidate (suc rounds) port env cfg used =
    let onward = next_candidate rounds (suc port) env cfg used in
    if holds port used || not (env.can_listen (address cfg) port) then onward else some port

abbrev pub all_ports : List NodeConfig → List ℕ
all_ports [] = []
all_ports (node ∷ nodes) = node.port ∷ all_ports nodes

-- The first node with the port gets the new one, if there is one.
abbrev pub replace_port : ℕ → Option ℕ → List NodeConfig → List NodeConfig × Bool
replace_port conflict found [] = ([], false)
replace_port conflict found (node ∷ nodes) =
    let (nodes', ok) = replace_port conflict found nodes in
    if node.port == conflict
    then elim found [
      | none ↦ (node ∷ nodes, false)
      | some p ↦ (record node { port = p } ∷ nodes, true)
    ]
    else (node ∷ nodes', ok)

unfoldable pub reassign_conflicting_port : Env → Config → ℕ → Config × Bool
unfolding next_candidate
reassign_conflicting_port env cfg conflict =
    let listener = if str_eq cfg.mode "hybrid" then cfg.listener_port ∷ [] else [] in
    let used = listener ++ all_ports cfg.nodes in
    let found = next_candidate (port_end - suc conflict) (suc conflict) env cfg used in
    let (nodes, ok) = replace_port conflict found cfg.nodes in
    if conflict == 0 then (cfg, false) else (record cfg { nodes = nodes }, ok)
