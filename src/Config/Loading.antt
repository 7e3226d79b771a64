-- ===== src/Config/Loading.antt =====
-- internal/config/config.go: what `NormalizeWithPortMap` does to the mode, the nodes and their ports,
-- with normal chain profiles. `none` is an error.
use Prim.Native.String.{◌++◌ as append}
use easy_proxies.Prelude.{
  ℕ, zero, suc, ◌-◌, Bool, true, false, not, ◌&&◌, ◌||◌, Option, none, some, List, [], ◌∷◌, String,
  str_eq, trim, lookup, put, holds, if◌then◌else◌, ◌==◌, ltb,
}
use easy_proxies.Proxychain.Profiles.{Profile, find}
use easy_proxies.Config.Types.{NodeConfig, Config, Env, node_key, extract_node_name, has_node_ports}
use easy_proxies.Config.Loops.{NetEnv, has_loop, validate_chain_profile_loops}

-- `BuildPortMap`, behind the ports of the nodes before.
unfoldable pub build_from : List (String × ℕ) → List NodeConfig → List (String × ℕ)
unfolding put
build_from ports [] = ports
build_from ports (node ∷ nodes) =
    build_from (if ltb 0 node.port then put ports (node_key node) node.port else ports) nodes

unfoldable pub build_port_map : Config → List (String × ℕ)
unfolding build_from
build_port_map cfg = build_from [] cfg.nodes

abbrev pub default_mode : String → String
default_mode mode = if str_eq mode "" || str_eq mode "multi_port" then "multi-port" else mode

-- The defaults of the fields that the ports depend on.
abbrev pub with_defaults : Config → Config
with_defaults cfg = record cfg {
  mode = default_mode cfg.mode;
  listener_port = if cfg.listener_port == 0 then 2323 else cfg.listener_port;
  multi_port = record cfg.multi_port {
    address = if str_eq cfg.multi_port.address "" then "0.0.0.0" else cfg.multi_port.address;
    base_port = if cfg.multi_port.base_port == 0 then 24000 else cfg.multi_port.base_port;
  };
}

abbrev pub is_supported : String → Bool
is_supported mode = str_eq mode "pool" || str_eq mode "multi-port" || str_eq mode "hybrid"

abbrev pub loaded_name : Env → ℕ → String → String → String
loaded_name env index name uri =
    let named = if str_eq name "" then extract_node_name env uri else name in
    if str_eq named "" then append "node-" (env.decimal index) else named

-- The chain profile that a node names has to be there and enabled.
abbrev pub loaded_profile : List Profile → String → Option String
loaded_profile profiles given =
    if str_eq (trim given) "" then some given else elim (find profiles (trim given)) [
      | none ↦ none
      | some profile ↦ if profile.enabled then some (trim given) else none
    ]

unfoldable pub loaded_node : Env → List Profile → ℕ → NodeConfig → Option NodeConfig
unfolding find extract_node_name
loaded_node env profiles index node =
    let uri = trim node.uri in
    if str_eq uri "" then none else elim (loaded_profile profiles node.chain_profile_id) [
      | none ↦ none
      | some id ↦ some (record node {
        name = loaded_name env index (trim node.name) uri;
        uri = uri;
        chain_profile_id = id;
      })
    ]

-- A port that a node may keep.
abbrev pub is_keepable : Env → Config → List ℕ → ℕ → Bool
is_keepable env cfg used port =
    not (holds port used || (str_eq cfg.mode "hybrid" && port == cfg.listener_port))
    && env.can_listen cfg.multi_port.address port

abbrev pub known_port : Option ℕ → ℕ
known_port none = 0
known_port (some port) = port

-- The port that a node has, or had before; 0 for none.
abbrev pub wanted_port : Config → List (String × ℕ) → NodeConfig → ℕ
wanted_port cfg ports node =
    if ltb 0 node.port then node.port else known_port (lookup (node_key node) ports)

abbrev pub kept_port : Env → Config → List (String × ℕ) → List ℕ → NodeConfig → ℕ
kept_port env cfg ports used node =
    let port = wanted_port cfg ports node in
    if has_node_ports cfg
    then if ltb 0 port && is_keepable env cfg used port then port else 0
    else node.port

abbrev pub with_used : Config → ℕ → List ℕ → List ℕ
with_used cfg port used = if has_node_ports cfg && ltb 0 port then port ∷ used else used

-- The first pass: the nodes, and the ports in use.
unfoldable pub first_pass :
    Env
    → Config
    → List Profile
    → List (String × ℕ)
    → ℕ
    → List ℕ
    → List NodeConfig
    → Option (List NodeConfig × List ℕ)
unfolding loaded_node lookup
first_pass env cfg profiles ports index used [] = some ([], used)
first_pass env cfg profiles ports index used (node ∷ nodes) =
    elim (loaded_node env profiles index node) [
      | none ↦ none
      | some n ↦
          let port = kept_port env cfg ports used n in
          elim (first_pass env cfg profiles ports (suc index) (with_used cfg port used) nodes) [
            | none ↦ none
            | some (ns, used') ↦ some (record n { port = port } ∷ ns, used')
          ]
    ]

-- The search from the cursor on, one round for each port up to 65535.
unfoldable pub free_port : ℕ → ℕ → Env → Config → List ℕ → Option ℕ
free_port zero port env cfg used = none
free_port (suc rounds) port env cfg used =
    let onward = free_port rounds (suc port) env cfg used in
    if not (holds port used) && env.can_listen cfg.multi_port.address port
    then some port
    else onward

abbrev pub new_port : ℕ → Env → Config → List ℕ → Option ℕ
new_port cursor env cfg used =
    if has_node_ports cfg
    then free_port (65536 - cursor) cursor env cfg used
    else if ltb 65535 cursor
    then none
    else some cursor

abbrev pub default_user : Config → NodeConfig → NodeConfig
default_user cfg node =
    if has_node_ports cfg && str_eq node.username ""
    then record node { username = cfg.multi_port.username; password = cfg.multi_port.password }
    else node

-- The second pass gives a port to each node without one.
unfoldable pub second_pass : Env → Config → ℕ → List ℕ → List NodeConfig → Option (List NodeConfig)
unfolding free_port
second_pass env cfg cursor used [] = some []
second_pass env cfg cursor used (node ∷ nodes) = elim (node.port == 0) [
  | false ↦ elim (second_pass env cfg cursor used nodes) [
    | none ↦ none
    | some ns ↦ some (default_user cfg node ∷ ns)
  ]
  | true ↦ elim (new_port cursor env cfg used) [
    | none ↦ none
    | some port ↦ elim (second_pass env cfg (suc port) (with_used cfg port used) nodes) [
      | none ↦ none
      | some ns ↦ some (default_user cfg (record node { port = port }) ∷ ns)
    ]
  ]
]

abbrev pub listener_ports : Config → List ℕ
listener_ports cfg = if str_eq cfg.mode "hybrid" then cfg.listener_port ∷ [] else []

-- Behind the first pass.
unfoldable pub after_first_pass : Env → Config → Option (List NodeConfig × List ℕ) → Option Config
unfolding second_pass
after_first_pass env cfg none = none
after_first_pass env cfg (some (ns, used)) =
    elim (second_pass env cfg cfg.multi_port.base_port used ns) [
      | none ↦ none
      | some ns' ↦ some (record cfg { nodes = ns' })
    ]

-- `NormalizeWithPortMap` up to the check of the chain profiles.
unfoldable pub assign_ports : Env → List Profile → List (String × ℕ) → Config → Option Config
unfolding first_pass after_first_pass
assign_ports env profiles ports cfg =
    let cfg' = with_defaults cfg in
    if not (is_supported cfg'.mode)
    then none
    else after_first_pass env cfg'
        (first_pass env cfg' profiles ports 0 (listener_ports cfg') cfg'.nodes)

-- `listen` is the address of the management listener.
unfoldable pub normalize_with_port_map :
    Env → NetEnv → String → List Profile → List (String × ℕ) → Config → Option Config
unfolding assign_ports has_loop
normalize_with_port_map env net listen profiles ports cfg =
    validate_chain_profile_loops net listen profiles (assign_ports env profiles ports cfg)
