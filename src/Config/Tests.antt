-- ===== src/Config/Tests.antt =====
-- A configuration in hybrid mode with two nodes, on a system where every port is free.
use mathlib.Core.Option as Option
use easy_proxies.Prelude.{
  lower, trim_space, codes_eq, List, ℕ, false, true, none, some, [], ◌∷◌, String, map, trim, refl,
  ◌≡◌,
}
use easy_proxies.Config.Types.{NodeConfig, NodeSource, Config, Env}
use easy_proxies.Config.Loading.{
  normalize_with_port_map, build_port_map, with_defaults, loaded_node,
}
use easy_proxies.Proxychain.Profiles.{Profile}
use easy_proxies.Config.Loops.{NetEnv, local_ports}
use easy_proxies.Config.LoadedPorts.{OnSome, ports_of}
use easy_proxies.Config.AssignedPorts.{Loaded, normalize_with_port_map-Loaded}
use easy_proxies.Config.Reloading.{Reloadable, unported}
use easy_proxies.Config.Restoring.{Apart, AllApart, build_port_map-normalize}

abbrev env : Env
env = record {
  can_listen = λ address port. true;
  vmess_name = λ payload. none;
  query_unescape = λ text. none;
  decimal = λ n. "2";
}

abbrev node : String → ℕ → NodeConfig
node name port = record {
  name = name;
  uri = name;
  chain_profile_id = "";
  port = port;
  username = "";
  password = "";
  source = NodeSource.inline_source;
}

abbrev cfg : Config
cfg = record {
  mode = "hybrid";
  listener_port = 2323;
  multi_port = record { address = ""; base_port = 0; username = "u"; password = "p" };
  nodes = node "a" 24007 ∷ node "b" 24003 ∷ [];
  nodes_file = "";
  subscriptions = [];
}

-- A system where every text is the URL of one remote host, and no listen address has a port.
abbrev net : NetEnv
net = record {
  parse_url = λ uri. some (record { scheme = "http"; hostname = "example.com"; port = "" });
  is_loopback_ip = λ host. false;
  parse_uint16 = λ text. (0, false);
  split_host_port = λ listen. none;
}

abbrev profiles : List Profile
profiles =
    record {
      id = "p";
      name = "p";
      enabled = true;
      hops = record { uri = "http://example.com" } ∷ [];
    }
    ∷ []

hop_apart : AllApart net (local_ports net "" (with_defaults cfg)) profiles
unfolding lower trim_space codes_eq
hop_apart = (
  (Apart.remote (record { scheme = "http"; hostname = "example.com"; port = "" }) refl refl, tt),
  tt,
)

normalize_with_port_map-Loaded_example :
    OnSome Loaded (normalize_with_port_map env net "" profiles [] cfg)
normalize_with_port_map-Loaded_example =
    normalize_with_port_map-Loaded env net "" profiles [] cfg refl

cfg-Reloadable : Reloadable env (with_defaults cfg) profiles cfg.nodes
unfolding loaded_node trim
cfg-Reloadable = (((λ i. refl), refl), (((λ i. refl), refl), tt))

build_port_map-normalize_example :
    Option.map
      (λ c. ports_of c.nodes)
      (normalize_with_port_map env net "" profiles
        (build_port_map cfg)
        (record cfg { nodes = map unported cfg.nodes }))
    ≡ some (24007 ∷ 24003 ∷ [])
build_port_map-normalize_example =
    build_port_map-normalize env net "" profiles cfg refl (refl, (refl, tt))
      (refl, refl, (refl, refl, tt)) (refl, (refl, tt)) cfg-Reloadable hop_apart
