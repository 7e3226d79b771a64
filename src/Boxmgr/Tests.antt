-- ===== src/Boxmgr/Tests.antt =====
-- A configuration with two nodes in multi-port mode, on a system where every port is free.
use mathlib.Core.List.{Permᴰ}
use easy_proxies.Prelude.{Bool, true, false, none, List, [], ◌∷◌, refl, arith, ◌≡◌, trim, String}
use easy_proxies.Importer.Sources.{contains}
use easy_proxies.Config.Types.{NodeConfig, NodeSource, Config, Env}
use easy_proxies.Boxmgr.Ports.{
  holds, all_ports, reassign_conflicting_port, base_port, used_ports, assign_sequential_ports,
}
use easy_proxies.Boxmgr.Assignment.{Assigns, assign_sequential_ports-Assigns}
use easy_proxies.Boxmgr.Nodes.{node_named, delete_nodes, reordered}
use easy_proxies.Boxmgr.Naming.{Named, Ported}
use easy_proxies.Boxmgr.Kept.{WellFormed}
use easy_proxies.Boxmgr.Reordering.{reordered-Perm}
use easy_proxies.Boxmgr.Conflicts.{reassign_conflicting_port_lem}
use easy_proxies.Boxmgr.Commands.{Command, command, commands, commands-WellFormed, command_error}

abbrev env : Env
env = record {
  can_listen = λ address port. true;
  vmess_name = λ payload. none;
  query_unescape = λ text. none;
  decimal = λ n. "2";
}

abbrev node : String → NodeConfig
node name = record {
  name = name;
  uri = "trojan://a";
  chain_profile_id = "";
  port = 0;
  username = "";
  password = "";
  source = NodeSource.inline_source;
}

abbrev cfg : Config
cfg = record {
  mode = "multi-port";
  listener_port = 2323;
  multi_port = record { address = ""; base_port = 0; username = "u"; password = "p" };
  nodes = record (node "a") { port = 24001 } ∷ record (node "b") { port = 24000 } ∷ [];
  nodes_file = "";
  subscriptions = [];
}

cfg-Named : Named cfg.nodes
unfolding node_named
cfg-Named = (refl, refl, (refl, refl, tt))

cfg-WellFormed : WellFormed cfg
cfg-WellFormed = (cfg-Named, (λ y. (refl, refl, (refl, refl, tt))), omega arith)

abbrev script : List (Env × Bool × Command)
script =
    (env, true, Command.creates (node "c" ∷ node "" ∷ []))
    ∷ (env, false, Command.deletes ("a" ∷ []))
    ∷ (env, true, Command.reorders ("b" ∷ "a" ∷ []))
    ∷ (env, true, Command.updates "a" (node "b"))
    ∷ []

commands-WellFormed_example : WellFormed (commands script cfg)
commands-WellFormed_example = commands-WellFormed script cfg cfg-WellFormed

unknown_fails : (command env true (Command.deletes ("x" ∷ [])) cfg).1 ≡ true
unfolding command delete_nodes contains trim
unknown_fails = refl

command_error_example : (command env true (Command.deletes ("x" ∷ [])) cfg).0 ≡ cfg
command_error_example = command_error env true (Command.deletes ("x" ∷ [])) cfg unknown_fails

reordered-Perm_example : Permᴰ (reordered ("b" ∷ []) cfg.nodes) cfg.nodes
reordered-Perm_example = reordered-Perm ("b" ∷ []) cfg.nodes cfg-Named

assign_sequential_ports-Assigns_example :
    Assigns env cfg
      (used_ports cfg.nodes)
      (base_port cfg)
      cfg.nodes
      (assign_sequential_ports env cfg)
assign_sequential_ports-Assigns_example = assign_sequential_ports-Assigns env cfg (omega arith)

reassign_conflicting_port_lem_example :
    Ported (reassign_conflicting_port env cfg 24000).0.nodes
    × ((reassign_conflicting_port env cfg 24000).1 ≡ true
        → holds 24000 (all_ports (reassign_conflicting_port env cfg 24000).0.nodes) ≡ false)
reassign_conflicting_port_lem_example =
    reassign_conflicting_port_lem env cfg 24000 (refl, refl, (refl, refl, tt))
