-- ===== src/Boxmgr/Commands.antt =====
-- Any sequence of changes of the configured nodes.
use mathlib.Core.List.Permᴰ
use easy_proxies.Prelude.{
  ℕ, Bool, true, false, Option, none, some, List, [], ◌∷◌, String, ◌≡◌, refl, ◌≤◌, ap,
  if◌then◌else◌,
}
use easy_proxies.Config.Types.{NodeConfig, Config, Env, has_node_ports}
use easy_proxies.Boxmgr.Ports.{assign_sequential_ports, base_port, port_end}
use easy_proxies.Boxmgr.Result.{Result, ok, err, OnOk}
use easy_proxies.Boxmgr.Nodes.{
  create_nodes, update_node, update_nodes, delete_nodes, reorder_nodes, reordered, renumbered,
}
use easy_proxies.Boxmgr.Naming.{Named, Ported}
use easy_proxies.Boxmgr.Reordering.{Named-Perm, reordered-Perm}
use easy_proxies.Boxmgr.Renumbering.{
  OnSome, assign_sequential_ports-Named, assign_sequential_ports-Ported,
}
use easy_proxies.Boxmgr.Kept.{
  WellFormed, Done, Settled, commit-Settled, create_nodes-Settled, update_node-Settled,
  update_nodes-Settled, delete_nodes-Settled,
}

renumbered-Done :
    (env : Env) (cfg : Config) (o : Option (List NodeConfig × List ℕ))
    → base_port cfg ≤ port_end
    → OnSome Named o
    → OnSome Ported o
    → OnOk (λ u. WellFormed (renumbered env cfg o).0) (renumbered env cfg o).1
renumbered-Done env cfg none le h k = tt
renumbered-Done env cfg (some (nodes, skipped)) le h k = (h, λ y. k, le)

renumbered-same :
    (env : Env) (cfg : Config) (o : Option (List NodeConfig × List ℕ))
    → record (renumbered env cfg o).0 { nodes = [] } ≡ record cfg { nodes = [] }
renumbered-same env cfg none = refl
renumbered-same env cfg (some (nodes, skipped)) = refl

reorder_nodes-Settled :
    (env : Env) (saved : Bool) (names : List String) (cfg : Config)
    → Settled cfg (reorder_nodes env saved names cfg)
unfolding reorder_nodes
reorder_nodes-Settled env saved names cfg =
    commit-Settled saved cfg _ (go (has_node_ports cfg) refl)
  where
    cfg' : Config
    cfg' = record cfg { nodes = reordered names cfg.nodes }

    named : WellFormed cfg → Named cfg'.nodes
    named w = Named-Perm (Permᴰ.symm (reordered-Perm names cfg.nodes w.0)) w.0

    go :
        (b : Bool)
        → has_node_ports cfg ≡ b
        → Done {A = Unit} cfg
            (if b then renumbered env cfg' (assign_sequential_ports env cfg') else (cfg', ok tt))
    go true y = (
      ap {A = Config} (λ x. record x { nodes = cfg.nodes })
          (renumbered-same env cfg' (assign_sequential_ports env cfg')),
      λ w.
          renumbered-Done env cfg' (assign_sequential_ports env cfg') w.2
            (assign_sequential_ports-Named env cfg' (named w))
            (assign_sequential_ports-Ported env cfg' w.2),
    )
    go false n = (refl, λ w. (named w, λ y. absurd (let clash = n in cc), w.2))

pub data Command : Type 0 where
  creates : List NodeConfig → Command
  updates : String → NodeConfig → Command
  updates_many : List (String × NodeConfig) → Command
  deletes : List String → Command
  reorders : List String → Command

abbrev failed {ℓ} : {A : Type ℓ} → Config × Result A → Config × Bool
failed (cfg, ok a) = (cfg, false)
failed (cfg, err e) = (cfg, true)

-- The configuration, and whether the command reports an error.
unfoldable pub command : Env → Bool → Command → Config → Config × Bool
command env saved (creates nodes) cfg = failed (create_nodes env saved nodes cfg)
command env saved (updates name node) cfg = failed (update_node env saved name node cfg)
command env saved (updates_many nodes) cfg = failed (update_nodes env saved nodes cfg)
command env saved (deletes names) cfg = failed (delete_nodes saved names cfg)
command env saved (reorders names) cfg = failed (reorder_nodes env saved names cfg)

failed-Settled {ℓ} :
    {A : Type ℓ} (cfg : Config) (r : Config × Result A)
    → Settled cfg r
    → (WellFormed cfg → WellFormed (failed r).0) × ((failed r).1 ≡ true → (failed r).0 ≡ cfg)
failed-Settled cfg (cfg', ok a) h = (h.1, λ e. absurd (cc))
failed-Settled cfg (cfg', err x) h = (h.1, λ e. h.0)

command-Settled :
    (env : Env) (saved : Bool) (c : Command) (cfg : Config)
    → (WellFormed cfg → WellFormed (command env saved c cfg).0)
      × ((command env saved c cfg).1 ≡ true → (command env saved c cfg).0 ≡ cfg)
unfolding command
command-Settled env saved (creates nodes) cfg =
    failed-Settled cfg _ (create_nodes-Settled env saved nodes cfg)
command-Settled env saved (updates name node) cfg =
    failed-Settled cfg _ (update_node-Settled env saved name node cfg)
command-Settled env saved (updates_many nodes) cfg =
    failed-Settled cfg _ (update_nodes-Settled env saved nodes cfg)
command-Settled env saved (deletes names) cfg =
    failed-Settled cfg _ (delete_nodes-Settled saved names cfg)
command-Settled env saved (reorders names) cfg =
    failed-Settled cfg _ (reorder_nodes-Settled env saved names cfg)

-- Each command with what the system answers during it and whether its file is written.
unfoldable pub commands : List (Env × Bool × Command) → Config → Config
unfolding command
commands [] cfg = cfg
commands ((env, saved, c) ∷ cs) cfg = commands cs (command env saved c cfg).0

-- If each node has a name of its own, not empty, and in the modes where nodes have ports a port of
-- its own, not 0, then so it is after any sequence of creations, updates, deletions and new orders,
-- whatever ports the system has free and whichever commands fail or cannot be saved. (The base port
-- is a number of 16 bits.)
pub commands-WellFormed :
    (cs : List (Env × Bool × Command)) (cfg : Config)
    → WellFormed cfg
    → WellFormed (commands cs cfg)
unfolding commands
commands-WellFormed [] cfg h = h
commands-WellFormed ((env, saved, c) ∷ cs) cfg h =
    commands-WellFormed cs (command env saved c cfg).0 ((command-Settled env saved c cfg).0 h)

-- A command that reports an error, of whatever kind and at whichever of its nodes, leaves the
-- configuration as it was, although the commands change the nodes in place and find the error
-- behind some of the changes.
pub command_error :
    (env : Env) (saved : Bool) (c : Command) (cfg : Config)
    → (command env saved c cfg).1 ≡ true
    → (command env saved c cfg).0 ≡ cfg
command_error env saved c cfg e = (command-Settled env saved c cfg).1 e
