-- ===== src/Config/Restoring.antt =====
-- A load of a configuration that was loaded before: the check of the chain profiles behind the ports.
use mathlib.Core.Option as Option
use easy_proxies.Prelude.{
  ℕ, true, false, Option, none, some, List, [], ◌∷◌, String, map, ◌≡◌, refl, arith, Bool-cases, inl,
  inr,
}
use easy_proxies.Prelude.{All, holds}
use easy_proxies.Proxychain.Profiles.{Hop, Profile}
use easy_proxies.Config.Types.{NodeConfig, Config, Env, has_node_ports}
use easy_proxies.Config.Loops.{
  NetEnv, Url, is_local_proxy_host, proxy_default_port, is_blocked, any_blocked, has_loop,
  local_ports, node_ports, validate_chain_profile_loops,
}
use easy_proxies.Config.Loading.{
  is_supported, listener_ports, first_pass, second_pass, after_first_pass, assign_ports,
  normalize_with_port_map, build_port_map, with_defaults,
}
use easy_proxies.Config.LoadedPorts.{ports_of, Settled, OnSome}
use easy_proxies.Config.Reloading.{Keyed, Unused, Reloadable, unported, assign_ports-kept}

-- A load does not change the port of the listener but for the default.
assign_ports-listener :
    (env : Env) (profiles : List Profile) (ports : List (String × ℕ)) (cfg : Config)
    → OnSome
        (λ c. c.listener_port ≡ (with_defaults cfg).listener_port)
        (assign_ports env profiles ports cfg)
unfolding assign_ports after_first_pass
assign_ports-listener env profiles ports cfg = elim (Bool-cases (is_supported cfg'.mode)) [
  | inr n ↦ rw (assign_ports, n) tt
  | inl y ↦
      rw (assign_ports, y)
        (first (first_pass env cfg' profiles ports 0 (listener_ports cfg') cfg'.nodes))
]
  where
    cfg' : Config
    cfg' = with_defaults cfg

    second :
        (o : Option (List NodeConfig))
        → OnSome
            (λ (c : Config). c.listener_port ≡ cfg'.listener_port)
            (elim o [ none ↦ none | some ns ↦ some (record cfg' { nodes = ns }) ])
    second none = tt
    second (some ns) = refl

    first :
        (o : Option (List NodeConfig × List ℕ))
        → OnSome
            (λ (c : Config). c.listener_port ≡ cfg'.listener_port)
            (after_first_pass env cfg' o)
    first none = tt
    first (some (ns, used)) = second (second_pass env cfg' cfg'.multi_port.base_port used ns)

node_ports_lem :
    (ns ms : List NodeConfig) → ports_of ns ≡ ports_of ms → node_ports ns ≡ node_ports ms
node_ports_lem [] [] e = refl
node_ports_lem [] (m ∷ ms) e = absurd (cc)
node_ports_lem (n ∷ ns) [] e = absurd (cc)
node_ports_lem (n ∷ ns) (m ∷ ms) e =
    let head : n.port ≡ m.port = cc in
    let tail : ports_of ns ≡ ports_of ms = cc in ground (arith, head, node_ports_lem ns ms tail)

-- A hop that does not lead to one of the ports of this process.
pub data Apart (net : NetEnv) (ports : List ℕ) (hop : Hop) : Type 0 where
  unparsed : net.parse_url hop.uri ≡ none → Apart net ports hop
  remote :
      (u : Url)
      → net.parse_url hop.uri ≡ some u
      → is_local_proxy_host net u.hostname ≡ false
      → Apart net ports hop
  elsewhere :
      (u : Url)
      → net.parse_url hop.uri ≡ some u
      → holds (proxy_default_port net u) ports ≡ false
      → Apart net ports hop

abbrev pub AllApart : NetEnv → List ℕ → List Profile → Type 0
AllApart net ports = All (λ profile. All (Apart net ports) profile.hops)

is_blocked-Apart :
    (net : NetEnv) (ports : List ℕ) (hop : Hop)
    → Apart net ports hop
    → is_blocked net ports hop ≡ false
is_blocked-Apart net ports hop (unparsed e) = simp (is_blocked, e)
is_blocked-Apart net ports hop (remote u e h) = simp (is_blocked, e, h)
is_blocked-Apart net ports hop (elsewhere u e h) = rw (is_blocked, e) (ground (arith, h))

any_blocked-Apart :
    (net : NetEnv) (ports : List ℕ) (hops : List Hop)
    → All (Apart net ports) hops
    → any_blocked net ports hops ≡ false
any_blocked-Apart net ports [] h = refl
any_blocked-Apart net ports (hop ∷ hops) h =
    rw (is_blocked-Apart net ports hop h.0) (any_blocked-Apart net ports hops h.1)

has_loop-AllApart :
    (net : NetEnv) (ports : List ℕ) (profiles : List Profile)
    → AllApart net ports profiles
    → has_loop net ports profiles ≡ false
unfolding has_loop
has_loop-AllApart net ports [] h = refl
has_loop-AllApart net ports (profile ∷ profiles) h =
    rw (any_blocked-Apart net ports profile.hops h.0) (has_loop-AllApart net ports profiles h.1)

-- A configuration with ports is read again, with nodes without ports and the map of the former
-- ports. If the nodes are in normal form, have keys of their own and ports of their own that are
-- not 0, that the system has free and that are not the listener's in hybrid mode, and each hop of a
-- chain profile has a text that is no URL, a host elsewhere or a port that the process did not
-- listen on, then the load has no error and each node
-- gets its former port back.
pub build_port_map-normalize :
    (env : Env) (net : NetEnv) (listen : String) (profiles : List Profile) (cfg : Config)
    → has_node_ports (with_defaults cfg) ≡ true
    → Keyed cfg.nodes
    → Settled cfg.nodes
    → Unused (listener_ports (with_defaults cfg)) cfg.nodes
    → Reloadable env (with_defaults cfg) profiles cfg.nodes
    → AllApart net (local_ports net listen (with_defaults cfg)) profiles
    → Option.map
        (λ c. ports_of c.nodes)
        (normalize_with_port_map env net listen profiles
          (build_port_map cfg)
          (record cfg { nodes = map unported cfg.nodes }))
      ≡ some (ports_of cfg.nodes)
unfolding normalize_with_port_map
build_port_map-normalize env net listen profiles cfg m k s u r free =
    checked _ (assign_ports-kept env profiles cfg m k s u r) (
      assign_ports-listener env profiles (build_port_map cfg)
        (record cfg { nodes = map unported cfg.nodes }))
  where
    checked :
        (o : Option Config)
        → Option.map (λ c. ports_of c.nodes) o ≡ some (ports_of cfg.nodes)
        → OnSome (λ c. c.listener_port ≡ (with_defaults cfg).listener_port) o
        → Option.map (λ c. ports_of c.nodes) (validate_chain_profile_loops net listen profiles o)
          ≡ some (ports_of cfg.nodes)
    checked none e l = absurd (cc)
    checked (some c) e l =
        let same : ports_of c.nodes ≡ ports_of cfg.nodes = cc in
        let open_ports : has_loop net (local_ports net listen c) profiles ≡ false =
          rw (l, node_ports_lem c.nodes cfg.nodes same)
            (has_loop-AllApart net (local_ports net listen (with_defaults cfg)) profiles free) in
        rw open_ports e
