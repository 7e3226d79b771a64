-- ===== src/Config/AssignedPorts.antt =====
-- The second pass over the nodes of a configuration, and a whole load.
use easy_proxies.Prelude.{
  ℕ, zero, suc, ◌-◌, ◌≤◌, true, false, not, ◌&&◌, ◌||◌, Option, none, some, List, [], ◌∷◌, String,
  str_eq, holds, ◌==◌, ◌≡◌, arith, Option-cases, Bool-cases, inl, inr,
}
use easy_proxies.Proxychain.Profiles.{Profile}
use easy_proxies.Config.Types.{NodeConfig, Config, Env, has_node_ports}
use easy_proxies.Config.Loops.{NetEnv, has_loop, local_ports, validate_chain_profile_loops}
use easy_proxies.Config.Loading.{
  first_pass, second_pass, free_port, new_port, with_used, default_user, is_supported,
  listener_ports, after_first_pass, assign_ports, normalize_with_port_map, with_defaults,
}
use easy_proxies.Config.LoadedPorts.{
  ports_of, given_ports, Sparse, Settled, Passed, OnSome, first_pass-Passed,
}

abbrev IsNew : ℕ → List ℕ → ℕ → Type 0
IsNew low used p = (low ≤ p) × (holds p used ≡ false)

free_port-IsNew :
    (rounds port : ℕ) (env : Env) (cfg : Config) (used : List ℕ)
    → OnSome (IsNew port used) (free_port rounds port env cfg used)
unfolding free_port
free_port-IsNew zero port env cfg used = tt
free_port-IsNew (suc rounds) port env cfg used =
    elim (Bool-cases (not (holds port used) && env.can_listen cfg.multi_port.address port)) [
      | inl y ↦ rw y (omega arith, ground (arith, y))
      | inr n ↦ rw n (
          later (free_port rounds (suc port) env cfg used)
            (free_port-IsNew rounds (suc port) env cfg used))
    ]
  where
    later : (o : Option ℕ) → OnSome (IsNew (suc port) used) o → OnSome (IsNew port used) o
    later none h = tt
    later (some p) h = (omega (arith, h.0), h.1)

-- What the second pass gives: ports that were there, or that were not in use.
record Assigned (used : List ℕ) (ns : List NodeConfig) (ns' : List NodeConfig) : Type 0 where
  settled : Settled ns'
  origin :
      (q : ℕ)
      → holds q (ports_of ns') ≡ true
      → (holds q (given_ports ns) || not (holds q used)) ≡ true

pub default_user-port : (cfg : Config) (n : NodeConfig) → (default_user cfg n).port ≡ n.port
default_user-port cfg n = ground arith

Assigned-kept :
    (cfg : Config) (used : List ℕ) (n : NodeConfig) (ns ns' : List NodeConfig)
    → (n.port == 0) ≡ false
    → Sparse (n ∷ ns)
    → ((q : ℕ) → holds q (given_ports (n ∷ ns)) ≡ true → holds q used ≡ true)
    → Assigned used ns ns'
    → Assigned used (n ∷ ns) (default_user cfg n ∷ ns')
Assigned-kept cfg used n ns ns' k s w h = record {
  settled = (
    rw (default_user-port cfg n) k,
    rw (default_user-port cfg n) (ground (arith, h.origin n.port, w n.port, s.0, k)),
    h.settled,
  );
  origin = λ q e. ground (arith, default_user-port cfg n, h.origin q, e, k);
}

Assigned-new :
    (cfg : Config) (used : List ℕ) (n : NodeConfig) (ns ns' : List NodeConfig) (p : ℕ)
    → (n.port == 0) ≡ true
    → has_node_ports cfg ≡ true
    → 1 ≤ p
    → holds p used ≡ false
    → ((q : ℕ) → holds q (given_ports (n ∷ ns)) ≡ true → holds q used ≡ true)
    → Assigned (with_used cfg p used) ns ns'
    → Assigned used (n ∷ ns) (default_user cfg (record n { port = p }) ∷ ns')
Assigned-new cfg used n ns ns' p z m low new w h =
    let port = default_user-port cfg (record n { port = p }) in
    record {
      settled = (
        rw port (ground (arith, low)),
        rw port (ground (arith, h.origin p, w p, new, m, z, low)),
        h.settled,
      );
      origin = λ q e. ground (arith, port, h.origin q, e, m, z, low, new);
    }

second_pass-Assigned :
    (env : Env) (cfg : Config) (cursor : ℕ) (used : List ℕ) (ns : List NodeConfig)
    → has_node_ports cfg ≡ true
    → 1 ≤ cursor
    → Sparse ns
    → ((q : ℕ) → holds q (given_ports ns) ≡ true → holds q used ≡ true)
    → OnSome (Assigned used ns) (second_pass env cfg cursor used ns)
unfolding second_pass
second_pass-Assigned env cfg cursor used [] m le s w = record {
  settled = tt;
  origin = λ q e. absurd (cc);
}
second_pass-Assigned env cfg cursor used (n ∷ ns) m le s w = elim (Bool-cases (n.port == 0)) [
  | inr k ↦
      let rest =
        second_pass-Assigned env cfg cursor used ns m le s.1 (λ q e. w q (ground (arith, e))) in
      elim (Option-cases (second_pass env cfg cursor used ns)) [
        | inl e ↦ rw (second_pass, k) (rw e tt)
        | inr (ns', e) ↦
            rw (second_pass, k) (rw e (Assigned-kept cfg used n ns ns' k s w (rw e at rest)))
      ]
  | inl z ↦ elim (Option-cases (new_port cursor env cfg used)) [
    | inl e ↦ rw (second_pass, z) (rw e tt)
    | inr (p, e) ↦
        let found : OnSome (IsNew cursor used) (new_port cursor env cfg used) =
          rw m (free_port-IsNew (65536 - cursor) cursor env cfg used) in
        let (low, new) = rw e at found in
        let used' = with_used cfg p used in
        let rest =
          second_pass-Assigned env cfg (suc p) used' ns m (omega arith) s.1
            (λ q e'. ground (arith, w q, e', z, m)) in
        elim (Option-cases (second_pass env cfg (suc p) used' ns)) [
          | inl e' ↦ rw (second_pass, z) (rw e (rw e' tt))
          | inr (ns', e') ↦
              rw (second_pass, z)
                (rw e (
                  rw e' (
                    Assigned-new cfg used n ns ns' p z m (omega (arith, low, le)) new w
                      (rw e' at rest))))
        ]
  ]
]

-- What a load in a mode with ports gives.
abbrev pub Loaded : Config → Type 0
Loaded cfg =
    Settled cfg.nodes
    × (str_eq cfg.mode "hybrid" ≡ true → holds cfg.listener_port (ports_of cfg.nodes) ≡ false)

Loaded-Assigned :
    (cfg : Config) (used : List ℕ) (ns ns' : List NodeConfig)
    → Passed (listener_ports cfg) (ns, used)
    → Assigned used ns ns'
    → Loaded (record cfg { nodes = ns' })
Loaded-Assigned cfg used ns ns' h a = (
  a.settled,
  λ y. let q = cfg.listener_port in ground (arith, h.grows q, h.apart q, a.origin q, y),
)

assign_ports-Loaded :
    (env : Env) (profiles : List Profile) (ports : List (String × ℕ)) (cfg : Config)
    → has_node_ports (with_defaults cfg) ≡ true
    → OnSome Loaded (assign_ports env profiles ports cfg)
unfolding assign_ports after_first_pass
assign_ports-Loaded env profiles ports cfg m = elim (Bool-cases (is_supported cfg'.mode)) [
  | inr n ↦ rw (assign_ports, n) tt
  | inl y ↦ elim (Option-cases (first_pass env cfg' profiles ports 0 listener cfg'.nodes)) [
    | inl e ↦ rw (assign_ports, y) (rw e tt)
    | inr ((ns, used), e) ↦
        let passed = rw e at (first_pass-Passed env cfg' profiles ports 0 listener cfg'.nodes m) in
        let chosen =
          second_pass-Assigned env cfg' cfg'.multi_port.base_port used ns m (ground arith)
            passed.sparse passed.within in
        elim (Option-cases (second_pass env cfg' cfg'.multi_port.base_port used ns)) [
          | inl e' ↦ rw (assign_ports, y) (rw e (rw (after_first_pass, e') tt))
          | inr (ns', e') ↦
              rw (assign_ports, y)
                (rw e (
                  rw (after_first_pass, e')
                    (Loaded-Assigned cfg' used ns ns' passed (rw e' at chosen))))
        ]
  ]
]
  where
    cfg' : Config
    cfg' = with_defaults cfg

    listener : List ℕ
    listener = listener_ports cfg'

-- When a configuration with ports for its nodes is loaded without an error, each node has a port of
-- its own that is not 0, and in hybrid mode none has the port of the listener, whatever ports the
-- nodes had in the file and in the map of former ports.
pub normalize_with_port_map-Loaded :
    (env : Env) (net : NetEnv) (listen : String) (profiles : List Profile)
    (ports : List (String × ℕ)) (cfg : Config)
    → has_node_ports (with_defaults cfg) ≡ true
    → OnSome Loaded (normalize_with_port_map env net listen profiles ports cfg)
unfolding normalize_with_port_map
normalize_with_port_map-Loaded env net listen profiles ports cfg m =
    checked (assign_ports env profiles ports cfg) (assign_ports-Loaded env profiles ports cfg m)
  where
    checked :
        (o : Option Config)
        → OnSome Loaded o
        → OnSome Loaded (validate_chain_profile_loops net listen profiles o)
    checked none h = tt
    checked (some c) h = elim (Bool-cases (has_loop net (local_ports net listen c) profiles)) [
      | inl y ↦ rw y tt
      | inr n ↦ rw n h
    ]
