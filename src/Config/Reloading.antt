-- ===== src/Config/Reloading.antt =====
-- A configuration that is read again with the map of its former ports.
use easy_proxies.Prelude.{
  ℕ, suc, Bool, true, false, not, ◌&&◌, ◌||◌, Option, none, some, List, [], ◌∷◌, String, str_eq,
  eq_iff, All, lookup, put, lookup-put, holds, map, if◌then◌else◌, ◌==◌, ltb, ◌≡◌, refl, arith, ap,
  sym, ◌∙◌, Bool-cases, inl, inr,
}
use mathlib.Core.Path.{subst}
use mathlib.Core.Option as Option
use easy_proxies.Proxychain.Profiles.{Profile}
use easy_proxies.Config.Types.{NodeConfig, Config, Env, node_key, has_node_ports}
use easy_proxies.Config.Loading.{
  build_from, build_port_map, first_pass, second_pass, loaded_node, kept_port, with_used,
  is_supported, default_user, listener_ports, after_first_pass, assign_ports, with_defaults,
}
use easy_proxies.Config.AssignedPorts.{default_user-port}
use easy_proxies.Config.LoadedPorts.{ports_of, Settled}

abbrev is_key : String → List NodeConfig → Bool
is_key key [] = false
is_key key (n ∷ ns) = str_eq (node_key n) key || is_key key ns

-- Nodes with keys of their own.
abbrev pub Keyed : List NodeConfig → Type 0
Keyed [] = Unit
Keyed (n ∷ ns) = (is_key (node_key n) ns ≡ false) × Keyed ns

-- The ports that a map has for nodes.
abbrev Mapped : List (String × ℕ) → List NodeConfig → Type 0
Mapped ports ns = All (λ n. lookup (node_key n) ports ≡ some n.port) ns

lookup-build_from :
    (key : String) (ports : List (String × ℕ)) (ns : List NodeConfig)
    → is_key key ns ≡ false
    → lookup key (build_from ports ns) ≡ lookup key ports
unfolding build_from
lookup-build_from key ports [] h = refl
lookup-build_from key ports (n ∷ ns) h = elim (Bool-cases (ltb 0 n.port)) [
  | inl y ↦ rw y (
      lookup-build_from key (put ports (node_key n) n.port) ns (ground (arith, h))
      ∙ ground (arith, lookup-put ports (node_key n) key n.port, h))
  | inr k ↦ rw k (lookup-build_from key ports ns (ground (arith, h)))
]

build_from-Mapped :
    (ports : List (String × ℕ)) (ns : List NodeConfig)
    → Keyed ns
    → Settled ns
    → Mapped (build_from ports ns) ns
unfolding build_from
build_from-Mapped ports [] k s = tt
build_from-Mapped ports (n ∷ ns) k s =
    let given : ltb 0 n.port ≡ true = ground (arith, s.0) in
    let own : lookup (node_key n) (put ports (node_key n) n.port) ≡ some n.port = ground (
      arith,
      lookup-put ports (node_key n) (node_key n) n.port,
      eq_iff (node_key n) (node_key n),
    ) in
    let m = put ports (node_key n) n.port in
    let step : build_from ports (n ∷ ns) ≡ build_from m ns =
      ap (λ b. build_from (if b then m else ports) ns) given in
    subst (λ x. Mapped x (n ∷ ns)) (sym step)
      (lookup-build_from (node_key n) m ns k.0 ∙ own, build_from-Mapped m ns k.1 s.2)

-- The node as a source of nodes gives it, without a port.
abbrev pub unported : NodeConfig → NodeConfig
unported n = record n { port = 0 }

-- Nodes in normal form, whose ports the system has free.
abbrev pub Reloadable : Env → Config → List Profile → List NodeConfig → Type 0
Reloadable env cfg profiles ns =
    All
      (λ n.
        ((i : ℕ) → loaded_node env profiles i (unported n) ≡ some (unported n))
        × (env.can_listen cfg.multi_port.address n.port ≡ true))
      ns

-- Ports of nodes that are not in use.
abbrev pub Unused : List ℕ → List NodeConfig → Type 0
Unused used ns = All (λ n. holds n.port used ≡ false) ns

Unused-cons :
    (p : ℕ) (used : List ℕ) (ns : List NodeConfig)
    → holds p (ports_of ns) ≡ false
    → Unused used ns
    → Unused (p ∷ used) ns
Unused-cons p used [] h u = tt
Unused-cons p used (n ∷ ns) h u =
    (ground (arith, h, u.0), Unused-cons p used ns (ground (arith, h)) u.1)

kept_port-reloaded :
    (env : Env) (cfg : Config) (ports : List (String × ℕ)) (used : List ℕ) (n : NodeConfig)
    → has_node_ports cfg ≡ true
    → (str_eq cfg.mode "hybrid" && not (holds cfg.listener_port used)) ≡ false
    → lookup (node_key n) ports ≡ some n.port
    → (n.port == 0) ≡ false
    → holds n.port used ≡ false
    → env.can_listen cfg.multi_port.address n.port ≡ true
    → kept_port env cfg ports used (unported n) ≡ n.port
kept_port-reloaded env cfg ports used n m l e z u c = rw m (rw e (ground (arith, l, z, u, c)))

abbrev Reloads : List NodeConfig → Option (List NodeConfig × List ℕ) → Type 0
Reloads ns o = Option.map (λ r. r.0) o ≡ some ns

Reloads-node :
    (n : NodeConfig) (p : ℕ) (ns : List NodeConfig) (o : Option (List NodeConfig × List ℕ))
    → p ≡ n.port
    → Reloads ns o
    → Reloads (n ∷ ns) (elim o [
      | none ↦ none
      | some (ms, used) ↦ some (record (unported n) { port = p } ∷ ms, used)
    ])
Reloads-node n p ns none e h = absurd (cc)
Reloads-node n p ns (some (ms, used)) e h =
    let same : ms ≡ ns = cc in
    ap (λ x. some (record (unported n) { port = x } ∷ ms)) e ∙ ap (λ x. some (n ∷ x)) same

first_pass-Reloads :
    (env : Env) (cfg : Config) (profiles : List Profile) (ports : List (String × ℕ)) (index : ℕ)
    (used : List ℕ) (ns : List NodeConfig)
    → has_node_ports cfg ≡ true
    → (str_eq cfg.mode "hybrid" && not (holds cfg.listener_port used)) ≡ false
    → Mapped ports ns
    → Settled ns
    → Unused used ns
    → Reloadable env cfg profiles ns
    → Reloads ns (first_pass env cfg profiles ports index used (map unported ns))
unfolding first_pass
first_pass-Reloads env cfg profiles ports index used [] m l k s u r = refl
first_pass-Reloads env cfg profiles ports index used (n ∷ ns) m l k s u r =
    let kept = kept_port-reloaded env cfg ports used n m l k.0 s.0 u.0 r.0.1 in
    let p = kept_port env cfg ports used (unported n) in
    let used' = with_used cfg p used in
    let own : with_used cfg n.port used ≡ n.port ∷ used = ground (arith, m, s.0) in
    let grown : used' ≡ n.port ∷ used = ap (λ x. with_used cfg x used) kept ∙ own in
    let known : (str_eq cfg.mode "hybrid" && not (holds cfg.listener_port (n.port ∷ used)))
        ≡ false =
      ground (arith, l) in
    let rest =
      first_pass-Reloads env cfg profiles ports (suc index) used' ns m
        (subst (λ x. (str_eq cfg.mode "hybrid" && not (holds cfg.listener_port x)) ≡ false)
          (sym grown) known)
        k.1 s.2 (subst (λ x. Unused x ns) (sym grown) (Unused-cons n.port used ns s.1 u.1)) r.1 in
    rw (first_pass, r.0.0 index)
      (Reloads-node n p ns (first_pass env cfg profiles ports (suc index) used' (map unported ns))
        kept rest)

-- Nodes that have a port keep it.
second_pass-kept :
    (env : Env) (cfg : Config) (cursor : ℕ) (used : List ℕ) (ns : List NodeConfig)
    → Settled ns
    → Option.map ports_of (second_pass env cfg cursor used ns) ≡ some (ports_of ns)
unfolding second_pass
second_pass-kept env cfg cursor used [] s = refl
second_pass-kept env cfg cursor used (n ∷ ns) s =
    let rest = second_pass-kept env cfg cursor used ns s.2 in
    rw (second_pass, s.0) (after (second_pass env cfg cursor used ns) rest)
  where
    after :
        (o : Option (List NodeConfig))
        → Option.map ports_of o ≡ some (ports_of ns)
        → Option.map ports_of (elim o [ none ↦ none | some ns' ↦ some (default_user cfg n ∷ ns') ])
          ≡ some (n.port ∷ ports_of ns)
    after none e = absurd (cc)
    after (some ns') e =
        let same : ports_of ns' ≡ ports_of ns = cc in
        rw same (ap (λ p. some (p ∷ ports_of ns)) (default_user-port cfg n))

after_first_pass-kept :
    (env : Env) (cfg : Config) (ns : List NodeConfig) (o : Option (List NodeConfig × List ℕ))
    → Settled ns
    → Reloads ns o
    → Option.map (λ c. ports_of c.nodes) (after_first_pass env cfg o) ≡ some (ports_of ns)
unfolding after_first_pass
after_first_pass-kept env cfg ns none s e = absurd (cc)
after_first_pass-kept env cfg ns (some (ms, used)) s e =
    let same : ns ≡ ms = cc in
    kept (second_pass env cfg cfg.multi_port.base_port used ms) (
      subst
        (λ x.
          Option.map ports_of (second_pass env cfg cfg.multi_port.base_port used x)
          ≡ some (ports_of ns))
        same (second_pass-kept env cfg cfg.multi_port.base_port used ns s))
  where
    kept :
        (o : Option (List NodeConfig))
        → Option.map ports_of o ≡ some (ports_of ns)
        → Option.map
            (λ c. ports_of c.nodes)
            (elim o [ none ↦ none | some ns' ↦ some (record cfg { nodes = ns' }) ])
          ≡ some (ports_of ns)
    kept none e = absurd (cc)
    kept (some ns') e = e

pub assign_ports-kept :
    (env : Env) (profiles : List Profile) (cfg : Config)
    → has_node_ports (with_defaults cfg) ≡ true
    → Keyed cfg.nodes
    → Settled cfg.nodes
    → Unused (listener_ports (with_defaults cfg)) cfg.nodes
    → Reloadable env (with_defaults cfg) profiles cfg.nodes
    → Option.map
        (λ c. ports_of c.nodes)
        (assign_ports env profiles
          (build_port_map cfg)
          (record cfg { nodes = map unported cfg.nodes }))
      ≡ some (ports_of cfg.nodes)
unfolding assign_ports build_port_map
assign_ports-kept env profiles cfg m k s u r =
    let cfg' = with_defaults cfg in
    let ports = build_from [] cfg.nodes in
    let passed =
      first_pass-Reloads env (record cfg' { nodes = map unported cfg.nodes }) profiles ports 0
        (listener_ports cfg') cfg.nodes m (ground arith) (build_from-Mapped [] cfg.nodes k s) s u
        r in
    let supported : is_supported cfg'.mode ≡ true = ground (arith, m) in
    rw (assign_ports, supported)
      (after_first_pass-kept env (record cfg' { nodes = map unported cfg.nodes }) cfg.nodes _ s
        passed)
