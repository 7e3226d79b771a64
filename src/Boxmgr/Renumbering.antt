-- ===== src/Boxmgr/Renumbering.antt =====
-- The sequential assignment keeps the names, and gives each node a port of its own.
use easy_proxies.Prelude.{
  ℕ, zero, suc, ◌-◌, ◌≤◌, false, Option, none, some, List, [], ◌∷◌, String, str_eq, take, length,
  ◌≡◌, refl, arith, ap, sym, ◌∙◌, Bool-cases, Option-cases, inl, inr,
}
use easy_proxies.Importer.Sources.{contains}
use easy_proxies.Config.Types.{NodeConfig, Config, Env}
use easy_proxies.Boxmgr.Ports.{
  port_end, base_port, holds, all_ports, used_ports, find_port, assign_loop,
  assign_sequential_ports, with_credentials,
}
use easy_proxies.Boxmgr.Assignment.{
  is_usable, usable_ports, Assigns, assign_sequential_ports-Assigns,
}
use easy_proxies.Boxmgr.Nodes.{node_named}
use easy_proxies.Boxmgr.Naming.{Named, Ported, is_named}

-- Ports in ascending order from some port on.
abbrev Ascends : ℕ → List ℕ → Type 0
Ascends low [] = Unit
Ascends low (p ∷ ps) = (low ≤ p) × Ascends (suc p) ps

Ascends-mono : (a b : ℕ) (ps : List ℕ) → a ≤ b → Ascends b ps → Ascends a ps
Ascends-mono a b [] le h = tt
Ascends-mono a b (p ∷ ps) le h = (omega (arith, h.0), h.1)

usable_ports-Ascends :
    (rounds port : ℕ) (env : Env) (cfg : Config) (mine : List ℕ)
    → Ascends port (usable_ports rounds port env cfg mine)
unfolding usable_ports
usable_ports-Ascends zero port env cfg mine = tt
usable_ports-Ascends (suc rounds) port env cfg mine =
    let rest = usable_ports-Ascends rounds (suc port) env cfg mine in
    elim (Bool-cases (is_usable env cfg mine port)) [
      | inl y ↦ rw y (omega arith, rest)
      | inr n ↦ rw n (Ascends-mono port (suc port) _ (omega arith) rest)
    ]

take-Ascends : (n low : ℕ) (ps : List ℕ) → Ascends low ps → Ascends low (take n ps)
take-Ascends zero low ps h = tt
take-Ascends (suc n) low [] h = tt
take-Ascends (suc n) low (p ∷ ps) h = (h.0, take-Ascends n (suc p) ps h.1)

Ascends-holds : (p low : ℕ) (ps : List ℕ) → suc p ≤ low → Ascends low ps → holds p ps ≡ false
Ascends-holds p low [] le h = refl
Ascends-holds p low (q ∷ qs) le h =
    ground (arith, Ascends-holds p (suc q) qs (omega (arith, h.0)) h.1, h.0)

Ascends-Ported : (low : ℕ) (ns : List NodeConfig) → 1 ≤ low → Ascends low (all_ports ns) → Ported ns
Ascends-Ported low [] le h = tt
Ascends-Ported low (n ∷ ns) le h = (
  ground (arith, h.0),
  Ascends-holds n.port (suc n.port) (all_ports ns) (omega arith) h.1,
  Ascends-Ported (suc n.port) ns (omega arith) h.1,
)

abbrev pub names_of : List NodeConfig → List String
names_of [] = []
names_of (n ∷ ns) = n.name ∷ names_of ns

abbrev Names : List String → Type 0
Names [] = Unit
Names (x ∷ xs) = (str_eq x "" ≡ false) × (contains x xs ≡ false) × Names xs

is_named-contains :
    (name : String) (ns : List NodeConfig) → is_named name ns ≡ contains name (names_of ns)
unfolding node_named contains
is_named-contains name [] = refl
is_named-contains name (n ∷ ns) = ground (arith, is_named-contains name ns)

Named-Names : (ns : List NodeConfig) → Named ns → Names (names_of ns)
Named-Names [] h = tt
Named-Names (n ∷ ns) h = (h.0, sym (is_named-contains n.name ns) ∙ h.1, Named-Names ns h.2)

Names-Named : (ns : List NodeConfig) → Names (names_of ns) → Named ns
Names-Named [] h = tt
Names-Named (n ∷ ns) h = (h.0, is_named-contains n.name ns ∙ h.1, Names-Named ns h.2)

-- What holds of an assignment.
abbrev pub OnSome : (List NodeConfig → Type 0) → Option (List NodeConfig × List ℕ) → Type 0
OnSome P none = Unit
OnSome P (some (nodes, skipped)) = P nodes

with_credentials-name :
    (cfg : Config) (node : NodeConfig) → (with_credentials cfg node).name ≡ node.name
with_credentials-name cfg node = ground arith

assign_loop-names :
    (port : ℕ) (env : Env) (cfg : Config) (mine assigned skipped : List ℕ) (nodes : List NodeConfig)
    → OnSome
        (λ ns. names_of ns ≡ names_of nodes)
        (assign_loop port env cfg mine assigned skipped nodes)
unfolding assign_loop
assign_loop-names port env cfg mine assigned skipped [] = refl
assign_loop-names port env cfg mine assigned skipped (node ∷ nodes) =
    let r = find_port (port_end - port) port env cfg mine assigned skipped in
    elim (Option-cases r.0) [
      | inl e ↦ rw (assign_loop, e) tt
      | inr (p, e) ↦
          let rest = assign_loop-names (suc p) env cfg mine (p ∷ assigned) r.1 nodes in
          elim (Option-cases (assign_loop (suc p) env cfg mine (p ∷ assigned) r.1 nodes)) [
            | inl e' ↦ rw (assign_loop, e) (rw e' tt)
            | inr ((ns, s), e') ↦ rw (assign_loop, e) (rw e' (renamed p ns (rw e' at rest)))
          ]
    ]
  where
    renamed :
        (p : ℕ) (ns : List NodeConfig)
        → names_of ns ≡ names_of nodes
        → names_of (with_credentials cfg (record node { port = p }) ∷ ns) ≡ names_of (node ∷ nodes)
    renamed p ns same =
        rw (with_credentials-name cfg (record node { port = p })) (ap (◌∷◌ node.name) same)

Assigns-Ported :
    (env : Env) (cfg : Config) (mine : List ℕ) (port : ℕ) (nodes : List NodeConfig)
    (o : Option (List NodeConfig × List ℕ))
    → 1 ≤ port
    → Assigns env cfg mine port nodes o
    → OnSome Ported o
Assigns-Ported env cfg mine port nodes none le h = tt
Assigns-Ported env cfg mine port nodes (some (ns, s)) le h = Ascends-Ported port ns le (
    rw h.0 (
      take-Ascends (length nodes) port _
        (usable_ports-Ascends (port_end - port) port env cfg mine)))

pub assign_sequential_ports-Ported :
    (env : Env) (cfg : Config)
    → base_port cfg ≤ port_end
    → OnSome Ported (assign_sequential_ports env cfg)
assign_sequential_ports-Ported env cfg le =
    Assigns-Ported env cfg (used_ports cfg.nodes) (base_port cfg) cfg.nodes
      (assign_sequential_ports env cfg) (ground arith) (assign_sequential_ports-Assigns env cfg le)

pub assign_sequential_ports-Named :
    (env : Env) (cfg : Config) → Named cfg.nodes → OnSome Named (assign_sequential_ports env cfg)
unfolding assign_sequential_ports
assign_sequential_ports-Named env cfg h =
    renamed (assign_sequential_ports env cfg)
      (assign_loop-names (base_port cfg) env cfg (used_ports cfg.nodes) [] [] cfg.nodes)
  where
    renamed :
        (o : Option (List NodeConfig × List ℕ))
        → OnSome (λ ns. names_of ns ≡ names_of cfg.nodes) o
        → OnSome Named o
    renamed none e = tt
    renamed (some (ns, s)) e = Names-Named ns (rw e (Named-Names cfg.nodes h))
