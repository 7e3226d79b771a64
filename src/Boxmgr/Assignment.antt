-- ===== src/Boxmgr/Assignment.antt =====
-- What the sequential assignment of ports gives.
use easy_proxies.Prelude.{
  ℕ, zero, suc, ◌+◌, ◌-◌, ◌≤◌, ◌<◌, Bool, false, not, ◌&&◌, ◌||◌, Option, none, some, List, [], ◌∷◌,
  All, length, take, if◌then◌else◌, ◌≡◌, refl, arith, ap, ◌∙◌, Bool-cases, Option-cases, inl, inr,
}
use easy_proxies.Config.Types.{NodeConfig, Config, Env}
use easy_proxies.Boxmgr.Ports.{
  port_end, base_port, address, is_listener, holds, used_ports, find_port, assign_loop,
  assign_sequential_ports, with_credentials, all_ports,
}

-- A port that a node may get: not that of the listener, and in use by a node or free.
abbrev pub is_usable : Env → Config → List ℕ → ℕ → Bool
is_usable env cfg mine port =
    not (is_listener cfg port) && (holds port mine || env.can_listen (address cfg) port)

-- The reference: the usable ports from a port on, in order.
unfoldable pub usable_ports : ℕ → ℕ → Env → Config → List ℕ → List ℕ
usable_ports zero port env cfg mine = []
usable_ports (suc rounds) port env cfg mine =
    let rest = usable_ports rounds (suc port) env cfg mine in
    if is_usable env cfg mine port then port ∷ rest else rest

abbrev pub Below : ℕ → List ℕ → Type 0
Below port ps = All (λ p. p < port) ps

Below-holds : (port : ℕ) (ps : List ℕ) → Below port ps → holds port ps ≡ false
Below-holds port [] h = refl
Below-holds port (p ∷ ps) h = ground (arith, Below-holds port ps h.1, h.0)

Below-mono : (a b : ℕ) (ps : List ℕ) → a ≤ b → Below a ps → Below b ps
Below-mono a b [] le h = tt
Below-mono a b (p ∷ ps) le h = (omega (arith, h.0), Below-mono a b ps le h.1)

-- What the inner loop finds: the first usable port.
abbrev pub Found : ℕ → ℕ → Env → Config → List ℕ → Option ℕ → Type 0
Found rounds port env cfg mine none = usable_ports rounds port env cfg mine ≡ []
Found rounds port env cfg mine (some p) =
    (port ≤ p)
    × (p < port + rounds)
    × (usable_ports rounds port env cfg mine
        ≡ p ∷ usable_ports (port + rounds - suc p) (suc p) env cfg mine)

Found-onward :
    (rounds port : ℕ) (env : Env) (cfg : Config) (mine : List ℕ) (o : Option ℕ)
    → is_usable env cfg mine port ≡ false
    → Found rounds (suc port) env cfg mine o
    → Found (suc rounds) port env cfg mine o
unfolding usable_ports
Found-onward rounds port env cfg mine none u h = rw u h
Found-onward rounds port env cfg mine (some p) u (le, lt, e) =
    let same : suc port + rounds ≡ port + suc rounds = omega arith in
    (
      omega arith,
      omega arith,
      rw u (e ∙ ap (λ k. p ∷ usable_ports (k - suc p) (suc p) env cfg mine) same),
    )

-- The tests of the loop are the one of the reference.
skips_port :
    (env : Env) (cfg : Config) (mine assigned : List ℕ) (port : ℕ)
    → Below port assigned
    → ((holds port assigned || is_listener cfg port)
        || (not (holds port mine) && not (env.can_listen (address cfg) port)))
      ≡ not (is_usable env cfg mine port)
skips_port env cfg mine assigned port h = rw (Below-holds port assigned h) (ground arith)

find_port-Found :
    (rounds port : ℕ) (env : Env) (cfg : Config) (mine assigned skipped : List ℕ)
    → Below port assigned
    → Found rounds port env cfg mine (find_port rounds port env cfg mine assigned skipped).0
unfolding find_port usable_ports
find_port-Found zero port env cfg mine assigned skipped h = refl
find_port-Found (suc rounds) port env cfg mine assigned skipped h =
    let tests = skips_port env cfg mine assigned port h in
    elim (Bool-cases (is_usable env cfg mine port)) [
      | inl y ↦
          let stops = tests ∙ ap not y in
          let count : port + suc rounds - suc port ≡ rounds = omega arith in
          rw (find_port, stops) (omega arith, omega arith, rw y (rw count refl))
      | inr n ↦
          let goes = tests ∙ ap not n in
          rw (find_port, goes)
            (Found-onward rounds port env cfg mine _ n (
              find_port-Found rounds (suc port) env cfg mine assigned _
                (Below-mono port (suc port) assigned (omega arith) h)))
    ]

-- The assignment against the usable ports from its first port on.
abbrev pub Assigns :
    Env → Config → List ℕ → ℕ → List NodeConfig → Option (List NodeConfig × List ℕ) → Type 0
Assigns env cfg mine port nodes none =
    length (usable_ports (port_end - port) port env cfg mine) < length nodes
Assigns env cfg mine port nodes (some (nodes', skipped)) =
    (all_ports nodes' ≡ take (length nodes) (usable_ports (port_end - port) port env cfg mine))
    × (length nodes ≤ length (usable_ports (port_end - port) port env cfg mine))

with_credentials-port :
    (cfg : Config) (node : NodeConfig) → (with_credentials cfg node).port ≡ node.port
with_credentials-port cfg node = ground arith

-- One node more, with the first usable port.
Assigns-none :
    (env : Env) (cfg : Config) (mine : List ℕ) (port p : ℕ) (node : NodeConfig)
    (nodes : List NodeConfig)
    → usable_ports (port_end - port) port env cfg mine
      ≡ p ∷ usable_ports (port_end - suc p) (suc p) env cfg mine
    → Assigns env cfg mine (suc p) nodes none
    → Assigns env cfg mine port (node ∷ nodes) none
Assigns-none env cfg mine port p node nodes e h = rw e (omega arith)

Assigns-some :
    (env : Env) (cfg : Config) (mine : List ℕ) (port p : ℕ) (node : NodeConfig)
    (nodes nodes' : List NodeConfig) (skipped : List ℕ)
    → usable_ports (port_end - port) port env cfg mine
      ≡ p ∷ usable_ports (port_end - suc p) (suc p) env cfg mine
    → Assigns env cfg mine (suc p) nodes (some (nodes', skipped))
    → Assigns env cfg mine port
        (node ∷ nodes)
        (some (with_credentials cfg (record node { port = p }) ∷ nodes', skipped))
Assigns-some env cfg mine port p node nodes nodes' skipped e (ports, le) =
    rw e (rw (with_credentials-port cfg (record node { port = p })) (ap (◌∷◌ p) ports), omega arith)

assign_loop-Assigns :
    (port : ℕ) (env : Env) (cfg : Config) (mine assigned skipped : List ℕ) (nodes : List NodeConfig)
    → port ≤ port_end
    → Below port assigned
    → Assigns env cfg mine port nodes (assign_loop port env cfg mine assigned skipped nodes)
unfolding assign_loop
assign_loop-Assigns port env cfg mine assigned skipped [] le h = (refl, omega arith)
assign_loop-Assigns port env cfg mine assigned skipped (node ∷ nodes) le h =
    let found = find_port-Found (port_end - port) port env cfg mine assigned skipped h in
    let skipped' = (find_port (port_end - port) port env cfg mine assigned skipped).1 in
    elim (Option-cases (find_port (port_end - port) port env cfg mine assigned skipped).0) [
      | inl e ↦ rw (assign_loop, e) (let none_left = rw e at found in rw none_left (omega arith))
      | inr (p, e) ↦
          let (ge, lt, first) = rw e at found in
          let whole : port + (port_end - port) ≡ port_end = omega arith in
          let first' = first ∙ ap (λ k. p ∷ usable_ports (k - suc p) (suc p) env cfg mine) whole in
          let rest =
            assign_loop-Assigns (suc p) env cfg mine (p ∷ assigned) skipped' nodes (omega arith)
              (omega arith, Below-mono port (suc p) assigned (omega arith) h) in
          elim (Option-cases (assign_loop (suc p) env cfg mine (p ∷ assigned) skipped' nodes)) [
            | inl e' ↦
                rw (assign_loop, e)
                  (rw e' (Assigns-none env cfg mine port p node nodes first' (rw e' at rest)))
            | inr ((nodes', s), e') ↦
                rw (assign_loop, e)
                  (rw e'
                    (Assigns-some env cfg mine port p node nodes nodes' s first' (rw e' at rest)))
          ]
    ]

-- The sequential assignment gives the nodes, in their order, the first of the usable ports from
-- the base port up to 65535, and fails exactly when there are fewer of them than nodes. A port is
-- usable if it is not the listener's in hybrid mode, and some node has it already or the system
-- lets it be bound. (The base port is a 16-bit number.)
pub assign_sequential_ports-Assigns :
    (env : Env) (cfg : Config)
    → base_port cfg ≤ port_end
    → Assigns env cfg
        (used_ports cfg.nodes)
        (base_port cfg)
        cfg.nodes
        (assign_sequential_ports env cfg)
unfolding assign_sequential_ports
assign_sequential_ports-Assigns env cfg le =
    assign_loop-Assigns (base_port cfg) env cfg (used_ports cfg.nodes) [] [] cfg.nodes le tt
