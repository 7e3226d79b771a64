-- ===== src/Boxmgr/Preparing.antt =====
-- What a node that has been prepared fits in with.
use Prim.Native.String.{◌++◌ as append}
use text.Mathlib.TextLemmas.{append-eq-nil_iff, cons≢nil}
use easy_proxies.Prelude.{
  ℕ, zero, suc, ◌+◌, true, false, not, ◌||◌, List, [], ◌∷◌, ◌++◌, String, str_eq, trim, length,
  if◌then◌else◌, ◌==◌, ◌≡◌, refl, arith, eq_iff, Bool-cases, inl, inr,
}
use easy_proxies.Config.Types.{NodeConfig, Config, Env, has_node_ports, extract_node_name}
use easy_proxies.Boxmgr.Ports.{holds, next_port, next_available_port, used_ports, with_credentials}
use easy_proxies.Boxmgr.Result.{Result, ok, err, no_free_port, port_in_use, OnOk, OnOk-if}
use easy_proxies.Boxmgr.Nodes.{
  port_in_use_by_other, prepared_port, prepare_node, prepared_name, fallback_name, is_name_taken,
  with_port,
}
use easy_proxies.Boxmgr.Naming.{port_in_use_by_other-unused}

next_port-unused :
    (rounds port : ℕ) (env : Env) (cfg : Config) (used skipped : List ℕ)
    → let p = (next_port rounds port env cfg used skipped).0 in
      ((p == 0) || not (holds p used)) ≡ true
unfolding next_port
next_port-unused zero port env cfg used skipped = refl
next_port-unused (suc rounds) port env cfg used skipped = ground (
  arith,
  next_port-unused rounds (suc port) env cfg used skipped,
  next_port-unused rounds (suc port) env cfg used (skipped ++ (port ∷ [])),
)

-- A port that no other node has.
abbrev pub IsFree : Config → String → ℕ → Type 0
IsFree cfg current p = ((p == 0) ≡ false) × (port_in_use_by_other p current cfg.nodes ≡ false)

next_available_port-unused :
    (env : Env) (cfg : Config)
    → let p = (next_available_port env cfg).0 in
      ((p == 0) || not (holds p (used_ports cfg.nodes))) ≡ true
unfolding next_available_port
next_available_port-unused env cfg = next_port-unused _ _ env cfg (used_ports cfg.nodes) []

pub prepared_port-IsFree :
    (env : Env) (cfg : Config) (current : String) (port : ℕ)
    → OnOk (IsFree cfg current) (prepared_port env cfg current port)
unfolding prepared_port
prepared_port-IsFree env cfg current port =
    OnOk-if (IsFree cfg current) (port == 0) _ _
      (λ y.
        OnOk-if (IsFree cfg current) (p == 0) (err no_free_port) (ok p) (λ z. tt)
          (λ n. (
            n,
            port_in_use_by_other-unused p current cfg.nodes n
                (ground (arith, next_available_port-unused env cfg, n)),
          )))
      (λ k.
        OnOk-if (IsFree cfg current) (port_in_use_by_other port current cfg.nodes) _ _ (λ y. tt)
          (λ n. OnOk-if (IsFree cfg current) _ (err port_in_use) (ok port) (λ y. tt) (λ l. (k, n))))
  where
    p : ℕ
    p = (next_available_port env cfg).0

filled : (a b : String) → str_eq b "" ≡ false → str_eq (if str_eq a "" then b else a) "" ≡ false
filled a b h = elim (Bool-cases (str_eq a "")) [ inl y ↦ rw y h | inr n ↦ rw n n ]

numbered_filled : (d : String) → str_eq (append "node-" d) "" ≡ false
numbered_filled d = elim (Bool-cases (str_eq (append "node-" d) "")) [
  | inl y ↦
      let empty = append-eq-nil_iff {p = "node-"} {q = d} in
      absurd (cons≢nil (empty.0 ((eq_iff (append "node-" d) "").0 y)).0)
  | inr n ↦ n
]

prepared_name_filled :
    (env : Env) (cfg : Config) (current : String) (node : NodeConfig)
    → str_eq (prepared_name env cfg current node) "" ≡ false
prepared_name_filled env cfg current node =
    let name = if str_eq current "" then extract_node_name env (trim node.uri) else current in
    filled (trim node.name) (fallback_name env cfg current (trim node.uri))
      (filled name (append "node-" (env.decimal (length cfg.nodes + 1))) (numbered_filled _))

-- A name of its own, and where nodes have ports a port of its own.
abbrev pub Fits : Config → String → NodeConfig → Type 0
Fits cfg current n =
    (str_eq n.name "" ≡ false)
    × (is_name_taken cfg current n.name ≡ false)
    × (has_node_ports cfg ≡ true → IsFree cfg current n.port)

with_credentials-Fits :
    (cfg : Config) (current : String) (n : NodeConfig)
    → Fits cfg current n
    → Fits cfg current (with_credentials cfg n)
with_credentials-Fits cfg current n h = elim (Bool-cases (str_eq n.username "")) [
  | inl y ↦ rw y h
  | inr k ↦ rw k h
]

with_port-Fits :
    (cfg : Config) (current : String) (n : NodeConfig) (r : Result ℕ)
    → str_eq n.name "" ≡ false
    → is_name_taken cfg current n.name ≡ false
    → OnOk (IsFree cfg current) r
    → OnOk (Fits cfg current) (with_port cfg n r)
with_port-Fits cfg current n (err x) e t h = tt
with_port-Fits cfg current n (ok p) e t h =
    with_credentials-Fits cfg current (record n { port = p }) (e, t, λ y. h)

pub prepare_node-Fits :
    (env : Env) (cfg : Config) (current : String) (node : NodeConfig)
    → OnOk (Fits cfg current) (prepare_node env cfg current node)
unfolding prepare_node
prepare_node-Fits env cfg current node =
    let e = prepared_name_filled env cfg current node in
    let node' = record node { name = prepared_name env cfg current node; uri = trim node.uri } in
    OnOk-if (Fits cfg current) (str_eq (trim node.uri) "") _ _ (λ y. tt)
      (λ k.
        OnOk-if (Fits cfg current) (is_name_taken cfg current (prepared_name env cfg current node))
          _ _ (λ y. tt)
          (λ t.
            OnOk-if (Fits cfg current) (has_node_ports cfg) _ _
              (λ y.
                with_port-Fits cfg current node' _ e t
                  (prepared_port-IsFree env cfg current node.port))
              (λ m. (e, t, λ y. absurd (cc)))))
