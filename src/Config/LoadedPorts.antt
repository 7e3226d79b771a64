-- ===== src/Config/LoadedPorts.antt =====
-- The ports of the nodes of a loaded configuration.
use easy_proxies.Prelude.{
  ℕ, suc, true, false, not, ◌&&◌, Option, none, some, List, [], ◌∷◌, String, holds, if◌then◌else◌,
  ◌==◌, ltb, ◌≡◌, arith, Option-cases, Bool-cases, inl, inr,
}
use easy_proxies.Proxychain.Profiles.{Profile}
use easy_proxies.Config.Types.{NodeConfig, Config, Env, has_node_ports}
use easy_proxies.Config.Loading.{first_pass, kept_port, with_used, loaded_node}

-- The ports of nodes, with and without 0.
abbrev pub ports_of : List NodeConfig → List ℕ
ports_of [] = []
ports_of (n ∷ ns) = n.port ∷ ports_of ns

abbrev pub given_ports : List NodeConfig → List ℕ
given_ports [] = []
given_ports (n ∷ ns) = if n.port == 0 then given_ports ns else n.port ∷ given_ports ns

-- No port but 0 occurs twice.
abbrev pub Sparse : List NodeConfig → Type 0
Sparse [] = Unit
Sparse (n ∷ ns) = ((not (n.port == 0) && holds n.port (given_ports ns)) ≡ false) × Sparse ns

-- No port is 0 or occurs twice.
abbrev pub Settled : List NodeConfig → Type 0
Settled [] = Unit
Settled (n ∷ ns) = ((n.port == 0) ≡ false) × (holds n.port (ports_of ns) ≡ false) × Settled ns

-- What the first pass gives: ports that were not in use and now are.
pub record Passed (used : List ℕ) (r : List NodeConfig × List ℕ) : Type 0 where
  pub sparse : Sparse r.0
  pub grows : (q : ℕ) → holds q used ≡ true → holds q r.1 ≡ true
  pub within : (q : ℕ) → holds q (given_ports r.0) ≡ true → holds q r.1 ≡ true
  pub apart : (q : ℕ) → holds q (given_ports r.0) ≡ true → holds q used ≡ false

abbrev pub OnSome {ℓ} : {A : Type ℓ} → (A → Type 0) → Option A → Type 0
OnSome P none = Unit
OnSome P (some a) = P a

kept_port-free :
    (env : Env) (cfg : Config) (ports : List (String × ℕ)) (used : List ℕ) (n : NodeConfig)
    → has_node_ports cfg ≡ true
    → (ltb 0 (kept_port env cfg ports used n) && holds (kept_port env cfg ports used n) used)
      ≡ false
kept_port-free env cfg ports used n m = rw m (ground arith)

Passed-node :
    (cfg : Config) (port : ℕ) (used : List ℕ) (n : NodeConfig) (r : List NodeConfig × List ℕ)
    → has_node_ports cfg ≡ true
    → (ltb 0 port && holds port used) ≡ false
    → Passed (with_used cfg port used) r
    → Passed used (record n { port = port } ∷ r.0, r.1)
Passed-node cfg port used n r m f h = elim (Bool-cases (ltb 0 port)) [
  | inl y ↦ record {
    sparse = (ground (arith, h.apart port, y, m), h.sparse);
    grows = λ q e. h.grows q (ground (arith, e, y, m));
    within = λ q e. ground (arith, h.within q, h.grows q, e, y, m);
    apart = λ q e. ground (arith, h.apart q, e, y, m, f);
  }
  | inr k ↦ record {
    sparse = (ground (arith, k), h.sparse);
    grows = λ q e. h.grows q (ground (arith, e, k, m));
    within = λ q e. h.within q (ground (arith, e, k));
    apart = λ q e. ground (arith, h.apart q, e, k, m);
  }
]

pub first_pass-Passed :
    (env : Env) (cfg : Config) (profiles : List Profile) (ports : List (String × ℕ)) (index : ℕ)
    (used : List ℕ) (nodes : List NodeConfig)
    → has_node_ports cfg ≡ true
    → OnSome (Passed used) (first_pass env cfg profiles ports index used nodes)
unfolding first_pass
first_pass-Passed env cfg profiles ports index used [] m = record {
  sparse = tt;
  grows = λ q e. e;
  within = λ q e. absurd (cc);
  apart = λ q e. absurd (cc);
}
first_pass-Passed env cfg profiles ports index used (node ∷ nodes) m =
    elim (Option-cases (loaded_node env profiles index node)) [
      | inl e ↦ rw (first_pass, e) tt
      | inr (n, e) ↦
          let port = kept_port env cfg ports used n in
          let used' = with_used cfg port used in
          let rest = first_pass-Passed env cfg profiles ports (suc index) used' nodes m in
          elim (Option-cases (first_pass env cfg profiles ports (suc index) used' nodes)) [
            | inl e' ↦ rw (first_pass, e) (rw e' tt)
            | inr (r, e') ↦
                rw (first_pass, e)
                  (rw e' (
                    Passed-node cfg port used n r m (kept_port-free env cfg ports used n m)
                      (rw e' at rest)))
          ]
    ]
