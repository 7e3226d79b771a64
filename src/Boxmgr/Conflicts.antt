-- ===== src/Boxmgr/Conflicts.antt =====
-- What the reassignment of a conflicting port keeps.
use easy_proxies.Prelude.{
  ℕ, zero, suc, ◌-◌, ◌≤◌, Bool, true, false, not, ◌||◌, Option, none, some, List, [], ◌∷◌, ◌++◌,
  str_eq, if◌then◌else◌, ◌==◌, ◌≡◌, refl, arith, Bool-cases, inl, inr,
}
use easy_proxies.Config.Types.{NodeConfig, Config, Env}
use easy_proxies.Boxmgr.Ports.{
  port_end, address, holds, all_ports, next_candidate, replace_port, reassign_conflicting_port,
}
use easy_proxies.Boxmgr.Naming.{Ported}

abbrev IsCandidate : ℕ → List ℕ → Option ℕ → Type 0
IsCandidate low used none = Unit
IsCandidate low used (some p) = (low ≤ p) × (holds p used ≡ false)

IsCandidate-mono :
    (low : ℕ) (used : List ℕ) (o : Option ℕ) → IsCandidate (suc low) used o → IsCandidate low used o
IsCandidate-mono low used none h = tt
IsCandidate-mono low used (some p) h = (omega (arith, h.0), h.1)

next_candidate-IsCandidate :
    (rounds port : ℕ) (env : Env) (cfg : Config) (used : List ℕ)
    → IsCandidate port used (next_candidate rounds port env cfg used)
unfolding next_candidate
next_candidate-IsCandidate zero port env cfg used = tt
next_candidate-IsCandidate (suc rounds) port env cfg used =
    elim (Bool-cases (holds port used || not (env.can_listen (address cfg) port))) [
      | inl y ↦
          rw y (
            IsCandidate-mono port used _
              (next_candidate-IsCandidate rounds (suc port) env cfg used))
      | inr n ↦ rw n (omega arith, ground (arith, n))
    ]

holds-append_lists : (q : ℕ) (ps qs : List ℕ) → holds q (ps ++ qs) ≡ (holds q ps || holds q qs)
holds-append_lists q [] qs = refl
holds-append_lists q (p ∷ ps) qs = ground (arith, holds-append_lists q ps qs)

-- The ports after a replacement: the new one, and those that were there.
replace_port-holds :
    (conflict p q : ℕ) (ns : List NodeConfig)
    → (q == p) ≡ false
    → holds q (all_ports ns) ≡ false
    → holds q (all_ports (replace_port conflict (some p) ns).0) ≡ false
replace_port-holds conflict p q [] e h = refl
replace_port-holds conflict p q (n ∷ ns) e h =
    ground (arith, replace_port-holds conflict p q ns e, h, e)

replace_port-Ported :
    (conflict p : ℕ) (ns : List NodeConfig)
    → (p == 0) ≡ false
    → holds p (all_ports ns) ≡ false
    → Ported ns
    → Ported (replace_port conflict (some p) ns).0
replace_port-Ported conflict p [] z h k = tt
replace_port-Ported conflict p (n ∷ ns) z h k = elim (Bool-cases (n.port == conflict)) [
  | inl y ↦ rw y (z, ground (arith, h), k.2)
  | inr x ↦ rw x (
    k.0,
    replace_port-holds conflict p n.port ns (ground (arith, h)) k.1,
    replace_port-Ported conflict p ns z (ground (arith, h)) k.2,
  )
]

-- With the ports apart, no node is left with the conflicting one.
replace_port-gone :
    (conflict p : ℕ) (ns : List NodeConfig)
    → (p == conflict) ≡ false
    → Ported ns
    → holds conflict (all_ports (replace_port conflict (some p) ns).0) ≡ false
replace_port-gone conflict p [] e k = refl
replace_port-gone conflict p (n ∷ ns) e k =
    ground (arith, replace_port-gone conflict p ns e k.2, e, k.1)

-- A replacement without a new port changes nothing and fails.
replace_port-none :
    (conflict : ℕ) (ns : List NodeConfig) → replace_port conflict none ns ≡ (ns, false)
replace_port-none conflict [] = refl
replace_port-none conflict (n ∷ ns) = ground (arith, replace_port-none conflict ns)

abbrev Reassigned : ℕ → List NodeConfig × Bool → Type 0
Reassigned conflict (ns, ok) = Ported ns × (ok ≡ true → holds conflict (all_ports ns) ≡ false)

replace_port-Reassigned :
    (conflict : ℕ) (listener : List ℕ) (ns : List NodeConfig) (o : Option ℕ)
    → IsCandidate (suc conflict) (listener ++ all_ports ns) o
    → Ported ns
    → Reassigned conflict (replace_port conflict o ns)
replace_port-Reassigned conflict listener ns none c k =
    rw (replace_port-none conflict ns) (k, λ y. absurd (cc))
replace_port-Reassigned conflict listener ns (some p) (le, free) k = (
  replace_port-Ported conflict p ns (ground (arith, le))
      (ground (arith, free, holds-append_lists p listener (all_ports ns))) k,
  λ y. replace_port-gone conflict p ns (ground (arith, le)) k,
)

-- If each node has a port of its own, not 0, then so it is after the reassignment of a port that
-- could not be bound, whether it succeeds or not, and after a success no node has that port.
pub reassign_conflicting_port_lem :
    (env : Env) (cfg : Config) (conflict : ℕ)
    → Ported cfg.nodes
    → let r = reassign_conflicting_port env cfg conflict in
      Ported r.0.nodes × (r.1 ≡ true → holds conflict (all_ports r.0.nodes) ≡ false)
unfolding reassign_conflicting_port
reassign_conflicting_port_lem env cfg conflict k = elim (Bool-cases (conflict == 0)) [
  | inl y ↦ rw y (k, λ e. absurd (cc))
  | inr n ↦
      let listener = if str_eq cfg.mode "hybrid" then cfg.listener_port ∷ [] else [] in
      let used = listener ++ all_ports cfg.nodes in
      rw n (
        replace_port-Reassigned conflict listener cfg.nodes
          (next_candidate (port_end - suc conflict) (suc conflict) env cfg used)
          (next_candidate-IsCandidate (port_end - suc conflict) (suc conflict) env cfg used) k)
]
