-- ===== src/Boxmgr/Naming.antt =====
-- Nodes with names and ports of their own, and what appending, replacing and filtering do to them.
use easy_proxies.Prelude.{
  ℕ, Bool, true, false, not, ◌&&◌, ◌||◌, some, if◌then◌else◌, List, [], ◌∷◌, ◌++◌, String, str_eq,
  eq_iff, ◌==◌, filter, is_some, ◌≡◌, refl, arith, Bool-cases, inl, inr,
}
use easy_proxies.Config.Types.{NodeConfig}
use easy_proxies.Boxmgr.Ports.{holds, all_ports, used_ports}
use easy_proxies.Boxmgr.Nodes.{node_named, port_in_use_by_other}

abbrev pub is_named : String → List NodeConfig → Bool
is_named name nodes = is_some (node_named name nodes)

-- No name is empty or occurs twice.
abbrev pub Named : List NodeConfig → Type 0
Named [] = Unit
Named (n ∷ ns) = (str_eq n.name "" ≡ false) × (is_named n.name ns ≡ false) × Named ns

-- No port is 0 or occurs twice.
abbrev pub Ported : List NodeConfig → Type 0
Ported [] = Unit
Ported (n ∷ ns) = ((n.port == 0) ≡ false) × (holds n.port (all_ports ns) ≡ false) × Ported ns

is_named-append :
    (name : String) (ns : List NodeConfig) (n : NodeConfig)
    → is_named name (ns ++ (n ∷ [])) ≡ (is_named name ns || str_eq n.name name)
unfolding node_named
is_named-append name [] n = ground arith
is_named-append name (m ∷ ns) n = ground (arith, is_named-append name ns n)

holds-append :
    (port : ℕ) (ns : List NodeConfig) (n : NodeConfig)
    → holds port (all_ports (ns ++ (n ∷ []))) ≡ (holds port (all_ports ns) || n.port == port)
holds-append port [] n = ground arith
holds-append port (m ∷ ns) n = ground (arith, holds-append port ns n)

pub Named-append :
    (ns : List NodeConfig) (n : NodeConfig)
    → Named ns
    → str_eq n.name "" ≡ false
    → is_named n.name ns ≡ false
    → Named (ns ++ (n ∷ []))
unfolding node_named
Named-append [] n h e f = (e, refl, tt)
Named-append (m ∷ ns) n h e f = (
  h.0,
  ground (
    arith,
    is_named-append m.name ns n,
    h.1,
    f,
    eq_iff m.name n.name,
    eq_iff n.name m.name,
    eq_iff n.name m.name,
  ),
  Named-append ns n h.2 e (ground (arith, f)),
)

pub Ported-append :
    (ns : List NodeConfig) (n : NodeConfig)
    → Ported ns
    → (n.port == 0) ≡ false
    → holds n.port (all_ports ns) ≡ false
    → Ported (ns ++ (n ∷ []))
Ported-append [] n h e f = (e, refl, tt)
Ported-append (m ∷ ns) n h e f = (
  h.0,
  ground (arith, holds-append m.port ns n, h.1, f),
  Ported-append ns n h.2 e (ground (arith, f)),
)

-- With names that are not empty, the nodes of no current one are all nodes.
pub port_in_use_by_other-new :
    (port : ℕ) (ns : List NodeConfig)
    → Named ns
    → port_in_use_by_other port "" ns ≡ holds port (all_ports ns)
unfolding port_in_use_by_other
port_in_use_by_other-new port [] h = refl
port_in_use_by_other-new port (n ∷ ns) h = ground (arith, port_in_use_by_other-new port ns h.2, h.0)

pub port_in_use_by_other-unused :
    (port : ℕ) (current : String) (ns : List NodeConfig)
    → (port == 0) ≡ false
    → holds port (used_ports ns) ≡ false
    → port_in_use_by_other port current ns ≡ false
unfolding port_in_use_by_other
port_in_use_by_other-unused port current [] z h = refl
port_in_use_by_other-unused port current (n ∷ ns) z h =
    ground (arith, port_in_use_by_other-unused port current ns z, h)

-- The name of a node is not empty.
pub found_filled :
    (name : String) (ns : List NodeConfig) (old : NodeConfig)
    → Named ns
    → node_named name ns ≡ some old
    → str_eq name "" ≡ false
unfolding node_named
found_filled name [] old h e = absurd (cc)
found_filled name (n ∷ ns) old h e =
    ground (arith, found_filled name ns old h.2, h.0, eq_iff n.name name, eq_iff name "")

-- The first node of a name replaced.
unfoldable pub replace_named : String → NodeConfig → List NodeConfig → List NodeConfig
replace_named name n [] = []
replace_named name n (node ∷ nodes) =
    if str_eq node.name name then n ∷ nodes else node ∷ replace_named name n nodes

is_named-replace :
    (name current : String) (ns : List NodeConfig) (n : NodeConfig)
    → str_eq n.name name ≡ false
    → is_named name ns ≡ false
    → is_named name (replace_named current n ns) ≡ false
unfolding node_named replace_named
is_named-replace name current [] n e h = refl
is_named-replace name current (m ∷ ns) n e h =
    ground (arith, is_named-replace name current ns n e, e, h)

holds-replace :
    (port : ℕ) (current : String) (ns : List NodeConfig) (n : NodeConfig)
    → (n.port == port) ≡ false
    → holds port (all_ports ns) ≡ false
    → holds port (all_ports (replace_named current n ns)) ≡ false
unfolding replace_named
holds-replace port current [] n e h = refl
holds-replace port current (m ∷ ns) n e h = ground (arith, holds-replace port current ns n e, e, h)

-- The new name is the old one, or new.
pub Named-replace :
    (current : String) (ns : List NodeConfig) (n : NodeConfig)
    → Named ns
    → str_eq n.name "" ≡ false
    → (is_named n.name ns && not (str_eq n.name current)) ≡ false
    → Named (replace_named current n ns)
unfolding node_named replace_named
Named-replace current [] n h e f = tt
Named-replace current (m ∷ ns) n h e f = elim (Bool-cases (str_eq m.name current)) [
  | inl y ↦ rw y (
    e,
    ground (
      arith,
      f,
      h.1,
      eq_iff n.name current,
      eq_iff m.name n.name,
      eq_iff n.name m.name,
      eq_iff m.name current,
    ),
    h.2,
  )
  | inr k ↦ rw k (
    h.0,
    is_named-replace m.name current ns n
        (ground (
          arith,
          f,
          h.1,
          eq_iff n.name current,
          eq_iff m.name n.name,
          eq_iff n.name m.name,
          eq_iff m.name current,
        ))
        h.1,
    Named-replace current ns n h.2 e (ground (arith, f)),
  )
]

-- Without a node of a name, the other nodes are all nodes.
port_in_use_by_other-all :
    (port : ℕ) (current : String) (ns : List NodeConfig)
    → is_named current ns ≡ false
    → port_in_use_by_other port current ns ≡ holds port (all_ports ns)
unfolding port_in_use_by_other node_named
port_in_use_by_other-all port current [] h = refl
port_in_use_by_other-all port current (n ∷ ns) h =
    ground (arith, port_in_use_by_other-all port current ns, h)

only_other :
    (port : ℕ) (current : String) (m : NodeConfig) (ns : List NodeConfig)
    → str_eq m.name current ≡ true
    → Named (m ∷ ns)
    → port_in_use_by_other port current (m ∷ ns) ≡ false
    → holds port (all_ports ns) ≡ false
unfolding port_in_use_by_other
only_other port current m ns y g f = ground (
  arith,
  port_in_use_by_other-all port current ns,
  (let same = (eq_iff m.name current).0 y in rw same at g.1),
  f,
)

pub Ported-replace :
    (current : String) (ns : List NodeConfig) (n : NodeConfig)
    → Named ns
    → Ported ns
    → (n.port == 0) ≡ false
    → port_in_use_by_other n.port current ns ≡ false
    → Ported (replace_named current n ns)
unfolding replace_named port_in_use_by_other node_named
Ported-replace current [] n g h e f = tt
Ported-replace current (m ∷ ns) n g h e f = elim (Bool-cases (str_eq m.name current)) [
  | inl y ↦ rw y (e, only_other n.port current m ns y g f, h.2)
  | inr k ↦ rw k (
    h.0,
    holds-replace m.port current ns n (ground (arith, f)) h.1,
    Ported-replace current ns n g.2 h.2 e (ground (arith, f)),
  )
]

is_named-filter :
    (p : NodeConfig → Bool) (name : String) (ns : List NodeConfig)
    → is_named name ns ≡ false
    → is_named name (filter p ns) ≡ false
unfolding node_named
is_named-filter p name [] h = refl
is_named-filter p name (n ∷ ns) h = ground (arith, is_named-filter p name ns, h)

holds-filter :
    (p : NodeConfig → Bool) (port : ℕ) (ns : List NodeConfig)
    → holds port (all_ports ns) ≡ false
    → holds port (all_ports (filter p ns)) ≡ false
holds-filter p port [] h = refl
holds-filter p port (n ∷ ns) h = ground (arith, holds-filter p port ns, h)

pub Named-filter : (p : NodeConfig → Bool) (ns : List NodeConfig) → Named ns → Named (filter p ns)
Named-filter p [] h = tt
Named-filter p (n ∷ ns) h = ground (arith, Named-filter p ns h.2, is_named-filter p n.name ns, h)

pub Ported-filter :
    (p : NodeConfig → Bool) (ns : List NodeConfig) → Ported ns → Ported (filter p ns)
Ported-filter p [] h = tt
Ported-filter p (n ∷ ns) h = ground (arith, Ported-filter p ns h.2, holds-filter p n.port ns, h)
