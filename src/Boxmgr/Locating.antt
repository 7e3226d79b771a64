-- ===== src/Boxmgr/Locating.antt =====
-- The index of a node against its name.
use easy_proxies.Prelude.{
  ℕ, false, Option, none, some, List, [], ◌∷◌, String, str_eq, suc, ◌≡◌, refl, Bool-cases, inl, inr,
}
use easy_proxies.Config.Types.{NodeConfig}
use easy_proxies.Boxmgr.Nodes.{node_named, located, set_at, one_on}
use easy_proxies.Boxmgr.Naming.{replace_named}

-- An index that was found is that of the first node of the name, and the node there can be put back.
pub data Located (name : String) (ns : List NodeConfig) : Option (ℕ × NodeConfig) → Type 0 where
  nowhere : Located name ns none
  found_at :
      (i : ℕ) (old : NodeConfig)
      → node_named name ns ≡ some old
      → ((n : NodeConfig) → set_at i n ns ≡ replace_named name n ns)
      → ((n : NodeConfig) → set_at i old (set_at i n ns) ≡ ns)
      → Located name ns (some (i, old))

Located-behind :
    (name : String) (m : NodeConfig) (ns : List NodeConfig) (o : Option (ℕ × NodeConfig))
    → str_eq m.name name ≡ false
    → Located name ns o
    → Located name (m ∷ ns) (one_on o)
unfolding node_named set_at replace_named
Located-behind name m ns none e nowhere = nowhere
Located-behind name m ns (some _) e (found_at i old f s b) =
    found_at (suc i) old (simp (e, node_named, f)) (λ n. simp (e, replace_named, set_at, s n))
      (λ n. simp (set_at, b n))

pub located-Located : (name : String) (ns : List NodeConfig) → Located name ns (located name ns)
unfolding located node_named set_at replace_named
located-Located name [] = nowhere
located-Located name (m ∷ ns) = elim (Bool-cases (str_eq m.name name)) [
  | inl e ↦
      rw (e, located)
        (found_at 0 m (simp (e, node_named)) (λ n. simp (e, replace_named, set_at)) (λ n. refl))
  | inr e ↦ rw (e, located) (Located-behind name m ns (located name ns) e (located-Located name ns))
]
