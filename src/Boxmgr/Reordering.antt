-- ===== src/Boxmgr/Reordering.antt =====
-- A new order of the nodes has the same nodes.
use mathlib.Core.Path.{subst}
use mathlib.Core.List.{Permᴰ}
use mathlib.Core.List.Permᴰ
use easy_proxies.Prelude.{
  true, false, not, none, some, List, [], ◌∷◌, ◌++◌, String, str_eq, eq_iff, filter, ◌≡◌, refl,
  arith, ap, sym, ◌∙◌, Bool-cases, Option-cases, inl, inr,
}
use easy_proxies.Importer.Sources.{contains}
use easy_proxies.Config.Types.{NodeConfig}
use easy_proxies.Boxmgr.Nodes.{node_named, last_named, pick_named, reordered, clean_names}
use easy_proxies.Boxmgr.Naming.{Named, is_named}

is_named-Perm :
    (name : String) {ns ms : List NodeConfig} → Permᴰ ns ms → is_named name ns ≡ is_named name ms
unfolding node_named
is_named-Perm name Permᴰ.nil = refl
is_named-Perm name (Permᴰ.cons e p) = rw e (ground (arith, is_named-Perm name p))
is_named-Perm name (Permᴰ.swap e f) = rw e (rw f (ground arith))
is_named-Perm name (Permᴰ.trans p q) = is_named-Perm name p ∙ is_named-Perm name q

pub Named-Perm : {ns ms : List NodeConfig} → Permᴰ ns ms → Named ns → Named ms
unfolding node_named
Named-Perm Permᴰ.nil h = h
Named-Perm (Permᴰ.cons {b = b} e p) h =
    (rw (sym e) h.0, sym (is_named-Perm b.name p) ∙ rw (sym e) h.1, Named-Perm p h.2)
Named-Perm (Permᴰ.swap {a = a} {b = b} {b' = b'} {l = l} e f) h =
    subst (λ x. Named (x ∷ b' ∷ l)) f (subst (λ x. Named (b ∷ x ∷ l)) e (swapped a b l h))
  where
    swapped : (a b : NodeConfig) (l : List NodeConfig) → Named (a ∷ b ∷ l) → Named (b ∷ a ∷ l)
    swapped a b l h = ground (arith, h, eq_iff a.name b.name, eq_iff b.name a.name)
Named-Perm (Permᴰ.trans p q) h = Named-Perm q (Named-Perm p h)

-- The nodes whose names were not seen.
abbrev unseen : List String → List NodeConfig → List NodeConfig
unseen seen nodes = filter (λ node. not (contains node.name seen)) nodes

last_named-absent :
    (name : String) (ns : List NodeConfig) → is_named name ns ≡ false → last_named name ns ≡ none
unfolding node_named last_named
last_named-absent name [] h = refl
last_named-absent name (n ∷ ns) h =
    rw (last_named-absent name ns (ground (arith, h))) (ground (arith, h))

unseen-absent :
    (name : String) (seen : List String) (ns : List NodeConfig)
    → is_named name ns ≡ false
    → unseen (name ∷ seen) ns ≡ unseen seen ns
unfolding node_named contains
unseen-absent name seen [] h = refl
unseen-absent name seen (n ∷ ns) h =
    ground (arith, unseen-absent name seen ns, h, eq_iff name n.name, eq_iff n.name name)

-- Another node than the named one stays where it is.
unseen_other :
    (name : String) (n m : NodeConfig) (seen : List String) (ns : List NodeConfig)
    → str_eq m.name name ≡ false
    → Permᴰ (n ∷ unseen (name ∷ seen) ns) (unseen seen ns)
    → Permᴰ (n ∷ unseen (name ∷ seen) (m ∷ ns)) (unseen seen (m ∷ ns))
unfolding contains
unseen_other name n m seen ns k p = elim (Bool-cases (contains m.name seen)) [
  | inl y ↦ rw y (rw other p)
  | inr c ↦ rw c (rw other (Permᴰ.trans (Permᴰ.swap refl refl) (Permᴰ.cons refl p)))
]
  where
    other : str_eq name m.name ≡ false
    other = ground (arith, k, eq_iff name m.name, eq_iff m.name name)

unseen_first :
    (name : String) (m : NodeConfig) (seen : List String) (ns : List NodeConfig)
    → str_eq name m.name ≡ true
    → is_named name ns ≡ false
    → contains m.name seen ≡ false
    → (m ∷ unseen (name ∷ seen) (m ∷ ns)) ≡ unseen seen (m ∷ ns)
unfolding contains
unseen_first name m seen ns e h c = rw e (rw c (ap (◌∷◌ m) (unseen-absent name seen ns h)))

-- A name more: its node moves to the front.
unseen-Perm :
    (name : String) (n : NodeConfig) (seen : List String) (ns : List NodeConfig)
    → Named ns
    → last_named name ns ≡ some n
    → contains name seen ≡ false
    → Permᴰ (n ∷ unseen (name ∷ seen) ns) (unseen seen ns)
unfolding node_named contains last_named
unseen-Perm name n seen [] h e c = absurd (cc)
unseen-Perm name n seen (m ∷ ns) h e c = elim (Option-cases (last_named name ns)) [
  | inr (n', e') ↦ elim (Bool-cases (str_eq m.name name)) [
    | inl y ↦ absurd (
        let same = (eq_iff m.name name).0 y in
        let gone = last_named-absent name ns (rw same at h.1) in ground (arith, gone, e'))
    | inr k ↦
        unseen_other name n m seen ns k (unseen-Perm name n seen ns h.2 (ground (arith, e, e')) c)
  ]
  | inl e' ↦ elim (Bool-cases (str_eq m.name name)) [
    | inl y ↦
        let same = (eq_iff m.name name).0 y in
        let gone = rw same at h.1 in
        let found : some m ≡ some n = ground (arith, e, e', y) in
        let same_node : n ≡ m = cc in
        let first =
          unseen_first name m seen ns ((eq_iff name m.name).1 (sym same)) gone
            (ap (λ x. contains x seen) same ∙ c) in
        subst (Permᴰ (n ∷ unseen (name ∷ seen) (m ∷ ns)))
          (ap (λ x. x ∷ unseen (name ∷ seen) (m ∷ ns)) same_node ∙ first)
          (Permᴰ.refl (n ∷ unseen (name ∷ seen) (m ∷ ns)))
    | inr k ↦ absurd (ground (arith, e, e', k))
  ]
]

pick_named-Perm :
    (names seen : List String) (ns : List NodeConfig)
    → Named ns
    → Permᴰ
        ((pick_named names seen ns).0 ++ unseen (pick_named names seen ns).1 ns)
        (unseen seen ns)
unfolding pick_named
pick_named-Perm [] seen ns h = Permᴰ.refl (unseen seen ns)
pick_named-Perm (name ∷ names) seen ns h = elim (Option-cases (last_named name ns)) [
  | inl e ↦ rw (pick_named, e) (pick_named-Perm names seen ns h)
  | inr (n, e) ↦ elim (Bool-cases (contains name seen)) [
    | inl y ↦ rw (pick_named, e) (rw y (pick_named-Perm names seen ns h))
    | inr c ↦
        rw (pick_named, e)
          (rw c (
            Permᴰ.trans (Permᴰ.cons refl (pick_named-Perm names (name ∷ seen) ns h))
              (unseen-Perm name n seen ns h e c)))
  ]
]

unseen_all : (ns : List NodeConfig) → unseen [] ns ≡ ns
unfolding contains
unseen_all [] = refl
unseen_all (n ∷ ns) = ap (◌∷◌ n) (unseen_all ns)

-- Whatever names are given, with repetitions, blanks and unknown ones, the nodes in the new order are
-- the same nodes, each as often as before, if the names of the nodes are distinct and not empty.
pub reordered-Perm :
    (names : List String) (ns : List NodeConfig) → Named ns → Permᴰ (reordered names ns) ns
unfolding reordered
reordered-Perm names ns h =
    let order = clean_names names in
    subst (λ l. Permᴰ ((pick_named order [] ns).0 ++ unseen (pick_named order [] ns).1 ns) l)
      (unseen_all ns) (pick_named-Perm order [] ns h)
