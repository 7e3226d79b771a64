-- ===== src/Importer/StoreLoops.antt =====
-- The loops of the store that pass over ids.
use easy_proxies.Prelude.{
  ℕ, suc, false, Option, some, List, [], ◌∷◌, String, ℤ, pos, ◌+ℤ◌, lookup, put, map, All, str_eq,
  if◌then◌else◌, ◌≡◌, refl, ◌∙◌, sym, Option-cases, inl, inr, subst,
}
use easy_proxies.Importer.Nodes.{ManagedNode}
use easy_proxies.Importer.Journal.{remember}
use easy_proxies.Importer.Store.{Old, Change, also, change_loop}
use easy_proxies.Importer.StoreStates.{mark_loop, order_loop, pooled, is_pooled}
use easy_proxies.Importer.StoreEdits.{edits, Fresh, ids_of, Keyed, Keyed-put, also_at}

abbrev pub keys_of {ℓ} : {V : Type ℓ} → List (String × V) → List String
keys_of m = map (λ e. e.0) m

abbrev pub Misses : String → List String → Type 0
Misses id ids = All (λ j. str_eq id j ≡ false) ids

-- A part of a list of ids, in order.
pub record Part (ids all : List String) : Type 0 where
  pub misses : (id : String) → Misses id all → Misses id ids
  pub fresh : (previous : Old) → Fresh all previous → Fresh ids previous

Part-nil : Part [] []
Part-nil = record { misses = λ id h. tt; fresh = λ previous h. tt }

Part-skip : (id : String) {ids all : List String} → Part ids all → Part ids (id ∷ all)
Part-skip id p = record {
  misses = λ k h. p.misses k h.1;
  fresh = λ previous h. p.fresh previous h.2;
}

Part-take : (id : String) {ids all : List String} → Part ids all → Part (id ∷ ids) (id ∷ all)
Part-take id p = record {
  misses = λ k h. (h.0, p.misses k h.1);
  fresh = λ previous h. (h.0, p.misses id h.1, p.fresh previous h.2);
}

-- A loop's change is one of edits to a part of the ids.
abbrev pub Edits : List String → List (String × ManagedNode) → Old → Change → Type 0
Edits ids m previous c = (us : List ManagedNode) × (c ≡ edits us m previous) × Part (ids_of us) ids

Edits-skip :
    (id : String) (ids : List String) (m : List (String × ManagedNode)) (previous : Old)
    (c : Change)
    → Edits ids m previous c
    → Edits (id ∷ ids) m previous c
Edits-skip id ids m previous c (us, e, p) = (us, e, Part-skip id p)

Edits-take :
    (id : String) (ids : List String) (n : ManagedNode) (m : List (String × ManagedNode))
    (previous : Old) (c : Change)
    → n.id ≡ id
    → Edits ids (put m id n) (remember m previous id) c
    → Edits (id ∷ ids) m previous (also n c)
Edits-take id ids n m previous c e (us, same, p) = (
  n ∷ us,
  also_at id n m previous c us e same,
  subst (λ k. Part (k ∷ ids_of us) (id ∷ ids)) (sym e) (Part-take id p),
)

Keyed-at :
    (id : String) (n : ManagedNode) (m : List (String × ManagedNode))
    → n.id ≡ id
    → Keyed m
    → Keyed (put m id n)
Keyed-at id n m e h = subst (λ k. Keyed (put m k n)) e (Keyed-put m n h)

pub change_loop-Edits :
    {A : Type 0} (f : A → ManagedNode → Option ManagedNode)
    → ((a : A) (n n' : ManagedNode) → f a n ≡ some n' → n'.id ≡ n.id)
    → (rest : List (String × A)) (m : List (String × ManagedNode)) (previous : Old) → Keyed m
    → Edits (keys_of rest) m previous (change_loop f rest m previous)
unfolding change_loop edits
change_loop-Edits f k [] m previous h = ([], refl, Part-nil)
change_loop-Edits f k ((id, a) ∷ rest) m previous h = elim (Option-cases (lookup id m)) [
  | inl e ↦
      rw (change_loop, e) (Edits-skip id _ m previous _ (change_loop-Edits f k rest m previous h))
  | inr (n, e) ↦ elim (Option-cases (f a n)) [
    | inl e' ↦
        rw (change_loop, e)
          (rw e' (Edits-skip id _ m previous _ (change_loop-Edits f k rest m previous h)))
    | inr (n', e') ↦
        let same = k a n n' e' ∙ h id n e in
        rw (change_loop, e)
          (rw e' (
            Edits-take id _ n' m previous _ same (
              change_loop-Edits f k rest (put m id n') (remember m previous id)
                (Keyed-at id n' m same h))))
  ]
]

pub mark_loop-Edits :
    (now max_order : ℤ) (ports : List (String × ℕ)) (m : List (String × ManagedNode))
    (previous : Old)
    → Keyed m
    → Edits (keys_of ports) m previous (mark_loop now max_order ports m previous)
unfolding mark_loop edits
mark_loop-Edits now max_order [] m previous h = ([], refl, Part-nil)
mark_loop-Edits now max_order ((id, port) ∷ rest) m previous h = elim (Option-cases (lookup id m)) [
  | inl e ↦
      rw (mark_loop, e)
        (Edits-skip id _ m previous _ (mark_loop-Edits now max_order rest m previous h))
  | inr (n, e) ↦
      let next = max_order +ℤ pos 1 in
      let n' = pooled now port next n in
      let same : n'.id ≡ id = h id n e in
      rw (mark_loop, e)
        (Edits-take id _ n' m previous _ same (
          mark_loop-Edits now (if is_pooled n then max_order else next) rest (put m id n')
            (remember m previous id) (Keyed-at id n' m same h)))
]

pub order_loop-Edits :
    (now : ℤ) (order : ℕ) (ids : List String) (m : List (String × ManagedNode)) (previous : Old)
    → Keyed m
    → Edits ids m previous (order_loop now order ids m previous)
unfolding order_loop edits
order_loop-Edits now order [] m previous h = ([], refl, Part-nil)
order_loop-Edits now order (id ∷ ids) m previous h = elim (Option-cases (lookup id m)) [
  | inl e ↦
      rw (order_loop, e)
        (Edits-skip id ids m previous _ (order_loop-Edits now (suc order) ids m previous h))
  | inr (n, e) ↦
      let n' = record n { order = pos order; updated_at = now } in
      let same : n'.id ≡ id = h id n e in
      rw (order_loop, e)
        (Edits-take id ids n' m previous _ same (
          order_loop-Edits now (suc order) ids (put m id n') (remember m previous id)
            (Keyed-at id n' m same h)))
]
