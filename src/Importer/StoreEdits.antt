-- ===== src/Importer/StoreEdits.antt =====
-- What the loops of the store come to: a list of nodes, written one by one with a record.
use easy_proxies.Prelude.{
  false, Option, none, some, List, [], ◌∷◌, String, ℤ, lookup, put, map, All, lookup-put, str_eq,
  eq_iff, ◌≡◌, refl, arith, ◌∙◌, sym, ap,
}
use easy_proxies.Importer.Nodes.{ManagedNode}
use easy_proxies.Importer.Sources.{merge_node_source_refs}
use easy_proxies.Importer.Journal.{remember, Journal, Journal-put, Same}
use easy_proxies.Importer.StateDb.{put_nodes}
use easy_proxies.Importer.Store.{
  Old, Change, also, unchanged, upserted, upsert_loop, applied, apply_loop,
}

-- The reference: each node is put under its own id.
unfoldable pub edits : List ManagedNode → List (String × ManagedNode) → Old → Change
edits [] m previous = unchanged m previous
edits (n ∷ ns) m previous = also n (edits ns (put m n.id n) (remember m previous n.id))

-- Ids with no record, each of which occurs once.
abbrev pub Fresh : List String → Old → Type 0
Fresh [] previous = Unit
Fresh (id ∷ ids) previous =
    (lookup id previous ≡ none) × All (λ j. str_eq id j ≡ false) ids × Fresh ids previous

abbrev pub ids_of : List ManagedNode → List String
ids_of ns = map (λ n. n.id) ns

pub Fresh-put :
    (ids : List String) (previous : Old) (id : String) (o : Option ManagedNode)
    → All (λ j. str_eq id j ≡ false) ids
    → Fresh ids previous
    → Fresh ids (put previous id o)
Fresh-put [] previous id o h f = tt
Fresh-put (j ∷ ids) previous id o h f =
    (lookup-put previous id j o ∙ rw h.0 f.0, f.1, Fresh-put ids previous id o h.1 f.2)

pub edits-write :
    (ns : List ManagedNode) (m d : List (String × ManagedNode)) (previous : Old)
    → Same m d
    → Same (edits ns m previous).nodes (put_nodes ns d)
unfolding edits put_nodes
edits-write [] m d previous h = h
edits-write (n ∷ ns) m d previous h =
    edits-write ns (put m n.id n) (put d n.id n) (remember m previous n.id)
      (λ id. lookup-put m n.id id n ∙ (rw (h id) (sym (lookup-put d n.id id n))))

pub edits-Journal :
    (ns : List ManagedNode) (start m : List (String × ManagedNode)) (previous : Old)
    → Fresh (ids_of ns) previous
    → Journal start m previous
    → Journal start (edits ns m previous).nodes (edits ns m previous).previous
unfolding edits
edits-Journal [] start m previous f j = j
edits-Journal (n ∷ ns) start m previous f j =
    edits-Journal ns start (put m n.id n) (remember m previous n.id)
      (Fresh-put (ids_of ns) previous n.id (lookup n.id m) f.1 f.2)
      (Journal-put start m previous n.id n j f.0)

-- A map whose keys are the ids of its nodes.
abbrev pub Keyed : List (String × ManagedNode) → Type 0
Keyed m = (id : String) (n : ManagedNode) → lookup id m ≡ some n → n.id ≡ id

pub Keyed-put : (m : List (String × ManagedNode)) (n : ManagedNode) → Keyed m → Keyed (put m n.id n)
Keyed-put m n h id n' e = ground (arith, h id n', lookup-put m n.id id n, eq_iff n.id id)

pub edits-Keyed :
    (ns : List ManagedNode) (m : List (String × ManagedNode)) (previous : Old)
    → Keyed m
    → Keyed (edits ns m previous).nodes
unfolding edits
edits-Keyed [] m previous h = h
edits-Keyed (n ∷ ns) m previous h =
    edits-Keyed ns (put m n.id n) (remember m previous n.id) (Keyed-put m n h)

-- A node that is written under the key that is its id.
pub also_at :
    (id : String) (n : ManagedNode) (m : List (String × ManagedNode)) (previous : Old) (c : Change)
    (ns : List ManagedNode)
    → n.id ≡ id
    → c ≡ edits ns (put m id n) (remember m previous id)
    → also n c ≡ edits (n ∷ ns) m previous
unfolding edits
also_at id n m previous c ns e h =
    ap (also n) (h ∙ ap (λ k. edits ns (put m k n) (remember m previous k)) (sym e))

upserted_id : (now : ℤ) (o : Option ManagedNode) (n : ManagedNode) → (upserted now o n).id ≡ n.id
unfolding merge_node_source_refs
upserted_id now none n = refl
upserted_id now (some old) n = refl

pub upsert_loop-edits :
    (now : ℤ) (ns : List ManagedNode) (m : List (String × ManagedNode)) (previous : Old)
    → (us : List ManagedNode) × (upsert_loop now ns m previous ≡ edits us m previous)
      × (ids_of us ≡ ids_of ns)
unfolding upsert_loop edits
upsert_loop-edits now [] m previous = ([], refl, refl)
upsert_loop-edits now (n ∷ ns) m previous =
    let n' = upserted now (lookup n.id m) n in
    let id = upserted_id now (lookup n.id m) n in
    let (us, same, ids) = upsert_loop-edits now ns (put m n.id n') (remember m previous n.id) in
    (n' ∷ us, also_at n.id n' m previous _ us id same, λ i. id i ∷ ids i)

pub apply_loop-edits :
    (now : ℤ) (ns : List ManagedNode) (m : List (String × ManagedNode)) (previous : Old)
    → (us : List ManagedNode) × (apply_loop now ns m previous ≡ edits us m previous)
      × (ids_of us ≡ ids_of ns)
unfolding apply_loop edits
apply_loop-edits now [] m previous = ([], refl, refl)
apply_loop-edits now (n ∷ ns) m previous =
    let n' = applied now n in
    let id : n'.id ≡ n.id = ground arith in
    let (us, same, ids) = apply_loop-edits now ns (put m n.id n') (remember m previous n.id) in
    (n' ∷ us, also_at n.id n' m previous _ us id same, λ i. id i ∷ ids i)
