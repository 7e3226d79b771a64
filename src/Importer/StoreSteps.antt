-- ===== src/Importer/StoreSteps.antt =====
-- Each operation of the store keeps memory and database together.
use easy_proxies.Prelude.{
  Distinct-put, Bool, true, false, none, some, List, [], ◌∷◌, String, ℤ, lookup, put, Distinct,
  eq_iff, All, if◌then◌else◌, ◌≡◌, refl, arith, ◌∙◌, sym, subst, Option-cases, Bool-cases, inl, inr,
  lookup-put,
}
use easy_proxies.Importer.Nodes.{ManagedNode, ManagedNodeState, ImportJob}
use easy_proxies.Importer.Journal.{Same}
use easy_proxies.Importer.StateDb.{
  StateDb, put_nodes, replace_state_tx, upsert_jobs_tx, upsert_nodes_tx, values_of, db_upsert_nodes,
}
use easy_proxies.Importer.Store.{Store, Change, upsert_nodes, upsert_loop, finish}
use easy_proxies.Importer.StoreStates.{
  restored, recovered, update_node_state, finish_changed, no_nodes,
}
use easy_proxies.Importer.StoreEdits.{Fresh, ids_of, Keyed, Keyed-put, upsert_loop-edits}
use easy_proxies.Importer.StoreLoops.{Edits, Misses, keys_of}
use easy_proxies.Importer.StoreKept.{Consistent, finish-Consistent, Keyed-Same}

pub upsert_nodes-Consistent :
    (committed : Bool) (now : ℤ) (ns : List ManagedNode) (s : Store)
    → Fresh (ids_of ns) []
    → Consistent s
    → Consistent (upsert_nodes committed now ns s).0
unfolding upsert_nodes
upsert_nodes-Consistent committed now ns s f h =
    let (us, e, ids) = upsert_loop-edits now ns s.nodes [] in
    finish-Consistent committed us (upsert_loop now ns s.nodes []) s e
      (subst (λ k. Fresh k []) (sym ids) f) h

pub Edits-Consistent :
    (committed : Bool) (ids : List String) (c : Change) (s : Store)
    → Edits ids s.nodes [] c
    → Fresh ids []
    → Consistent s
    → Consistent (finish committed (db_upsert_nodes committed c.updated) c s).0
Edits-Consistent committed ids c s (us, e, p) f h =
    finish-Consistent committed us c s e (p.fresh [] f) h

-- An operation that does not write when nothing has changed.
pub changed-Consistent :
    (committed : Bool) (ids : List String) (c : Change) (s : Store)
    → Edits ids s.nodes [] c
    → Fresh ids []
    → Consistent s
    → Consistent (finish_changed committed c s).0
changed-Consistent committed ids c s e f h = elim (Bool-cases (no_nodes c.updated)) [
  | inl y ↦ rw (finish_changed, y) h
  | inr n ↦ rw (finish_changed, n) (Edits-Consistent committed ids c s e f h)
]

Misses-keys :
    (id : String) (m : List (String × ManagedNode)) → lookup id m ≡ none → Misses id (keys_of m)
unfolding lookup
Misses-keys id [] e = tt
Misses-keys id ((key, n) ∷ rest) e =
    (ground (arith, eq_iff id key, eq_iff key id), Misses-keys id rest (ground arith))

pub Distinct-Fresh : (m : List (String × ManagedNode)) → Distinct m → Fresh (keys_of m) []
unfolding lookup
Distinct-Fresh [] d = tt
Distinct-Fresh ((id, n) ∷ rest) d = (refl, Misses-keys id rest d.0, Distinct-Fresh rest d.1)

pub restored_id :
    (now : ℤ) (current a : ManagedNodeState) (n n' : ManagedNode)
    → restored now current a n ≡ some n'
    → n'.id ≡ n.id
restored_id now current a n n' e = ground arith

pub recovered_id : (now : ℤ) (a n n' : ManagedNode) → recovered now a n ≡ some n' → n'.id ≡ n.id
recovered_id now a n n' e = ground arith

put_state-Consistent :
    (committed : Bool) (id : String) (n n' : ManagedNode) (s : Store)
    → lookup id s.nodes ≡ some n
    → n'.id ≡ id
    → Consistent s
    → Consistent (
        let db = db_upsert_nodes committed (n' ∷ []) s.db in
        if committed
        then record s { nodes = put s.nodes id n'; db = db }
        else record s { nodes = put (put s.nodes id n') id n; db = db })
unfolding db_upsert_nodes upsert_nodes_tx put_nodes
put_state-Consistent true id n n' s e same h = record {
  same = λ k.
      ground (arith, h.same k, lookup-put s.nodes id k n', lookup-put s.db.nodes n'.id k n', same);
  keyed = subst (λ k. Keyed (put s.nodes k n')) same (Keyed-put s.nodes n' h.keyed);
  distinct = Distinct-put s.nodes id n' h.distinct;
}
put_state-Consistent false id n n' s e same h =
    let back : Same (put (put s.nodes id n') id n) s.nodes = λ k.
      ground (
        arith,
        lookup-put (put s.nodes id n') id k n,
        lookup-put s.nodes id k n',
        eq_iff id k,
        e,
      ) in
    record {
      same = λ k. back k ∙ h.same k;
      keyed = Keyed-Same (put (put s.nodes id n') id n) s.nodes back h.keyed;
      distinct = Distinct-put (put s.nodes id n') id n (Distinct-put s.nodes id n' h.distinct);
    }

pub update_node_state-Consistent :
    (committed : Bool) (now : ℤ) (id : String) (state : ManagedNodeState) (err : String) (s : Store)
    → Consistent s
    → Consistent (update_node_state committed now id state err s).0
unfolding update_node_state
update_node_state-Consistent committed now id state err s h =
    elim (Option-cases (lookup id s.nodes)) [
      | inl e ↦ rw (update_node_state, e) h
      | inr (n, e) ↦
          let n' = record n {
            state = state;
            last_error = err;
            last_test_at = now;
            updated_at = now;
          } in
          let k = put_state-Consistent committed id n n' s e (h.keyed id n e) h in
          elim (Bool-cases committed) [
            | inl y ↦ rw (update_node_state, e) (rw y (rw y at k))
            | inr y ↦ rw (update_node_state, e) (rw y (rw y at k))
          ]
    ]

-- Each entry stands under the id of its node.
abbrev pub UnderIds : List (String × ManagedNode) → Type 0
UnderIds m = All (λ e. e.1.id ≡ e.0) m

lookup-values_of :
    (m d : List (String × ManagedNode)) (id : String)
    → Distinct m
    → UnderIds m
    → lookup id (put_nodes (values_of m) d)
      ≡ elim (lookup id m) [ some n ↦ some n | none ↦ lookup id d ]
unfolding put_nodes lookup
lookup-values_of [] d id k u = refl
lookup-values_of ((key, n) ∷ rest) d id k u =
    lookup-values_of rest (put d n.id n) id k.1 u.1
    ∙ ground (arith, lookup-put d n.id id n, eq_iff key id, eq_iff n.id id, u.0, k.0)

pub Keyed-UnderIds : (m : List (String × ManagedNode)) → UnderIds m → Keyed m
unfolding lookup
Keyed-UnderIds [] u id n e = absurd (cc)
Keyed-UnderIds ((key, x) ∷ rest) u id n e =
    ground (arith, Keyed-UnderIds rest u.1 id n, u.0, eq_iff key id)

pub replaced-Same :
    (m : List (String × ManagedNode)) (jobs : List (String × ImportJob)) (db : StateDb)
    → Distinct m
    → UnderIds m
    → Same m (replace_state_tx m jobs db).nodes
unfolding replace_state_tx upsert_jobs_tx upsert_nodes_tx lookup
replaced-Same m jobs db d u id = sym (lookup-values_of m [] id d u ∙ ground arith)
