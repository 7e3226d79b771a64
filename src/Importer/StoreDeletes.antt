-- ===== src/Importer/StoreDeletes.antt =====
-- Deletions in the store.
use easy_proxies.Prelude.{
  Bool, true, false, none, some, List, [], ◌∷◌, String, ℤ, lookup, put, delete, lookup-put,
  lookup-delete, Distinct, Distinct-put, Distinct-delete, ◌≡◌, refl, arith, ◌∙◌, sym, ap, subst,
}
use easy_proxies.Importer.Nodes.{ManagedNode}
use easy_proxies.Importer.Journal.{
  remember, remember_once, rollback_existing, Journal, Journal-start, Journal-delete,
  Journal-delete_once, Journal-rollback_existing, Gone, Same,
}
use easy_proxies.Importer.StateDb.{
  delete_all, db_delete_nodes, db_apply_nodes, upsert_nodes_tx, put_nodes,
}
use easy_proxies.Importer.Store.{
  Store, Old, Change, delete_loop, delete_nodes, delete_loop_once, apply_loop, apply_node_changes,
  finish,
}
use easy_proxies.Importer.StoreEdits.{
  edits, Fresh, ids_of, edits-write, edits-Journal, edits-Keyed, Keyed, Fresh-put, apply_loop-edits,
}
use easy_proxies.Importer.StoreKept.{
  Consistent, edits-updated, edits-Distinct, Keyed-Same, failed-Consistent,
}

Keyed-delete : (m : List (String × ManagedNode)) (id : String) → Keyed m → Keyed (delete m id)
Keyed-delete m id h key n e = ground (arith, h key n, lookup-delete m id key)

Same-delete :
    (m d : List (String × ManagedNode)) (id : String) → Same m d → Same (delete m id) (delete d id)
Same-delete m d id h key = lookup-delete m id key ∙ rw (h key) (sym (lookup-delete d id key))

-- What a loop of deletions leaves, over any map that agrees with the one in memory.
record Deleted (ids : List String) (m : List (String × ManagedNode)) (c : Change) : Type 0 where
  written : (d : List (String × ManagedNode)) → Same m d → Same c.nodes (delete_all ids d)
  keyed : Keyed m → Keyed c.nodes
  distinct : Distinct m → Distinct c.nodes

Deleted-cons :
    (id : String) (ids : List String) (m : List (String × ManagedNode)) (c : Change)
    → Deleted ids (delete m id) c
    → Deleted (id ∷ ids) m c
unfolding delete_all
Deleted-cons id ids m c h = record {
  written = λ d s. h.written (delete d id) (Same-delete m d id s);
  keyed = λ k. h.keyed (Keyed-delete m id k);
  distinct = λ d. h.distinct (Distinct-delete m id d);
}

Deleted-nil : (m : List (String × ManagedNode)) (c : Change) → c.nodes ≡ m → Deleted [] m c
unfolding delete_all
Deleted-nil m c e = record { written = λ d s. rw e s; keyed = λ k. rw e k; distinct = λ d. rw e d }

delete_loop-Deleted :
    (ids : List String) (m : List (String × ManagedNode)) (previous : Old)
    → Deleted ids m (delete_loop ids m previous)
unfolding delete_loop
delete_loop-Deleted [] m previous = Deleted-nil m _ refl
delete_loop-Deleted (id ∷ ids) m previous =
    Deleted-cons id ids m _ (delete_loop-Deleted ids (delete m id) (remember m previous id))

delete_loop_once-Deleted :
    (ids : List String) (c : Change) → Deleted ids c.nodes (delete_loop_once ids c)
unfolding delete_loop_once
delete_loop_once-Deleted [] c = Deleted-nil c.nodes c refl
delete_loop_once-Deleted (id ∷ ids) c = Deleted-cons id ids c.nodes _ (
    delete_loop_once-Deleted ids
      (record c { nodes = delete c.nodes id; previous = remember_once c.nodes c.previous id }))

delete_loop_once-updated :
    (ids : List String) (c : Change) → (delete_loop_once ids c).updated ≡ c.updated
unfolding delete_loop_once
delete_loop_once-updated [] c = refl
delete_loop_once-updated (id ∷ ids) c = delete_loop_once-updated ids _

delete_loop_once-Journal :
    (ids : List String) (start : List (String × ManagedNode)) (c : Change)
    → Journal start c.nodes c.previous
    → Journal start (delete_loop_once ids c).nodes (delete_loop_once ids c).previous
unfolding delete_loop_once
delete_loop_once-Journal [] start c j = j
delete_loop_once-Journal (id ∷ ids) start c j =
    delete_loop_once-Journal ids start _ (Journal-delete_once start c.nodes c.previous id j)

Gone-delete :
    (m : List (String × ManagedNode)) (previous : Old) (id : String)
    → Gone m previous
    → Gone (delete m id) (remember m previous id)
Gone-delete m previous id g key e =
    ground (arith, g key, lookup-delete m id key, lookup-put previous id key (lookup id m))

delete_loop-Journal :
    (ids : List String) (start m : List (String × ManagedNode)) (previous : Old)
    → Fresh ids previous
    → Journal start m previous
    → Gone m previous
    → let c = delete_loop ids m previous in
      Journal start c.nodes c.previous × Gone c.nodes c.previous
unfolding delete_loop
delete_loop-Journal [] start m previous f j g = (j, g)
delete_loop-Journal (id ∷ ids) start m previous f j g =
    delete_loop-Journal ids start (delete m id) (remember m previous id)
      (Fresh-put ids previous id (lookup id m) f.1 f.2) (Journal-delete start m previous id j f.0)
      (Gone-delete m previous id g)

put_back-Distinct :
    (previous : Old) (m : List (String × ManagedNode))
    → Distinct m
    → Distinct (rollback_existing previous m)
unfolding rollback_existing
put_back-Distinct [] m d = d
put_back-Distinct ((id, none) ∷ rest) m d = put_back-Distinct rest m d
put_back-Distinct ((id, some n) ∷ rest) m d =
    put_back-Distinct rest (put m id n) (Distinct-put m id n d)

Gone-nil : (m : List (String × ManagedNode)) → Gone m []
unfolding lookup
Gone-nil m id e = absurd (cc)

pub delete_nodes-Consistent :
    (committed : Bool) (ids : List String) (s : Store)
    → Fresh ids []
    → Consistent s
    → Consistent (delete_nodes committed ids s).0
unfolding delete_nodes db_delete_nodes
delete_nodes-Consistent true ids s f h =
    let d = delete_loop-Deleted ids s.nodes [] in
    record {
      same = d.written s.db.nodes h.same;
      keyed = d.keyed h.keyed;
      distinct = d.distinct h.distinct;
    }
delete_nodes-Consistent false ids s f h =
    let c = delete_loop ids s.nodes [] in
    let d = delete_loop-Deleted ids s.nodes [] in
    let (j, g) =
      delete_loop-Journal ids s.nodes s.nodes [] f (Journal-start s.nodes) (Gone-nil s.nodes) in
    let back = Journal-rollback_existing j g in
    record {
      same = λ id. back id ∙ h.same id;
      keyed = Keyed-Same (rollback_existing c.previous c.nodes) s.nodes back h.keyed;
      distinct = put_back-Distinct c.previous c.nodes (d.distinct h.distinct);
    }

edits_deletes-Consistent :
    (committed : Bool) (us : List ManagedNode) (ids : List String) (s : Store)
    → Fresh (ids_of us) []
    → Consistent s
    → Consistent
        (finish committed
          (db_apply_nodes committed us ids)
          (delete_loop_once ids (edits us s.nodes []))
          s).0
unfolding db_apply_nodes upsert_nodes_tx
edits_deletes-Consistent true us ids s f h =
    let d = delete_loop_once-Deleted ids (edits us s.nodes []) in
    record {
      same = d.written (put_nodes us s.db.nodes) (edits-write us s.nodes s.db.nodes [] h.same);
      keyed = d.keyed (edits-Keyed us s.nodes [] h.keyed);
      distinct = d.distinct (edits-Distinct us s.nodes [] h.distinct);
    }
edits_deletes-Consistent false us ids s f h =
    let e = edits us s.nodes [] in
    let d = delete_loop_once-Deleted ids e in
    let j = edits-Journal us s.nodes s.nodes [] f (Journal-start s.nodes) in
    let k =
      failed-Consistent s (delete_loop_once ids e) (delete_loop_once-Journal ids s.nodes e j)
        (d.distinct (edits-Distinct us s.nodes [] h.distinct)) h in
    record { same = k.same; keyed = k.keyed; distinct = k.distinct }

pub apply_node_changes-Consistent :
    (committed : Bool) (now : ℤ) (ns : List ManagedNode) (ids : List String) (s : Store)
    → Fresh (ids_of ns) []
    → Consistent s
    → Consistent (apply_node_changes committed now ns ids s).0
unfolding apply_node_changes
apply_node_changes-Consistent committed now ns ids s f h =
    let (us, e, same_ids) = apply_loop-edits now ns s.nodes [] in
    let f' = subst (λ k. Fresh k []) (sym same_ids) f in
    let written : (delete_loop_once ids (apply_loop now ns s.nodes [])).updated ≡ us =
      delete_loop_once-updated ids _ ∙ ap (λ c. c.updated) e ∙ edits-updated us s.nodes [] in
    rw written (rw e (edits_deletes-Consistent committed us ids s f' h))
