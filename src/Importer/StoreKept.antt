-- ===== src/Importer/StoreKept.antt =====
-- The map of nodes in memory against the table in the database.
use easy_proxies.Prelude.{
  Bool, true, false, Option, none, some, List, [], ◌∷◌, String, put, Distinct, Distinct-put,
  Distinct-delete, ◌≡◌, refl, ◌∙◌, sym, ap,
}
use easy_proxies.Importer.Nodes.{ManagedNode}
use easy_proxies.Importer.Journal.{
  remember, rollback, restore_value, Journal, Journal-start, Journal-rollback, Same,
}
use easy_proxies.Importer.StateDb.{db_upsert_nodes, upsert_nodes_tx}
use easy_proxies.Importer.Store.{Store, Old, Change, finish}
use easy_proxies.Importer.StoreEdits.{
  edits, Fresh, ids_of, edits-write, edits-Journal, edits-Keyed, Keyed,
}

-- Memory and database hold the same nodes, under their ids, each once.
pub record Consistent (s : Store) : Type 0 where
  pub same : Same s.nodes s.db.nodes
  pub keyed : Keyed s.nodes
  pub distinct : Distinct s.nodes

pub edits-updated :
    (ns : List ManagedNode) (m : List (String × ManagedNode)) (previous : Old)
    → (edits ns m previous).updated ≡ ns
unfolding edits
edits-updated [] m previous = refl
edits-updated (n ∷ ns) m previous =
    ap (◌∷◌ n) (edits-updated ns (put m n.id n) (remember m previous n.id))

pub edits-Distinct :
    (ns : List ManagedNode) (m : List (String × ManagedNode)) (previous : Old)
    → Distinct m
    → Distinct (edits ns m previous).nodes
unfolding edits
edits-Distinct [] m previous d = d
edits-Distinct (n ∷ ns) m previous d =
    edits-Distinct ns (put m n.id n) (remember m previous n.id) (Distinct-put m n.id n d)

restore_value-Distinct :
    (id : String) (o : Option ManagedNode) (m : List (String × ManagedNode))
    → Distinct m
    → Distinct (restore_value id o m)
restore_value-Distinct id none m d = Distinct-delete m id d
restore_value-Distinct id (some n) m d = Distinct-put m id n d

pub rollback-Distinct :
    (previous : Old) (m : List (String × ManagedNode)) → Distinct m → Distinct (rollback previous m)
unfolding rollback
rollback-Distinct [] m d = d
rollback-Distinct ((id, o) ∷ rest) m d =
    rollback-Distinct rest (restore_value id o m) (restore_value-Distinct id o m d)

pub Keyed-Same : (m n : List (String × ManagedNode)) → Same m n → Keyed n → Keyed m
Keyed-Same m n h k id x e = k id x (sym (h id) ∙ e)

-- A failed write is taken back whole.
pub failed-Consistent :
    (s : Store) (c : Change)
    → Journal s.nodes c.nodes c.previous
    → Distinct c.nodes
    → Consistent s
    → Consistent (record s { nodes = rollback c.previous c.nodes })
failed-Consistent s c j d h = record {
  same = λ id. Journal-rollback j id ∙ h.same id;
  keyed = Keyed-Same (rollback c.previous c.nodes) s.nodes (Journal-rollback j) h.keyed;
  distinct = rollback-Distinct c.previous c.nodes d;
}

edits-finish-Consistent :
    (committed : Bool) (us : List ManagedNode) (s : Store)
    → Fresh (ids_of us) []
    → Consistent s
    → Consistent (finish committed (db_upsert_nodes committed us) (edits us s.nodes []) s).0
unfolding db_upsert_nodes upsert_nodes_tx
edits-finish-Consistent true us s f h = record {
  same = edits-write us s.nodes s.db.nodes [] h.same;
  keyed = edits-Keyed us s.nodes [] h.keyed;
  distinct = edits-Distinct us s.nodes [] h.distinct;
}
edits-finish-Consistent false us s f h =
    let c = edits us s.nodes [] in
    let k =
      failed-Consistent s c (edits-Journal us s.nodes s.nodes [] f (Journal-start s.nodes))
        (edits-Distinct us s.nodes [] h.distinct) h in
    record { same = k.same; keyed = k.keyed; distinct = k.distinct }

-- An operation whose loop comes to edits of fresh ids.
pub finish-Consistent :
    (committed : Bool) (us : List ManagedNode) (c : Change) (s : Store)
    → c ≡ edits us s.nodes []
    → Fresh (ids_of us) []
    → Consistent s
    → Consistent (finish committed (db_upsert_nodes committed c.updated) c s).0
finish-Consistent committed us c s e f h =
    let e' : c.updated ≡ us = ap (λ x. x.updated) e ∙ edits-updated us s.nodes [] in
    rw e' (rw e (edits-finish-Consistent committed us s f h))
