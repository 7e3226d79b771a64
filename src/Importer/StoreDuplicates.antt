-- ===== src/Importer/StoreDuplicates.antt =====
-- A call of the store that names an id twice, and whose write fails.
use easy_proxies.Prelude.{
  false, none, some, List, [], ◌∷◌, String, lookup, put, delete, lookup-delete, str_eq_self, ◌≡◌,
  refl, ◌∙◌, sym, ap,
}
use easy_proxies.Importer.Nodes.{ManagedNode}
use easy_proxies.Importer.Journal.{remember, rollback_existing}
use easy_proxies.Importer.StateDb.{db_delete_nodes}
use easy_proxies.Importer.Store.{Store, delete_loop, delete_nodes}
use easy_proxies.Importer.StoreKept.{Consistent}

-- The second record of an id writes over the first.
twice_recorded :
    (id : String) (m : List (String × ManagedNode))
    → remember (delete m id) (remember m [] id) id ≡ (id, none) ∷ []
unfolding put
twice_recorded id m =
    rw (str_eq_self id) (ap (λ o. (id, o) ∷ []) (lookup-delete m id id ∙ rw (str_eq_self id) refl))

-- When a deletion names the id of a node twice and its write fails, the node is gone from memory,
-- although the call reports an error and the database, which held the same nodes, still has it.
pub delete_nodes_lost :
    (id : String) (n : ManagedNode) (s : Store)
    → lookup id s.nodes ≡ some n
    → Consistent s
    → let r = delete_nodes false (id ∷ id ∷ []) s in
      (r.1 ≡ false) × (lookup id r.0.nodes ≡ none) × (lookup id r.0.db.nodes ≡ some n)
unfolding delete_nodes delete_loop db_delete_nodes
delete_nodes_lost id n s e h = (
  refl,
  rw (twice_recorded id s.nodes) (
      lost (delete (delete s.nodes id) id)
        (lookup-delete (delete s.nodes id) id id ∙ rw (str_eq_self id) refl)),
  sym (h.same id) ∙ e,
)
  where
    lost :
        (m : List (String × ManagedNode))
        → lookup id m ≡ none
        → lookup id (rollback_existing ((id, none) ∷ []) m) ≡ none
    lost m k = unfold rollback_existing in k
