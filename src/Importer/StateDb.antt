-- ===== src/Importer/StateDb.antt =====
-- internal/importer/state_db.go: the two tables behind the store. A write is one transaction, which
-- SQLite commits whole or not at all: the first argument says whether it was committed. The
-- payloads are the values themselves.
use easy_proxies.Prelude.{Bool, List, [], ◌∷◌, String, put, delete, if◌then◌else◌}
use easy_proxies.Importer.Nodes.{ManagedNode, ImportJob, compact_persisted_job}

pub record StateDb : Type 0 where
  pub nodes : List (String × ManagedNode)
  pub jobs : List (String × ImportJob)

abbrev pub write : Bool → (StateDb → StateDb) → StateDb → StateDb
write committed fn db = if committed then fn db else db

unfoldable pub put_nodes :
    List ManagedNode → List (String × ManagedNode) → List (String × ManagedNode)
put_nodes [] m = m
put_nodes (node ∷ nodes) m = put_nodes nodes (put m node.id node)

unfoldable pub put_jobs : List ImportJob → List (String × ImportJob) → List (String × ImportJob)
put_jobs [] m = m
put_jobs (job ∷ jobs) m = put_jobs jobs (put m job.id (compact_persisted_job job))

unfoldable pub delete_all {ℓ} : {V : Type ℓ} → List String → List (String × V) → List (String × V)
delete_all [] m = m
delete_all (id ∷ ids) m = delete_all ids (delete m id)

unfoldable pub upsert_nodes_tx : List ManagedNode → StateDb → StateDb
unfolding put_nodes
upsert_nodes_tx nodes db = record db { nodes = put_nodes nodes db.nodes }

unfoldable pub upsert_jobs_tx : List ImportJob → StateDb → StateDb
unfolding put_jobs
upsert_jobs_tx jobs db = record db { jobs = put_jobs jobs db.jobs }

unfoldable pub db_delete_nodes : Bool → List String → StateDb → StateDb
unfolding delete_all
db_delete_nodes committed ids db =
    write committed (λ d. record d { nodes = delete_all ids d.nodes }) db

unfoldable pub db_upsert_nodes : Bool → List ManagedNode → StateDb → StateDb
unfolding upsert_nodes_tx
db_upsert_nodes committed nodes db = write committed (upsert_nodes_tx nodes) db

unfoldable pub db_apply_nodes : Bool → List ManagedNode → List String → StateDb → StateDb
unfolding upsert_nodes_tx delete_all
db_apply_nodes committed nodes deleted db =
    write committed
      (λ d. let d' = upsert_nodes_tx nodes d in record d' { nodes = delete_all deleted d'.nodes })
      db

unfoldable pub db_upsert_jobs : Bool → List ImportJob → StateDb → StateDb
unfolding upsert_jobs_tx
db_upsert_jobs committed jobs db = write committed (upsert_jobs_tx jobs) db

unfoldable pub db_apply_jobs : Bool → List ImportJob → List String → StateDb → StateDb
unfolding upsert_jobs_tx delete_all
db_apply_jobs committed jobs deleted db =
    write committed
      (λ d. let d' = upsert_jobs_tx jobs d in record d' { jobs = delete_all deleted d'.jobs }) db

abbrev pub values_of {ℓ} : {V : Type ℓ} → List (String × V) → List V
values_of [] = []
values_of ((id, value) ∷ rest) = value ∷ values_of rest

unfoldable pub replace_state_tx :
    List (String × ManagedNode) → List (String × ImportJob) → StateDb → StateDb
unfolding upsert_nodes_tx upsert_jobs_tx
replace_state_tx nodes jobs db =
    upsert_jobs_tx (values_of jobs)
      (upsert_nodes_tx (values_of nodes) (record { nodes = []; jobs = [] }))

unfoldable pub db_replace :
    Bool → List (String × ManagedNode) → List (String × ImportJob) → StateDb → StateDb
unfolding replace_state_tx
db_replace committed nodes jobs db = write committed (replace_state_tx nodes jobs) db
