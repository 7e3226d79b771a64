-- ===== src/Importer/StoreTests.antt =====
-- A store with one node that is being tested, and nodes with sources.
use easy_proxies.Prelude.{
  Bool, true, false, none, some, List, [], ◌∷◌, pos, refl, lookup, put, ◌≡◌, ◌≤◌, length, Distinct,
  ◌||◌,
}
use easy_proxies.Importer.Nodes.{
  ImportJob, ImportStatus, ManagedNode, ManagedNodeState, NodeSourceRef,
}
use easy_proxies.Importer.Sources.{merge_node_source_refs, node_source_refs}
use easy_proxies.Importer.SourceMerge.{identified, identified-merge_node_source_refs}
use easy_proxies.Importer.Store.{Store, delete_nodes}
use easy_proxies.Importer.StoreStates.{recover_stale_testing_nodes}
use easy_proxies.Importer.StoreEdits.{Keyed, Keyed-put}
use easy_proxies.Importer.StoreJobs.{
  prune_jobs, max_stored_jobs, prune, scan_jobs, sort_jobs, remove_jobs,
}
use easy_proxies.Importer.StoreJobBound.{length-prune_jobs}
use easy_proxies.Importer.StoreJobLaws.{JobCall, job_call, job_call_error}
use easy_proxies.Importer.Journal.{Same}
use easy_proxies.Importer.StoreKept.{Consistent}
use easy_proxies.Importer.StoreRuns.{Call, calls, calls-Consistent, AllProper}
use easy_proxies.Importer.StoreDuplicates.{delete_nodes_lost}
use easy_proxies.Importer.StoreRecovery.{Recovers, recover_stale_testing_nodes_lem}

abbrev feed : NodeSourceRef
feed = record {
  tag_prefix = "x";
  import_id = "i";
  mode = "url";
  source = " http://a ";
  format = "";
  chain_profile_id = "";
  fetch_policy = "";
}

abbrev tested : ManagedNode
tested = record {
  id = "n";
  uri = "http://n";
  chain_profile_id = "";
  original_name = "n";
  name = "n";
  tag_prefix = "x";
  import_id = "i";
  import_mode = "url";
  import_source = "http://a";
  import_format = "";
  source_refs = [];
  country_code = "";
  country_name = "";
  latency_ms = pos 0;
  port = 0;
  state = ManagedNodeState.testing;
  enabled = true;
  in_pool = false;
  order = pos 0;
  consecutive_failures = pos 0;
  last_error = "";
  last_test_at = pos 5;
  created_at = pos 1;
  updated_at = pos 1;
}

abbrev fed : ManagedNode
fed = record tested { source_refs = feed ∷ [] }

abbrev store : Store
store = record {
  db = record { nodes = ("n", tested) ∷ []; jobs = [] };
  nodes = ("n", tested) ∷ [];
  jobs = [];
}

none-Keyed : Keyed []
unfolding lookup
none-Keyed id n e = absurd (cc)

store-Consistent : Consistent store
unfolding lookup put
store-Consistent = record {
  same = λ id. refl;
  keyed = Keyed-put [] tested none-Keyed;
  distinct = (refl, tt);
}

abbrev script : List (Bool × Call)
script =
    (false, Call.upserts (pos 7) (fed ∷ []))
    ∷ (true, Call.marks (pos 8) (("n", 24000) ∷ []))
    ∷ (false, Call.deletes ("n" ∷ []))
    ∷ (true, Call.recovers (pos 9))
    ∷ []

script-AllProper : AllProper script
unfolding lookup
script-AllProper = ((refl, tt, tt), ((refl, tt, tt), ((refl, tt, tt), (tt, tt))))

calls-Consistent_example : Consistent (calls script store)
calls-Consistent_example = calls-Consistent script store script-AllProper store-Consistent

store_lookup : lookup "n" store.nodes ≡ some tested
unfolding lookup
store_lookup = refl

delete_nodes_lost_example :
    ((delete_nodes false ("n" ∷ "n" ∷ []) store).1 ≡ false)
    × (lookup "n" (delete_nodes false ("n" ∷ "n" ∷ []) store).0.nodes ≡ none)
    × (lookup "n" (delete_nodes false ("n" ∷ "n" ∷ []) store).0.db.nodes ≡ some tested)
delete_nodes_lost_example = delete_nodes_lost "n" tested store store_lookup store-Consistent

recover_stale_testing_nodes_lem_example :
    Recovers
      (pos 9)
      (lookup "n" store.nodes)
      (lookup "n" (recover_stale_testing_nodes true (pos 9) store).0.0.nodes)
recover_stale_testing_nodes_lem_example =
    recover_stale_testing_nodes_lem (pos 9) store "n" store-Consistent

identified-merge_node_source_refs_example :
    identified "k" (merge_node_source_refs tested fed).source_refs
    ≡ (identified "k" (node_source_refs tested) || identified "k" (node_source_refs fed))
identified-merge_node_source_refs_example = identified-merge_node_source_refs "k" tested fed

abbrev expired_job : ImportJob
expired_job = record {
  id = "j";
  status = ImportStatus.running;
  probe_pending = pos 3;
  error = "";
  node_ids = [];
  created_at = pos 1;
  updated_at = pos 2;
}

abbrev job_store : Store
job_store = record store { jobs = ("j", expired_job) ∷ [] }

unwritten_prune : (job_call false (JobCall.prunes (pos 5) true) job_store).1 ≡ false
unfolding job_call prune_jobs prune scan_jobs sort_jobs remove_jobs
unwritten_prune = refl

job_call_error_example :
    Same (job_call false (JobCall.prunes (pos 5) true) job_store).0.jobs job_store.jobs
    × ((job_call false (JobCall.prunes (pos 5) true) job_store).0.db ≡ job_store.db)
job_call_error_example =
    job_call_error false (JobCall.prunes (pos 5) true) job_store unwritten_prune

job_store-Distinct : Distinct job_store.jobs
unfolding lookup
job_store-Distinct = (refl, tt)

length-prune_jobs_example : length (prune_jobs true (pos 5) true job_store).0.jobs ≤ max_stored_jobs
length-prune_jobs_example = length-prune_jobs (pos 5) job_store job_store-Distinct
