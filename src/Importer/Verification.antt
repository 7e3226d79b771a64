-- ===== src/Importer/Verification.antt =====
-- internal/importer/verification.go: the results and the progress of the site targets of nodes. The
-- passes run elsewhere: their events are arguments.
use Prim.Native.String.{◌++◌ as append}
use easy_proxies.Prelude.{
  ℕ, Bool, true, false, not, ◌&&◌, Option, none, some, List, [], ◌∷◌, String, ℤ, pos, ◌+ℤ◌, ◌-ℤ◌,
  lookup, put, if◌then◌else◌,
}

-- Of a result, what the passes read and write.
pub record ConnectivityResult : Type 0 where
  pub target_id : String
  pub success : Bool
  pub first_success : Bool
  pub retryable : Bool

pub record SiteTestProgress : Type 0 where
  pub target_id : String
  pub total : ℕ
  pub done : ℤ
  pub passed : ℤ
  pub failed : ℤ
  pub retried : ℤ
  pub recovered : ℤ

-- An event of a pass: a node, and the result on one target.
pub record SiteEvent : Type 0 where
  pub node_id : String
  pub result : ConnectivityResult

abbrev pub Results : Type 0
Results = List (String × ConnectivityResult)

abbrev pub Progress : Type 0
Progress = List (String × SiteTestProgress)

pub record Sites : Type 0 where
  pub results : Results
  pub progress : Progress

unfoldable pub connectivity_result_key : String → String → String
connectivity_result_key node_id target_id = append node_id (append "\0" target_id)

abbrev pub event_key : SiteEvent → String
event_key e = connectivity_result_key e.node_id e.result.target_id

unfoldable pub start_progress : ℕ → List String → Progress → Progress
start_progress total [] m = m
start_progress total (target ∷ targets) m = start_progress total targets (
    put m target (record {
      target_id = target;
      total = total;
      done = pos 0;
      passed = pos 0;
      failed = pos 0;
      retried = pos 0;
      recovered = pos 0;
    }))

abbrev pub counted : Bool → SiteTestProgress → SiteTestProgress
counted true item = record item { done = item.done +ℤ pos 1; passed = item.passed +ℤ pos 1 }
counted false item = record item { done = item.done +ℤ pos 1; failed = item.failed +ℤ pos 1 }

-- A round of the loop over the first pass.
unfoldable pub first_event : SiteEvent → Sites → Sites
first_event e s = elim (lookup e.result.target_id s.progress) [
  | none ↦ s
  | some item ↦ record {
    results = put s.results (event_key e) e.result;
    progress = put s.progress e.result.target_id (counted e.result.success item);
  }
]

-- A missing result reads as one that failed.
abbrev pub previous_of : Option ConnectivityResult → ConnectivityResult
previous_of (some r) = r
previous_of none = record {
  target_id = "";
  success = false;
  first_success = false;
  retryable = false;
}

abbrev pub recounted : Bool → SiteTestProgress → SiteTestProgress
recounted true item = record item {
  retried = item.retried +ℤ pos 1;
  failed = item.failed -ℤ pos 1;
  passed = item.passed +ℤ pos 1;
  recovered = item.recovered +ℤ pos 1;
}
recounted false item = record item { retried = item.retried +ℤ pos 1 }

-- A round of the loop over the second pass.
unfoldable pub retry_event : SiteEvent → Sites → Sites
retry_event e s =
    let previous = previous_of (lookup (event_key e) s.results) in
    elim (lookup e.result.target_id s.progress) [
      | none ↦ s
      | some item ↦ record {
        results =
            put s.results (event_key e)
              (record e.result { first_success = previous.first_success });
        progress =
            put s.progress e.result.target_id
              (recounted (not previous.success && e.result.success) item);
      }
    ]

unfoldable pub first_events : List SiteEvent → Sites → Sites
first_events [] s = s
first_events (e ∷ es) s = first_events es (first_event e s)

unfoldable pub retry_events : List SiteEvent → Sites → Sites
retry_events [] s = s
retry_events (e ∷ es) s = retry_events es (retry_event e s)

abbrev pub needs_retry : Option ConnectivityResult → Bool
needs_retry none = false
needs_retry (some r) = not r.success && r.retryable

-- The pairs that the second pass is asked for.
unfoldable pub retry_targets_of : String → List String → Results → List (String × String)
unfolding connectivity_result_key
retry_targets_of node [] results = []
retry_targets_of node (target ∷ targets) results =
    let rest = retry_targets_of node targets results in
    if needs_retry (lookup (connectivity_result_key node target) results)
    then (node, target) ∷ rest
    else rest
