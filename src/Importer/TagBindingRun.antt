-- ===== src/Importer/TagBindingRun.antt =====
-- internal/importer/tag_binding.go: the run of a tag binding job over its tags.
use easy_proxies.Prelude.{
  ℕ, ◌+◌, Bool, true, false, Option, none, some, List, [], ◌∷◌, String, ℤ, if◌then◌else◌, length,
}
use easy_proxies.Importer.TagBinding.{
  ImportJob, Item, ItemStatus, JobStatus, TagBindingJob, finish_canceled, finish_item, no_error,
  no_import, summarize, terminating, update_item,
}

-- What happens to one tag: staging fails or finds nothing to do, the commit fails, or the import
-- job ends in one of its ways. The last argument says whether the context is cancelled by then.
pub data TagRun : Type 0 where
  stage_failed : String → TagRun
  nothing_to_do : TagRun
  commit_failed : String → TagRun
  import_canceled : String → ImportJob → Option String → Bool → TagRun
  import_failed : String → ImportJob → String → TagRun
  import_passed : String → ImportJob → TagRun

-- What the staged nodes suffer: removed after a failure.
pub data Cleanup : Type 0 where
  no_cleanup cleanup : Cleanup

abbrev pub prepare : ℤ → ℕ → TagBindingJob → TagBindingJob
prepare now index =
    update_item now index (λ item. record item { status = ItemStatus.preparing; error = "" })

abbrev pub begin_testing : ℤ → ℕ → String → TagBindingJob → TagBindingJob
begin_testing now index id =
    update_item now index (λ item. record item { status = ItemStatus.testing; job_id = id })

-- One round of the loop of `runTagBindingJob`, up to the check of the context behind a wait.
unfoldable pub run_tag : ℤ → ℕ → TagRun → TagBindingJob → TagBindingJob × Cleanup
unfolding finish_item update_item
run_tag now index (stage_failed err) j =
    (finish_item now index ItemStatus.failed no_import (some err) (prepare now index j), no_cleanup)
run_tag now index nothing_to_do j =
    (finish_item now index ItemStatus.skipped no_import none (prepare now index j), no_cleanup)
run_tag now index (commit_failed err) j =
    (finish_item now index ItemStatus.failed no_import (some err) (prepare now index j), cleanup)
run_tag now index (import_canceled id child err stop) j = (
  finish_item now index ItemStatus.canceled child err
      (begin_testing now index id (prepare now index j)),
  cleanup,
)
run_tag now index (import_failed id child message) j = (
  finish_item now index ItemStatus.failed child (some message)
      (begin_testing now index id (prepare now index j)),
  cleanup,
)
run_tag now index (import_passed id child) j = (
  finish_item now index ItemStatus.completed child none
      (begin_testing now index id (prepare now index j)),
  no_cleanup,
)

abbrev pub stops_after : TagRun → Bool
stops_after (import_canceled id child err stop) = stop
stops_after _ = false

-- The loop of `runTagBindingJob`: at each tag, whether the context is cancelled, and the tag's run.
unfoldable pub run_tags : ℤ → ℕ → List (Bool × TagRun) → TagBindingJob → TagBindingJob
unfolding run_tag finish_canceled summarize
run_tags now index [] j = record (summarize j) { updated_at = now }
run_tags now index ((cancelled, r) ∷ rest) j =
    let j' = (run_tag now index r j).0 in
    let onward = run_tags now (index + 1) rest j' in
    if cancelled
    then finish_canceled now index j
    else if stops_after r
    then finish_canceled now (index + 1) j'
    else onward

-- `CancelTagBindingJob`, on the job; the second component says whether the context is cancelled.
unfoldable pub cancel_tag_binding_job : ℤ → TagBindingJob → TagBindingJob × Bool
cancel_tag_binding_job now j = elim j.status [
  | JobStatus.running ↦ (record j { error = terminating; updated_at = now }, true)
  | _ ↦ (j, false)
]

-- `StartTagBinding` leaves every item waiting.
abbrev pub waiting_item : ℤ → String → Item
waiting_item now tag = record {
  tag_prefix = tag;
  status = ItemStatus.waiting;
  job_id = "";
  total = 0;
  passed = 0;
  failed = 0;
  promoted = 0;
  error = "";
  updated_at = now;
}

abbrev pub waiting_items : ℤ → List String → List Item
waiting_items now [] = []
waiting_items now (tag ∷ tags) = waiting_item now tag ∷ waiting_items now tags

unfoldable pub new_job : ℤ → List String → TagBindingJob
new_job now tags = record {
  status = JobStatus.running;
  total_tags = length tags;
  done_tags = 0;
  successful = 0;
  failed = 0;
  skipped = 0;
  items = waiting_items now tags;
  error = no_error;
  updated_at = now;
}
