-- ===== src/Importer/Tests.antt =====
-- The theorems on jobs and probes at concrete inputs.
use easy_proxies.Prelude.{
  delete, ◌≤◌, ◌+◌, true, false, none, some, [], ◌∷◌, pos, ◌≡◌, ◌≢◌, refl, String, length, All,
  Distinct, count_values, arith,
}
use easy_proxies.Importer.JobEvents.{Events, Subscriber, publishes, receives, subscribes, calls}
use easy_proxies.Importer.Delivery.{find, newest, newest-calls}
use easy_proxies.Importer.Retention.{
  Job, JobMaps, cleanup_expired_jobs, job_retention_stats, test_job_ttl, refresh_job_ttl,
  connectivity_job_ttl,
}
use easy_proxies.Importer.Cleaning.{Kept, cleanup_expired_jobs_lem}
use easy_proxies.Importer.TagBinding.{JobStatus, job_canceled, summarize, finish_canceled}
use easy_proxies.Importer.TagBindingRun.{new_job, run_tags, nothing_to_do, stage_failed}
use easy_proxies.Importer.Bindings.{ended, Stands, summarize_lem}
use easy_proxies.Importer.Settling.{Settled, new_job-Settled, finish_canceled_error}
use easy_proxies.Importer.ProbeScheduler.{
  ProbeScheduler, ProbePriority, Request, ProbeTask, new_probe_scheduler, register_task, take_slot,
  task_of,
}
use easy_proxies.Importer.ProbeWorker.{close_tasks, begin_run, finish_run, stats}
use easy_proxies.Importer.Probing.{is_running, is_waiting}
use easy_proxies.Importer.Slots.{process, Step, Reach}
use easy_proxies.Importer.Closing.{answers, waits, close_tasks-finish_run}
use easy_proxies.Importer.Scheduling.{Reach-new_probe_scheduler}

abbrev subscriber : Subscriber String
subscriber = record { id = 1; channel = none; received = [] }

abbrev events : Events String
events = record { closed = false; next = 1; subs = subscriber ∷ []; coalesced = 0 }

newest-calls_example :
    (d : Subscriber String) × (find 1
        (calls (subscribes ∷ publishes "e" ∷ receives 1 ∷ publishes "f" ∷ []) events).subs
      ≡ some d)
    × (newest d ≡ some "f")
newest-calls_example =
    newest-calls (subscribes ∷ publishes "e" ∷ receives 1 ∷ publishes "f" ∷ []) 1 events subscriber
      refl (omega arith) refl tt

abbrev old_job : Job
old_job = record { running = false; updated_at = pos 0 }

abbrev running_job : Job
running_job = record { running = true; updated_at = pos 0 }

abbrev maps : JobMaps
maps = record {
  test_jobs = ("a", some old_job) ∷ ("b", some running_job) ∷ [];
  refresh_jobs = ("c", none) ∷ [];
  connectivity_jobs = ("d", some old_job) ∷ [];
  tag_binding_jobs = [];
}

cleanup_expired_jobs_lem_example :
    let now = pos 700000000000 in
    let s' = cleanup_expired_jobs now maps in
    let before = job_retention_stats maps in
    let after = job_retention_stats s' in
    (after.test_running ≡ before.test_running)
    × (after.refresh_running ≡ before.refresh_running)
    × (after.connectivity_running ≡ before.connectivity_running)
    × (after.tag_binding_running ≡ before.tag_binding_running)
    × (cleanup_expired_jobs now s' ≡ s')
    × All (Kept now test_job_ttl) s'.test_jobs
    × All (Kept now refresh_job_ttl) s'.refresh_jobs
    × All (Kept now connectivity_job_ttl) s'.connectivity_jobs
    × All (Kept now refresh_job_ttl) s'.tag_binding_jobs
cleanup_expired_jobs_lem_example = cleanup_expired_jobs_lem (pos 700000000000) maps

new_job-Settled_example : Settled 3 (
    run_tags
      (pos 9)
      0
      ((false, nothing_to_do) ∷ (false, stage_failed "no node") ∷ (true, nothing_to_do) ∷ [])
      (new_job (pos 1) ("a" ∷ "b" ∷ "c" ∷ [])))
new_job-Settled_example =
    new_job-Settled (pos 1) (pos 9) ("a" ∷ "b" ∷ "c" ∷ [])
      ((false, nothing_to_do) ∷ (false, stage_failed "no node") ∷ (true, nothing_to_do) ∷ []) refl

two_tags-Stands : Stands 0 (new_job (pos 1) ("a" ∷ "b" ∷ []))
unfolding new_job
two_tags-Stands = record { final = tt; sized = refl }

finish_canceled_error_example :
    Settled
      (new_job (pos 1) ("a" ∷ "b" ∷ [])).total_tags
      (finish_canceled (pos 5) 0 (new_job (pos 1) ("a" ∷ "b" ∷ [])))
    × ((finish_canceled (pos 5) 0 (new_job (pos 1) ("a" ∷ "b" ∷ []))).status ≡ JobStatus.canceled)
    × ((finish_canceled (pos 5) 0 (new_job (pos 1) ("a" ∷ "b" ∷ []))).error ≢ job_canceled)
finish_canceled_error_example =
    finish_canceled_error (pos 5) 0 (new_job (pos 1) ("a" ∷ "b" ∷ [])) two_tags-Stands

summarize_lem_example :
    let j = new_job (pos 1) ("a" ∷ "b" ∷ []) in
    let j' = summarize j in
    (j'.items ≡ j.items)
    × (j'.total_tags ≡ j.total_tags)
    × (j'.done_tags ≡ ended j.items)
    × (j'.successful + j'.failed + j'.skipped ≡ j'.done_tags)
summarize_lem_example = summarize_lem (new_job (pos 1) ("a" ∷ "b" ∷ []))

abbrev request : Request
request = record { key = "a"; priority = ProbePriority.high; timeout = pos 5; fn = 7; waiter = 3 }

abbrev slotted : ProbeScheduler
slotted = record (new_probe_scheduler 1 2) { slots = 1 }

abbrev probing : ProbeScheduler
probing = (begin_run (λ w. false) "a" 0 (register_task request slotted).0).0

probe_run : Reach (process (new_probe_scheduler 1 2) 0) (process probing 0)
unfolding take_slot new_probe_scheduler
probe_run =
    Reach.next
      (Reach.next (Reach.next Reach.here (Step.takes (new_probe_scheduler 1 2) slotted 0 refl))
        (Step.registers request slotted 0))
      (Step.starts (λ w. false) "a" 0 (register_task request slotted).0 0)

Reach-new_probe_scheduler_example :
    Distinct probing.tasks
    × (length probing.tasks + 0 ≡ probing.slots)
    × (length probing.tasks + 0 ≤ probing.capacity)
    × ((stats probing).queued ≡ pos (count_values is_waiting probing.tasks))
    × ((stats probing).running ≡ pos (count_values is_running probing.tasks))
Reach-new_probe_scheduler_example = Reach-new_probe_scheduler 1 2 probe_run

abbrev busy_task : ProbeTask
busy_task = record (task_of 0 request) { running = true; next_waiters = 4 ∷ [] }

abbrev closing : ProbeScheduler
closing = record (new_probe_scheduler 1 2) { closed = true; tasks = ("a", busy_task) ∷ [] }

close_tasks-finish_run_example :
    answers 4 (close_tasks (finish_run (λ w. false) "a" busy_task closing).0).delivered
    ≡ answers 4 closing.delivered + waits 4 (delete closing.tasks "a")
close_tasks-finish_run_example = close_tasks-finish_run (λ w. false) "a" busy_task closing 4 refl

never_answered :
    answers 4 (close_tasks (finish_run (λ w. false) "a" busy_task closing).0).delivered ≡ 0
unfolding close_tasks finish_run delete new_probe_scheduler
never_answered = refl
