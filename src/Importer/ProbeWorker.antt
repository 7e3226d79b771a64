-- ===== src/Importer/ProbeWorker.antt =====
-- internal/importer/probe_scheduler.go: the workers of the probe scheduler, and its end.
use easy_proxies.Prelude.{
  ℕ, Bool, true, false, not, ◌&&◌, ◌||◌, Option, none, some, List, [], ◌∷◌, ◌++◌, map, String, ℤ,
  pos, ◌+ℤ◌, ◌-ℤ◌, if◌then◌else◌, ◌==◌, lookup, put, delete, filter, leb_ℤ, ◌-◌,
}
use easy_proxies.Importer.ProbeScheduler.{
  Answer, ProbePriority, ProbeScheduler, ProbeTask, context_canceled, drop_queued, enqueue,
}

-- The next task of a worker, `none` when it waits or stops. The flags say which case a `select`
-- takes of those that are ready: that of the context, and else that of the high queue.
unfoldable pub next_task : Bool → ProbeScheduler → Option (String × ℕ) × ProbeScheduler
next_task prefers_done s = elim s.high [
  | entry ∷ rest ↦ (some entry, record s { high = rest })
  | [] ↦ if s.closed && prefers_done then (none, s) else elim s.normal [
    | [] ↦ (none, s)
    | entry ∷ rest ↦ (some entry, record s { normal = rest })
  ]
]

-- `done` says whose context is done.
unfoldable pub active_waiters : (ℕ → Bool) → List ℕ → List ℕ
active_waiters done waiters = filter (λ w. not (done w)) waiters

-- A run of a task: it is not the one of its key, nobody waits for it, or it starts, with its
-- waiters.
pub data RunStart : Type 0 where
  ignored abandoned : RunStart
  started : List ℕ → RunStart

abbrev pub no_waiters : List ℕ → Bool
no_waiters [] = true
no_waiters (w ∷ ws) = false

-- `run` up to `execute`.
unfoldable pub begin_run : (ℕ → Bool) → String → ℕ → ProbeScheduler → ProbeScheduler × RunStart
unfolding active_waiters
begin_run done key id s = elim (lookup key s.tasks) [
  | none ↦ (s, ignored)
  | some task ↦
      let waiters = active_waiters done task.waiters in
      if not (task.id == id) || task.running
      then (s, ignored)
      else if no_waiters waiters
      then (drop_queued key s, abandoned)
      else (
        record s {
          tasks = put s.tasks key (record task { running = true });
          queued = s.queued -ℤ pos 1;
          running = s.running +ℤ pos 1;
        },
        started waiters,
      )
]

abbrev pub default_probe_timeout : ℤ
default_probe_timeout = pos 5000000000

-- `timeout` of `execute`, whose result is that of the probe function.
unfoldable pub execute_timeout : ℤ → ℤ
execute_timeout timeout =
    if leb_ℤ timeout (pos 0)
    then default_probe_timeout +ℤ default_probe_timeout +ℤ pos 1500000000
    else timeout

-- The result goes to those who still listen.
unfoldable pub deliver : (ℕ → Bool) → Answer → List ℕ → ProbeScheduler → ProbeScheduler
unfolding active_waiters
deliver done answer waiters s = record s {
  delivered = map (λ w. (w, answer)) (active_waiters done waiters) ++ s.delivered;
}

-- The next round of a task; where callers wait for one, `attach_task` has set its function.
abbrev pub renewed : List ℕ → ProbeTask → ProbeTask
renewed next task = record task {
  running = false;
  priority = task.next_priority;
  fn = elim task.next_fn [ none ↦ task.fn | some fn ↦ fn ];
  timeout = task.next_timeout;
  waiters = next;
  next_priority = ProbePriority.normal;
  next_fn = none;
  next_timeout = pos 0;
  next_waiters = [];
}

-- `run` behind the delivery, up to `enqueue`; the flag says whether the task goes on.
unfoldable pub finish_run : (ℕ → Bool) → String → ProbeTask → ProbeScheduler → ProbeScheduler × Bool
unfolding active_waiters
finish_run done key task s =
    let next = active_waiters done task.next_waiters in
    if no_waiters next || s.closed
    then (
      record s { tasks = delete s.tasks key; running = s.running -ℤ pos 1; slots = s.slots - 1 },
      false,
    )
    else (
      record s {
        tasks = put s.tasks key (renewed next task);
        running = s.running -ℤ pos 1;
        queued = s.queued +ℤ pos 1;
      },
      true,
    )

-- The end of `run` for a task that goes on.
unfoldable pub enqueue_renewed : Bool → String → ProbeTask → ProbeScheduler → ProbeScheduler
unfolding enqueue deliver
enqueue_renewed prefers_done key task s =
    let (s', sent) = enqueue prefers_done key task s in
    if sent then s' else deliver (λ w. false) context_canceled task.waiters (drop_queued key s)

-- `s.cancel()`, the first step of `Close`.
unfoldable pub cancel : ProbeScheduler → ProbeScheduler
cancel s = record s { closed = true }

unfoldable pub cancel_waiters : List (String × ProbeTask) → List (ℕ × Answer) → List (ℕ × Answer)
cancel_waiters [] sent = sent
cancel_waiters ((key, task) ∷ rest) sent =
    cancel_waiters rest
      (map (λ w. (w, context_canceled)) (task.waiters ++ task.next_waiters) ++ sent)

-- `Close` behind the wait for the workers.
unfoldable pub close_tasks : ProbeScheduler → ProbeScheduler
unfolding cancel_waiters
close_tasks s = record s { delivered = cancel_waiters s.tasks s.delivered; tasks = [] }

pub record ProbeSchedulerStats : Type 0 where
  pub capacity : ℕ
  pub workers : ℕ
  pub queued : ℤ
  pub running : ℤ
  pub deduplicated : ℤ

unfoldable pub stats : ProbeScheduler → ProbeSchedulerStats
stats s = record {
  capacity = s.capacity;
  workers = s.workers;
  queued = s.queued;
  running = s.running;
  deduplicated = s.deduplicated;
}
