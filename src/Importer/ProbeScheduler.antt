-- ===== src/Importer/ProbeScheduler.antt =====
-- internal/importer/probe_scheduler.go: one probe task per key, a bounded number of tasks, two
-- queues. A piece of a method between two locks, channel operations or calls is one operation.
-- A probe function, a waiter and a probe's result are known by their numbers.
use easy_proxies.Prelude.{
  ℕ, suc, ◌+◌, Bool, true, false, ◌&&◌, ◌||◌, Option, none, some, List, [], ◌∷◌, ◌++◌, String, ℤ,
  pos, ◌+ℤ◌, ◌-ℤ◌, if◌then◌else◌, ltb, lookup, put, delete, ◌-◌,
}

pub data ProbePriority : Type 0 where
  normal high : ProbePriority

pub record ProbeTask : Type 0 where
  pub id : ℕ
  pub priority : ProbePriority
  pub fn : ℕ
  pub timeout : ℤ
  pub waiters : List ℕ
  pub next_priority : ProbePriority
  pub next_fn : Option ℕ
  pub next_timeout : ℤ
  pub next_waiters : List ℕ
  pub running : Bool

-- What a waiter gets: the probe's result, or `context.Canceled`.
pub data Answer : Type 0 where
  result : ℕ → Answer
  context_canceled : Answer

-- `delivered` lists what was sent to the waiters' channels, the latest first.
pub record ProbeScheduler : Type 0 where
  pub workers : ℕ
  pub capacity : ℕ
  pub closed : Bool
  pub high : List (String × ℕ)
  pub normal : List (String × ℕ)
  pub slots : ℕ
  pub tasks : List (String × ProbeTask)
  pub next_task_id : ℕ
  pub queued : ℤ
  pub running : ℤ
  pub deduplicated : ℤ
  pub delivered : List (ℕ × Answer)

unfoldable pub new_probe_scheduler : ℕ → ℕ → ProbeScheduler
new_probe_scheduler workers capacity =
    let workers' = if ltb workers 1 then 1 else workers in
    record {
      workers = workers';
      capacity = if ltb capacity workers' then workers' else capacity;
      closed = false;
      high = [];
      normal = [];
      slots = 0;
      tasks = [];
      next_task_id = 0;
      queued = pos 0;
      running = pos 0;
      deduplicated = pos 0;
      delivered = [];
    }

-- What a caller of `Submit` hands in.
pub record Request : Type 0 where
  pub key : String
  pub priority : ProbePriority
  pub timeout : ℤ
  pub fn : ℕ
  pub waiter : ℕ

abbrev pub raise : ProbePriority → ProbePriority → ProbePriority
raise ProbePriority.high old = ProbePriority.high
raise ProbePriority.normal old = old

unfoldable pub attach_task : Request → ProbeTask → ProbeTask
attach_task r task =
    if task.running
    then record task {
      next_waiters = task.next_waiters ++ (r.waiter ∷ []);
      next_fn = some r.fn;
      next_timeout = r.timeout;
      next_priority = raise r.priority task.next_priority;
    }
    else record task { waiters = task.waiters ++ (r.waiter ∷ []) }

unfoldable pub attach_locked : Request → ProbeTask → ProbeScheduler → ProbeScheduler
unfolding attach_task
attach_locked r task s = record s {
  deduplicated = s.deduplicated +ℤ pos 1;
  tasks = put s.tasks r.key (attach_task r task);
}

unfoldable pub attach_existing : Request → ProbeScheduler → ProbeScheduler × Bool
unfolding attach_locked
attach_existing r s = elim (lookup r.key s.tasks) [
  | none ↦ (s, false)
  | some task ↦ (attach_locked r task s, true)
]

-- How far `Submit` gets before it asks for a slot.
pub data Admission : Type 0 where
  refused attached wants_slot : Admission

-- `Submit` up to the second `select`; the first argument says whether the caller's context is done.
unfoldable pub begin_submit : Bool → Request → ProbeScheduler → ProbeScheduler × Admission
unfolding attach_existing
begin_submit ctx_done r s =
    let (s', found) = attach_existing r s in
    if ctx_done || s.closed then (s, refused) else if found then (s', attached) else (s, wants_slot)

-- `s.slots <- struct{}{}`, which waits while the slots are taken.
unfoldable pub take_slot : ProbeScheduler → Option ProbeScheduler
take_slot s = if ltb s.slots s.capacity then some (record s { slots = s.slots + 1 }) else none

-- `<-s.slots`
abbrev pub give_slot : ProbeScheduler → ProbeScheduler
give_slot s = record s { slots = s.slots - 1 }

abbrev pub task_of : ℕ → Request → ProbeTask
task_of id r = record {
  id = id;
  priority = r.priority;
  fn = r.fn;
  timeout = r.timeout;
  waiters = r.waiter ∷ [];
  next_priority = ProbePriority.normal;
  next_fn = none;
  next_timeout = pos 0;
  next_waiters = [];
  running = false;
}

-- `Submit` with a slot: the task is attached to, or is new and has to be enqueued.
unfoldable pub register_task : Request → ProbeScheduler → ProbeScheduler × Bool
unfolding attach_locked
register_task r s = elim (lookup r.key s.tasks) [
  | some task ↦ (give_slot (attach_locked r task s), false)
  | none ↦ (
    record s {
      next_task_id = suc s.next_task_id;
      tasks = put s.tasks r.key (task_of s.next_task_id r);
      queued = s.queued +ℤ pos 1;
    },
    true,
  )
]

-- `select` takes any case that is ready: the flag says whether it takes that of the context.
unfoldable pub enqueue : Bool → String → ProbeTask → ProbeScheduler → ProbeScheduler × Bool
enqueue prefers_done key task s =
    if s.closed && prefers_done then (s, false) else elim task.priority [
      | ProbePriority.high ↦ (record s { high = s.high ++ ((key, task.id) ∷ []) }, true)
      | ProbePriority.normal ↦ (record s { normal = s.normal ++ ((key, task.id) ∷ []) }, true)
    ]

-- A task that is not running is given up with its slot.
abbrev pub drop_queued : String → ProbeScheduler → ProbeScheduler
drop_queued key s = record s {
  tasks = delete s.tasks key;
  queued = s.queued -ℤ pos 1;
  slots = s.slots - 1;
}

-- The rest of `Submit` for a new task.
unfoldable pub enqueue_new : Bool → String → ProbeTask → ProbeScheduler → ProbeScheduler × Bool
unfolding enqueue
enqueue_new prefers_done key task s =
    let (s', sent) = enqueue prefers_done key task s in
    if sent then (s', true) else (drop_queued key s, false)
