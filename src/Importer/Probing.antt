-- ===== src/Importer/Probing.antt =====
-- The slots and the counters of the probe scheduler, over every interleaving of its operations.
use easy_proxies.Prelude.{
  ℕ, suc, ◌+◌, ◌≤◌, Bool, true, false, not, none, some, List, String, ℤ, pos, ◌+ℤ◌, ◌-ℤ◌, lookup,
  put, delete, indicator, Distinct, count_values, Distinct-put, Distinct-delete, count-put_absent,
  count-put_present, count-delete, ◌≡◌, arith, Bool-cases, inl, inr, ◌||◌,
}
use easy_proxies.Importer.ProbeScheduler.{
  ProbeTask, ProbeScheduler, Request, attach_task, attach_locked, task_of, register_task,
  drop_queued,
}
use easy_proxies.Importer.ProbeWorker.{finish_run, renewed, active_waiters, no_waiters}

abbrev pub is_running : ProbeTask → Bool
is_running task = task.running

abbrev pub is_waiting : ProbeTask → Bool
is_waiting task = not task.running

-- The scheduler, and how many calls of `Submit` hold a slot but have not registered a task yet.
pub record Process : Type 0 where
  pub scheduler : ProbeScheduler
  pub held : ℕ

-- One task per key; a slot per task and per call that holds one, and no more slots than the
-- capacity; and each counter is the number of tasks it counts.
pub record Balanced (p : Process) : Type 0 where
  pub one_each : Distinct p.scheduler.tasks
  pub slots :
      p.scheduler.slots
      ≡ count_values is_waiting p.scheduler.tasks
        + count_values is_running p.scheduler.tasks
        + p.held
  pub bound : p.scheduler.slots ≤ p.scheduler.capacity
  pub queued : p.scheduler.queued ≡ pos (count_values is_waiting p.scheduler.tasks)
  pub running : p.scheduler.running ≡ pos (count_values is_running p.scheduler.tasks)

inc_pos : {z : ℤ} {n m : ℕ} → z ≡ pos n → m ≡ suc n → z +ℤ pos 1 ≡ pos m
unfolding ◌+ℤ◌
inc_pos e f = ground arith

dec_pos : {z : ℤ} {n m : ℕ} → z ≡ pos n → n ≡ suc m → z -ℤ pos 1 ≡ pos m
unfolding ◌-ℤ◌
dec_pos e f = ground arith

same_pos : {z : ℤ} {n m : ℕ} → z ≡ pos n → m ≡ n → z ≡ pos m
same_pos e f = ground arith

attach_task-running : (r : Request) (t : ProbeTask) → (attach_task r t).running ≡ t.running
unfolding attach_task
attach_task-running r t = ground arith

-- A task of a key is written over with one that runs or waits as it did.
pub attach-Balanced :
    (r : Request) (s : ProbeScheduler) (held : ℕ) (t : ProbeTask)
    → lookup r.key s.tasks ≡ some t
    → Balanced (record { scheduler = s; held = held })
    → Balanced (record { scheduler = attach_locked r t s; held = held })
unfolding attach_locked
attach-Balanced r s held t e h =
    let w = count-put_present is_waiting s.tasks r.key (attach_task r t) e in
    let n = count-put_present is_running s.tasks r.key (attach_task r t) e in
    let same = attach_task-running r t in
    record {
      one_each = Distinct-put s.tasks r.key (attach_task r t) h.one_each;
      slots = ground (arith, h.slots, w, n, same);
      bound = h.bound;
      queued = same_pos h.queued (ground (arith, w, same));
      running = same_pos h.running (ground (arith, n, same));
    }

pub register-Balanced :
    (r : Request) (s : ProbeScheduler) (held : ℕ)
    → lookup r.key s.tasks ≡ none
    → Balanced (record { scheduler = s; held = suc held })
    → Balanced (record { scheduler = (register_task r s).0; held = held })
unfolding register_task
register-Balanced r s held e h =
    let task = task_of s.next_task_id r in
    let w = count-put_absent is_waiting s.tasks r.key task e in
    let n = count-put_absent is_running s.tasks r.key task e in
    rw (register_task, e)
      (record {
        one_each = Distinct-put s.tasks r.key task h.one_each;
        slots = omega (arith, h.slots, w, n);
        bound = h.bound;
        queued = inc_pos h.queued (omega (arith, w));
        running = same_pos h.running (omega (arith, n));
      })

pub drop_queued-Balanced :
    (key : String) (s : ProbeScheduler) (held : ℕ) (t : ProbeTask)
    → lookup key s.tasks ≡ some t
    → t.running ≡ false
    → Balanced (record { scheduler = s; held = held })
    → Balanced (record { scheduler = drop_queued key s; held = held })
drop_queued-Balanced key s held t e f h =
    let w = count-delete is_waiting s.tasks key h.one_each e in
    let n = count-delete is_running s.tasks key h.one_each e in
    record {
      one_each = Distinct-delete s.tasks key h.one_each;
      slots = ground (arith, h.slots, w, n, f);
      bound = ground (arith, h.bound);
      queued = dec_pos h.queued (ground (arith, w, f));
      running = same_pos h.running (ground (arith, n, f));
    }

-- A waiting task starts.
pub start-Balanced :
    (key : String) (s : ProbeScheduler) (held : ℕ) (t : ProbeTask)
    → lookup key s.tasks ≡ some t
    → t.running ≡ false
    → Balanced (record { scheduler = s; held = held })
    → Balanced (record {
      scheduler = record s {
        tasks = put s.tasks key (record t { running = true });
        queued = s.queued -ℤ pos 1;
        running = s.running +ℤ pos 1;
      };
      held = held;
    })
start-Balanced key s held t e f h =
    let t' = record t { running = true } in
    let w = count-put_present is_waiting s.tasks key t' e in
    let n = count-put_present is_running s.tasks key t' e in
    record {
      one_each = Distinct-put s.tasks key t' h.one_each;
      slots = ground (arith, h.slots, w, n, f);
      bound = h.bound;
      queued = dec_pos h.queued (ground (arith, w, f));
      running = inc_pos h.running (ground (arith, n, f));
    }

pub finish_run-Balanced :
    (done : ℕ → Bool) (key : String) (s : ProbeScheduler) (held : ℕ) (t : ProbeTask)
    → lookup key s.tasks ≡ some t
    → t.running ≡ true
    → Balanced (record { scheduler = s; held = held })
    → Balanced (record { scheduler = (finish_run done key t s).0; held = held })
unfolding finish_run
finish_run-Balanced done key s held t e f h = elim (Bool-cases (no_waiters next || s.closed)) [
  | inl y ↦
      rw (finish_run, y)
        (record {
          one_each = Distinct-delete s.tasks key h.one_each;
          slots = ground (arith, h.slots, wd, nd, f);
          bound = ground (arith, h.bound);
          queued = same_pos h.queued (ground (arith, wd, f));
          running = dec_pos h.running (ground (arith, nd, f));
        })
  | inr y ↦
      rw (finish_run, y)
        (record {
          one_each = Distinct-put s.tasks key t' h.one_each;
          slots = ground (arith, h.slots, w, n, f);
          bound = h.bound;
          queued = inc_pos h.queued (ground (arith, w, f));
          running = dec_pos h.running (ground (arith, n, f));
        })
]
  where
    next : List ℕ
    next = active_waiters done t.next_waiters

    t' : ProbeTask
    t' = renewed next t

    wd :
        count_values is_waiting (delete s.tasks key) + indicator (not t.running)
        ≡ count_values is_waiting s.tasks
    wd = count-delete is_waiting s.tasks key h.one_each e

    nd :
        count_values is_running (delete s.tasks key) + indicator t.running
        ≡ count_values is_running s.tasks
    nd = count-delete is_running s.tasks key h.one_each e

    w :
        count_values is_waiting (put s.tasks key t') + indicator (not t.running)
        ≡ count_values is_waiting s.tasks + 1
    w = count-put_present is_waiting s.tasks key t' e

    n :
        count_values is_running (put s.tasks key t') + indicator t.running
        ≡ count_values is_running s.tasks + 0
    n = count-put_present is_running s.tasks key t' e
