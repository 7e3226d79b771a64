-- ===== src/Importer/Scheduling.antt =====
-- What the probe scheduler promises its callers.
use easy_proxies.Prelude.{
  ℕ, ◌+◌, ◌≤◌, List, [], ◌∷◌, String, pos, length, count_values, Distinct, ◌≡◌, refl, arith,
}
use easy_proxies.Importer.ProbeScheduler.{ProbeTask, new_probe_scheduler}
use easy_proxies.Importer.ProbeWorker.{stats}
use easy_proxies.Importer.Probing.{Process, Balanced, is_running, is_waiting}
use easy_proxies.Importer.Slots.{process, Reach, Step-Balanced}

waiting_or_running :
    (m : List (String × ProbeTask))
    → count_values is_waiting m + count_values is_running m ≡ length m
waiting_or_running [] = omega arith
waiting_or_running (e ∷ m) = ground (arith, waiting_or_running m)

new-Balanced : (workers capacity : ℕ) → Balanced (process (new_probe_scheduler workers capacity) 0)
unfolding new_probe_scheduler
new-Balanced workers capacity = record {
  one_each = tt;
  slots = omega arith;
  bound = omega arith;
  queued = refl;
  running = refl;
}

Reach-Balanced : {p q : Process} → Balanced p → Reach p q → Balanced q
Reach-Balanced h Reach.here = h
Reach-Balanced h (Reach.next r st) = Step-Balanced st (Reach-Balanced h r)

-- In every state that a new probe scheduler reaches, whatever the interleaving of submitters,
-- workers and the start of `Close`: each key has at most one task, the tasks and the calls that
-- hold a slot without one take exactly the slots in use and no more than the capacity, and the
-- statistics report as queued and as running just the tasks that wait and that run.
pub Reach-new_probe_scheduler :
    (workers capacity : ℕ) {p : Process}
    → Reach (process (new_probe_scheduler workers capacity) 0) p
    → Distinct p.scheduler.tasks
      × (length p.scheduler.tasks + p.held ≡ p.scheduler.slots)
      × (length p.scheduler.tasks + p.held ≤ p.scheduler.capacity)
      × ((stats p.scheduler).queued ≡ pos (count_values is_waiting p.scheduler.tasks))
      × ((stats p.scheduler).running ≡ pos (count_values is_running p.scheduler.tasks))
unfolding stats
Reach-new_probe_scheduler workers capacity {p} r =
    let h = Reach-Balanced (new-Balanced workers capacity) r in
    let all = waiting_or_running p.scheduler.tasks in
    (
      h.one_each,
      omega (arith, h.slots, all),
      omega (arith, h.slots, all, h.bound),
      h.queued,
      h.running,
    )
