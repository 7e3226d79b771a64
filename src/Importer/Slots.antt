-- ===== src/Importer/Slots.antt =====
-- The probe scheduler in any interleaving of submitters, workers and the start of `Close`.
use easy_proxies.Prelude.{
  ℕ, suc, Bool, true, false, not, some, List, String, lookup, ◌≡◌, refl, arith, Option-cases,
  Bool-cases, inl, inr, ◌||◌, ◌==◌, ltb, subst, some_eq, ltb→lt, ◌∙◌,
}
use easy_proxies.Importer.ProbeScheduler.{
  ProbeTask, ProbeScheduler, Request, Answer, context_canceled, attach_existing, begin_submit,
  take_slot, register_task, enqueue, enqueue_new, attach_locked, drop_queued, give_slot,
}
use easy_proxies.Importer.ProbeWorker.{
  next_task, begin_run, finish_run, enqueue_renewed, deliver, cancel, active_waiters, no_waiters,
}
use easy_proxies.Importer.Probing.{
  Process, Balanced, attach-Balanced, register-Balanced, drop_queued-Balanced, start-Balanced,
  finish_run-Balanced,
}

abbrev pub process : ProbeScheduler → ℕ → Process
process s held = record { scheduler = s; held = held }

-- The pieces of `Submit`, of a worker's loop and of `Close`, in any order. A task is enqueued when
-- it was registered or renewed, and is finished when it runs.
pub data Step : Process → Process → Type 0 where
  submits :
      (ctx_done : Bool) (r : Request) (s : ProbeScheduler) (held : ℕ)
      → Step (process s held) (process (begin_submit ctx_done r s).0 held)
  takes :
      (s s' : ProbeScheduler) (held : ℕ)
      → take_slot s ≡ some s'
      → Step (process s held) (process s' (suc held))
  registers :
      (r : Request) (s : ProbeScheduler) (held : ℕ)
      → Step (process s (suc held)) (process (register_task r s).0 held)
  enqueues :
      (prefers_done : Bool) (key : String) (task : ProbeTask) (s : ProbeScheduler) (held : ℕ)
      → lookup key s.tasks ≡ some task
      → task.running ≡ false
      → Step (process s held) (process (enqueue_new prefers_done key task s).0 held)
  enqueues_again :
      (prefers_done : Bool) (key : String) (task : ProbeTask) (s : ProbeScheduler) (held : ℕ)
      → lookup key s.tasks ≡ some task
      → task.running ≡ false
      → Step (process s held) (process (enqueue_renewed prefers_done key task s) held)
  fetches :
      (prefers_done : Bool) (s : ProbeScheduler) (held : ℕ)
      → Step (process s held) (process (next_task prefers_done s).1 held)
  starts :
      (done : ℕ → Bool) (key : String) (id : ℕ) (s : ProbeScheduler) (held : ℕ)
      → Step (process s held) (process (begin_run done key id s).0 held)
  delivers :
      (done : ℕ → Bool) (answer : Answer) (waiters : List ℕ) (s : ProbeScheduler) (held : ℕ)
      → Step (process s held) (process (deliver done answer waiters s) held)
  finishes :
      (done : ℕ → Bool) (key : String) (task : ProbeTask) (s : ProbeScheduler) (held : ℕ)
      → lookup key s.tasks ≡ some task
      → task.running ≡ true
      → Step (process s held) (process (finish_run done key task s).0 held)
  cancels : (s : ProbeScheduler) (held : ℕ) → Step (process s held) (process (cancel s) held)

pub data Reach (start : Process) : Process → Type 0 where
  here : Reach start start
  next : {p q : Process} → Reach start p → Step p q → Reach start q

begin_submit-Balanced :
    (ctx_done : Bool) (r : Request) (s : ProbeScheduler) (held : ℕ)
    → Balanced (process s held)
    → Balanced (process (begin_submit ctx_done r s).0 held)
unfolding begin_submit attach_existing
begin_submit-Balanced c r s held h = elim (Bool-cases (c || s.closed)) [
  | inl y ↦ rw (begin_submit, y) h
  | inr y ↦ elim (Option-cases (lookup r.key s.tasks)) [
    | inl e ↦ rw (begin_submit, y) (rw (attach_existing, e) h)
    | inr (t, e) ↦ rw (begin_submit, y) (rw (attach_existing, e) (attach-Balanced r s held t e h))
  ]
]

give_slot-Balanced :
    (s : ProbeScheduler) (held : ℕ)
    → Balanced (process s (suc held))
    → Balanced (process (give_slot s) held)
give_slot-Balanced s held h = record {
  one_each = h.one_each;
  slots = ground (arith, h.slots);
  bound = ground (arith, h.bound);
  queued = h.queued;
  running = h.running;
}

take_slot-Balanced :
    (s s' : ProbeScheduler) (held : ℕ)
    → take_slot s ≡ some s'
    → Balanced (process s held)
    → Balanced (process s' (suc held))
unfolding take_slot
take_slot-Balanced s s' held e h = elim (Bool-cases (ltb s.slots s.capacity)) [
  | inl y ↦
      subst (λ q. Balanced (process q (suc held))) (some_eq (rw (take_slot, y) at e))
        (record {
          one_each = h.one_each;
          slots = omega (arith, h.slots);
          bound = ground (arith, ltb→lt s.slots s.capacity y);
          queued = h.queued;
          running = h.running;
        })
  | inr n ↦ absurd (ground (arith, e))
]

register_task-Balanced :
    (r : Request) (s : ProbeScheduler) (held : ℕ)
    → Balanced (process s (suc held))
    → Balanced (process (register_task r s).0 held)
unfolding register_task
register_task-Balanced r s held h = elim (Option-cases (lookup r.key s.tasks)) [
  | inl e ↦ register-Balanced r s held e h
  | inr (t, e) ↦
      rw (register_task, e)
        (give_slot-Balanced (attach_locked r t s) held (attach-Balanced r s (suc held) t e h))
]

-- What only the queues, the channels and the context tell apart.
abbrev SameTasks : ProbeScheduler → ProbeScheduler → Type 0
SameTasks s t =
    (t.tasks ≡ s.tasks)
    × (t.slots ≡ s.slots)
    × (t.capacity ≡ s.capacity)
    × (t.queued ≡ s.queued)
    × (t.running ≡ s.running)

frame-Balanced :
    (s t : ProbeScheduler) (held : ℕ)
    → SameTasks s t
    → Balanced (process s held)
    → Balanced (process t held)
frame-Balanced s t held (a, b, c, d, e) h = record {
  one_each = rw a h.one_each;
  slots = rw a (b ∙ h.slots);
  bound = rw b (rw c h.bound);
  queued = rw a (d ∙ h.queued);
  running = rw a (e ∙ h.running);
}

enqueue_same :
    (b : Bool) (key : String) (task : ProbeTask) (s : ProbeScheduler)
    → SameTasks s (enqueue b key task s).0
unfolding enqueue
enqueue_same b key task s = ground arith

next_task_same : (b : Bool) (s : ProbeScheduler) → SameTasks s (next_task b s).1
unfolding next_task
next_task_same b s = ground arith

deliver_same :
    (done : ℕ → Bool) (answer : Answer) (waiters : List ℕ) (s : ProbeScheduler)
    → SameTasks s (deliver done answer waiters s)
unfolding deliver
deliver_same done answer waiters s = (refl, refl, refl, refl, refl)

enqueue_new-Balanced :
    (b : Bool) (key : String) (task : ProbeTask) (s : ProbeScheduler) (held : ℕ)
    → lookup key s.tasks ≡ some task
    → task.running ≡ false
    → Balanced (process s held)
    → Balanced (process (enqueue_new b key task s).0 held)
unfolding enqueue_new
enqueue_new-Balanced b key task s held e f h = elim (Bool-cases (enqueue b key task s).1) [
  | inl y ↦ rw (enqueue_new, y) (frame-Balanced s _ held (enqueue_same b key task s) h)
  | inr y ↦ rw (enqueue_new, y) (drop_queued-Balanced key s held task e f h)
]

enqueue_renewed-Balanced :
    (b : Bool) (key : String) (task : ProbeTask) (s : ProbeScheduler) (held : ℕ)
    → lookup key s.tasks ≡ some task
    → task.running ≡ false
    → Balanced (process s held)
    → Balanced (process (enqueue_renewed b key task s) held)
unfolding enqueue_renewed
enqueue_renewed-Balanced b key task s held e f h = elim (Bool-cases (enqueue b key task s).1) [
  | inl y ↦ rw (enqueue_renewed, y) (frame-Balanced s _ held (enqueue_same b key task s) h)
  | inr y ↦
      rw (enqueue_renewed, y)
        (frame-Balanced (drop_queued key s) _ held
          (deliver_same (λ w. false) context_canceled task.waiters (drop_queued key s))
          (drop_queued-Balanced key s held task e f h))
]

begin_run-Balanced :
    (done : ℕ → Bool) (key : String) (id : ℕ) (s : ProbeScheduler) (held : ℕ)
    → Balanced (process s held)
    → Balanced (process (begin_run done key id s).0 held)
unfolding begin_run
begin_run-Balanced done key id s held h = elim (Option-cases (lookup key s.tasks)) [
  | inl e ↦ rw (begin_run, e) h
  | inr (t, e) ↦ elim (Bool-cases (not (t.id == id) || t.running)) [
    | inl y ↦ rw (begin_run, e) (rw y h)
    | inr y ↦
        let waits : t.running ≡ false = ground arith in
        elim (Bool-cases (no_waiters (active_waiters done t.waiters))) [
          | inl z ↦ rw (begin_run, e) (rw y (rw z (drop_queued-Balanced key s held t e waits h)))
          | inr z ↦ rw (begin_run, e) (rw y (rw z (start-Balanced key s held t e waits h)))
        ]
  ]
]

pub Step-Balanced : {p q : Process} → Step p q → Balanced p → Balanced q
unfolding cancel
Step-Balanced (Step.submits c r s held) h = begin_submit-Balanced c r s held h
Step-Balanced (Step.takes s s' held e) h = take_slot-Balanced s s' held e h
Step-Balanced (Step.registers r s held) h = register_task-Balanced r s held h
Step-Balanced (Step.enqueues b key t s held e f) h = enqueue_new-Balanced b key t s held e f h
Step-Balanced (Step.enqueues_again b key t s held e f) h =
    enqueue_renewed-Balanced b key t s held e f h
Step-Balanced (Step.fetches b s held) h = frame-Balanced s _ held (next_task_same b s) h
Step-Balanced (Step.starts done key id s held) h = begin_run-Balanced done key id s held h
Step-Balanced (Step.delivers done answer ws s held) h =
    frame-Balanced s _ held (deliver_same done answer ws s) h
Step-Balanced (Step.finishes done key t s held e f) h = finish_run-Balanced done key s held t e f h
Step-Balanced (Step.cancels s held) h = frame-Balanced s _ held (refl, refl, refl, refl, refl) h
