-- ===== src/Importer/Closing.antt =====
-- What the waiters of a task get when the probe scheduler closes.
use easy_proxies.Prelude.{
  ℕ, ◌+◌, Bool, true, List, [], ◌∷◌, ◌++◌, map, String, delete, count, count-append, ◌≡◌, refl,
  arith, ◌==◌,
}
use easy_proxies.Importer.ProbeScheduler.{ProbeTask, ProbeScheduler, Answer, context_canceled}
use easy_proxies.Importer.ProbeWorker.{finish_run, cancel_waiters, close_tasks}

-- How often a waiter is sent an answer, and how often it waits for a task of the map.
abbrev pub answers : ℕ → List (ℕ × Answer) → ℕ
answers w sent = count (λ d. d.0 == w) sent

abbrev pub waits_for : ℕ → ProbeTask → ℕ
waits_for w task = count (λ v. v == w) (task.waiters ++ task.next_waiters)

abbrev pub waits : ℕ → List (String × ProbeTask) → ℕ
waits w [] = 0
waits w ((key, task) ∷ rest) = waits_for w task + waits w rest

answers-map :
    (w : ℕ) (answer : Answer) (ws : List ℕ)
    → answers w (map (λ v. (v, answer)) ws) ≡ count (λ v. v == w) ws
answers-map w answer [] = refl
answers-map w answer (v ∷ ws) = ground (arith, answers-map w answer ws)

answers-cancel_waiters :
    (w : ℕ) (tasks : List (String × ProbeTask)) (sent : List (ℕ × Answer))
    → answers w (cancel_waiters tasks sent) ≡ answers w sent + waits w tasks
unfolding cancel_waiters
answers-cancel_waiters w [] sent = omega arith
answers-cancel_waiters w ((key, task) ∷ rest) sent =
    let all = task.waiters ++ task.next_waiters in
    let to_all : List (ℕ × Answer) = map (λ v. (v, context_canceled)) all in
    omega (
      arith,
      answers-cancel_waiters w rest (to_all ++ sent),
      count-append (λ d. d.0 == w) to_all sent,
      answers-map w context_canceled all,
    )

-- When a task ends after the scheduler was cancelled, the rest of `Close` answers a waiter just as
-- often as it waits for the tasks of other keys. A caller that waits only for the next round of
-- the task that ended is never answered.
pub close_tasks-finish_run :
    (done : ℕ → Bool) (key : String) (task : ProbeTask) (s : ProbeScheduler) (w : ℕ)
    → s.closed ≡ true
    → let closed = close_tasks (finish_run done key task s).0 in
      answers w closed.delivered ≡ answers w s.delivered + waits w (delete s.tasks key)
unfolding close_tasks finish_run
close_tasks-finish_run done key task s w e =
    ground (arith, answers-cancel_waiters w (delete s.tasks key) s.delivered)
