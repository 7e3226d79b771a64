-- ===== src/Importer/StoreJobBound.antt =====
-- How many jobs a pruning leaves.
use easy_proxies.Prelude.{
  ◌≤◌, true, none, List, [], ◌∷◌, String, ℤ, lookup, Distinct, str_eq_self, drop, length,
  length-drop, ◌≡◌, refl, arith, Bool-cases, inl, inr,
}
use easy_proxies.Importer.Nodes.{ImportJob}
use easy_proxies.Importer.Store.{Store}
use easy_proxies.Importer.StoreJobs.{
  prune, prune_jobs, scan_jobs, sort_jobs, remove_jobs, Pruning, RetainedJob, unpruned,
  next_pruning, remove_job, max_stored_jobs,
}
use easy_proxies.Importer.StoreJobLists.{
  length-remove_jobs, Listed-drop, Listed-sort_jobs, length-sort_jobs,
}
use easy_proxies.Importer.StoreJobScan.{Present, scan_jobs-Scanned, Idle, Idle-next}

Present-cons :
    (id : String) (job : ImportJob) (m rest : List (String × ImportJob))
    → lookup id rest ≡ none
    → Present m rest
    → Present ((id, job) ∷ m) rest
unfolding lookup
Present-cons id job m [] e h = tt
Present-cons id job m ((key, j) ∷ rest) e h =
    (ground (arith, h.0), Present-cons id job m rest (ground (arith, e)) h.1)

Present-self : (m : List (String × ImportJob)) → Distinct m → Present m m
unfolding lookup
Present-self [] d = tt
Present-self ((id, job) ∷ m) d =
    (rw (str_eq_self id) refl, Present-cons id job m m d.0 (Present-self m d.1))

length-prune :
    (now : ℤ) (jobs : List (String × ImportJob))
    → Distinct jobs
    → length (prune now true jobs).jobs ≤ max_stored_jobs
unfolding prune
length-prune now jobs d =
    let r = scan_jobs now true jobs (unpruned jobs) in
    let scanned = scan_jobs-Scanned now jobs (unpruned jobs) d d (Present-self jobs d) in
    let sorted = sort_jobs r.1 in
    let left = length-remove_jobs (drop max_stored_jobs sorted) r.0 scanned.distinct (
      Listed-drop r.0.jobs max_stored_jobs sorted (Listed-sort_jobs r.0.jobs r.1 scanned.listed)) in
    omega (arith, left, scanned.size, length-drop max_stored_jobs sorted, length-sort_jobs r.1)

scan_jobs-Idle :
    (now : ℤ) (start rest : List (String × ImportJob)) (p : Pruning)
    → Idle start p
    → Idle start (scan_jobs now true rest p).0
unfolding scan_jobs
scan_jobs-Idle now start [] p h = h
scan_jobs-Idle now start ((id, job) ∷ rest) p h =
    scan_jobs-Idle now start rest (next_pruning now true id job p) (Idle-next now id job start p h)

remove_jobs-Idle :
    (start : List (String × ImportJob)) (is : List RetainedJob) (p : Pruning)
    → Idle start p
    → Idle start (remove_jobs is p)
unfolding remove_jobs
remove_jobs-Idle start [] p h = h
remove_jobs-Idle start (i ∷ is) p h =
    remove_jobs-Idle start is (remove_job i.id p) (λ e. absurd (cc))

prune-Idle : (now : ℤ) (jobs : List (String × ImportJob)) → Idle jobs (prune now true jobs)
unfolding prune
prune-Idle now jobs =
    remove_jobs-Idle jobs
      (drop max_stored_jobs (sort_jobs (scan_jobs now true jobs (unpruned jobs)).1))
      (scan_jobs now true jobs (unpruned jobs)).0
      (scan_jobs-Idle now jobs jobs (unpruned jobs) (λ e. refl))

-- After the pruning at the start of the process, when it is written, the store has at most a
-- hundred jobs, however many there were. (A map has each key once.)
pub length-prune_jobs :
    (now : ℤ) (s : Store)
    → Distinct s.jobs
    → length (prune_jobs true now true s).0.jobs ≤ max_stored_jobs
unfolding prune_jobs
length-prune_jobs now s d = elim (Bool-cases (prune now true s.jobs).changed) [
  | inl y ↦ rw (prune_jobs, y) (length-prune now s.jobs d)
  | inr n ↦
      rw (prune_jobs, n)
        (let few = length-prune now s.jobs d in rw (prune-Idle now s.jobs n) at few)
]
