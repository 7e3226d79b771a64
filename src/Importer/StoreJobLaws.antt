-- ===== src/Importer/StoreJobLaws.antt =====
-- What the operations on jobs leave when their write fails.
use easy_proxies.Importer.StateDb.{db_apply_jobs, db_upsert_jobs}
use easy_proxies.Prelude.{
  Bool, true, false, Option, some, List, [], ◌∷◌, String, ℤ, lookup, put, lookup-put, eq_iff, drop,
  if◌then◌else◌, ◌≡◌, refl, arith, ◌∙◌, Option-cases, Bool-cases, inl, inr,
}
use easy_proxies.Importer.Nodes.{ImportJob}
use easy_proxies.Importer.Journal.{
  lookup-restore_value, Same, Journal, Journal-start, Journal-put, Journal-delete_once,
  Journal-rollback, remember_once,
}
use easy_proxies.Importer.Store.{Store}
use easy_proxies.Importer.StoreJobs.{
  settled_job, is_passed, is_removed, upsert_job, update_job, update_job_progress, prune_jobs,
  prune, scan_jobs, sort_jobs, remove_jobs, Pruning, RetainedJob, unpruned, change_job, remove_job,
  is_running, max_stored_jobs,
}

Journal-put_once {ℓ} :
    {V : Type ℓ} (start m : List (String × V)) (previous : List (String × Option V)) (id : String)
    (v : V)
    → Journal start m previous
    → Journal start (put m id v) (remember_once m previous id)
Journal-put_once start m previous id v j = elim (Option-cases (lookup id previous)) [
  | inl e ↦ rw (remember_once, e) (Journal-put start m previous id v j e)
  | inr (old, e) ↦
      rw (remember_once, e)
        (record {
          keys = j.keys;
          kept = λ key. ground (arith, j.kept key, lookup-put m id key v, eq_iff id key, e);
        })
]

-- What a pruning has recorded of the jobs at its start.
abbrev Recorded : List (String × ImportJob) → Pruning → Type 0
Recorded start p = Journal start p.jobs p.previous

Recorded-if :
    (start : List (String × ImportJob)) (b : Bool) (p q : Pruning)
    → Recorded start p
    → Recorded start q
    → Recorded start (if b then p else q)
Recorded-if start true p q h k = h
Recorded-if start false p q h k = k

remove_job-Recorded :
    (start : List (String × ImportJob)) (id : String) (p : Pruning)
    → Recorded start p
    → Recorded start (remove_job id p)
remove_job-Recorded start id p h = Journal-delete_once start p.jobs p.previous id h

scan_jobs-Recorded :
    (start : List (String × ImportJob)) (now : ℤ) (recover : Bool)
    (rest : List (String × ImportJob)) (p : Pruning)
    → Recorded start p
    → Recorded start (scan_jobs now recover rest p).0
unfolding scan_jobs
scan_jobs-Recorded start now recover [] p h = h
scan_jobs-Recorded start now recover ((id, job) ∷ rest) p h =
    let job' = settled_job now job in
    let p' = if is_running job then change_job id job' p else p in
    let h' =
      Recorded-if start (is_running job) (change_job id job' p) p
        (Journal-put_once start p.jobs p.previous id job' h) h in
    scan_jobs-Recorded start now recover rest _ (
      Recorded-if start (is_passed recover job) p
        (if is_removed now job then remove_job id p' else p') h
        (Recorded-if start (is_removed now job) (remove_job id p') p'
          (remove_job-Recorded start id p' h') h'))

remove_jobs-Recorded :
    (start : List (String × ImportJob)) (items : List RetainedJob) (p : Pruning)
    → Recorded start p
    → Recorded start (remove_jobs items p)
unfolding remove_jobs
remove_jobs-Recorded start [] p h = h
remove_jobs-Recorded start (item ∷ items) p h =
    remove_jobs-Recorded start items (remove_job item.id p) (remove_job-Recorded start item.id p h)

prune-Recorded :
    (now : ℤ) (recover : Bool) (jobs : List (String × ImportJob))
    → Recorded jobs (prune now recover jobs)
unfolding prune
prune-Recorded now recover jobs =
    let r = scan_jobs now recover jobs (unpruned jobs) in
    remove_jobs-Recorded jobs (drop max_stored_jobs (sort_jobs r.1)) r.0
      (scan_jobs-Recorded jobs now recover jobs (unpruned jobs) (Journal-start jobs))

pub data JobCall : Type 0 where
  upserts : ImportJob → JobCall
  updates : String → (ImportJob → ImportJob) → JobCall
  progresses : String → (ImportJob → ImportJob) → JobCall
  prunes : ℤ → Bool → JobCall

unfoldable pub job_call : Bool → JobCall → Store → Store × Bool
job_call committed (upserts job) s = upsert_job committed job s
job_call committed (updates id fn) s = update_job committed id fn s
job_call committed (progresses id fn) s = update_job_progress id fn s
job_call committed (prunes now recover) s = prune_jobs committed now recover s

update_job_error :
    (committed : Bool) (id : String) (fn : ImportJob → ImportJob) (job : ImportJob) (s : Store)
    → lookup id s.jobs ≡ some job
    → (update_job committed id fn s).1 ≡ false
    → Same (update_job committed id fn s).0.jobs s.jobs
      × ((update_job committed id fn s).0.db ≡ s.db)
unfolding update_job db_upsert_jobs
update_job_error true id fn job s k e = absurd (let done = rw (update_job, k) at e in cc)
update_job_error false id fn job s k e =
    rw (update_job, k)
      (
        (λ key. ground (
          arith,
          lookup-put (put s.jobs id (fn job)) id key job,
          lookup-put s.jobs id key (fn job),
          eq_iff id key,
          k,
        )),
        refl,
      )

prune_jobs_error :
    (committed : Bool) (now : ℤ) (recover : Bool) (s : Store)
    → (prune now recover s.jobs).changed ≡ true
    → (prune_jobs committed now recover s).1 ≡ false
    → Same (prune_jobs committed now recover s).0.jobs s.jobs
      × ((prune_jobs committed now recover s).0.db ≡ s.db)
unfolding prune_jobs db_apply_jobs
prune_jobs_error true now recover s y e = absurd (let done = rw (prune_jobs, y) at e in cc)
prune_jobs_error false now recover s y e =
    rw (prune_jobs, y) (Journal-rollback (prune-Recorded now recover s.jobs), refl)

-- An operation on the jobs of the store that reports an error leaves the jobs in memory and in the
-- database as they were.
pub job_call_error :
    (committed : Bool) (c : JobCall) (s : Store)
    → (job_call committed c s).1 ≡ false
    → Same (job_call committed c s).0.jobs s.jobs × ((job_call committed c s).0.db ≡ s.db)
unfolding job_call upsert_job update_job update_job_progress prune_jobs db_upsert_jobs db_apply_jobs
job_call_error true (upserts job) s e = absurd (cc)
job_call_error false (upserts job) s e = (
  λ id.
      lookup-restore_value id job.id (lookup job.id s.jobs) (put s.jobs job.id job)
      ∙ ground (arith, lookup-put s.jobs job.id id job, eq_iff job.id id),
  refl,
)
job_call_error committed (updates id fn) s e = elim (Option-cases (lookup id s.jobs)) [
  | inl n ↦ rw (job_call, update_job, n) ((λ key. refl), refl)
  | inr (job, k) ↦ update_job_error committed id fn job s k e
]
job_call_error committed (progresses id fn) s e = elim (Option-cases (lookup id s.jobs)) [
  | inl n ↦ rw (job_call, update_job_progress, n) ((λ key. refl), refl)
  | inr (job, k) ↦ absurd (let done = rw (job_call, update_job_progress, k) at e in cc)
]
job_call_error committed (prunes now recover) s e =
    elim (Bool-cases (prune now recover s.jobs).changed) [
      | inl y ↦ prune_jobs_error committed now recover s y e
      | inr n ↦ absurd (let done = rw (job_call, prune_jobs, n) at e in cc)
    ]
