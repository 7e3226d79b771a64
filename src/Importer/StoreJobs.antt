-- ===== src/Importer/StoreJobs.antt =====
-- internal/importer/store.go: the import jobs of the store, and which of them are kept. The first
-- argument of an operation says whether its write is committed; `false` as a result is an error.
use easy_proxies.Prelude.{
  ℕ, ◌*◌, Bool, true, false, not, ◌&&◌, ◌||◌, Option, none, some, List, [], ◌∷◌, String, ℤ, pos,
  ◌-ℤ◌, ltb_ℤ, eq_ℤ, codes, codes_lt, drop, if◌then◌else◌, lookup, put, delete,
}
use easy_proxies.Importer.Nodes.{ImportJob, ImportStatus}
use easy_proxies.Importer.Journal.{remember_once, rollback, restore_value}
use easy_proxies.Importer.StateDb.{db_upsert_jobs, db_apply_jobs, values_of}
use easy_proxies.Importer.Store.{Store}

unfoldable pub upsert_job : Bool → ImportJob → Store → Store × Bool
unfolding db_upsert_jobs
upsert_job committed job s =
    let previous = lookup job.id s.jobs in
    let jobs = put s.jobs job.id job in
    let db = db_upsert_jobs committed (job ∷ []) s.db in
    if committed
    then (record s { jobs = jobs; db = db }, true)
    else (record s { jobs = restore_value job.id previous jobs; db = db }, false)

unfoldable pub update_job : Bool → String → (ImportJob → ImportJob) → Store → Store × Bool
unfolding db_upsert_jobs
update_job committed id fn s = elim (lookup id s.jobs) [
  | none ↦ (s, false)
  | some job ↦
      let jobs = put s.jobs id (fn job) in
      let db = db_upsert_jobs committed (fn job ∷ []) s.db in
      if committed
      then (record s { jobs = jobs; db = db }, true)
      else (record s { jobs = put jobs id job; db = db }, false)
]

-- Progress is kept in memory only.
unfoldable pub update_job_progress : String → (ImportJob → ImportJob) → Store → Store × Bool
update_job_progress id fn s = elim (lookup id s.jobs) [
  | none ↦ (s, false)
  | some job ↦ (record s { jobs = put s.jobs id (fn job) }, true)
]

abbrev pub max_stored_jobs : ℕ
max_stored_jobs = 100

-- Seven days, in nanoseconds.
abbrev pub stored_job_max_age : ℤ
stored_job_max_age = pos (7 * 24 * 3600 * 1000000000)

pub record RetainedJob : Type 0 where
  pub id : String
  pub at : ℤ
  pub parsed : Bool

pub record Pruning : Type 0 where
  pub jobs : List (String × ImportJob)
  pub previous : List (String × Option ImportJob)
  pub changed_jobs : List (String × ImportJob)
  pub deleted_jobs : List String
  pub changed : Bool

abbrev pub is_running : ImportJob → Bool
is_running job = elim job.status [
  | ImportStatus.running ↦ true
  | ImportStatus.parsed ↦ false
  | ImportStatus.completed ↦ false
  | ImportStatus.failed ↦ false
  | ImportStatus.canceled ↦ false
]

abbrev pub is_parsed : ImportJob → Bool
is_parsed job = elim job.status [
  | ImportStatus.parsed ↦ true
  | ImportStatus.running ↦ false
  | ImportStatus.completed ↦ false
  | ImportStatus.failed ↦ false
  | ImportStatus.canceled ↦ false
]

abbrev pub interrupted : ℤ → ImportJob → ImportJob
interrupted now job = record job {
  status = ImportStatus.canceled;
  error = "程序重启，任务已中断";
  probe_pending = pos 0;
  updated_at = now;
}

abbrev pub change_job : String → ImportJob → Pruning → Pruning
change_job id job p = record p {
  jobs = put p.jobs id job;
  previous = remember_once p.jobs p.previous id;
  changed_jobs = put p.changed_jobs id job;
  changed = true;
}

abbrev pub remove_job : String → Pruning → Pruning
remove_job id p = record {
  jobs = delete p.jobs id;
  previous = remember_once p.jobs p.previous id;
  changed_jobs = delete p.changed_jobs id;
  deleted_jobs = id ∷ p.deleted_jobs;
  changed = true;
}

-- The zero time is 0.
abbrev pub job_time : ImportJob → ℤ
job_time job = if eq_ℤ job.updated_at (pos 0) then job.created_at else job.updated_at

abbrev pub is_expired : ℤ → ℤ → Bool
is_expired now at = not (eq_ℤ at (pos 0)) && ltb_ℤ at now && ltb_ℤ stored_job_max_age (now -ℤ at)

abbrev pub retained_job : String → ImportJob → RetainedJob
retained_job id job = record { id = id; at = job_time job; parsed = is_parsed job }

abbrev pub settled_job : ℤ → ImportJob → ImportJob
settled_job now job = if is_running job then interrupted now job else job

-- A running job is passed over, or cancelled when the process has started anew.
abbrev pub is_passed : Bool → ImportJob → Bool
is_passed recover job = is_running job && not recover

abbrev pub is_removed : ℤ → ImportJob → Bool
is_removed now job = is_expired now (job_time (settled_job now job))

abbrev pub next_pruning : ℤ → Bool → String → ImportJob → Pruning → Pruning
next_pruning now recover id job p =
    let p' = if is_running job then change_job id (settled_job now job) p else p in
    if is_passed recover job then p else if is_removed now job then remove_job id p' else p'

-- The loop over the jobs: what it changes, and the jobs that are not too old.
unfoldable pub scan_jobs :
    ℤ → Bool → List (String × ImportJob) → Pruning → Pruning × List RetainedJob
scan_jobs now recover [] p = (p, [])
scan_jobs now recover ((id, job) ∷ rest) p =
    let (after, items) = scan_jobs now recover rest (next_pruning now recover id job p) in
    (
      after,
      if is_passed recover job || is_removed now job
          then items
          else retained_job id (settled_job now job) ∷ items,
    )

-- Parsed jobs come first, then the newer ones.
unfoldable pub job_before : RetainedJob → RetainedJob → Bool
job_before i j =
    if i.parsed && not j.parsed
    then true
    else if not i.parsed && j.parsed
    then false
    else if eq_ℤ i.at j.at
    then codes_lt (codes i.id) (codes j.id)
    else ltb_ℤ j.at i.at

-- `sort.Slice` as an insertion sort.
unfoldable pub insert_job : RetainedJob → List RetainedJob → List RetainedJob
unfolding job_before
insert_job i [] = i ∷ []
insert_job i (j ∷ rest) = if job_before j i then j ∷ insert_job i rest else i ∷ j ∷ rest

unfoldable pub sort_jobs : List RetainedJob → List RetainedJob
unfolding insert_job
sort_jobs [] = []
sort_jobs (i ∷ rest) = insert_job i (sort_jobs rest)

unfoldable pub remove_jobs : List RetainedJob → Pruning → Pruning
remove_jobs [] p = p
remove_jobs (item ∷ items) p = remove_jobs items (remove_job item.id p)

abbrev pub unpruned : List (String × ImportJob) → Pruning
unpruned jobs = record {
  jobs = jobs;
  previous = [];
  changed_jobs = [];
  deleted_jobs = [];
  changed = false;
}

unfoldable pub prune : ℤ → Bool → List (String × ImportJob) → Pruning
unfolding scan_jobs sort_jobs remove_jobs
prune now recover jobs =
    let (p, retained) = scan_jobs now recover jobs (unpruned jobs) in
    remove_jobs (drop max_stored_jobs (sort_jobs retained)) p

-- Every recorded job was there, so the rollback puts each of them back.
unfoldable pub prune_jobs : Bool → ℤ → Bool → Store → Store × Bool
unfolding prune db_apply_jobs rollback
prune_jobs committed now recover s =
    let p = prune now recover s.jobs in
    let db = db_apply_jobs committed (values_of p.changed_jobs) p.deleted_jobs s.db in
    if not p.changed
    then (s, true)
    else if committed
    then (record s { jobs = p.jobs; db = db }, true)
    else (record s { jobs = rollback p.previous p.jobs; db = db }, false)
