-- ===== src/Importer/Retention.antt =====
-- internal/importer/job_events.go: how long finished jobs are kept, and how many are counted.
use easy_proxies.Prelude.{
  ℕ, ◌*◌, Bool, false, not, ◌&&◌, Option, none, some, List, String, ℤ, pos, ◌-ℤ◌, ltb_ℤ, length,
  filter, count,
}

-- What the cleanup reads of a job: whether it runs, and when it was updated.
pub record Job : Type 0 where
  pub running : Bool
  pub updated_at : ℤ

-- A map of jobs by their number; a nil pointer is `none`.
abbrev pub Jobs : Type 0
Jobs = List (String × Option Job)

pub record JobMaps : Type 0 where
  pub test_jobs : Jobs
  pub refresh_jobs : Jobs
  pub connectivity_jobs : Jobs
  pub tag_binding_jobs : Jobs

abbrev pub minute : ℕ
minute = 60000000000

abbrev pub test_job_ttl : ℤ
test_job_ttl = pos (10 * minute)

abbrev pub refresh_job_ttl : ℤ
refresh_job_ttl = pos (10 * minute)

abbrev pub connectivity_job_ttl : ℤ
connectivity_job_ttl = pos (30 * minute)

abbrev pub is_expired : ℤ → ℤ → Option Job → Bool
is_expired now ttl none = false
is_expired now ttl (some job) = not job.running && ltb_ℤ ttl (now -ℤ job.updated_at)

-- One of the loops: what is expired is deleted.
unfoldable pub expire : ℤ → ℤ → Jobs → Jobs
expire now ttl jobs = filter (λ entry. not (is_expired now ttl entry.1)) jobs

unfoldable pub cleanup_expired_jobs : ℤ → JobMaps → JobMaps
unfolding expire
cleanup_expired_jobs now s = record {
  test_jobs = expire now test_job_ttl s.test_jobs;
  refresh_jobs = expire now refresh_job_ttl s.refresh_jobs;
  connectivity_jobs = expire now connectivity_job_ttl s.connectivity_jobs;
  tag_binding_jobs = expire now refresh_job_ttl s.tag_binding_jobs;
}

abbrev pub is_running : Option Job → Bool
is_running none = false
is_running (some job) = job.running

abbrev pub running_count : Jobs → ℕ
running_count jobs = count (λ entry. is_running entry.1) jobs

pub record Stats : Type 0 where
  pub test_retained : ℕ
  pub test_running : ℕ
  pub refresh_retained : ℕ
  pub refresh_running : ℕ
  pub connectivity_retained : ℕ
  pub connectivity_running : ℕ
  pub tag_binding_retained : ℕ
  pub tag_binding_running : ℕ

unfoldable pub job_retention_stats : JobMaps → Stats
job_retention_stats s = record {
  test_retained = length s.test_jobs;
  test_running = running_count s.test_jobs;
  refresh_retained = length s.refresh_jobs;
  refresh_running = running_count s.refresh_jobs;
  connectivity_retained = length s.connectivity_jobs;
  connectivity_running = running_count s.connectivity_jobs;
  tag_binding_retained = length s.tag_binding_jobs;
  tag_binding_running = running_count s.tag_binding_jobs;
}
