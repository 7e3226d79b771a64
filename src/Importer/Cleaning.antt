-- ===== src/Importer/Cleaning.antt =====
-- What the cleanup of finished jobs removes and keeps.
use easy_proxies.Prelude.{false, Option, none, some, [], ◌∷◌, String, ℤ, ◌≡◌, refl, arith, All}
use easy_proxies.Importer.Retention.{
  Job, Jobs, JobMaps, is_expired, running_count, expire, cleanup_expired_jobs, job_retention_stats,
  test_job_ttl, refresh_job_ttl, connectivity_job_ttl,
}

module _ (now ttl : ℤ) where
  expire-running : (jobs : Jobs) → running_count (expire now ttl jobs) ≡ running_count jobs
  unfolding expire
  expire-running [] = refl
  expire-running ((id, none) ∷ jobs) = ground (arith, expire-running jobs)
  expire-running ((id, some job) ∷ jobs) = ground (arith, expire-running jobs)

  expire_twice : (jobs : Jobs) → expire now ttl (expire now ttl jobs) ≡ expire now ttl jobs
  unfolding expire
  expire_twice [] = refl
  expire_twice (entry ∷ jobs) = ground (arith, expire_twice jobs)

  -- What stays is a nil pointer, runs, or was updated within the time it is kept for.
  abbrev pub Kept : String × Option Job → Type 0
  Kept entry = is_expired now ttl entry.1 ≡ false

  expire-Kept : (jobs : Jobs) → All Kept (expire now ttl jobs)
  unfolding expire
  expire-Kept [] = tt
  expire-Kept (entry ∷ jobs) = ground (arith, expire-Kept jobs)

maps_eq :
    {s t : JobMaps}
    → s.test_jobs ≡ t.test_jobs
    → s.refresh_jobs ≡ t.refresh_jobs
    → s.connectivity_jobs ≡ t.connectivity_jobs
    → s.tag_binding_jobs ≡ t.tag_binding_jobs
    → s ≡ t
maps_eq a b c d = λ i. record {
  test_jobs = a i;
  refresh_jobs = b i;
  connectivity_jobs = c i;
  tag_binding_jobs = d i;
}

-- The cleanup never drops a running job: the four numbers of running jobs that the retention
-- statistics report are the same before and after it, and a second cleanup at the same time
-- changes nothing. What it leaves in each of the four maps is a nil pointer, a running job, or a
-- job updated no longer ago than that map's time to live.
pub cleanup_expired_jobs_lem :
    (now : ℤ) (s : JobMaps)
    → let s' = cleanup_expired_jobs now s in
      let before = job_retention_stats s in
      let after = job_retention_stats s' in
      (after.test_running ≡ before.test_running)
      × (after.refresh_running ≡ before.refresh_running)
      × (after.connectivity_running ≡ before.connectivity_running)
      × (after.tag_binding_running ≡ before.tag_binding_running)
      × (cleanup_expired_jobs now s' ≡ s')
      × All (Kept now test_job_ttl) s'.test_jobs
      × All (Kept now refresh_job_ttl) s'.refresh_jobs
      × All (Kept now connectivity_job_ttl) s'.connectivity_jobs
      × All (Kept now refresh_job_ttl) s'.tag_binding_jobs
unfolding cleanup_expired_jobs job_retention_stats
cleanup_expired_jobs_lem now s = (
  expire-running now test_job_ttl s.test_jobs,
  expire-running now refresh_job_ttl s.refresh_jobs,
  expire-running now connectivity_job_ttl s.connectivity_jobs,
  expire-running now refresh_job_ttl s.tag_binding_jobs,
  maps_eq (expire_twice now test_job_ttl s.test_jobs)
      (expire_twice now refresh_job_ttl s.refresh_jobs)
      (expire_twice now connectivity_job_ttl s.connectivity_jobs)
      (expire_twice now refresh_job_ttl s.tag_binding_jobs),
  expire-Kept now test_job_ttl s.test_jobs,
  expire-Kept now refresh_job_ttl s.refresh_jobs,
  expire-Kept now connectivity_job_ttl s.connectivity_jobs,
  expire-Kept now refresh_job_ttl s.tag_binding_jobs,
)
