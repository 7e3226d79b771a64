-- ===== src/Importer/StoreJobLists.antt =====
-- Jobs that are listed once: deleting them, sorting them and counting them.
use easy_proxies.Prelude.{
  ℕ, zero, suc, ◌+◌, true, false, List, [], ◌∷◌, String, lookup, put, delete, lookup-delete,
  Distinct, Distinct-delete, delete_absent, str_eq, eq_iff, drop, length, All, is_some, ◌≡◌, refl,
  arith, Bool-cases, inl, inr,
}
use easy_proxies.Importer.Nodes.{ImportJob}
use easy_proxies.Importer.StoreJobs.{
  sort_jobs, insert_job, job_before, remove_jobs, Pruning, RetainedJob, remove_job,
}

pub length-delete {ℓ} :
    {V : Type ℓ} (m : List (String × V)) (key : String)
    → Distinct m
    → is_some (lookup key m) ≡ true
    → suc (length (delete m key)) ≡ length m
unfolding lookup delete
length-delete [] key d e = absurd (cc)
length-delete ((at, v) ∷ rest) key d e =
    ground (arith, length-delete rest key d.1, delete_absent rest key, eq_iff at key, d.0, e)

pub length-put {ℓ} :
    {V : Type ℓ} (m : List (String × V)) (key : String) (v : V)
    → is_some (lookup key m) ≡ true
    → length (put m key v) ≡ length m
unfolding lookup put
length-put [] key v e = absurd (cc)
length-put ((at, v') ∷ rest) key v e = ground (arith, length-put rest key v, e)

-- Jobs that are there, each listed once.
abbrev pub Listed : List (String × ImportJob) → List RetainedJob → Type 0
Listed m [] = Unit
Listed m (i ∷ is) =
    (is_some (lookup i.id m) ≡ true) × All (λ j. str_eq i.id j.id ≡ false) is × Listed m is

Listed-delete :
    (m : List (String × ImportJob)) (id : String) (is : List RetainedJob)
    → All (λ j. str_eq id j.id ≡ false) is
    → Listed m is
    → Listed (delete m id) is
Listed-delete m id [] a h = tt
Listed-delete m id (i ∷ is) a h =
    (ground (arith, lookup-delete m id i.id, a.0, h.0), h.1, Listed-delete m id is a.1 h.2)

pub length-remove_jobs :
    (is : List RetainedJob) (p : Pruning)
    → Distinct p.jobs
    → Listed p.jobs is
    → length (remove_jobs is p).jobs + length is ≡ length p.jobs
unfolding remove_jobs
length-remove_jobs [] p d h = omega arith
length-remove_jobs (i ∷ is) p d h =
    let rest =
      length-remove_jobs is (remove_job i.id p) (Distinct-delete p.jobs i.id d)
        (Listed-delete p.jobs i.id is h.1 h.2) in
    omega (arith, rest, length-delete p.jobs i.id d h.0)

All-drop {ℓ κ} : {A : Type ℓ} (P : A → Type κ) (n : ℕ) (xs : List A) → All P xs → All P (drop n xs)
All-drop P zero xs h = h
All-drop P (suc n) [] h = tt
All-drop P (suc n) (x ∷ xs) h = All-drop P n xs h.1

pub Listed-drop :
    (m : List (String × ImportJob)) (n : ℕ) (is : List RetainedJob)
    → Listed m is
    → Listed m (drop n is)
Listed-drop m zero is h = h
Listed-drop m (suc n) [] h = tt
Listed-drop m (suc n) (i ∷ is) h = Listed-drop m n is h.2

All-insert_job :
    (id : String) (i : RetainedJob) (is : List RetainedJob)
    → str_eq id i.id ≡ false
    → All (λ j. str_eq id j.id ≡ false) is
    → All (λ j. str_eq id j.id ≡ false) (insert_job i is)
unfolding insert_job
All-insert_job id i [] e a = (e, tt)
All-insert_job id i (j ∷ is) e a = ground (arith, All-insert_job id i is e a.1, e, a)

Listed-insert_job :
    (m : List (String × ImportJob)) (i : RetainedJob) (is : List RetainedJob)
    → Listed m (i ∷ is)
    → Listed m (insert_job i is)
unfolding insert_job
Listed-insert_job m i [] h = h
Listed-insert_job m i (j ∷ is) h = elim (Bool-cases (job_before j i)) [
  | inl y ↦ rw y (
    h.2.0,
    All-insert_job j.id i is (ground (arith, h.1.0, eq_iff i.id j.id, eq_iff j.id i.id)) h.2.1,
    Listed-insert_job m i is (h.0, h.1.1, h.2.2),
  )
  | inr n ↦ rw n h
]

length-insert_job :
    (i : RetainedJob) (is : List RetainedJob) → length (insert_job i is) ≡ suc (length is)
unfolding insert_job
length-insert_job i [] = refl
length-insert_job i (j ∷ is) = ground (arith, length-insert_job i is)

All-sort_jobs :
    (id : String) (is : List RetainedJob)
    → All (λ j. str_eq id j.id ≡ false) is
    → All (λ j. str_eq id j.id ≡ false) (sort_jobs is)
unfolding sort_jobs
All-sort_jobs id [] a = tt
All-sort_jobs id (i ∷ is) a = All-insert_job id i (sort_jobs is) a.0 (All-sort_jobs id is a.1)

pub Listed-sort_jobs :
    (m : List (String × ImportJob)) (is : List RetainedJob) → Listed m is → Listed m (sort_jobs is)
unfolding sort_jobs
Listed-sort_jobs m [] h = tt
Listed-sort_jobs m (i ∷ is) h =
    Listed-insert_job m i (sort_jobs is) (h.0, All-sort_jobs i.id is h.1, Listed-sort_jobs m is h.2)

pub length-sort_jobs : (is : List RetainedJob) → length (sort_jobs is) ≡ length is
unfolding sort_jobs
length-sort_jobs [] = refl
length-sort_jobs (i ∷ is) = omega (arith, length-insert_job i (sort_jobs is), length-sort_jobs is)
