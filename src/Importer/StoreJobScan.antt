-- ===== src/Importer/StoreJobScan.antt =====
-- What the scan of a pruning does to the jobs of the store.
use easy_proxies.Prelude.{
  ap, indicator, suc, ◌+◌, true, false, ◌||◌, none, List, [], ◌∷◌, String, ℤ, lookup, lookup-put,
  lookup-delete, Distinct, Distinct-put, Distinct-delete, str_eq, str_eq_self, eq_iff, length, All,
  is_some, if◌then◌else◌, ◌≡◌, refl, arith, ◌∙◌, Bool-cases, inl, inr,
}
use easy_proxies.Importer.Nodes.{ImportJob}
use easy_proxies.Importer.StoreJobs.{
  scan_jobs, Pruning, RetainedJob, next_pruning, is_passed, is_removed, is_running, settled_job,
  interrupted, change_job, remove_job,
}
use easy_proxies.Importer.StoreJobLists.{length-delete, length-put, Listed}

-- A step of the scan after a start of the process, at one job.
module _ (now : ℤ) (id : String) (job : ImportJob) (p : Pruning) where
  next : Pruning
  next = next_pruning now true id job p

  settled : Pruning
  settled = if is_running job then change_job id (settled_job now job) p else p

  settled-lookup :
      (key : String) → str_eq id key ≡ false → lookup key settled.jobs ≡ lookup key p.jobs
  unfolding settled
  settled-lookup key e = elim (Bool-cases (is_running job)) [
    | inl y ↦ rw y (lookup-put p.jobs id key (interrupted now job) ∙ rw e refl)
    | inr n ↦ rw n refl
  ]

  settled-present : is_some (lookup id p.jobs) ≡ true → is_some (lookup id settled.jobs) ≡ true
  unfolding settled
  settled-present e = elim (Bool-cases (is_running job)) [
    | inl y ↦ rw y (rw (lookup-put p.jobs id id (interrupted now job)) (rw (str_eq_self id) refl))
    | inr n ↦ rw n e
  ]

  settled-Distinct : Distinct p.jobs → Distinct settled.jobs
  unfolding settled
  settled-Distinct d = elim (Bool-cases (is_running job)) [
    | inl y ↦ rw y (Distinct-put p.jobs id (interrupted now job) d)
    | inr n ↦ rw n d
  ]

  settled-length : is_some (lookup id p.jobs) ≡ true → length settled.jobs ≡ length p.jobs
  unfolding settled
  settled-length e = elim (Bool-cases (is_running job)) [
    | inl y ↦ rw y (length-put p.jobs id (interrupted now job) e)
    | inr n ↦ rw n refl
  ]

  next_settled : next ≡ (if is_removed now job then remove_job id settled else settled)
  unfolding next settled
  next_settled = elim (Bool-cases (is_running job)) [ inl y ↦ rw y refl | inr n ↦ rw n refl ]

  next-lookup : (key : String) → str_eq id key ≡ false → lookup key next.jobs ≡ lookup key p.jobs
  next-lookup key e = rw next_settled (elim (Bool-cases (is_removed now job)) [
    | inl y ↦ rw y (lookup-delete settled.jobs id key ∙ rw e (settled-lookup key e))
    | inr n ↦ rw n (settled-lookup key e)
  ])

  next-present :
      is_removed now job ≡ false
      → is_some (lookup id p.jobs) ≡ true
      → is_some (lookup id next.jobs) ≡ true
  next-present n e = rw next_settled (rw n (settled-present e))

  next-Distinct : Distinct p.jobs → Distinct next.jobs
  next-Distinct d = rw next_settled (elim (Bool-cases (is_removed now job)) [
    | inl y ↦ rw y (Distinct-delete settled.jobs id (settled-Distinct d))
    | inr n ↦ rw n (settled-Distinct d)
  ])

  next-length :
      Distinct p.jobs
      → is_some (lookup id p.jobs) ≡ true
      → length next.jobs + indicator (is_removed now job) ≡ length p.jobs
  next-length d e = rw next_settled (elim (Bool-cases (is_removed now job)) [
    | inl y ↦ rw y (
        omega (
          arith,
          length-delete settled.jobs id (settled-Distinct d) (settled-present e),
          settled-length e,
        ))
    | inr n ↦ rw n (omega (arith, settled-length e))
  ])

abbrev pub Present : List (String × ImportJob) → List (String × ImportJob) → Type 0
Present m rest = All (λ e. is_some (lookup e.0 m) ≡ true) rest

Present-next :
    (now : ℤ) (id : String) (job : ImportJob) (p : Pruning) (rest : List (String × ImportJob))
    → lookup id rest ≡ none
    → Present p.jobs rest
    → Present (next_pruning now true id job p).jobs rest
unfolding next lookup
Present-next now id job p [] e h = tt
Present-next now id job p ((key, j) ∷ rest) e h = (
  next-lookup_some now id job p key j rest e h.0,
  Present-next now id job p rest (ground (arith, e)) h.1,
)
  where
    next-lookup_some :
        (now : ℤ) (id : String) (job : ImportJob) (p : Pruning) (key : String) (j : ImportJob)
        (rest : List (String × ImportJob))
        → lookup id ((key, j) ∷ rest) ≡ none
        → is_some (lookup key p.jobs) ≡ true
        → is_some (lookup key (next_pruning now true id job p).jobs) ≡ true
    next-lookup_some now id job p key j rest e h =
        let other : str_eq id key ≡ false = ground (arith, e, eq_iff key id, eq_iff id key) in
        rw (next-lookup now id job p key other) h

-- What a scan has done at its end.
pub record Scanned (rest : List (String × ImportJob)) (p : Pruning) (r : Pruning × List RetainedJob)
    : Type 0 where
  frame : (key : String) → lookup key rest ≡ none → lookup key r.0.jobs ≡ lookup key p.jobs
  others : (key : String) → lookup key rest ≡ none → All (λ j. str_eq key j.id ≡ false) r.1
  pub listed : Listed r.0.jobs r.1
  pub distinct : Distinct r.0.jobs
  pub size : length r.0.jobs + length rest ≡ length p.jobs + length r.1

Scanned-cons :
    (now : ℤ) (id : String) (job : ImportJob) (rest : List (String × ImportJob)) (p : Pruning)
    → Distinct ((id, job) ∷ rest)
    → Distinct p.jobs
    → Present p.jobs ((id, job) ∷ rest)
    → Scanned rest
        (next_pruning now true id job p)
        (scan_jobs now true rest (next_pruning now true id job p))
    → Scanned ((id, job) ∷ rest) p (scan_jobs now true ((id, job) ∷ rest) p)
unfolding scan_jobs lookup next
Scanned-cons now id job rest p d d' h ih = elim (Bool-cases (is_removed now job)) [
  | inl y ↦
      let dropped : (is_passed true job || is_removed now job) ≡ true = ground (arith, y) in
      rw (scan_jobs, dropped)
        (record {
          frame = λ key e. ih.frame key (after key e) ∙ next-lookup now id job p key (other key e);
          others = λ key e. ih.others key (after key e);
          listed = ih.listed;
          distinct = ih.distinct;
          size = size_removed (ap indicator y);
        })
  | inr n ↦
      let kept : (is_passed true job || is_removed now job) ≡ false = ground (arith, n) in
      rw (scan_jobs, kept)
        (record {
          frame = λ key e. ih.frame key (after key e) ∙ next-lookup now id job p key (other key e);
          others = λ key e. (
            ground (arith, other key e, eq_iff id key, eq_iff key id),
            ih.others key (after key e),
          );
          listed =
              (rw (ih.frame id d.0) (next-present now id job p n h.0), ih.others id d.0, ih.listed);
          distinct = ih.distinct;
          size = size_kept (ap indicator n);
        })
]
  where
    q : Pruning
    q = next_pruning now true id job p

    size : length q.jobs + indicator (is_removed now job) ≡ length p.jobs
    size = next-length now id job p d' h.0

    r : Pruning × List RetainedJob
    r = scan_jobs now true rest q

    size_removed :
        indicator (is_removed now job) ≡ 1
        → length r.0.jobs + suc (length rest) ≡ length p.jobs + length r.1
    size_removed one = omega (arith, ih.size, size, one)

    size_kept :
        indicator (is_removed now job) ≡ 0
        → length r.0.jobs + suc (length rest) ≡ length p.jobs + suc (length r.1)
    size_kept none_more = omega (arith, ih.size, size, none_more)

    other : (key : String) → lookup key ((id, job) ∷ rest) ≡ none → str_eq id key ≡ false
    other key e = ground (arith, e)

    after : (key : String) → lookup key ((id, job) ∷ rest) ≡ none → lookup key rest ≡ none
    after key e = ground (arith, e)

pub scan_jobs-Scanned :
    (now : ℤ) (rest : List (String × ImportJob)) (p : Pruning)
    → Distinct rest
    → Distinct p.jobs
    → Present p.jobs rest
    → Scanned rest p (scan_jobs now true rest p)
unfolding scan_jobs lookup next
scan_jobs-Scanned now [] p d d' h = record {
  frame = λ key e. refl;
  others = λ key e. tt;
  listed = tt;
  distinct = d';
  size = omega arith;
}
scan_jobs-Scanned now ((id, job) ∷ rest) p d d' h = Scanned-cons now id job rest p d d' h (
    scan_jobs-Scanned now rest (next_pruning now true id job p) d.1 (next-Distinct now id job p d')
      (Present-next now id job p rest d.0 h.1))

-- A pruning that has changed nothing has the jobs of its start.
abbrev pub Idle : List (String × ImportJob) → Pruning → Type 0
Idle start p = p.changed ≡ false → p.jobs ≡ start

settled-Idle :
    (now : ℤ) (id : String) (job : ImportJob) (start : List (String × ImportJob)) (p : Pruning)
    → Idle start p
    → Idle start (settled now id job p)
unfolding settled
settled-Idle now id job start p h = elim (Bool-cases (is_running job)) [
  | inl y ↦ rw y (λ e. absurd (cc))
  | inr n ↦ rw n h
]

pub Idle-next :
    (now : ℤ) (id : String) (job : ImportJob) (start : List (String × ImportJob)) (p : Pruning)
    → Idle start p
    → Idle start (next_pruning now true id job p)
unfolding next
Idle-next now id job start p h =
    rw (next_settled now id job p) (elim (Bool-cases (is_removed now job)) [
      | inl y ↦ rw y (λ e. absurd (cc))
      | inr n ↦ rw n (settled-Idle now id job start p h)
    ])
