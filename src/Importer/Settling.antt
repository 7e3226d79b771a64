-- ===== src/Importer/Settling.antt =====
-- A tag binding job settles, however its tags end and wherever it is cancelled.
use easy_proxies.Prelude.{
  ℕ, suc, ◌+◌, ◌≤◌, Bool, some, none, List, [], ◌∷◌, ℤ, String, length, All, ◌≡◌, ◌≢◌, refl, arith,
  Bool-cases, inl, inr, ◌∙◌, ap, subst,
}
use easy_proxies.Importer.TagBinding.{
  job_canceled, conclude, JobStatus, TagBindingJob, summarize, cancel_from, finish_canceled,
}
use easy_proxies.Importer.TagBindingRun.{
  TagRun, stage_failed, nothing_to_do, commit_failed, import_canceled, import_failed, import_passed,
  run_tag, run_tags, new_job, waiting_items, stops_after,
}
use easy_proxies.Importer.Bindings.{
  count_items-counts, IsFinal, ended, Stands, Ready, prepare-Stands, testing-Stands, summarize_lem,
  summarize_decides, ended-All, cancel_from-All, FinalTo-All, FinalTo-zero,
}

run_tag-Stands :
    (now : ℤ) (n : ℕ) (r : TagRun) (j : TagBindingJob)
    → Ready n j
    → let j' = (run_tag now n r j).0 in Stands (suc n) j' × (j'.total_tags ≡ j.total_tags)
unfolding run_tag
run_tag-Stands now n (stage_failed err) j h = prepare-Stands now n _ _ (some err) j refl h
run_tag-Stands now n nothing_to_do j h = prepare-Stands now n _ _ none j refl h
run_tag-Stands now n (commit_failed err) j h = prepare-Stands now n _ _ (some err) j refl h
run_tag-Stands now n (import_canceled id child err stop) j h =
    testing-Stands now n id _ _ err j refl h
run_tag-Stands now n (import_failed id child message) j h =
    testing-Stands now n id _ _ (some message) j refl h
run_tag-Stands now n (import_passed id child) j h = testing-Stands now n id _ _ none j refl h

-- Every item has ended, the job runs no longer, and its counters account for every tag.
pub record Settled (total : ℕ) (j : TagBindingJob) : Type 0 where
  pub all_final : All IsFinal j.items
  pub stopped : j.status ≢ JobStatus.running
  pub done : j.done_tags ≡ total
  pub split : j.successful + j.failed + j.skipped ≡ total

summarize-Settled :
    (now : ℤ) (j : TagBindingJob)
    → All IsFinal j.items
    → length j.items ≡ j.total_tags
    → Settled j.total_tags (record (summarize j) { updated_at = now })
summarize-Settled now j h e =
    let (items, total, counted, parts) = summarize_lem j in
    let all : ended j.items ≡ j.total_tags = ended-All j.items h ∙ e in
    record {
      all_final = rw items h;
      stopped = summarize_decides j (omega (arith, all));
      done = counted ∙ all;
      split = parts ∙ counted ∙ all;
    }

finish_canceled-Settled :
    (now : ℤ) (n : ℕ) (j : TagBindingJob)
    → Stands n j
    → Settled j.total_tags (finish_canceled now n j)
      × ((finish_canceled now n j).status ≡ JobStatus.canceled)
unfolding finish_canceled
finish_canceled-Settled now n j h =
    let (all, same) = cancel_from-All now n j.items h.final in
    let settled =
      summarize-Settled now
        (record j {
          items = cancel_from now n j.items;
          status = JobStatus.canceled;
          error = job_canceled;
        })
        all (same ∙ h.sized) in
    (
      record {
        all_final = settled.all_final;
        stopped = λ e. ground arith;
        done = settled.done;
        split = settled.split;
      },
      refl,
    )

run_tags-Settled :
    (now : ℤ) (n : ℕ) (rs : List (Bool × TagRun)) (j : TagBindingJob)
    → Stands n j
    → n + length rs ≡ j.total_tags
    → Settled j.total_tags (run_tags now n rs j)
unfolding run_tags
run_tags-Settled now n [] j h e =
    summarize-Settled now j (FinalTo-All n j.items h.final (omega (arith, h.sized))) h.sized
run_tags-Settled now n ((c, r) ∷ rs) j h e =
    let (stands, total) = run_tag-Stands now n r j (h, omega arith) in
    let j' = (run_tag now n r j).0 in
    let rest =
      run_tags-Settled now (n + 1) rs j' (subst (λ k. Stands k j') (omega arith) stands)
        (omega (arith, total)) in
    let stop =
      (finish_canceled-Settled now (n + 1) j' (subst (λ k. Stands k j') (omega arith) stands)).0 in
    elim (Bool-cases c) [
      | inl y ↦ rw y (finish_canceled-Settled now n j h).0
      | inr y ↦ elim (Bool-cases (stops_after r)) [
        | inl z ↦ rw y (rw z (subst (λ k. Settled k (finish_canceled now (n + 1) j')) total stop))
        | inr z ↦ rw y (rw z (subst (λ k. Settled k (run_tags now (n + 1) rs j')) total rest))
      ]
    ]

length-waiting_items :
    (now : ℤ) (tags : List String) → length (waiting_items now tags) ≡ length tags
length-waiting_items now [] = refl
length-waiting_items now (tag ∷ tags) = ap suc (length-waiting_items now tags)

-- A new tag binding job settles, whatever happens at each tag (staging, committing and testing
-- fail or not) and at whichever tag the context is found cancelled: in the end every item has
-- ended, the job is no longer running, all its tags are done, and the successful, failed and
-- skipped tags add up to them.
pub new_job-Settled :
    (now later : ℤ) (tags : List String) (rs : List (Bool × TagRun))
    → length rs ≡ length tags
    → Settled (length tags) (run_tags later 0 rs (new_job now tags))
unfolding new_job
new_job-Settled now later tags rs e =
    run_tags-Settled later 0 rs (new_job now tags)
      (record {
        final = FinalTo-zero (waiting_items now tags);
        sized = length-waiting_items now tags;
      })
      (omega (arith, e))

summarize_error :
    (j : TagBindingJob) → j.total_tags ≤ ended j.items → (summarize j).error ≢ job_canceled
unfolding summarize conclude
summarize_error j h =
    let fresh = record j { done_tags = 0; successful = 0; failed = 0; skipped = 0 } in
    ground (arith, count_items-counts j.items fresh)

-- A job that is cancelled at an item, with those before it ended, is in the state canceled with
-- all its items ended, but its error is not that of a cancellation: the summary overwrites it.
pub finish_canceled_error :
    (now : ℤ) (n : ℕ) (j : TagBindingJob)
    → Stands n j
    → Settled j.total_tags (finish_canceled now n j)
      × ((finish_canceled now n j).status ≡ JobStatus.canceled)
      × ((finish_canceled now n j).error ≢ job_canceled)
unfolding finish_canceled
finish_canceled_error now n j h =
    let (all, same) = cancel_from-All now n j.items h.final in
    let cancelled = record j {
      items = cancel_from now n j.items;
      status = JobStatus.canceled;
      error = job_canceled;
    } in
    let count : ended cancelled.items ≡ j.total_tags =
      ended-All cancelled.items all ∙ (same ∙ h.sized) in
    let (settled, status) = finish_canceled-Settled now n j h in
    (settled, status, summarize_error cancelled (omega (arith, count)))
