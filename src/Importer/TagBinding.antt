-- ===== src/Importer/TagBinding.antt =====
-- internal/importer/tag_binding.go: the job that moves tags to another front proxy, its items and
-- its summary. The import job of a tag runs elsewhere: its end is an argument.
use easy_proxies.Prelude.{
  ℕ, zero, suc, ◌+◌, Bool, true, false, Option, none, some, List, [], ◌∷◌, String, ℤ, if◌then◌else◌,
  ◌==◌, ltb, get_elem?, set,
}

pub data ItemStatus : Type 0 where
  waiting preparing testing completed failed skipped canceled : ItemStatus

pub data JobStatus : Type 0 where
  running completed partial failed canceled : JobStatus

pub record Item : Type 0 where
  pub tag_prefix : String
  pub status : ItemStatus
  pub job_id : String
  pub total : ℕ
  pub passed : ℕ
  pub failed : ℕ
  pub promoted : ℕ
  pub error : String
  pub updated_at : ℤ

-- The job's error text, with the number it shows.
pub data JobError : Type 0 where
  no_error all_tags_failed job_canceled terminating shutting_down : JobError
  some_tags_failed : ℕ → JobError

pub record TagBindingJob : Type 0 where
  pub status : JobStatus
  pub total_tags : ℕ
  pub done_tags : ℕ
  pub successful : ℕ
  pub failed : ℕ
  pub skipped : ℕ
  pub items : List Item
  pub error : JobError
  pub updated_at : ℤ

-- The counters of an import job that an item shows.
pub record ImportJob : Type 0 where
  pub total : ℕ
  pub passed : ℕ
  pub failed : ℕ
  pub promoted : ℕ

abbrev pub no_import : ImportJob
no_import = record { total = 0; passed = 0; failed = 0; promoted = 0 }

-- One round of the loop of `summarizeTagBindingJob`, by the item's status.
abbrev pub count_item : ItemStatus → TagBindingJob → TagBindingJob
count_item ItemStatus.completed j = record j {
  done_tags = j.done_tags + 1;
  successful = j.successful + 1;
}
count_item ItemStatus.failed j = record j { done_tags = j.done_tags + 1; failed = j.failed + 1 }
count_item ItemStatus.skipped j = record j { done_tags = j.done_tags + 1; skipped = j.skipped + 1 }
count_item ItemStatus.canceled j = record j { done_tags = j.done_tags + 1; failed = j.failed + 1 }
count_item ItemStatus.waiting j = j
count_item ItemStatus.preparing j = j
count_item ItemStatus.testing j = j

unfoldable pub count_items : List Item → TagBindingJob → TagBindingJob
count_items [] j = j
count_items (item ∷ rest) j = count_items rest (count_item item.status j)

-- The `switch` behind the loop.
unfoldable pub conclude : TagBindingJob → TagBindingJob
conclude j =
    if ltb j.done_tags j.total_tags
    then j
    else if j.failed == 0
    then record j { status = JobStatus.completed; error = no_error }
    else if ltb 0 (j.successful + j.skipped)
    then record j { status = JobStatus.partial; error = some_tags_failed j.failed }
    else record j { status = JobStatus.failed; error = all_tags_failed }

unfoldable pub summarize : TagBindingJob → TagBindingJob
unfolding count_items conclude
summarize j =
    conclude
      (count_items j.items (record j { done_tags = 0; successful = 0; failed = 0; skipped = 0 }))

abbrev pub or_error : Option String → String → String
or_error none old = old
or_error (some err) old = err

-- `finishTagBindingItem` on the item; an index out of range changes only the time.
abbrev pub finished_item : ℤ → ItemStatus → ImportJob → Option String → Item → Item
finished_item now status child err item = record item {
  status = status;
  total = child.total;
  passed = child.passed;
  failed = child.failed;
  promoted = child.promoted;
  error = or_error err item.error;
  updated_at = now;
}

unfoldable pub finish_item :
    ℤ → ℕ → ItemStatus → ImportJob → Option String → TagBindingJob → TagBindingJob
unfolding summarize
finish_item now index status child err j = elim (get_elem? j.items index) [
  | none ↦ record j { updated_at = now }
  | some item ↦
      let j' =
        summarize
          (record j { items = set j.items index (finished_item now status child err item) }) in
      record j' { updated_at = now }
]

-- `updateTagBindingItem`
unfoldable pub update_item : ℤ → ℕ → (Item → Item) → TagBindingJob → TagBindingJob
update_item now index update j = elim (get_elem? j.items index) [
  | none ↦ record j { updated_at = now }
  | some item ↦
      let item' = update item in
      record j { items = set j.items index (record item' { updated_at = now }); updated_at = now }
]

abbrev pub is_pending : ItemStatus → Bool
is_pending ItemStatus.waiting = true
is_pending ItemStatus.preparing = true
is_pending ItemStatus.testing = true
is_pending _ = false

abbrev pub cancel_item : ℤ → Item → Item
cancel_item now item =
    if is_pending item.status
    then record item { status = ItemStatus.canceled; error = "任务已取消"; updated_at = now }
    else item

-- The loop of `finishCanceledTagBindingJob`, from an index on.
unfoldable pub cancel_from : ℤ → ℕ → List Item → List Item
cancel_from now start [] = []
cancel_from now zero (item ∷ rest) = cancel_item now item ∷ cancel_from now zero rest
cancel_from now (suc start) (item ∷ rest) = item ∷ cancel_from now start rest

unfoldable pub finish_canceled : ℤ → ℕ → TagBindingJob → TagBindingJob
unfolding cancel_from summarize
finish_canceled now start j =
    let j' = summarize (record j {
      items = cancel_from now start j.items;
      status = JobStatus.canceled;
      error = job_canceled;
    }) in
    record j' { status = JobStatus.canceled; updated_at = now }
