-- ===== src/Importer/Bindings.antt =====
-- What the summary of a tag binding job counts, and that the job settles.
use easy_proxies.Prelude.{
  ℕ, zero, suc, ◌+◌, ◌≤◌, ◌<◌, false, not, Option, some, List, [], ◌∷◌, ℤ, String, length,
  get_elem?, set, count, All, ◌≡◌, ◌≢◌, refl, arith, ap, ◌∙◌, length-set, get_elem?-lt,
}
use easy_proxies.Importer.TagBinding.{
  Item, ItemStatus, JobStatus, TagBindingJob, is_pending, count_item, count_items, conclude,
  summarize, finish_item, update_item, cancel_item, cancel_from, finished_item, ImportJob,
}
use easy_proxies.Importer.TagBindingRun.{prepare, begin_testing}

abbrev pub IsFinal : Item → Type 0
IsFinal item = is_pending item.status ≡ false

-- The items before an index are final.
abbrev pub FinalTo : ℕ → List Item → Type 0
FinalTo n [] = Unit
FinalTo zero (item ∷ items) = Unit
FinalTo (suc n) (item ∷ items) = IsFinal item × FinalTo n items

abbrev pub ended : List Item → ℕ
ended items = count (λ item. not (is_pending item.status)) items

pub count_items-counts :
    (items : List Item) (j : TagBindingJob)
    → let j' = count_items items j in
      (j'.items ≡ j.items)
      × (j'.status ≡ j.status)
      × (j'.total_tags ≡ j.total_tags)
      × (j'.done_tags ≡ j.done_tags + ended items)
      × (j'.successful + j'.failed + j'.skipped + j.done_tags
          ≡ j.successful + j.failed + j.skipped + j'.done_tags)
unfolding count_items
count_items-counts [] j = (refl, refl, refl, omega arith, omega arith)
count_items-counts (item ∷ items) j =
    ground (arith, count_items-counts items (count_item item.status j))

pub ended-All : (items : List Item) → All IsFinal items → ended items ≡ length items
ended-All [] h = refl
ended-All (item ∷ items) h = ground (arith, ended-All items h.1)

-- The summary of a job counts each ended item exactly once: the tags done are the items that no
-- longer wait, prepare or test, and are the successful, failed and skipped ones together. It
-- changes no item.
pub summarize_lem :
    (j : TagBindingJob)
    → let j' = summarize j in
      (j'.items ≡ j.items)
      × (j'.total_tags ≡ j.total_tags)
      × (j'.done_tags ≡ ended j.items)
      × (j'.successful + j'.failed + j'.skipped ≡ j'.done_tags)
unfolding summarize conclude
summarize_lem j =
    let fresh = record j { done_tags = 0; successful = 0; failed = 0; skipped = 0 } in
    ground (arith, count_items-counts j.items fresh)

-- The summary decides the job once every tag is done.
pub summarize_decides :
    (j : TagBindingJob) → j.total_tags ≤ ended j.items → (summarize j).status ≢ JobStatus.running
unfolding summarize conclude
summarize_decides j h =
    let fresh = record j { done_tags = 0; successful = 0; failed = 0; skipped = 0 } in
    ground (arith, count_items-counts j.items fresh)

FinalTo-set :
    (n : ℕ) (items : List Item) (item : Item)
    → FinalTo n items
    → IsFinal item
    → FinalTo (suc n) (set items n item)
FinalTo-set n [] item h f = tt
FinalTo-set zero (x ∷ []) item h f = (f, tt)
FinalTo-set zero (x ∷ y ∷ items) item h f = (f, tt)
FinalTo-set (suc n) (x ∷ items) item h f = (h.0, FinalTo-set n items item h.1 f)

FinalTo-keep :
    (n : ℕ) (items : List Item) (item : Item) → FinalTo n items → FinalTo n (set items n item)
FinalTo-keep n [] item h = tt
FinalTo-keep zero (x ∷ items) item h = tt
FinalTo-keep (suc n) (x ∷ items) item h = (h.0, FinalTo-keep n items item h.1)

pub FinalTo-All :
    (n : ℕ) (items : List Item) → FinalTo n items → length items ≤ n → All IsFinal items
FinalTo-All n [] h le = tt
FinalTo-All zero (x ∷ items) h le = absurd (omega arith)
FinalTo-All (suc n) (x ∷ items) h le = (h.0, FinalTo-All n items h.1 (omega arith))

cancel_item-IsFinal : (now : ℤ) (item : Item) → IsFinal (cancel_item now item)
cancel_item-IsFinal now item = ground arith

pub FinalTo-zero : (items : List Item) → FinalTo 0 items
FinalTo-zero [] = tt
FinalTo-zero (x ∷ items) = tt

-- A cancellation ends the items from an index on, when those before it have ended.
pub cancel_from-All :
    (now : ℤ) (n : ℕ) (items : List Item)
    → FinalTo n items
    → All IsFinal (cancel_from now n items) × (length (cancel_from now n items) ≡ length items)
unfolding cancel_from
cancel_from-All now n [] h = (tt, refl)
cancel_from-All now zero (x ∷ items) h =
    let rest = cancel_from-All now zero items (FinalTo-zero items) in
    ((cancel_item-IsFinal now x, rest.0), ap suc rest.1)
cancel_from-All now (suc n) (x ∷ items) h =
    let rest = cancel_from-All now n items h.1 in ((h.0, rest.0), ap suc rest.1)

-- The loop stands before an item: those before it have ended, and the job has an item per tag.
pub record Stands (n : ℕ) (j : TagBindingJob) : Type 0 where
  pub final : FinalTo n j.items
  pub sized : length j.items ≡ j.total_tags

of_items :
    (n : ℕ) (j : TagBindingJob) {items : List Item} {total : ℕ}
    → j.items ≡ items
    → j.total_tags ≡ total
    → FinalTo n items
    → length items ≡ total
    → Stands n j
of_items n j e t f h = record { final = rw e f; sized = rw e (rw t h) }

update_item-items :
    (now : ℤ) (n : ℕ) (f : Item → Item) (j : TagBindingJob) {item : Item}
    → get_elem? j.items n ≡ some item
    → ((update_item now n f j).items ≡ set j.items n (record (f item) { updated_at = now }))
      × ((update_item now n f j).total_tags ≡ j.total_tags)
unfolding update_item
update_item-items now n f j e = (rw (update_item, e), rw (update_item, e))

finish_item-items :
    (now : ℤ) (n : ℕ) (status : ItemStatus) (child : ImportJob) (err : Option String)
    (j : TagBindingJob) {item : Item}
    → get_elem? j.items n ≡ some item
    → let j' = finish_item now n status child err j in
      (j'.items ≡ set j.items n (finished_item now status child err item))
      × (j'.total_tags ≡ j.total_tags)
unfolding finish_item
finish_item-items now n status child err j {item} e =
    let done = finished_item now status child err item in
    let (items, total, _, _) = summarize_lem (record j { items = set j.items n done }) in
    (rw (finish_item, e) items, rw (finish_item, e) total)

-- The next item is there.
abbrev pub Ready : ℕ → TagBindingJob → Type 0
Ready n j = Stands n j × (n < j.total_tags)

update_item-Ready :
    (now : ℤ) (n : ℕ) (f : Item → Item) (j : TagBindingJob)
    → Ready n j
    → Ready n (update_item now n f j) × ((update_item now n f j).total_tags ≡ j.total_tags)
update_item-Ready now n f j (h, lt) =
    let (item, found) = get_elem?-lt j.items n (rw h.sized lt) in
    let (items, total) = update_item-items now n f j found in
    (
      (
        of_items n _ items total (FinalTo-keep n j.items _ h.final)
            (length-set j.items n _ ∙ h.sized),
        rw total lt,
      ),
      total,
    )

finish_item-Stands :
    (now : ℤ) (n : ℕ) (status : ItemStatus) (child : ImportJob) (err : Option String)
    (j : TagBindingJob)
    → is_pending status ≡ false
    → Ready n j
    → let j' = finish_item now n status child err j in
      Stands (suc n) j' × (j'.total_tags ≡ j.total_tags)
finish_item-Stands now n status child err j e (h, lt) =
    let (item, found) = get_elem?-lt j.items n (rw h.sized lt) in
    let (items, total) = finish_item-items now n status child err j found in
    (
      of_items (suc n) _ items total (FinalTo-set n j.items _ h.final e)
          (length-set j.items n _ ∙ h.sized),
      total,
    )

pub prepare-Stands :
    (now : ℤ) (n : ℕ) (status : ItemStatus) (child : ImportJob) (err : Option String)
    (j : TagBindingJob)
    → is_pending status ≡ false
    → Ready n j
    → let j' = finish_item now n status child err (prepare now n j) in
      Stands (suc n) j' × (j'.total_tags ≡ j.total_tags)
prepare-Stands now n status child err j e h =
    let (ready, total) = update_item-Ready now n _ j h in
    let (stands, total') = finish_item-Stands now n status child err (prepare now n j) e ready in
    (stands, total' ∙ total)

pub testing-Stands :
    (now : ℤ) (n : ℕ) (id : String) (status : ItemStatus) (child : ImportJob) (err : Option String)
    (j : TagBindingJob)
    → is_pending status ≡ false
    → Ready n j
    → let j' = finish_item now n status child err (begin_testing now n id (prepare now n j)) in
      Stands (suc n) j' × (j'.total_tags ≡ j.total_tags)
testing-Stands now n id status child err j e h =
    let (ready, total) = update_item-Ready now n _ j h in
    let (tested, total') = update_item-Ready now n _ (prepare now n j) ready in
    let (stands, total'') = finish_item-Stands now n status child err _ e tested in
    (stands, total'' ∙ total' ∙ total)
