-- ===== src/Importer/Passes.antt =====
-- The two passes over the site targets.
use easy_proxies.Prelude.{
  false, none, some, List, [], ◌∷◌, String, lookup, put, lookup-put, str_eq, eq_iff, if◌then◌else◌,
  ◌≡◌, Option-cases, Bool-cases, inl, inr, ◌∙◌, sym, ap, some_eq,
}
use easy_proxies.Importer.Verification.{
  ConnectivityResult, SiteTestProgress, SiteEvent, Sites, Progress, event_key, first_event,
  retry_event, first_events, retry_events, counted, recounted,
}
use easy_proxies.Importer.Tallies.{Tallied, put-Counts, retry-Counts}

-- A write of the item of a target that has one.
item_after :
    (t u : String) (m : Progress) (f : SiteTestProgress → SiteTestProgress)
    {item other : SiteTestProgress}
    → lookup t m ≡ some item
    → lookup u m ≡ some other
    → lookup t (put m u (f other)) ≡ some (if str_eq u t then f item else item)
item_after t u m f {item} {other} e g = elim (Bool-cases (str_eq u t)) [
  | inl y ↦
      let same : u ≡ t = (eq_iff u t).0 y in
      let alike : other ≡ item = some_eq (sym g ∙ ap (λ k. lookup k m) same ∙ e) in
      lookup-put m u t (f other) ∙ rw y (ap (λ x. some (f x)) alike)
  | inr n ↦ lookup-put m u t (f other) ∙ rw n e
]

first_event-Tallied :
    (t : String) (e : SiteEvent) (s : Sites)
    → lookup (event_key e) s.results ≡ none
    → Tallied t s
    → Tallied t (first_event e s)
unfolding first_event
first_event-Tallied t e s absent (item, at, c) =
    elim (Option-cases (lookup e.result.target_id s.progress)) [
      | inl g ↦ rw (first_event, g) (item, at, c)
      | inr (other, g) ↦
          rw (first_event, g)
            (
              (if str_eq e.result.target_id t then counted e.result.success item else item),
              item_after t e.result.target_id s.progress (counted e.result.success) at g,
              put-Counts t (event_key e) e.result s.results item absent c,
            )
    ]

-- The result that an event of the second pass replaces: one of the same target, which failed.
abbrev pub Replaces : SiteEvent → Sites → Type 0
Replaces e s =
    (old : ConnectivityResult) × (lookup (event_key e) s.results ≡ some old)
    × (old.success ≡ false)
    × (old.target_id ≡ e.result.target_id)

retry_event-Tallied :
    (t : String) (e : SiteEvent) (s : Sites)
    → Replaces e s
    → Tallied t s
    → Tallied t (retry_event e s)
unfolding retry_event
retry_event-Tallied t e s (old, found, lost, same) (item, at, c) =
    elim (Option-cases (lookup e.result.target_id s.progress)) [
      | inl g ↦ rw (retry_event, g) (item, at, c)
      | inr (other, g) ↦
          rw (retry_event, g)
            (rw found (
              rw lost (
                (if str_eq e.result.target_id t then recounted e.result.success item else item),
                item_after t e.result.target_id s.progress (recounted e.result.success) at g,
                retry-Counts t (event_key e) (record e.result { first_success = old.first_success })
                    old s.results item found lost same c,
              )))
    ]

-- The first pass reports on each pair of a node and a target once, the second on pairs that have
-- failed.
abbrev pub Fresh : List SiteEvent → Sites → Type 0
Fresh [] s = Unit
Fresh (e ∷ es) s = (lookup (event_key e) s.results ≡ none) × Fresh es (first_event e s)

abbrev pub Retries : List SiteEvent → Sites → Type 0
Retries [] s = Unit
Retries (e ∷ es) s = Replaces e s × Retries es (retry_event e s)

first_events-Tallied :
    (t : String) (es : List SiteEvent) (s : Sites)
    → Fresh es s
    → Tallied t s
    → Tallied t (first_events es s)
unfolding first_events
first_events-Tallied t [] s h c = c
first_events-Tallied t (e ∷ es) s h c =
    first_events-Tallied t es (first_event e s) h.1 (first_event-Tallied t e s h.0 c)

retry_events-Tallied :
    (t : String) (es : List SiteEvent) (s : Sites)
    → Retries es s
    → Tallied t s
    → Tallied t (retry_events es s)
unfolding retry_events
retry_events-Tallied t [] s h c = c
retry_events-Tallied t (e ∷ es) s h c =
    retry_events-Tallied t es (retry_event e s) h.1 (retry_event-Tallied t e s h.0 c)

-- If the first pass reports on each pair of a node and a target once, and the second only on pairs
-- whose result so far is a failure, then the progress of a target that agrees with the results
-- before them agrees after both passes: it counts as passed, failed and done just the targets'
-- results that succeeded, failed, and both.
pub passes-Tallied :
    (t : String) (es rs : List SiteEvent) (s : Sites)
    → Fresh es s
    → Retries rs (first_events es s)
    → Tallied t s
    → Tallied t (retry_events rs (first_events es s))
passes-Tallied t es rs s h k c =
    retry_events-Tallied t rs (first_events es s) k (first_events-Tallied t es s h c)
