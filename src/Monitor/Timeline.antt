-- ===== src/Monitor/Timeline.antt =====
-- The timeline of an entry, over any sequence of recorded results.
use easy_proxies.Prelude.{
  drop_one-drop, suc, ℕ, ◌+◌, ◌-◌, ◌≤◌, ◌≡◌, refl, sym, ap, ◌∙◌, String, true, false, List, [], ◌∷◌,
  ◌++◌, ℤ, pos, arith, leb, leb→le, length, drop, length-append, length-drop, drop-append,
  Bool-cases, inl, inr, append-nil, append_assoc,
}
use easy_proxies.Monitor.Entry.{
  Entry, TimelineEvent, append_timeline, max_timeline_size, record_failure, record_success,
  record_success_with_latency, latency_millis, new_event,
}

-- The last `n` elements.
abbrev pub last {ℓ} : {A : Type ℓ} → ℕ → List A → List A
last n xs = drop (length xs - n) xs

pub data Outcome : Type 0 where
  failed : ℤ → String → Outcome
  succeeded : ℤ → Outcome
  measured : ℤ → ℤ → Outcome

unfoldable pub record_outcome : Outcome → Entry → Entry
record_outcome (failed now err) e = record_failure now err e
record_outcome (succeeded now) e = record_success now e
record_outcome (measured now latency) e = record_success_with_latency now latency e

unfoldable pub record_outcomes : List Outcome → Entry → Entry
unfolding record_outcome
record_outcomes [] e = e
record_outcomes (o ∷ os) e = record_outcomes os (record_outcome o e)

-- The event that an outcome leaves.
abbrev pub event_of : Outcome → TimelineEvent
event_of (failed now err) = new_event now false (pos 0) err
event_of (succeeded now) = new_event now true (pos 0) ""
event_of (measured now latency) = new_event now true (latency_millis latency) ""

abbrev pub events_of : List Outcome → List TimelineEvent
events_of [] = []
events_of (o ∷ os) = event_of o ∷ events_of os

append_timeline-last :
    (ts : List TimelineEvent) (evt : TimelineEvent)
    → append_timeline (last max_timeline_size ts) evt ≡ last max_timeline_size (ts ++ evt ∷ [])
unfolding append_timeline
append_timeline-last ts evt =
    elim (Bool-cases (leb max_timeline_size (length (last max_timeline_size ts)))) [
      | inl full ↦
          rw (full, append_timeline)
            (rw (drop_one-drop (length ts - 20) ts) (
              ap (λ k. drop k ts ++ evt ∷ []) (enough full)
              ∙ sym (drop-append (length (ts ++ evt ∷ []) - 20) ts (evt ∷ []) (fits full))))
      | inr room ↦ rw (room, append_timeline) (rw (short room, short_more room))
    ]
  where
    size : length (ts ++ evt ∷ []) ≡ length ts + 1
    size = length-append ts (evt ∷ [])

    enough :
        leb max_timeline_size (length (last max_timeline_size ts)) ≡ true
        → suc (length ts - 20) ≡ length (ts ++ evt ∷ []) - 20
    enough full =
        let le = leb→le 20 (length (last 20 ts)) full in
        omega (arith, size, length-drop (length ts - 20) ts)

    fits :
        leb max_timeline_size (length (last max_timeline_size ts)) ≡ true
        → length (ts ++ evt ∷ []) - 20 ≤ length ts
    fits full = omega (arith, size)

    short : leb max_timeline_size (length (last max_timeline_size ts)) ≡ false → length ts - 20 ≡ 0
    short room = ground (arith, length-drop (length ts - 20) ts)

    short_more :
        leb max_timeline_size (length (last max_timeline_size ts)) ≡ false
        → length (ts ++ evt ∷ []) - 20 ≡ 0
    short_more room = ground (arith, size, length-drop (length ts - 20) ts)

outcome_timeline :
    (o : Outcome) (e : Entry)
    → (record_outcome o e).timeline ≡ append_timeline e.timeline (event_of o)
unfolding record_outcome record_failure record_success record_success_with_latency
outcome_timeline (failed now err) e = refl
outcome_timeline (succeeded now) e = refl
outcome_timeline (measured now latency) e = refl

-- If an entry's timeline holds the last twenty of some past events, then after any sequence of
-- recorded failures and successes it holds the last twenty of all events, the past ones and those
-- of the sequence, in order.
pub record_outcomes-last :
    (os : List Outcome) (e : Entry) (past : List TimelineEvent)
    → e.timeline ≡ last max_timeline_size past
    → (record_outcomes os e).timeline ≡ last max_timeline_size (past ++ events_of os)
unfolding record_outcomes
record_outcomes-last [] e past h = h ∙ sym (ap (last max_timeline_size) (append-nil past))
record_outcomes-last (o ∷ os) e past h =
    record_outcomes-last os (record_outcome o e) (past ++ event_of o ∷ []) (
      outcome_timeline o e
      ∙ ap (λ ts. append_timeline ts (event_of o)) h
      ∙ append_timeline-last past (event_of o))
    ∙ ap (last max_timeline_size) (append_assoc past (event_of o ∷ []) (events_of os))
