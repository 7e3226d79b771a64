-- ===== src/Monitor/Tests.antt =====
-- The theorems on the monitor at concrete inputs.
use mathlib.Core.List.{Perm}
use easy_proxies.Prelude.{◌≤◌, true, false, [], ◌∷◌, ◌++◌, pos, ◌≡◌, refl}
use easy_proxies.Monitor.Entry.{max_timeline_size}
use easy_proxies.Monitor.Manager.{snapshot_filtered, stop}
use easy_proxies.Monitor.Sorted.{InListingOrder, wanted, snapshot_filtered_lem}
use easy_proxies.Monitor.Timeline.{
  last, failed, measured, record_outcomes, events_of, record_outcomes-last,
}
use easy_proxies.Monitor.LogBuffer.{content, write_all, clear, new_log_buffer, content-write_all}
use easy_proxies.Monitor.Health.{
  starts, begins, ends, started, started-stop, rounds, rounds-le-ended,
}
use easy_proxies.Pool.Fixtures.{monitor, healthy_entry}

snapshot_filtered_lem_example :
    InListingOrder (snapshot_filtered true monitor)
    × Perm (snapshot_filtered true monitor) (wanted true monitor.entries monitor.nodes)
snapshot_filtered_lem_example = snapshot_filtered_lem true monitor

record_outcomes-last_example :
    (record_outcomes
      (failed (pos 3) "refused" ∷ measured (pos 4) (pos 2000000) ∷ [])
      healthy_entry).timeline
    ≡ last max_timeline_size
        ([] ++ events_of (failed (pos 3) "refused" ∷ measured (pos 4) (pos 2000000) ∷ []))
record_outcomes-last_example =
    record_outcomes-last (failed (pos 3) "refused" ∷ measured (pos 4) (pos 2000000) ∷ [])
      healthy_entry [] refl

content-write_all_example :
    content (
      write_all
        (clear (write_all (new_log_buffer 4) ((9 ∷ []) ∷ [])))
        ((1 ∷ 2 ∷ 3 ∷ []) ∷ (4 ∷ 5 ∷ []) ∷ []))
    ≡ 2 ∷ 3 ∷ 4 ∷ 5 ∷ []
content-write_all_example =
    content-write_all 4 ((9 ∷ []) ∷ []) ((1 ∷ 2 ∷ 3 ∷ []) ∷ (4 ∷ 5 ∷ []) ∷ [])

started-stop_example : started (starts (pos 5) ∷ begins false ∷ []) (stop monitor) ≡ 0
started-stop_example = started-stop (starts (pos 5) ∷ begins false ∷ []) monitor

rounds-le-ended_example :
    rounds (begins false ∷ begins false ∷ ends ∷ begins false ∷ []) monitor ≤ 2
rounds-le-ended_example =
    rounds-le-ended (begins false ∷ begins false ∷ ends ∷ begins false ∷ []) monitor
