-- ===== src/Monitor/Order.antt =====
-- internal/monitor/manager.go: the order of `SnapshotFiltered`, and the sort by it.
use easy_proxies.Prelude.{
  codes, codes_lt, ℕ, Bool, true, false, ◌&&◌, List, [], ◌∷◌, ℤ, pos, ltb_ℤ, leb_ℤ, if◌then◌else◌,
}
use easy_proxies.Monitor.Entry.{Snapshot}

-- The comparison of two latencies and two names: a negative latency was never measured.
unfoldable pub less_by : ℤ → ℤ → List ℕ → List ℕ → Bool
less_by i j name_i name_j =
    if ltb_ℤ i (pos 0) && ltb_ℤ j (pos 0)
    then codes_lt name_i name_j
    else if ltb_ℤ i (pos 0)
    then false
    else if ltb_ℤ j (pos 0)
    then true
    else if leb_ℤ i j && leb_ℤ j i
    then codes_lt name_i name_j
    else ltb_ℤ i j

unfoldable pub less : Snapshot → Snapshot → Bool
unfolding less_by
less a b = less_by a.last_latency_ms b.last_latency_ms (codes a.info.name) (codes b.info.name)

-- `sort.Slice` as an insertion sort: an element goes before the first one that is not less.
unfoldable pub insert_snapshot : Snapshot → List Snapshot → List Snapshot
unfolding less
insert_snapshot s [] = s ∷ []
insert_snapshot s (t ∷ rest) = if less t s then t ∷ insert_snapshot s rest else s ∷ t ∷ rest
