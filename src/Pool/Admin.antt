-- ===== src/Pool/Admin.antt =====
-- internal/monitor/manager.go: `Release` and `ManualBlacklist`, which go through the closures that
-- the pool has stored in the entry. A ban takes the mutex of the state and then that of the entry.
use easy_proxies.Prelude.{ℕ, String, Option, none, some, [], ◌∷◌, ℤ, ◌+ℤ◌, lookup}
use easy_proxies.Monitor.Entry.{ReleaseFn}
use easy_proxies.Monitor.Manager.{Error, node_not_found, release_unavailable}
use easy_proxies.Pool.Shared.{
  World, EntryCall, make_calls, force_release, release_shared_member, blacklist_shared_member,
}
use easy_proxies.Pool.Dial.{on_shared}

-- The closures of `makeReleaseFunc` and `makeReleaseByTagFunc`.
unfoldable pub run_release : ReleaseFn → World → World
unfolding release_shared_member
run_release (ReleaseFn.release_member shared) w = on_shared force_release shared w
run_release (ReleaseFn.release_by_tag tag) w = release_shared_member tag w

abbrev pub release_entry : Option ReleaseFn → World → World × Option Error
release_entry none w = (w, some release_unavailable)
release_entry (some fn) w = (run_release fn w, none)

-- `Manager.Release`
unfoldable pub release : String → World → World × Option Error
unfolding run_release
release tag w = elim (lookup tag w.monitor.nodes) [
  | none ↦ (w, some node_not_found)
  | some e ↦ release_entry (w.monitor.entries e).release w
]

-- The closure of `makeBlacklistByTagFunc`, if there is one.
abbrev pub run_blacklist : ℤ → ℤ → Option String → World → World
run_blacklist now duration none w = w
run_blacklist now duration (some tag) w = blacklist_shared_member now tag duration w

abbrev pub blacklist_entry : ℤ → ℤ → ℕ → World → World
blacklist_entry now duration e w =
    make_calls (some e) (EntryCall.bans (now +ℤ duration) ∷ [])
      (run_blacklist now duration (w.monitor.entries e).blacklist_fn w)

-- `Manager.ManualBlacklist`: the pool's state, which routes, and the monitor's, which is shown.
unfoldable pub manual_blacklist : ℤ → String → ℤ → World → World × Option Error
unfolding blacklist_shared_member make_calls
manual_blacklist now tag duration w = elim (lookup tag w.monitor.nodes) [
  | none ↦ (w, some node_not_found)
  | some e ↦ (blacklist_entry now duration e w, none)
]
