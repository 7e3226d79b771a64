-- ===== src/Pool/Race.antt =====
-- Two operations on one node, the second between the parts of the first.
use easy_proxies.Prelude.{ℕ, ◌+◌, String, true, false, some, ℤ, pos, ◌+ℤ◌, ◌≤ℤ◌, ◌≡◌, arith}
use easy_proxies.Monitor.Entry.{
  blacklist_until, clear_blacklist, record_failure as entry_record_failure,
}
use easy_proxies.Monitor.Manager.{with_entry}
use easy_proxies.Pool.Shared.{
  World, failure_calls, entry_call, fail_locked, reset_locked, make_calls, force_release, put_state,
}

-- A failure that blacklists the node, up to the calls on its entry.
abbrev failed : ℤ → ℤ → ℤ → ℕ → World → World
failed now threshold duration a w =
    put_state a (fail_locked now threshold duration (w.states a)).0 w

-- A release of a node between the two parts of a failure that reaches the threshold leaves the
-- monitor and the pool apart: the entry shows the node as blacklisted until the duration is over,
-- and the pool routes to it.
pub failure_release_race :
    (now : ℤ) (cause : String) (threshold duration : ℤ) (a e : ℕ) (w : World)
    → (w.states a).entry ≡ some e
    → threshold ≤ℤ pos ((w.states a).failures + 1)
    → let triggered = (fail_locked now threshold duration (w.states a)).2 in
      let w' =
        make_calls
          (some e)
          (failure_calls now cause duration triggered)
          (force_release a (failed now threshold duration a w)) in
      ((w'.monitor.entries e).blacklist ≡ true)
      × ((w'.monitor.entries e).until ≡ now +ℤ duration)
      × ((w'.states a).blacklisted ≡ false)
unfolding fail_locked force_release reset_locked make_calls with_entry entry_call
    entry_record_failure blacklist_until clear_blacklist
failure_release_race now cause threshold duration a e w o h =
    (ground arith, ground arith, ground arith)
