-- ===== src/Pool/Tests.antt =====
-- Runs of the pool, and its theorems at concrete inputs.
use easy_proxies.Prelude.{
  ◌-ℤ◌, ◌+◌, ◌%◌, ◌≤◌, true, false, none, some, [], ◌∷◌, ℤ, pos, ◌≡◌, refl, arith, ◌+ℤ◌, length,
}
use easy_proxies.Pool.Shared.{
  fail_locked, EntryCall, failure_calls, make_calls, force_release, put_state,
}
use easy_proxies.Pool.Members.{can_serve, state_admits}
use easy_proxies.Pool.Select.{select_sequential, select_random, select_rotate}
use easy_proxies.Pool.Search.{find_first, serves_at}
use easy_proxies.Pool.Balance.{select_balance}
use easy_proxies.Pool.Picks.{Picks}
use easy_proxies.Pool.Rounds.{select_sequential-Picks, select_random-Picks}
use easy_proxies.Pool.Rotation.{is_kept, select_rotate_moves, select_rotate-Picks}
use easy_proxies.Pool.BalanceFinds.{Finds, select_balance-Finds}
use easy_proxies.Pool.Wrap.{sequential_skips}
use easy_proxies.Pool.Leak.{balance_leak}
use easy_proxies.Pool.Breaker.{
  fail, acquire, trials, trials-le-outcomes, fail_times_trips, fail_times,
}
use easy_proxies.Pool.Race.{failure_release_race}
use easy_proxies.Pool.Traffic.{begins, answers, closes, run, Counted}
use easy_proxies.Pool.Accounting.{run-Counted}
use easy_proxies.Pool.Dial.{connected, dial_failed}
use easy_proxies.Pool.Synced.{Process, Synced, call_next}
use easy_proxies.Pool.Running.{start_failure, start_release}
use easy_proxies.Pool.Fixtures.{
  world, pool, wrapping_pool, member_a, member_b, healthy_state, banned_state,
}

select_balance-Finds_example :
    Finds (pos 50) "tcp" pool.members world (select_balance (pos 50) "tcp" pool world)
select_balance-Finds_example = select_balance-Finds (pos 50) "tcp" pool world

select_rotate-Picks_example :
    Picks (pos 50) "tcp" pool.members world (select_rotate (pos 50) "tcp" pool world)
select_rotate-Picks_example = select_rotate-Picks (pos 50) "tcp" pool world

select_random-Picks_example :
    Picks (pos 50) "tcp" pool.members world (select_random (pos 50) "tcp" pool world)
select_random-Picks_example = select_random-Picks (pos 50) "tcp" pool world

select_sequential-Picks_example :
    Picks (pos 50) "tcp" pool.members world (select_sequential (pos 50) "tcp" pool world)
select_sequential-Picks_example =
    select_sequential-Picks (pos 50) "tcp" pool world (omega arith) (omega arith)

serving :
    (serves_at (pos 50) "tcp" wrapping_pool.members world 0 ≡ false)
    × (serves_at (pos 50) "tcp" wrapping_pool.members world 2 ≡ true)
unfolding can_serve
serving = (refl, refl)

sequential_skips_example : (select_sequential (pos 50) "tcp" wrapping_pool world).2 ≡ none
sequential_skips_example =
    sequential_skips (pos 50) "tcp" wrapping_pool world refl refl serving.0 serving.0 serving.1

late_serving :
    (can_serve (pos 200) "tcp" member_a world ≡ true)
    × (can_serve (pos 200) "tcp" member_b world ≡ true)
unfolding can_serve
late_serving = (refl, refl)

balance_leak_example :
    let r = select_balance (pos 200) "tcp" pool world in
    (r.2 ≡ some 0)
    × ((r.1.states 1).half_open ≡ true)
    × ((later : ℤ) → state_admits later (r.1.states 1) ≡ false)
balance_leak_example =
    balance_leak (pos 200) "tcp" pool world member_a member_b [] 0 1 refl refl refl refl refl
      (omega arith) late_serving.0 refl refl late_serving.1 refl refl

trials-le-outcomes_example :
    trials
      (pos 2)
      (pos 50)
      (acquire (pos 120) ∷ acquire (pos 130) ∷ fail (pos 140) ∷ acquire (pos 200) ∷ [])
      banned_state
    ≤ 2
trials-le-outcomes_example =
    trials-le-outcomes (pos 2) (pos 50)
      (acquire (pos 120) ∷ acquire (pos 130) ∷ fail (pos 140) ∷ acquire (pos 200) ∷ []) banned_state

fail_times_trips_example :
    let (after, count, triggered) =
      fail_locked
        (pos 7)
        (pos 3)
        (pos 50)
        (fail_times (pos 3) (pos 50) (pos 1 ∷ pos 2 ∷ []) healthy_state) in
    after.blacklisted_until ≡ pos 7 +ℤ pos 50
fail_times_trips_example =
    (fail_times_trips (pos 3) (pos 50) (pos 1 ∷ pos 2 ∷ []) (pos 7) healthy_state refl (omega arith)
      (omega arith)).3

empty-Counted : Counted (record { world = world; conns = [] })
empty-Counted a = ground arith

run-Counted_example : Counted (
    run pool
      (begins (some 0)
        ∷ begins (some 0)
        ∷ answers 0 (pos 5) connected
        ∷ answers 1 (pos 6) (dial_failed "refused")
        ∷ closes 0
        ∷ closes 0
        ∷ [])
      (record { world = world; conns = [] }))
run-Counted_example = run-Counted pool _ (record { world = world; conns = [] }) empty-Counted

abbrev process : Process
process = record { world = world; pending = λ a. [] }

-- Node a fails for good, node b is released, and both entries learn of it in the other order.
abbrev failing : Process
failing = start_failure (pos 5) "refused" (pos 1) (pos 50) 0 process

abbrev releasing : Process
releasing = start_release 1 failing

abbrev released : Process
released = call_next 1 EntryCall.clears [] releasing

abbrev noted : Process
noted = call_next 0 (EntryCall.fails (pos 5) "refused") (EntryCall.bans (pos 55) ∷ []) released

failure_release_race_example :
    let w' = make_calls (some 0) (failure_calls (pos 5) "refused" (pos 50) true) (
      force_release 0 (put_state 0 (fail_locked (pos 5) (pos 1) (pos 50) healthy_state).0 world)) in
    ((w'.monitor.entries 0).blacklist ≡ true)
    × ((w'.monitor.entries 0).until ≡ pos 5 +ℤ pos 50)
    × ((w'.states 0).blacklisted ≡ false)
unfolding fail_locked
failure_release_race_example =
    failure_release_race (pos 5) "refused" (pos 1) (pos 50) 0 0 world refl (omega arith)

-- The interval of member 0 is over at 70.
over : is_kept (pos 70) "tcp" pool world 0 ≡ false
unfolding ◌-ℤ◌
over = refl

select_rotate_moves_example :
    (select_rotate (pos 70) "tcp" pool world).2
    ≡ find_first
        (serves_at (pos 70) "tcp" pool.members world)
        (λ k. (0 + 1 + k) % length pool.members)
        0
        (length pool.members)
select_rotate_moves_example =
    select_rotate_moves (pos 70) "tcp" pool world 0 refl (omega arith) over
