-- ===== src/Pool/Breaker.antt =====
-- The circuit breaker of one node: shared_state.go under the mutex of one state.
use easy_proxies.Prelude.{
  count, indicator, ℕ, ◌+◌, ◌≤◌, ◌≡◌, Bool, true, false, not, ◌&&◌, List, [], ◌∷◌, ℤ, pos, ◌+ℤ◌,
  ◌≤ℤ◌, ◌<ℤ◌, arith, length,
}
use easy_proxies.Pool.Shared.{
  SharedMemberState, fail_locked, reset_locked, blacklist_locked, try_acquire,
}

-- The operations that callers make on one state, each with the instant at which it is made.
pub data Op : Type 0 where
  fail : ℤ → Op
  succeed : Op
  ban : ℤ → ℤ → Op
  acquire : ℤ → Op

-- One operation: the new state, and whether it admitted a caller.
unfoldable pub apply : ℤ → ℤ → Op → SharedMemberState → SharedMemberState × Bool
unfolding fail_locked reset_locked blacklist_locked try_acquire
apply threshold duration (fail now) s = ((fail_locked now threshold duration s).0, false)
apply threshold duration succeed s = (reset_locked s, false)
apply threshold duration (ban now d) s = (blacklist_locked (now +ℤ d) s, false)
apply threshold duration (acquire now) s = try_acquire now s

abbrev is_outcome : Op → Bool
is_outcome (acquire now) = false
is_outcome _ = true

-- The operations but the acquisitions, which decide the fate of a probe.
abbrev pub outcomes : List Op → ℕ
outcomes = count is_outcome

unfoldable pub fail_times : ℤ → ℤ → List ℤ → SharedMemberState → SharedMemberState
unfolding fail_locked
fail_times threshold duration [] s = s
fail_times threshold duration (t ∷ ts) s =
    fail_times threshold duration ts (fail_locked t threshold duration s).0

-- How often a blacklisted state admitted a caller.
unfoldable pub trials : ℤ → ℤ → List Op → SharedMemberState → ℕ
unfolding apply
trials threshold duration [] s = 0
trials threshold duration (op ∷ ops) s =
    indicator (s.blacklisted && (apply threshold duration op s).1)
    + trials threshold duration ops (apply threshold duration op s).0

module _ (threshold duration : ℤ) where
  below :
      (ts : List ℤ) (s : SharedMemberState)
      → s.half_open ≡ false
      → pos (s.failures + length ts) <ℤ threshold
      → ((fail_times threshold duration ts s).failures ≡ s.failures + length ts)
        × ((fail_times threshold duration ts s).blacklisted ≡ s.blacklisted)
        × ((fail_times threshold duration ts s).half_open ≡ false)
  unfolding fail_times
  below [] s h lt = ground arith
  below (t ∷ ts) s h lt = ground (arith, below ts (fail_locked t threshold duration s).0)

  trip :
      (t : ℤ) (s : SharedMemberState)
      → threshold ≤ℤ pos (s.failures + 1)
      → let (s', count, triggered) = fail_locked t threshold duration s in
        (s'.blacklisted ≡ true)
        × (s'.blacklisted_until ≡ t +ℤ duration)
        × (s'.failures ≡ 0)
        × (triggered ≡ true)
  unfolding fail_locked
  trip t s h = ground arith

  -- From a state that is not half open, fewer failures in a row than the threshold leave the
  -- blacklist as it is and count up; the one that reaches the threshold blacklists the node until
  -- its own instant plus the duration, and the count starts again.
  pub fail_times_trips :
      (ts : List ℤ) (t : ℤ) (s : SharedMemberState)
      → s.half_open ≡ false
      → pos (s.failures + length ts) <ℤ threshold
      → threshold ≤ℤ pos (s.failures + length ts + 1)
      → let before = fail_times threshold duration ts s in
        let (after, count, triggered) = fail_locked t threshold duration before in
        (before.blacklisted ≡ s.blacklisted)
        × (before.failures ≡ s.failures + length ts)
        × (after.blacklisted ≡ true)
        × (after.blacklisted_until ≡ t +ℤ duration)
        × (after.failures ≡ 0)
        × (triggered ≡ true)
  fail_times_trips ts t s h lt le =
      ground (arith, below ts s h lt, trip t (fail_times threshold duration ts s))

  trial_step :
      (op : Op) (s : SharedMemberState)
      → indicator (s.blacklisted && (apply threshold duration op s).1)
          + indicator (not (apply threshold duration op s).0.half_open)
        ≤ indicator (not s.half_open) + indicator (is_outcome op)
  unfolding apply
  trial_step (fail t) s = ground arith
  trial_step succeed s = ground arith
  trial_step (ban t d) s = ground arith
  trial_step (acquire t) s = ground arith

  -- A blacklisted node lets through at most one caller, and one more for each failure, success or
  -- ban in between, however many callers ask at whatever times.
  pub trials-le-outcomes :
      (ops : List Op) (s : SharedMemberState)
      → trials threshold duration ops s ≤ indicator (not s.half_open) + outcomes ops
  unfolding trials
  trials-le-outcomes [] s = omega arith
  trials-le-outcomes (op ∷ ops) s =
      ground (arith, trial_step op s, trials-le-outcomes ops (apply threshold duration op s).0)
