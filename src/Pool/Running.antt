-- ===== src/Pool/Running.antt =====
-- The flags over every run of the pool, its operations taken apart where the source lets go of a
-- mutex: the part under the mutex of the state, and then each call on the monitor entry.
use easy_proxies.Prelude.{
  ==_self, ℕ, String, Option, some, List, [], ◌∷◌, ℤ, ◌+ℤ◌, lookup, update, ◌≡◌,
}
use easy_proxies.Monitor.Entry.{
  record_failure as entry_record_failure, record_success_with_latency,
  inc_active as entry_inc_active, dec_active as entry_dec_active,
}
use easy_proxies.Monitor.Manager.{with_entry}
use easy_proxies.Pool.Shared.{
  EntryCall, failure_calls, success_calls, fail_locked, reset_locked, blacklist_shared_member,
  lookup_shared_state, on_monitor, inc_active, dec_active, make_calls, record_failure,
  record_success, force_release,
}
use easy_proxies.Pool.Members.{Member, claim}
use easy_proxies.Pool.Synced.{Process, start, in_world, call_next, Synced}

-- The part of an operation under the mutex of a state.
unfoldable pub start_failure : ℤ → String → ℤ → ℤ → ℕ → Process → Process
unfolding fail_locked
start_failure now cause threshold duration a p =
    let (s, count, triggered) = fail_locked now threshold duration (p.world.states a) in
    start a s (failure_calls now cause duration triggered) p

unfoldable pub start_success : ℤ → ℕ → Process → Process
unfolding reset_locked
start_success now a p =
    let old = p.world.states a in start a (reset_locked old) (success_calls now old) p

unfoldable pub start_release : ℕ → Process → Process
unfolding reset_locked
start_release a p = start a (reset_locked (p.world.states a)) (EntryCall.clears ∷ []) p

-- `blacklistSharedMember` for a tag, whose state is the one at the address.
unfoldable pub start_ban : ℤ → String → ℤ → ℕ → Process → Process
unfolding blacklist_shared_member
start_ban now tag duration a p = record {
  world = blacklist_shared_member now tag duration p.world;
  pending = update p.pending a (EntryCall.bans (now +ℤ duration) ∷ []);
}

-- A whole call is its parts without anything in between.
pub start_failure-record_failure :
    (now : ℤ) (cause : String) (threshold duration : ℤ) (a : ℕ) (p : Process)
    → let q = start_failure now cause threshold duration a p in
      make_calls (q.world.states a).entry (q.pending a) q.world
      ≡ (record_failure now cause threshold duration a p.world).0
unfolding start_failure record_failure
start_failure-record_failure now cause threshold duration a p = simp (update, ==_self a)

pub start_success-record_success :
    (now : ℤ) (a : ℕ) (p : Process)
    → let q = start_success now a p in
      make_calls (q.world.states a).entry (q.pending a) q.world ≡ record_success now a p.world
unfolding start_success record_success reset_locked
start_success-record_success now a p = simp (update, ==_self a)

pub start_release-force_release :
    (a : ℕ) (p : Process)
    → let q = start_release a p in
      make_calls (q.world.states a).entry (q.pending a) q.world ≡ force_release a p.world
unfolding start_release force_release reset_locked
start_release-force_release a p = simp (update, ==_self a)

-- What a running pool does to the process. An operation that writes the flag of a state starts
-- where none is under way on that state; what the others do comes between its parts in any order.
-- `calls` is the next call on the entry, `fails`, `succeeds` and `releases` are the parts under the
-- mutex of `recordFailure`, `recordSuccess` and `forceRelease`, and `bans` is that of
-- `ManualBlacklist` through the closure of the entry, whose tag leads to the entry's own state.
-- A probe writes the entry alone before the release of its member.
pub data Step (p : Process) : Process → Type 0 where
  claims : (now : ℤ) (m : Member) → Step p (in_world (claim now m) p)
  begins : (a : ℕ) → Step p (in_world (inc_active a) p)
  ends : (a : ℕ) → Step p (in_world (dec_active a) p)
  fails :
      (now : ℤ) (cause : String) (threshold duration : ℤ) (a : ℕ)
      → p.pending a ≡ []
      → Step p (start_failure now cause threshold duration a p)
  succeeds : (now : ℤ) (a : ℕ) → p.pending a ≡ [] → Step p (start_success now a p)
  releases : (a : ℕ) → p.pending a ≡ [] → Step p (start_release a p)
  bans :
      (now : ℤ) (tag : String) (duration : ℤ) (e : ℕ) (t : String) (a : ℕ)
      → lookup tag p.world.monitor.nodes ≡ some e
      → (p.world.monitor.entries e).blacklist_fn ≡ some t
      → lookup_shared_state t p.world ≡ some a
      → (p.world.states a).entry ≡ some e
      → p.pending a ≡ []
      → Step p (start_ban now t duration a p)
  calls :
      (a : ℕ) (c : EntryCall) (cs : List EntryCall)
      → p.pending a ≡ c ∷ cs
      → Step p (call_next a c cs p)
  probe_fails :
      (now : ℤ) (cause : String) (entry : Option ℕ)
      → Step p (in_world (on_monitor (with_entry (entry_record_failure now cause) entry)) p)
  probe_answers :
      (now latency : ℤ) (entry : Option ℕ)
      → Step p
          (in_world (on_monitor (with_entry (record_success_with_latency now latency) entry)) p)

pub data Reach (p : Process) : Process → Type 0 where
  here : Reach p p
  next : {q r : Process} → Reach p q → Step q r → Reach p r
