-- ===== src/Pool/Shared.antt =====
-- internal/outbound/pool/shared_state.go: the failure and blacklist state of a node, which all the
-- pools that hold the node share. The states are objects behind pointers, and `sharedStateStore`
-- maps tags to addresses. An operation holds the state's mutex for its first part (`_locked`) and
-- calls the monitor entry, which has a mutex of its own, behind it. `record_failure` and its kin are
-- an operation that no other comes between; Pool/Running takes the parts as steps.
use easy_proxies.Prelude.{
  ℕ, ◌+◌, String, Bool, true, false, not, ◌||◌, Option, none, some, List, [], ◌∷◌, ℤ, pos, ltb_ℤ,
  leb_ℤ, ◌+ℤ◌, if◌then◌else◌, lookup, put, update,
}
use easy_proxies.Monitor.Entry.{
  Entry, record_failure as entry_record_failure, record_success as entry_record_success,
  blacklist_until, clear_blacklist, inc_active as entry_inc_active, dec_active as entry_dec_active,
  i32_inc, i32_dec,
}
use easy_proxies.Monitor.Manager.{Manager, with_entry}

pub record SharedMemberState : Type 0 where
  pub failures : ℕ
  pub blacklisted : Bool
  pub blacklisted_until : ℤ
  pub half_open : Bool
  pub entry : Option ℕ
  pub active : ℕ  -- the bit pattern of an int32

abbrev pub new_state : SharedMemberState
new_state = record {
  failures = 0;
  blacklisted = false;
  blacklisted_until = pos 0;
  half_open = false;
  entry = none;
  active = 0;
}

-- A call on the monitor entry of a state; each takes the entry's mutex by itself.
pub data EntryCall : Type 0 where
  fails : ℤ → String → EntryCall
  bans : ℤ → EntryCall
  succeeds : ℤ → EntryCall
  clears : EntryCall

unfoldable pub entry_call : EntryCall → Entry → Entry
unfolding entry_record_failure entry_record_success blacklist_until clear_blacklist
entry_call (fails now cause) x = entry_record_failure now cause x
entry_call (bans until) x = blacklist_until until x
entry_call (succeeds now) x = entry_record_success now x
entry_call clears x = clear_blacklist x

-- The calls behind the mutex, of `recordFailure` and of `recordSuccess`.
abbrev pub failure_calls : ℤ → String → ℤ → Bool → List EntryCall
failure_calls now cause duration triggered =
    fails now cause ∷ (if triggered then bans (now +ℤ duration) ∷ [] else [])

abbrev pub success_calls : ℤ → SharedMemberState → List EntryCall
success_calls now old =
    succeeds now ∷ (if old.blacklisted || old.half_open then clears ∷ [] else [])

-- What one operation on a state does under the mutex.
unfoldable pub fail_locked : ℤ → ℤ → ℤ → SharedMemberState → SharedMemberState × ℕ × Bool
fail_locked now threshold duration s =
    let count = if s.half_open then 0 else s.failures + 1 in
    let triggered = s.half_open || leb_ℤ threshold (pos count) in
    (
      record s {
        failures = if triggered then 0 else count;
        blacklisted = triggered || s.blacklisted;
        blacklisted_until = if triggered then now +ℤ duration else s.blacklisted_until;
        half_open = false;
      },
      count,
      triggered,
    )

-- `recordSuccess` and `forceRelease` under the mutex.
unfoldable pub reset_locked : SharedMemberState → SharedMemberState
reset_locked s = record s {
  failures = 0;
  blacklisted = false;
  blacklisted_until = pos 0;
  half_open = false;
}

unfoldable pub blacklist_locked : ℤ → SharedMemberState → SharedMemberState
blacklist_locked until s = record s {
  failures = 0;
  blacklisted = true;
  blacklisted_until = until;
  half_open = false;
}

-- `tryAcquire`: open while not blacklisted; after the deadline one caller gets through.
unfoldable pub try_acquire : ℤ → SharedMemberState → SharedMemberState × Bool
try_acquire now s =
    if not s.blacklisted
    then (s, true)
    else if ltb_ℤ now s.blacklisted_until || s.half_open
    then (s, false)
    else (record s { half_open = true }, true)

-- The process: the monitor, and the shared states with the map from tags.
pub record World : Type 0 where
  pub monitor : Manager
  pub states : ℕ → SharedMemberState
  pub next_state : ℕ
  pub store : List (String × ℕ)

abbrev pub put_state : ℕ → SharedMemberState → World → World
put_state a s w = record w { states = update w.states a s }

-- `entry := s.entry.Load(); entry != nil` and the calls behind it.
abbrev pub on_monitor : (Manager → Manager) → World → World
on_monitor f w = record w { monitor = f w.monitor }

abbrev pub make_call : Option ℕ → EntryCall → World → World
make_call o c w = on_monitor (with_entry (entry_call c) o) w

unfoldable pub make_calls : Option ℕ → List EntryCall → World → World
unfolding with_entry entry_call
make_calls o [] w = w
make_calls o (c ∷ cs) w = make_calls o cs (make_call o c w)

unfoldable pub acquire_shared_state : String → World → World × ℕ
acquire_shared_state tag w = elim (lookup tag w.store) [
  | some a ↦ (w, a)
  | none ↦ (
    record w {
      states = update w.states w.next_state new_state;
      next_state = w.next_state + 1;
      store = put w.store tag w.next_state;
    },
    w.next_state,
  )
]

unfoldable pub lookup_shared_state : String → World → Option ℕ
lookup_shared_state tag w = lookup tag w.store

unfoldable pub reset_shared_state_store : World → World
reset_shared_state_store w = record w { store = [] }

unfoldable pub attach_entry : Option ℕ → ℕ → World → World
attach_entry none a w = w
attach_entry (some e) a w = put_state a (record (w.states a) { entry = some e }) w

unfoldable pub record_failure : ℤ → String → ℤ → ℤ → ℕ → World → World × ℕ × Bool
unfolding fail_locked make_calls
record_failure now cause threshold duration a w =
    let (s, count, triggered) = fail_locked now threshold duration (w.states a) in
    (
      make_calls s.entry (failure_calls now cause duration triggered) (put_state a s w),
      count,
      triggered,
    )

unfoldable pub record_success : ℤ → ℕ → World → World
unfolding reset_locked make_calls
record_success now a w =
    let old = w.states a in
    make_calls old.entry (success_calls now old) (put_state a (reset_locked old) w)

unfoldable pub force_release : ℕ → World → World
unfolding reset_locked make_calls
force_release a w =
    let old = w.states a in make_calls old.entry (clears ∷ []) (put_state a (reset_locked old) w)

unfoldable pub inc_active : ℕ → World → World
unfolding with_entry
inc_active a w =
    let old = w.states a in
    on_monitor (with_entry entry_inc_active old.entry)
      (put_state a (record old { active = i32_inc old.active }) w)

unfoldable pub dec_active : ℕ → World → World
unfolding with_entry
dec_active a w =
    let old = w.states a in
    on_monitor (with_entry entry_dec_active old.entry)
      (put_state a (record old { active = i32_dec old.active }) w)

unfoldable pub release_shared_member : String → World → World
unfolding force_release lookup_shared_state
release_shared_member tag w = elim (lookup_shared_state tag w) [
  | none ↦ w
  | some a ↦ force_release a w
]

unfoldable pub blacklist_shared_member : ℤ → String → ℤ → World → World
unfolding blacklist_locked lookup_shared_state
blacklist_shared_member now tag duration w = elim (lookup_shared_state tag w) [
  | none ↦ w
  | some a ↦ put_state a (blacklist_locked (now +ℤ duration) (w.states a)) w
]
