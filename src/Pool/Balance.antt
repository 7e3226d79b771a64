-- ===== src/Pool/Balance.antt =====
-- internal/outbound/pool/pool.go: `selectBalanceAvailableLocked`, the less loaded of two members,
-- and the choice of the mode.
use easy_proxies.Prelude.{
  ◌*◌, ℕ, zero, suc, ◌+◌, ◌%◌, ◌^◌, String, Bool, true, false, Option, none, some, ℤ, if◌then◌else◌,
  str_eq, length, min, ltb, ◌==◌,
}
use easy_proxies.Monitor.Entry.{i32_mod}
use easy_proxies.Pool.Shared.{World}
use easy_proxies.Pool.Members.{Member, PoolOutbound, member_available}
use easy_proxies.Pool.Select.{
  Selection, member_at, random_index, select_sequential, select_random, select_rotate,
}

-- The pool and the process, with the members `first` and `second`.
pub record Pair : Type 0 where
  pub pool : PoolOutbound
  pub world : World
  pub first : Option ℕ
  pub second : Option ℕ

abbrev pub is_first : Option ℕ → ℕ → Bool
is_first none idx = false
is_first (some f) idx = f == idx

-- `member == first || !p.memberAvailable(…)`: the check is made for another member only.
abbrev pub try_member : ℤ → String → ℕ → Pair → Pair × Bool
try_member now network idx s =
    if is_first s.first idx
    then (s, false)
    else (let (p, w, ok) = member_available now network (member_at s.pool idx) s.pool s.world in
        (record s { pool = p; world = w }, ok))

abbrev pub is_half_open : Option Member → World → Bool
is_half_open none w = false
is_half_open (some m) w = elim m.shared [ none ↦ false | some a ↦ (w.states a).half_open ]

-- A round: the index is skipped, or becomes the first member, or the second.
pub data Attempt : Type 0 where
  skipped : Pair → Attempt
  as_first : Pair → Attempt
  as_second : Pair → Attempt

abbrev pub place : ℕ → Pair → Option ℕ → Attempt
place idx t none = as_first (record t { first = some idx })
place idx t (some f) = as_second (record t { second = some idx })

abbrev pub settle : ℕ → Pair × Bool → Attempt
settle idx (t, false) = skipped t
settle idx (t, true) = place idx t t.first

unfoldable pub attempt : ℤ → String → ℕ → Pair → Attempt
attempt now network idx s = settle idx (try_member now network idx s)

-- The loop of random tries; `true` is the early return of a half-open member.
unfoldable pub balance_tries : ℕ → ℤ → String → Pair → Pair × Bool
unfolding random_index
balance_tries zero now network s = (s, false)
balance_tries (suc tries) now network s =
    let (p, idx) = random_index (length s.pool.members) s.pool in
    elim (attempt now network idx (record s { pool = p })) [
      | skipped t ↦ balance_tries tries now network t
      | as_first t ↦
          let rest = balance_tries tries now network t in
          if is_half_open (member_at t.pool idx) t.world then (t, true) else rest
      | as_second t ↦ (t, false)
    ]

-- The loop over every member from a random start.
unfoldable pub balance_scan : ℕ → ℕ → ℕ → ℤ → String → Pair → Pair
balance_scan start offset zero now network s = s
balance_scan start offset (suc rounds) now network s =
    elim (attempt now network ((start + offset) % length s.pool.members) s) [
      | skipped t ↦ balance_scan start (offset + 1) rounds now network t
      | as_first t ↦ balance_scan start (offset + 1) rounds now network t
      | as_second t ↦ t
    ]

-- The second loop, unless the tries have found both; a second member comes after a first one.
unfoldable pub find_rest : ℤ → String → Pair → Option ℕ → Pair
unfolding random_index
find_rest now network s (some j) = s
find_rest now network s none =
    let (p, start) = random_index (length s.pool.members) s.pool in
    balance_scan start 0 (length s.pool.members) now network (record s { pool = p })

unfoldable pub balance_rest : ℤ → String → Pair → Pair
unfolding find_rest
balance_rest now network s = find_rest now network s s.second

-- `memberActive`: an int32, 0 for a member with no shared state.
abbrev pub member_active : Option Member → World → ℕ
member_active none w = 0
member_active (some m) w = elim m.shared [ none ↦ 0 | some a ↦ (w.states a).active ]

-- `<` on int32, by bit patterns.
abbrev pub i32_lt : ℕ → ℕ → Bool
i32_lt a b = ltb ((a + 2 ^ 31) % i32_mod) ((b + 2 ^ 31) % i32_mod)

abbrev pub lesser : Pair → Option ℕ → Option ℕ → Option ℕ
lesser s first none = first
lesser s none (some j) = some j
lesser s (some i) (some j) =
    if i32_lt (member_active (member_at s.pool j) s.world)
      (member_active (member_at s.pool i) s.world)
    then some j
    else some i

unfoldable pub less_loaded : Pair → Option ℕ
less_loaded s = lesser s s.first s.second

unfoldable pub select_balance : ℤ → String → PoolOutbound → World → Selection
unfolding balance_tries balance_rest less_loaded
select_balance now network p w =
    let start : Pair = record { pool = p; world = w; first = none; second = none } in
    let (s, half_open) = balance_tries (min (length p.members * 2) 8) now network start in
    let t = balance_rest now network s in
    if half_open then (s.pool, s.world, s.first) else (t.pool, t.world, less_loaded t)

-- `selectAvailableLocked`
unfoldable pub select_available : ℤ → String → PoolOutbound → World → Selection
unfolding select_sequential select_random select_balance select_rotate
select_available now network p w =
    if str_eq p.mode "random"
    then select_random now network p w
    else if str_eq p.mode "balance"
    then select_balance now network p w
    else if str_eq p.mode "rotate"
    then select_rotate now network p w
    else select_sequential now network p w
