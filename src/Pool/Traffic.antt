-- ===== src/Pool/Traffic.antt =====
-- Dials and connections of a pool as interleaved steps: between the steps of one dial, any others
-- may take place. A connection is known by its position in the list.
use easy_proxies.Prelude.{
  ℕ, ◌%◌, String, Bool, true, false, ◌&&◌, Option, none, some, List, [], ◌∷◌, ◌++◌, ℤ,
  if◌then◌else◌, get_elem?, set, count, ◌≡◌, arith, ◌==◌,
}
use easy_proxies.Monitor.Entry.{i32_mod, i32_inc, i32_dec}
use easy_proxies.Pool.Shared.{World, fail_locked}
use easy_proxies.Pool.Members.{PoolOutbound}
use easy_proxies.Pool.Dial.{DialResult, connected, dial_failed, begin_dial, end_dial, close_conn}

pub data Phase : Type 0 where
  dialing opened closed : Phase

pub record Conn : Type 0 where
  pub shared : Option ℕ
  pub phase : Phase

pub record Traffic : Type 0 where
  pub world : World
  pub conns : List Conn

-- A dial of the member with some shared state begins; the outbound answers; `Close` is called.
pub data Event : Type 0 where
  begins : Option ℕ → Event
  answers : ℕ → ℤ → DialResult → Event
  closes : ℕ → Event

abbrev pub after_answer : DialResult → Phase
after_answer connected = opened
after_answer (dial_failed cause) = closed

abbrev pub answer_conn : ℕ → ℤ → DialResult → PoolOutbound → Traffic → Conn → Phase → Traffic
answer_conn k now r p t c dialing = record {
  world = end_dial now p c.shared r t.world;
  conns = set t.conns k (record c { phase = after_answer r });
}
answer_conn k now r p t c phase = t

abbrev pub close_at : ℕ → Traffic → Conn → Phase → Traffic
close_at k t c dialing = t
close_at k t c opened = record {
  world = (close_conn c.shared false t.world).0;
  conns = set t.conns k (record c { phase = closed });
}
close_at k t c closed = record t { world = (close_conn c.shared true t.world).0 }

-- An answer to what is not being dialled, and a call on what was never opened, do not occur.
unfoldable pub step : PoolOutbound → Event → Traffic → Traffic
step p (begins shared) t = record {
  world = begin_dial shared t.world;
  conns = t.conns ++ record { shared = shared; phase = dialing } ∷ [];
}
step p (answers k now r) t = elim (get_elem? t.conns k) [
  | none ↦ t
  | some c ↦ answer_conn k now r p t c c.phase
]
step p (closes k) t = elim (get_elem? t.conns k) [ none ↦ t | some c ↦ close_at k t c c.phase ]

unfoldable pub run : PoolOutbound → List Event → Traffic → Traffic
unfolding step
run p [] t = t
run p (e ∷ es) t = run p es (step p e t)

abbrev pub on_state : Option ℕ → ℕ → Bool
on_state none a = false
on_state (some b) a = a == b

abbrev pub is_live : Phase → Bool
is_live closed = false
is_live _ = true

-- A connection that is dialled or open, and counts for the state at `a`.
abbrev pub holds : ℕ → Conn → Bool
holds a c = is_live c.phase && on_state c.shared a

-- `active` counts the dials and open connections of its node, as an int32.
abbrev pub Counted : Traffic → Type 0
Counted t = (a : ℕ) → (t.world.states a).active ≡ count (holds a) t.conns % i32_mod

unfoldable pub active_at : World → ℕ → ℕ
active_at w a = (w.states a).active

pub begin_active :
    (shared : Option ℕ) (w : World) (a : ℕ)
    → active_at (begin_dial shared w) a
      ≡ (if on_state shared a then i32_inc (active_at w a) else active_at w a)
unfolding begin_dial active_at
begin_active shared w a = ground arith

pub success_active :
    (now : ℤ) (p : PoolOutbound) (shared : Option ℕ) (w : World) (a : ℕ)
    → active_at (end_dial now p shared connected w) a ≡ active_at w a
unfolding end_dial active_at
success_active now p shared w a = ground arith

pub close_active :
    (shared : Option ℕ) (w : World) (a : ℕ)
    → active_at (close_conn shared false w).0 a
      ≡ (if on_state shared a then i32_dec (active_at w a) else active_at w a)
unfolding close_conn active_at
close_active shared w a = ground arith

pub failure_active :
    (now : ℤ) (p : PoolOutbound) (shared : Option ℕ) (cause : String) (w : World) (a : ℕ)
    → active_at (end_dial now p shared (dial_failed cause) w) a
      ≡ (if on_state shared a then i32_dec (active_at w a) else active_at w a)
unfolding end_dial active_at fail_locked
failure_active now p shared cause w a = ground arith
