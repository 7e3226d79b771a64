-- ===== src/Pool/Accounting.antt =====
-- The active count of a node over all interleavings of dials and closes.
use easy_proxies.Prelude.{
  ℕ, Option, some, List, [], ◌∷◌, ℤ, get_elem?, count-set, count-append, ◌≡◌, refl, inl, inr, arith,
  Option-cases,
}
use easy_proxies.Pool.Members.{PoolOutbound}
use easy_proxies.Pool.Dial.{DialResult, connected, dial_failed, close_conn}
use easy_proxies.Pool.Traffic.{
  Traffic, Conn, Phase, dialing, opened, closed, Event, begins, answers, closes, step, run, holds,
  Counted, active_at, begin_active, success_active, close_active, failure_active, answer_conn,
  close_at,
}

begin-Counted :
    (shared : Option ℕ) (p : PoolOutbound) (t : Traffic)
    → Counted t
    → Counted (step p (begins shared) t)
unfolding step active_at
begin-Counted shared p t h a = ground (
  arith,
  h a,
  begin_active shared t.world a,
  count-append (holds a) t.conns (record { shared = shared; phase = dialing } ∷ []),
)

answer-Counted :
    (k : ℕ) (now : ℤ) (r : DialResult) (p : PoolOutbound) (t : Traffic) (c : Conn) (phase : Phase)
    → Counted t
    → get_elem? t.conns k ≡ some c
    → c.phase ≡ phase
    → Counted (answer_conn k now r p t c phase)
unfolding active_at
answer-Counted k now connected p t c dialing h e f a = ground (
  arith,
  h a,
  success_active now p c.shared t.world a,
  count-set (holds a) t.conns k {x = c} (record c { phase = opened }) e,
)
answer-Counted k now (dial_failed cause) p t c dialing h e f a = ground (
  arith,
  h a,
  failure_active now p c.shared cause t.world a,
  count-set (holds a) t.conns k {x = c} (record c { phase = closed }) e,
)
answer-Counted k now r p t c opened h e f a = h a
answer-Counted k now r p t c closed h e f a = h a

close-Counted :
    (k : ℕ) (t : Traffic) (c : Conn) (phase : Phase)
    → Counted t
    → get_elem? t.conns k ≡ some c
    → c.phase ≡ phase
    → Counted (close_at k t c phase)
unfolding active_at close_conn
close-Counted k t c dialing h e f a = h a
close-Counted k t c opened h e f a = ground (
  arith,
  h a,
  close_active c.shared t.world a,
  count-set (holds a) t.conns k {x = c} (record c { phase = closed }) e,
)
close-Counted k t c closed h e f a = h a

step-Counted : (p : PoolOutbound) (e : Event) (t : Traffic) → Counted t → Counted (step p e t)
unfolding step
step-Counted p (begins shared) t h = begin-Counted shared p t h
step-Counted p (answers k now r) t h = elim (Option-cases (get_elem? t.conns k)) [
  | inl e ↦ rw (e, step) h
  | inr (c, e) ↦ rw (e, step) (answer-Counted k now r p t c c.phase h e refl)
]
step-Counted p (closes k) t h = elim (Option-cases (get_elem? t.conns k)) [
  | inl e ↦ rw (e, step) h
  | inr (c, e) ↦ rw (e, step) (close-Counted k t c c.phase h e refl)
]

-- If every shared state's `active` counts, as an int32, the dials that run and the connections
-- that are open, then it still does after any interleaving of dials, answers and closes, failed
-- dials and second calls of `Close` included.
pub run-Counted :
    (p : PoolOutbound) (es : List Event) (t : Traffic) → Counted t → Counted (run p es t)
unfolding run
run-Counted p [] t h = h
run-Counted p (e ∷ es) t h = run-Counted p es (step p e t) (step-Counted p e t h)
