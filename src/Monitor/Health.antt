-- ===== src/Monitor/Health.antt =====
-- internal/monitor/manager.go: the life of the periodic health check.
use easy_proxies.Prelude.{
  ℕ, Bool, true, false, not, ◌&&◌, List, [], ◌∷◌, ℤ, ◌≡◌, refl, arith, indicator, ◌+◌, ◌≤◌,
}
use easy_proxies.Monitor.Manager.{
  Manager, start_periodic_health_check, stop_periodic_health_check, stop, begin_probe_all,
  end_probe_all,
}

-- A call of the manager; `begins` and `ends` are the two ends of a round over all nodes.
pub data Call : Type 0 where
  starts : ℤ → Call
  stops_check : Call
  stops : Call
  begins : Bool → Call
  ends : Call

unfoldable pub call : Call → Manager → Manager × Bool
call (starts interval) m = start_periodic_health_check interval m
call stops_check m = (stop_periodic_health_check m, false)
call stops m = (stop m, false)
call (begins cancelled) m = begin_probe_all cancelled m
call ends m = (end_probe_all m, false)

-- How often a call started the loop or a round.
unfoldable pub started : List Call → Manager → ℕ
unfolding call
started [] m = 0
started (c ∷ cs) m = indicator (call c m).1 + started cs (call c m).0

call_stopped :
    (c : Call) (m : Manager)
    → m.stopped ≡ true
    → ((call c m).1 ≡ false) × ((call c m).0.stopped ≡ true)
unfolding call start_periodic_health_check stop_periodic_health_check stop begin_probe_all
    end_probe_all
call_stopped c m h = ground arith

started_stopped : (cs : List Call) (m : Manager) → m.stopped ≡ true → started cs m ≡ 0
unfolding started
started_stopped [] m h = refl
started_stopped (c ∷ cs) m h = ground (arith, call_stopped c m h, started_stopped cs (call c m).0)

-- A stopped manager never starts the loop or a round again, whatever is called on it.
pub started-stop : (cs : List Call) (m : Manager) → started cs (stop m) ≡ 0
unfolding stop
started-stop cs m = started_stopped cs (stop m) refl

abbrev is_end : Call → Bool
is_end ends = true
is_end _ = false

abbrev is_begin : Call → Bool
is_begin (begins cancelled) = true
is_begin _ = false

-- Rounds that were begun, and rounds that were ended.
unfoldable pub rounds : List Call → Manager → ℕ
unfolding call
rounds [] m = 0
rounds (c ∷ cs) m = indicator (is_begin c && (call c m).1) + rounds cs (call c m).0

abbrev pub ended : List Call → ℕ
ended [] = 0
ended (c ∷ cs) = indicator (is_end c) + ended cs

round_step :
    (c : Call) (m : Manager)
    → indicator (is_begin c && (call c m).1) + indicator (not (call c m).0.probe_running)
      ≤ indicator (not m.probe_running) + indicator (is_end c)
unfolding call start_periodic_health_check stop_periodic_health_check stop begin_probe_all
    end_probe_all
round_step c m = ground arith

-- Over any calls, the rounds that begin are at most those that end, and one more if no round was
-- running at the start: rounds never overlap.
pub rounds-le-ended :
    (cs : List Call) (m : Manager) → rounds cs m ≤ indicator (not m.probe_running) + ended cs
unfolding rounds
rounds-le-ended [] m = omega arith
rounds-le-ended (c ∷ cs) m = ground (arith, round_step c m, rounds-le-ended cs (call c m).0)
