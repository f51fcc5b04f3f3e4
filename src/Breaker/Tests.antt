-- ===== src/Breaker/Tests.antt =====
-- A breaker with a threshold of two and a cooldown of ten.
use omnigo_app.Common.{
  ℕ, zero, suc, ◌+◌, ◌<◌, ◌≡◌, ◌≢◌, refl, true, false, List, [], ◌∷◌, length, arith, none, some,
  if◌then◌else◌,
}
use omnigo_app.Common.Int.{pos}
use omnigo_app.Breaker.Errors.{GatewayCause, is_transient}
use omnigo_app.Breaker.Defs.{
  closed, half_open, opened, CircuitBreaker, new_circuit_breaker, begin_call, failure, end_call,
  counted,
}
use omnigo_app.Breaker.Steps.{
  System, begins, ends, Reach, created, later, IsValid, Reach-IsValid, idle-admits,
}
use omnigo_app.Breaker.Trips.{run_failures, run_failures-state}

abbrev bad_gateway : GatewayCause
bad_gateway = record {
  is_canceled = false;
  is_deadline_exceeded = false;
  is_breaker_open = false;
  is_auth_failed = false;
  net_timeout = none;
  is_op_error = false;
  syscall_lost = none;
  status_code = some 502;
}

abbrev fresh : CircuitBreaker
fresh = record {
  state = closed;
  consecutive_failures = 0;
  failure_threshold = 2;
  cooldown_duration = 10;
  last_state_change = 0;
  half_open_probing = false;
}

abbrev two_failures : List (ℕ × ℕ × GatewayCause)
two_failures = (1, 2, bad_gateway) ∷ (3, 4, bad_gateway) ∷ []

run_failures-state_example :
    let cb = run_failures two_failures fresh in
    (cb.consecutive_failures ≡ fresh.consecutive_failures + length two_failures)
    × (cb.failure_threshold ≡ fresh.failure_threshold)
    × (cb.consecutive_failures < fresh.failure_threshold → cb.state ≡ closed)
    × (cb.consecutive_failures ≡ fresh.failure_threshold → cb.state ≡ opened)
unfolding counted is_transient
run_failures-state_example =
    run_failures-state two_failures fresh refl (refl, (refl, tt)) (omega arith) (omega arith)

-- Of two calls that both begin on the closed breaker, both fail; the next call after the cooldown
-- is the probe.
abbrev idle : System
idle = record { breaker = new_circuit_breaker (pos 2) (pos 10) 0; in_flight = 0 }

abbrev begun : ℕ → System → System
begun now s = record {
  breaker = (begin_call now s.breaker).1;
  in_flight = if (begin_call now s.breaker).0 then suc s.in_flight else s.in_flight;
}

abbrev one_fewer : ℕ → ℕ
one_fewer zero = zero
one_fewer (suc n) = n

abbrev ended : ℕ → System → System
ended now s = record {
  breaker = end_call now (failure bad_gateway) s.breaker;
  in_flight = one_fewer s.in_flight;
}

abbrev both_failed : System
both_failed = ended 4 (ended 3 (begun 2 (begun 1 idle)))

both_failed_reached : Reach both_failed
unfolding new_circuit_breaker begin_call
both_failed_reached =
    later
      (later (later (later (created (pos 2) (pos 10) 0) (begins 1 refl refl)) (begins 2 refl refl))
        (ends 3 (failure bad_gateway) refl refl))
      (ends 4 (failure bad_gateway) refl refl)

Reach-IsValid_example : IsValid both_failed
Reach-IsValid_example = Reach-IsValid both_failed_reached

idle-admits_example :
    (both_failed.breaker.state ≢ half_open) × ((begin_call 14 both_failed.breaker).0 ≡ true)
unfolding new_circuit_breaker begin_call end_call counted is_transient
idle-admits_example = idle-admits both_failed 14 both_failed_reached refl (omega arith)

probing_reached : Reach (begun 14 both_failed)
probing_reached = later both_failed_reached (begins 14 refl refl)
