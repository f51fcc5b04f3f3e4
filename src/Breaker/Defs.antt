-- ===== src/Breaker/Defs.antt =====
-- backend/go-services/internal/payment/payfast/circuit_breaker.go. A call of Execute is two steps
-- under the mutex, `begin_call` and `end_call`, with the wrapped function between them.
use omnigo_app.Common.{
  ℕ, ◌+◌, ◌-◌, ◌*◌, ◌^◌, Bool, true, false, ◌||◌, leb, if◌then◌else◌, Option, none, some,
}
use omnigo_app.Common.Int.{ℤ, pos, leb_ℤ, pos_part}
use omnigo_app.Breaker.Errors.{GatewayCause, is_transient}

pub data CircuitState : Type 0 where
  closed half_open opened : CircuitState

-- Times and durations are nanoseconds of a clock that does not go back; the count of failures is
-- left unbounded, since it grows by one for each call.
pub record CircuitBreaker : Type 0 where
  pub state : CircuitState
  pub consecutive_failures : ℕ
  pub failure_threshold : ℕ
  pub cooldown_duration : ℕ
  pub last_state_change : ℕ
  pub half_open_probing : Bool

unfoldable pub new_circuit_breaker : ℤ → ℤ → ℕ → CircuitBreaker
new_circuit_breaker threshold cooldown now = record {
  state = closed;
  consecutive_failures = 0;
  failure_threshold = if leb_ℤ threshold (pos 0) then 5 else pos_part threshold;
  cooldown_duration = if leb_ℤ cooldown (pos 0) then 10 * 10 ^ 9 else pos_part cooldown;
  last_state_change = now;
  half_open_probing = false;
}

abbrev pub same_state : CircuitState → CircuitState → Bool
same_state closed closed = true
same_state half_open half_open = true
same_state opened opened = true
same_state _ _ = false

-- `now` is the time that setState reads itself.
unfoldable pub set_state : CircuitState → ℕ → CircuitBreaker → CircuitBreaker
set_state new_state now cb =
    if same_state cb.state new_state
    then cb
    else record cb { state = new_state; last_state_change = now }

-- The checks of Execute in each state.
begin_in : CircuitState → ℕ → CircuitBreaker → Bool × CircuitBreaker
unfolding set_state
begin_in opened now cb =
    if leb cb.cooldown_duration (now - cb.last_state_change)
    then (true, record (set_state half_open now cb) { half_open_probing = true })
    else (false, cb)
begin_in half_open now cb =
    if cb.half_open_probing then (false, cb) else (true, record cb { half_open_probing = true })
begin_in closed now cb = (true, cb)

-- The part of Execute before the wrapped call: whether the call is let through. The two clock
-- readings of the transition to half-open are taken as one.
unfoldable pub begin_call : ℕ → CircuitBreaker → Bool × CircuitBreaker
unfolding begin_in
begin_call now cb = begin_in cb.state now cb

pub data Outcome : Type 0 where
  success panicked : Outcome
  failure : GatewayCause → Outcome

abbrev pub is_half_open : CircuitState → Bool
is_half_open half_open = true
is_half_open closed = false
is_half_open opened = false

-- The error path counts transient errors and authentication failures only.
unfoldable pub counted : GatewayCause → Bool
unfolding is_transient
counted e = is_transient e || e.is_auth_failed

-- The part of Execute after the wrapped call: its normal return, or the recover of a panic.
unfoldable pub end_call : ℕ → Outcome → CircuitBreaker → CircuitBreaker
unfolding set_state counted
end_call now success cb =
    let done = record cb { half_open_probing = false; consecutive_failures = 0 } in
    if is_half_open done.state then set_state closed now done else done
end_call now panicked cb =
    let done = record cb { half_open_probing = false } in
    if is_half_open done.state
    then set_state opened now (record done { consecutive_failures = done.consecutive_failures + 1 })
    else done
end_call now (failure e) cb =
    let done = record cb { half_open_probing = false } in
    let worse = record done { consecutive_failures = done.consecutive_failures + 1 } in
    let better = record done { consecutive_failures = 0 } in
    if counted e
    then if is_half_open worse.state || leb worse.failure_threshold worse.consecutive_failures
      then set_state opened now worse
      else worse
    else if is_half_open better.state
    then set_state closed now better
    else better

-- `Reset` leaves the probing flag as it is.
unfoldable pub reset : ℕ → CircuitBreaker → CircuitBreaker
unfolding set_state
reset now cb = record (set_state closed now cb) { consecutive_failures = 0 }

-- One call of Execute with no other call beside it: `none` is ErrCircuitBreakerOpen.
unfoldable pub execute : ℕ → ℕ → Outcome → CircuitBreaker → Option Outcome × CircuitBreaker
unfolding begin_call end_call
execute now end_now outcome cb =
    let (admitted, begun) = begin_call now cb in
    if admitted then (some outcome, end_call end_now outcome begun) else (none, cb)
