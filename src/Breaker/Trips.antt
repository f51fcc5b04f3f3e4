-- ===== src/Breaker/Trips.antt =====
-- The circuit breaker with one call at a time: when it trips, and how it recovers.
use omnigo_app.Common.{
  ℕ, ◌+◌, ◌≤◌, ◌<◌, ◌≡◌, Bool, true, false, List, [], ◌∷◌, length, arith, none, not, if◌then◌else◌,
}
use omnigo_app.Breaker.Errors.{GatewayCause}
use omnigo_app.Breaker.Defs.{
  closed, opened, CircuitBreaker, Outcome, success, panicked, failure, counted, execute,
}

-- Calls one after another, each with its two times and the error that the gateway gave.
pub run_failures : List (ℕ × ℕ × GatewayCause) → CircuitBreaker → CircuitBreaker
run_failures [] cb = cb
run_failures ((now, end_now, e) ∷ calls) cb =
    run_failures calls (execute now end_now (failure e) cb).1

abbrev AllCounted : List (ℕ × ℕ × GatewayCause) → Type 0
AllCounted [] = Unit {0}
AllCounted ((now, end_now, e) ∷ calls) = (counted e ≡ true) × AllCounted calls

counts_one :
    (cb : CircuitBreaker) (now end_now : ℕ) (e : GatewayCause)
    → cb.state ≡ closed
    → counted e ≡ true
    → cb.consecutive_failures + 1 < cb.failure_threshold
    → (execute now end_now (failure e) cb).1
      ≡ record cb { half_open_probing = false; consecutive_failures = cb.consecutive_failures + 1 }
unfolding execute
counts_one cb now end_now e c k below = ground arith

-- A closed breaker that meets transient errors or authentication failures only stays closed below
-- the threshold, with every failure counted, and opens at the failure that reaches it.
pub run_failures-state :
    (calls : List (ℕ × ℕ × GatewayCause)) (cb : CircuitBreaker)
    → cb.state ≡ closed
    → AllCounted calls
    → cb.consecutive_failures < cb.failure_threshold
    → cb.consecutive_failures + length calls ≤ cb.failure_threshold
    → let cb' = run_failures calls cb in
      (cb'.consecutive_failures ≡ cb.consecutive_failures + length calls)
      × (cb'.failure_threshold ≡ cb.failure_threshold)
      × (cb'.consecutive_failures < cb.failure_threshold → cb'.state ≡ closed)
      × (cb'.consecutive_failures ≡ cb.failure_threshold → cb'.state ≡ opened)
unfolding run_failures
run_failures-state [] cb c all below fits = ground arith
run_failures-state ((now, end_now, e) ∷ []) cb c all below fits = unfold execute in ground arith
run_failures-state ((now, end_now, e) ∷ call ∷ calls) cb c all below fits =
    let one_more : CircuitBreaker = record cb {
      half_open_probing = false;
      consecutive_failures = cb.consecutive_failures + 1;
    } in
    rw (counts_one cb now end_now e c all.0 (omega arith), run_failures)
      (ground
        (arith, run_failures-state (call ∷ calls) one_more c all.1 (omega arith) (omega arith)))

-- Whether an outcome shows that the gateway is there.
abbrev pub answers : Outcome → Bool
answers success = true
answers panicked = false
answers (failure e) = not (counted e)

-- With a clock that does not go back: while the cooldown lasts an open breaker refuses every call and stays as it is.
-- Afterwards the next call is let through and its outcome decides: a success or a rejection closes
-- the breaker and clears its count, and any other end opens it for another cooldown.
pub execute-opened :
    (cb : CircuitBreaker) (now end_now : ℕ) (outcome : Outcome)
    → cb.state ≡ opened
    → cb.last_state_change ≤ now
    → (now < cb.last_state_change + cb.cooldown_duration
        → execute now end_now outcome cb ≡ (none, cb))
      × (cb.last_state_change + cb.cooldown_duration ≤ now
          → let cb' = (execute now end_now outcome cb).1 in
            (cb'.half_open_probing ≡ false)
            × (cb'.state ≡ (if answers outcome then closed else opened))
            × (answers outcome ≡ true → cb'.consecutive_failures ≡ 0)
            × (cb'.last_state_change ≡ end_now))
unfolding execute
execute-opened cb now end_now success o past = ground arith
execute-opened cb now end_now panicked o past = ground arith
execute-opened cb now end_now (failure e) o past = ground arith
