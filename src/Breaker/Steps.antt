-- ===== src/Breaker/Steps.antt =====
-- The circuit breaker under any interleaving of calls.
use omnigo_app.Common.{ℕ, suc, ◌+◌, ◌≤◌, ◌<◌, ◌≡◌, ◌≢◌, true, false, arith, if◌then◌else◌}
use omnigo_app.Common.Int.{ℤ}
use omnigo_app.Breaker.Defs.{
  closed, half_open, CircuitBreaker, new_circuit_breaker, begin_call, Outcome, end_call, reset,
}

-- The breaker, and how many calls are between their two steps.
pub record System : Type 0 where
  pub breaker : CircuitBreaker
  pub in_flight : ℕ

-- A call that is refused does not stay in flight; a call ends only if one is in flight.
pub data Step (s t : System) : Type 0 where
  begins :
      (now : ℕ)
      → t.breaker ≡ (begin_call now s.breaker).1
      → t.in_flight ≡ (if (begin_call now s.breaker).0 then suc s.in_flight else s.in_flight)
      → Step s t
  ends :
      (now : ℕ) (outcome : Outcome)
      → s.in_flight ≡ suc t.in_flight
      → t.breaker ≡ end_call now outcome s.breaker
      → Step s t
  resets : (now : ℕ) → t.breaker ≡ reset now s.breaker → t.in_flight ≡ s.in_flight → Step s t

pub data Reach : System → Type 0 where
  created :
      (threshold cooldown : ℤ) (now : ℕ)
      → Reach (record { breaker = new_circuit_breaker threshold cooldown now; in_flight = 0 })
  later : {s t : System} → Reach s → Step s t → Reach t

pub record IsValid (s : System) : Type 0 where
  pub half_open_probes : s.breaker.state ≡ half_open → s.breaker.half_open_probing ≡ true
  pub probe_in_flight : s.breaker.half_open_probing ≡ true → 0 < s.in_flight
  pub below_threshold :
      s.breaker.state ≡ closed → s.breaker.consecutive_failures < s.breaker.failure_threshold
  pub threshold_positive : 0 < s.breaker.failure_threshold

new_circuit_breaker-IsValid :
    (threshold cooldown : ℤ) (now : ℕ)
    → IsValid (record { breaker = new_circuit_breaker threshold cooldown now; in_flight = 0 })
unfolding new_circuit_breaker
new_circuit_breaker-IsValid threshold cooldown now = ground arith

pub Step-IsValid : {s t : System} → Step s t → IsValid s → IsValid t
unfolding begin_call end_call reset
Step-IsValid (begins now e f) v = ground arith
Step-IsValid (ends now Outcome.success e f) v = ground arith
Step-IsValid (ends now Outcome.panicked e f) v = ground arith
Step-IsValid (ends now (Outcome.failure c) e f) v = ground arith
Step-IsValid (resets now e f) v = ground arith

-- Under every interleaving of calls, panics and resets: while the breaker is half-open a probe is in
-- flight, and while it is closed the count of failures is below the threshold.
pub Reach-IsValid : {s : System} → Reach s → IsValid s
Reach-IsValid (created threshold cooldown now) = new_circuit_breaker-IsValid threshold cooldown now
Reach-IsValid (later r st) = Step-IsValid st (Reach-IsValid r)

-- While the breaker is half-open every further call is refused and changes nothing.
pub half_open-refuses :
    (s : System) (now : ℕ)
    → Reach s
    → s.breaker.state ≡ half_open
    → begin_call now s.breaker ≡ (false, s.breaker)
unfolding begin_call
half_open-refuses s now r h = let v = (Reach-IsValid r).half_open_probes h in ground arith

-- Once every call has returned, the breaker is not half-open, and from the end of the cooldown on it
-- lets the next call through.
pub idle-admits :
    (s : System) (now : ℕ)
    → Reach s
    → s.in_flight ≡ 0
    → s.breaker.last_state_change + s.breaker.cooldown_duration ≤ now
    → (s.breaker.state ≢ half_open) × ((begin_call now s.breaker).0 ≡ true)
unfolding begin_call
idle-admits s now r idle elapsed =
    let v = Reach-IsValid r in
    let not_half : s.breaker.state ≢ half_open =
      λ h. absurd (omega (arith, v.probe_in_flight (v.half_open_probes h))) in
    (not_half, ground arith)
