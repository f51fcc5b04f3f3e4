-- ===== src/Breaker/Errors.antt =====
-- backend/go-services/internal/payment/payfast/errors.go: which errors of the gateway are transient.
use omnigo_app.Common.{
  ℕ, ◌≤◌, ◌≡◌, Bool, true, false, not, ◌&&◌, ◌||◌, Option, none, some, arith, leb, ltb, ◌==◌,
  if◌then◌else◌,
}

-- `errors.Is` and `errors.As` on an error that is not nil: which sentinel errors its chain holds, and
-- what the first error of each type in it says.
pub record GatewayCause : Type 0 where
  pub is_canceled : Bool
  pub is_deadline_exceeded : Bool
  pub is_breaker_open : Bool
  pub is_auth_failed : Bool
  -- `Timeout()` of a `net.Error`
  pub net_timeout : Option Bool
  pub is_op_error : Bool
  -- whether the error number of an `os.SyscallError` is ECONNREFUSED, ECONNRESET or ETIMEDOUT
  pub syscall_lost : Option Bool
  -- the HTTP status of a GatewayError
  pub status_code : Option ℕ

abbrev holds : Option Bool → Bool
holds none = false
holds (some b) = b

abbrev transient_status : Option ℕ → Bool
transient_status none = false
transient_status (some code) = code == 408 || leb 500 code

-- `IsTransient` of an error that is not nil.
unfoldable pub is_transient : GatewayCause → Bool
is_transient e =
    if e.is_canceled
    then false
    else if e.is_deadline_exceeded || e.is_breaker_open
    then true
    else if holds e.net_timeout
    then true
    else if e.is_op_error
    then true
    else if holds e.syscall_lost
    then true
    else transient_status e.status_code

abbrev rejected_status : Option ℕ → Bool
rejected_status none = false
rejected_status (some code) = leb 400 code && ltb code 500 && not (code == 408)

-- `IsDeterministicRejection` of an error that is not nil.
unfoldable pub is_deterministic_rejection : GatewayCause → Bool
is_deterministic_rejection e = rejected_status e.status_code

-- An answer of the gateway by itself, with no failure of the network or the context behind it.
pub record IsAnswer (e : GatewayCause) (code : ℕ) : Type 0 where
  pub not_canceled : e.is_canceled ≡ false
  pub in_time : e.is_deadline_exceeded ≡ false
  pub breaker_closed : e.is_breaker_open ≡ false
  pub no_timeout : e.net_timeout ≡ none
  pub no_op_error : e.is_op_error ≡ false
  pub no_syscall : e.syscall_lost ≡ none
  pub status : e.status_code ≡ some code

-- Every error status of the gateway is either transient or a rejection, and never both.
pub is_transient-answer :
    (e : GatewayCause) (code : ℕ)
    → IsAnswer e code
    → 400 ≤ code
    → is_transient e ≡ not (is_deterministic_rejection e)
unfolding is_transient is_deterministic_rejection
is_transient-answer e code a h = ground arith
