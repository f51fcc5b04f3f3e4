-- ===== src/Limiter/Defs.antt =====
-- The limiter and its methods. Each holds the mutex from its start to its end, so it is one step;
-- times are nanoseconds of the monotonic clock.
use omnigo_app.Common.{
  ℕ, suc, ◌+◌, ◌*◌, ltb, Bool, true, false, List, [], ◌∷◌, Option, none, some, if◌then◌else◌,
}
use omnigo_app.Common.Int.{ℤ, pos, ◌-ℤ◌, ltb_ℤ, int64}
use omnigo_app.Common.Text.{Text, text_eq}

pub record Bucket : Type 0 where
  pub tokens : ℤ
  pub last_reset : ℕ

abbrev pub Buckets : Type 0
Buckets = List (Text × Bucket)

pub record PaymentRateLimiter : Type 0 where
  pub buckets : Buckets
  pub rate : ℤ
  pub window : ℕ

unfoldable pub new_payment_rate_limiter : ℤ → ℕ → PaymentRateLimiter
new_payment_rate_limiter rate window = record { buckets = []; rate = rate; window = window }

unfoldable pub find_bucket : Text → Buckets → Option Bucket
find_bucket key [] = none
find_bucket key ((k, b) ∷ bs) = if text_eq k key then some b else find_bucket key bs

-- `buckets[key] = b`
unfoldable pub set_bucket : Text → Bucket → Buckets → Buckets
set_bucket key b [] = (key, b) ∷ []
set_bucket key b ((k, old) ∷ bs) =
    let rest = set_bucket key b bs in if text_eq k key then (k, b) ∷ bs else (k, old) ∷ rest

abbrev pub is_expired : ℕ → PaymentRateLimiter → Option Bucket → Bool
is_expired now r none = true
is_expired now r (some b) = ltb (b.last_reset + r.window) now

abbrev pub with_bucket : Text → Bucket → PaymentRateLimiter → PaymentRateLimiter
with_bucket key b r = record r { buckets = set_bucket key b r.buckets }

abbrev pub fresh_bucket : ℕ → PaymentRateLimiter → Bucket
fresh_bucket now r = record { tokens = int64 (r.rate -ℤ pos 1); last_reset = now }

-- A token of the bucket that is there.
abbrev pub take_token : Text → Option Bucket → PaymentRateLimiter → Bool × PaymentRateLimiter
take_token key none r = (false, r)
take_token key (some b) r =
    if ltb_ℤ (pos 0) b.tokens
    then (true, with_bucket key (record b { tokens = b.tokens -ℤ pos 1 }) r)
    else (false, r)

unfoldable pub allow : Text → ℕ → PaymentRateLimiter → Bool × PaymentRateLimiter
allow key now r =
    let b = find_bucket key r.buckets in
    if is_expired now r b
    then (true, with_bucket key (fresh_bucket now r) r)
    else take_token key b r

abbrev pub tokens_left : ℤ → Option Bucket → ℤ
tokens_left rate none = rate
tokens_left rate (some b) = b.tokens

unfoldable pub get_remaining : Text → PaymentRateLimiter → ℤ
get_remaining key r = tokens_left r.rate (find_bucket key r.buckets)

-- One tick of Cleanup.
unfoldable pub drop_expired : ℕ → ℕ → Buckets → Buckets
drop_expired window now [] = []
drop_expired window now ((k, b) ∷ bs) =
    let rest = drop_expired window now bs in
    if ltb (b.last_reset + window * 2) now then rest else (k, b) ∷ rest

unfoldable pub cleanup : ℕ → PaymentRateLimiter → PaymentRateLimiter
unfolding drop_expired
cleanup now r = record r { buckets = drop_expired r.window now r.buckets }

-- The requests of every caller, with their times.
abbrev pub Requests : Type 0
Requests = List (Text × ℕ)

-- How many requests of the caller go through.
unfoldable pub count_allowed : Text → Requests → PaymentRateLimiter → ℕ
unfolding allow
count_allowed key [] r = 0
count_allowed key ((k, now) ∷ reqs) r =
    let (ok, r') = allow k now r in
    let rest = count_allowed key reqs r' in
    if text_eq k key then if ok then suc rest else rest else rest

abbrev pub count_requests : Text → Requests → ℕ
count_requests key [] = 0
count_requests key ((k, now) ∷ reqs) =
    let rest = count_requests key reqs in if text_eq k key then suc rest else rest
