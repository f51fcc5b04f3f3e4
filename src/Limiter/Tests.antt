-- ===== src/Limiter/Tests.antt =====
-- Two requests in a window of a hundred, of a caller that asks three times while another asks too.
use Prim.Native.Nat.{min}
use omnigo_app.Common.{suc, ◌≡◌, refl, arith, [], ◌∷◌}
use omnigo_app.Common.Int.{pos}
use omnigo_app.Common.Text.{Text, codes, text_eq}
use omnigo_app.Limiter.Defs.{
  PaymentRateLimiter, new_payment_rate_limiter, find_bucket, Requests, count_allowed,
  count_requests,
}
use omnigo_app.Limiter.Window.{count_allowed-window}

abbrev caller : Text
caller = codes "10.0.0.1"

abbrev limiter : PaymentRateLimiter
limiter = record { buckets = []; rate = pos 2; window = 100 }

abbrev requests : Requests
requests = (caller, 20) ∷ (codes "10.0.0.2", 30) ∷ (caller, 110) ∷ []

made : new_payment_rate_limiter (pos 2) 100 ≡ limiter
unfolding new_payment_rate_limiter
made = refl

count_allowed-window_example :
    count_allowed caller ((caller, 10) ∷ requests) limiter
    ≡ min (suc (count_requests caller requests)) (suc 1)
unfolding find_bucket text_eq
count_allowed-window_example =
    count_allowed-window caller 10 1 requests limiter refl (omega arith) refl refl
