-- ===== src/Limiter/Window.antt =====
-- The limit within one window.
use Prim.Native.Nat.{min}
use mathlib.Core.Path.{subst}
use omnigo_app.Common.{
  ℕ, zero, suc, ◌+◌, ◌≤◌, ◌<◌, ◌^◌, ◌≡◌, refl, ap, sym, ◌∙◌, ltb, leb, not, Bool, true, false, ◌||◌,
  [], ◌∷◌, all, Option, none, some, arith, Bool-cases, inl, inr, if◌then◌else◌,
}
use omnigo_app.Common.Int.{pos, ◌-ℤ◌, ltb_ℤ, int64_id, int_laws}
use omnigo_app.Common.Text.{Text, text_eq, text_eq_sound, text_eq_refl}
use omnigo_app.Limiter.Defs.{
  Bucket, Buckets, PaymentRateLimiter, find_bucket, set_bucket, is_expired, with_bucket, take_token,
  allow, Requests, count_allowed, count_requests,
}

set_bucket-own :
    (key : Text) (b : Bucket) (bs : Buckets) → find_bucket key (set_bucket key b bs) ≡ some b
unfolding find_bucket set_bucket
set_bucket-own key b [] = rw (text_eq_refl key) refl
set_bucket-own key b ((k, old) ∷ bs) = elim (Bool-cases (text_eq k key)) [
  | inl same ↦ rw same (rw same refl)
  | inr other ↦ rw other (rw other (set_bucket-own key b bs))
]

set_bucket-other :
    (k key : Text) (b : Bucket) (bs : Buckets)
    → text_eq k key ≡ false
    → find_bucket key (set_bucket k b bs) ≡ find_bucket key bs
unfolding find_bucket set_bucket
set_bucket-other k key b [] apart = rw apart refl
set_bucket-other k key b ((k', old) ∷ bs) apart = elim (Bool-cases (text_eq k' k)) [
  | inl same ↦
      let not_key : text_eq k' key ≡ false = rw (text_eq_sound k' k same) apart in
      rw (same, not_key) refl
  | inr other ↦ rw other (rw (set_bucket-other k key b bs apart) refl)
]

-- The caller's requests come no later than the time.
abbrev pub is_within : Text → ℕ → Text × ℕ → Bool
is_within key last (k, now) = not (text_eq k key) || leb now last

-- The caller has the bucket, and the window is `w`.
record Has (key : Text) (b : Bucket) (w : ℕ) (r : PaymentRateLimiter) : Type 0 where
  own : find_bucket key r.buckets ≡ some b
  same_window : r.window ≡ w

module _ (key : Text) (b : Bucket) (w : ℕ) where
  branch-Has :
      (test : Bool) (x y : Bool × PaymentRateLimiter)
      → Has key b w x.1
      → Has key b w y.1
      → Has key b w (if test then x else y).1
  branch-Has true x y first second = first
  branch-Has false x y first second = second

  module _ (k : Text) (r : PaymentRateLimiter) (apart : text_eq k key ≡ false)
      (h : Has key b w r) where
    with_bucket-Has : (other : Bucket) → Has key b w (with_bucket k other r)
    with_bucket-Has other = record {
      own = set_bucket-other k key other r.buckets apart ∙ h.own;
      same_window = h.same_window;
    }

    take_token-Has : (o : Option Bucket) → Has key b w (take_token k o r).1
    take_token-Has none = h
    take_token-Has (some other) = branch-Has (ltb_ℤ (pos 0) other.tokens) _ _ (with_bucket-Has _) h

    -- A request of another caller.
    allow-Has : (now : ℕ) → Has key b w (allow k now r).1
    unfolding allow
    allow-Has now =
        branch-Has (is_expired now r (find_bucket k r.buckets)) _ _ (with_bucket-Has _)
          (take_token-Has (find_bucket k r.buckets))

abbrev filled : ℕ → ℕ → Bucket
filled tokens start = record { tokens = pos tokens; last_reset = start }

ltb-false : (a b : ℕ) → b ≤ a → ltb a b ≡ false
ltb-false a b le = ground arith

module _ (key : Text) (start w now : ℕ) (r : PaymentRateLimiter) (in_time : now ≤ start + w) where
  -- A request of the caller, with no token left and with one.
  allow-empty : Has key (filled 0 start) w r → allow key now r ≡ (false, r)
  unfolding allow
  allow-empty h = rw h.own (rw (ltb-false (start + r.window) now (rw h.same_window in_time)) refl)

  allow-token :
      (m : ℕ)
      → Has key (filled (suc m) start) w r
      → allow key now r ≡ (true, with_bucket key (filled m start) r)
  unfolding allow
  allow-token m h = rw h.own (
      rw (ltb-false (start + r.window) now (rw h.same_window in_time), has_token m, one_less m)
        refl)
    where
      one_less : (n : ℕ) → pos (suc n) -ℤ pos 1 ≡ pos n
      one_less n = omega int_laws

      has_token : (n : ℕ) → ltb_ℤ (pos 0) (pos (suc n)) ≡ true
      has_token n = ground arith

Has-bucket :
    (key : Text) (b : Bucket) (r : PaymentRateLimiter) → Has key b r.window (with_bucket key b r)
Has-bucket key b r = record { own = set_bucket-own key b r.buckets; same_window = refl }

-- A request of the caller counts if it goes through.
count_allowed-own :
    (key k : Text) (now : ℕ) (reqs : Requests) (r r' : PaymentRateLimiter) (ok : Bool)
    → text_eq k key ≡ true
    → allow k now r ≡ (ok, r')
    → count_allowed key ((k, now) ∷ reqs) r
      ≡ (if ok then suc (count_allowed key reqs r') else count_allowed key reqs r')
unfolding count_allowed
count_allowed-own key k now reqs r r' ok same step = rw (same, step) refl

count_requests-own :
    (key k : Text) (now : ℕ) (reqs : Requests)
    → text_eq k key ≡ true
    → count_requests key ((k, now) ∷ reqs) ≡ suc (count_requests key reqs)
count_requests-own key k now reqs same = rw same refl

own_request :
    (key k : Text) (start w m now : ℕ) (reqs : Requests) (r : PaymentRateLimiter)
    → text_eq k key ≡ true
    → now ≤ start + w
    → Has key (filled m start) w r
    → ((m' : ℕ) (r' : PaymentRateLimiter)
        → Has key (filled m' start) w r'
        → count_allowed key reqs r' ≡ min (count_requests key reqs) m')
    → count_allowed key ((k, now) ∷ reqs) r ≡ min (suc (count_requests key reqs)) m
own_request key k start w zero now reqs r same in_time h later =
    let step : allow k now r ≡ (false, r) =
      rw (text_eq_sound k key same) (allow-empty key start w now r in_time h) in
    count_allowed-own key k now reqs r r false same step ∙ (later 0 r h ∙ omega arith)
own_request key k start w (suc m) now reqs r same in_time h later =
    let r' = with_bucket key (filled m start) r in
    let step : allow k now r ≡ (true, r') =
      rw (text_eq_sound k key same) (allow-token key start w now r in_time m h) in
    let kept : Has key (filled m start) w r' =
      subst (λ v. Has key (filled m start) v r') h.same_window
        (Has-bucket key (filled m start) r) in
    count_allowed-own key k now reqs r r' true same step ∙ (ap suc (later m r' kept) ∙ omega arith)

-- With `m` tokens in a bucket that does not expire, the first `m` requests go through.
counted :
    (key : Text) (start w m : ℕ) (reqs : Requests) (r : PaymentRateLimiter)
    → Has key (filled m start) w r
    → all (is_within key (start + w)) reqs ≡ true
    → count_allowed key reqs r ≡ min (count_requests key reqs) m
unfolding count_allowed
counted key start w m [] r h within = omega arith
counted key start w m ((k, now) ∷ reqs) r h within = elim (Bool-cases (text_eq k key)) [
  | inl same ↦
      own_request key k start w m now reqs r same (ground (arith, within, same)) h
        (λ m' r' h'. counted key start w m' reqs r' h' (ground (arith, within)))
      ∙ ap (λ n. min n m) (sym (count_requests-own key k now reqs same))
  | inr other ↦ rw other (
      counted key start w m reqs (allow k now r).1
        (allow-Has key (filled m start) w k r other h now) (ground (arith, within)))
]

first_request :
    (key : Text) (start rate : ℕ) (r : PaymentRateLimiter)
    → r.rate ≡ pos (suc rate)
    → suc rate < 2 ^ 63
    → find_bucket key r.buckets ≡ none
    → allow key start r ≡ (true, with_bucket key (filled rate start) r)
unfolding allow
first_request key start rate r rated small missing =
    rw (missing, rated, one_less rate, int64_id (pos rate) (omega arith, omega arith)) refl
  where
    one_less : (n : ℕ) → pos (suc n) -ℤ pos 1 ≡ pos n
    one_less n = omega int_laws

-- A caller without a bucket, whose requests all come within one window of the first: of n requests,
-- among those of any other callers, exactly min n rate go through, for a positive rate. The rate is
-- the whole limit; no burst is allowed above it.
pub count_allowed-window :
    (key : Text) (start rate : ℕ) (reqs : Requests) (r : PaymentRateLimiter)
    → r.rate ≡ pos (suc rate)
    → suc rate < 2 ^ 63
    → find_bucket key r.buckets ≡ none
    → all (is_within key (start + r.window)) reqs ≡ true
    → count_allowed key ((key, start) ∷ reqs) r ≡ min (suc (count_requests key reqs)) (suc rate)
count_allowed-window key start rate reqs r rated small missing within =
    let step : allow key start r ≡ (true, with_bucket key (filled rate start) r) =
      first_request key start rate r rated small missing in
    count_allowed-own key key start reqs r (with_bucket key (filled rate start) r) true
      (text_eq_refl key) step
    ∙ (ap suc (
          counted key start r.window rate reqs (with_bucket key (filled rate start) r)
            (Has-bucket key (filled rate start) r) within)
        ∙ omega arith)
