-- ===== src/RateLimit/Decision.antt =====
-- The decision of `RateLimitMiddleware` of src/apps/core/middleware.py.
use notify_relay.Prelude.{
  ℕ, ◌≡◌, String, Bool, true, false, Option, none, some, arith, if◌then◌else◌,
}
use notify_relay.Middleware.{Response}
use notify_relay.RateLimit.{
  Settings, Consumed, result, value_error, redis_error, Incoming, Limit, derive, View, rate_limit,
  retry_after_seconds,
}

-- Whether the limiter lets a request through.
abbrev pub lets_through : Consumed → Bool
lets_through redis_error = true
lets_through value_error = false
lets_through (result b) = b.allowed

abbrev pub status_of : Option Response → Option ℕ
status_of none = none
status_of (some r) = some r.status

abbrev pub retry_after_of : Option Response → Option ℕ
retry_after_of none = none
retry_after_of (some r) = r.retry_after

-- The status and the Retry-After where it does not: 429 with one, or an exception.
abbrev pub refusal_status : Consumed → Option ℕ
refusal_status value_error = none
refusal_status _ = some 429

abbrev pub refusal_wait : Consumed → Option ℕ
refusal_wait (result b) = some (retry_after_seconds b)
refusal_wait _ = none

-- A request that has a bucket, with the limiter on, reaches the view exactly if the bucket has a
-- token or Redis cannot be reached, and then keeps the view's status and Retry-After. Else the view
-- does nothing, and the answer is 429 with the bucket's Retry-After, or, where the bucket raises
-- ValueError, that exception.
pub rate_limit-decides :
    {S : Type 0} (str : ℕ → String) (consume : Limit → Consumed) (settings : Settings)
    (r : Incoming) (next : View S) (s : S) (l : Limit)
    → settings.enabled ≡ true
    → derive str settings r ≡ some l
    → let out = rate_limit str consume settings r next s in
      let passes = lets_through (consume l) in
      (out.1 ≡ (if passes then (next s).1 else s))
      × (status_of out.0 ≡ (if passes then status_of (next s).0 else refusal_status (consume l)))
      × (retry_after_of out.0
          ≡ (if passes then retry_after_of (next s).0 else refusal_wait (consume l)))
unfolding rate_limit
rate_limit-decides str consume settings r next s l on e = ground (arith, e)
