-- ===== src/RateLimit.antt =====
-- `RateLimitMiddleware` of src/apps/core/middleware.py and `BucketResult` of
-- src/apps/ratelimit/bucket.py. The answer of the token bucket is a parameter; of the remaining
-- tokens, a float, the middleware reads only the whole part.
pub mod Decision
use notify_relay.Prelude.{
  ℕ, ◌+◌, ◌-◌, ◌/◌, max, String, Bool, true, false, not, ◌||◌, Option, none, some, is_some, leb,
  str_eq, str_append, if◌then◌else◌,
}
use notify_relay.Models.{ApiKey}
use notify_relay.Security.{after_prefix}
use notify_relay.Middleware.{Response}

-- `RATE_LIMIT_*` of src/notify_relay/settings/base.py.
pub record Settings : Type 0 where
  pub enabled : Bool
  pub default_per_min : ℕ
  pub default_burst : ℕ
  pub auth_per_min : ℕ
  pub auth_burst : ℕ

pub record BucketResult : Type 0 where
  pub allowed : Bool
  pub remaining : ℕ
  pub retry_after_ms : ℕ

-- `BucketResult.retry_after_seconds`.
abbrev pub retry_after_seconds : BucketResult → ℕ
retry_after_seconds r = if not r.allowed then max 1 ((r.retry_after_ms + 999) / 1000) else 0

-- How `TokenBucket.consume` ends: a result, ValueError, or a RedisError.
pub data Consumed : Type 0 where
  result : BucketResult → Consumed
  value_error redis_error : Consumed

-- What `_derive` reads of a request: the path, the client's address (`_client_ip`), and the key
-- that `resolve_api_key` finds. A number in an identity is spelled by `str`.
pub record Incoming : Type 0 where
  pub path : String
  pub client_ip : String
  pub api_key : Option ApiKey

pub record Limit : Type 0 where
  pub identity : String
  pub rate : ℕ
  pub burst : ℕ

abbrev pub starts_with : String → String → Bool
starts_with p s = is_some (after_prefix p s)

-- `path.startswith(_AUTH_PATHS)`.
abbrev pub auth_path : String → Bool
auth_path path = starts_with "/api/v1/auth/" path || starts_with "/admin/login/" path

unfoldable pub by_client : (ℕ → String) → Settings → Incoming → Option ApiKey → Limit
by_client str settings r none = record {
  identity = str_append "ip:" r.client_ip;
  rate = settings.default_per_min;
  burst = settings.default_burst;
}
by_client str settings r (some k) = record {
  identity = str_append "key:" (str k.id);
  rate = k.rate_limit_per_min;
  burst = k.burst;
}

-- `RateLimitMiddleware._derive`.
unfoldable pub derive : (ℕ → String) → Settings → Incoming → Option Limit
unfolding by_client
derive str settings r =
    if auth_path r.path
    then some (record {
      identity = str_append "auth-ip:" r.client_ip;
      rate = settings.auth_per_min;
      burst = settings.auth_burst;
    })
    else if not (starts_with "/api/v1/" r.path)
    then none
    else some (by_client str settings r r.api_key)

abbrev pub too_many : BucketResult → Response
too_many b = record {
  status = 429;
  request_id = none;
  remaining = some 0;
  retry_after = some (retry_after_seconds b);
}

-- The rest of the chain: from its state to a response, or to an exception (`none`), and a new state.
abbrev pub View : Type 0 → Type 0
View S = S → Option Response × S

with_remaining : ℕ → Option Response → Option Response
with_remaining n none = none
with_remaining n (some r) = some (record r { remaining = some n })

module _ {S : Type 0} where
  admit : Consumed → View S → View S
  unfolding with_remaining
  admit redis_error next s = next s
  admit value_error next s = (none, s)
  admit (result b) next s =
      let out = next s in
      if not b.allowed then (some (too_many b), s) else (with_remaining b.remaining out.0, out.1)

  limited : (Limit → Consumed) → Option Limit → View S → View S
  unfolding admit
  limited consume none next = next
  limited consume (some l) next = admit (consume l) next

  -- `RateLimitMiddleware.__call__`, where `next` is `self.get_response`.
  unfoldable pub rate_limit :
      (ℕ → String) → (Limit → Consumed) → Settings → Incoming → View S → View S
  unfolding limited
  rate_limit str consume settings r next =
      if not settings.enabled then next else limited consume (derive str settings r) next
