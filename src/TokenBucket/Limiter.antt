-- ===== src/TokenBucket/Limiter.antt =====
-- `RateLimitMiddleware` of src/apps/core/middleware.py with its bucket of
-- src/apps/ratelimit/bucket.py and the script in Redis.
use notify_relay.Prelude.{
  ℕ, ◌<◌, ◌≡◌, true, false, Option, none, some, String, str_append, arith, if◌then◌else◌,
}
use notify_relay.RateLimit.{Settings, Consumed, Incoming, Limit, derive, View, rate_limit, too_many}
use notify_relay.TokenBucket.{Doubles, Slot, Client, Reply, parse, consume, rate_per_sec}
use notify_relay.TokenBucket.Consume.{IsOwn, Serves, run_on, consume-Serves}

module _ (d : Doubles) (sha : String) (str : ℕ → String) (settings : Settings) where
  -- `self._get_bucket().consume(identity, rate_per_min=rate, burst=burst)` at `now`.
  abbrev pub take : ℕ → Client → Limit → Consumed × Client
  take now c l = consume d sha "rl:" l.identity l.rate l.burst 1 now c

  after_take : ℕ → Client → Option Limit → Client
  after_take now c none = c
  after_take now c (some l) = (take now c l).1

  -- The bucket after the call.
  unfoldable pub bucket_after : ℕ → Incoming → Client → Client
  unfolding after_take
  bucket_after now r c = if settings.enabled then after_take now c (derive str settings r) else c

  -- `RateLimitMiddleware.__call__` at `now`.
  unfoldable pub limiter : {S : Type 0} → ℕ → Incoming → View S → Client → View S
  limiter now r next c = rate_limit str (λ l. (take now c l).0) settings r next

  abbrev key_of : Limit → String
  key_of l = str_append "rl:" l.identity

  abbrev pub run_for : ℕ → Client → Limit → Reply × Slot
  run_for now c l = run_on d sha (key_of l) (rate_per_sec d l.rate) l.burst 1 now c.server.slots

  take-replies :
      (now : ℕ) (c : Client) (l : Limit)
      → 0 < l.rate
      → 0 < l.burst
      → IsOwn sha c
      → Serves d sha (key_of l) (rate_per_sec d l.rate) l.burst 1 now c (take now c l)
  take-replies now c l p q own =
      consume-Serves d sha "rl:" l.identity l.rate l.burst 1 now c p q (omega arith) own

  -- A refusal, whole.
  pub limiter-refuses :
      {S : Type 0} (now : ℕ) (r : Incoming) (next : View S) (s : S) (c : Client) (l : Limit)
      → settings.enabled ≡ true
      → derive str settings r ≡ some l
      → 0 < l.rate
      → 0 < l.burst
      → IsOwn sha c
      → (run_for now c l).0.allowed ≡ false
      → limiter now r next c s ≡ (some (too_many (parse d (run_for now c l).0)), s)
  unfolding limiter rate_limit Serves
  limiter-refuses now r next s c l on e p q own refused =
      let replies = (take-replies now c l p q own).0 in ground (arith, on, e, replies, refused)
