-- ===== src/TokenBucket/Tests.antt =====
-- A bucket of two tokens that gains one each second.
use notify_relay.Prelude.{
  ℕ, ◌+◌, ◌*◌, ◌≡◌, refl, true, false, Option, none, some, map, List, [], ◌∷◌, str_append, inr,
  arith,
}
use notify_relay.Samples.{spell}
use notify_relay.Middleware.{Response}
use notify_relay.RateLimit.{Settings, Incoming, Limit, View}
use notify_relay.TokenBucket.Limiter.{limiter}
use notify_relay.TokenBucket.{
  Hash, Slot, Client, empty_hash, rate_per_sec, script, refilled, consume,
}
use notify_relay.TokenBucket.Arithmetic.{unit, fixed_point, fixed_point-IsDoubles}
use notify_relay.TokenBucket.Expiry.{Call, serve, serve_kept, serve-expiry}
use notify_relay.TokenBucket.Consume.{IsOwn, Serves, consume-Serves}

abbrev absent : Slot
absent = record { hash = empty_hash; expires = 0 }

abbrev ask : ℕ → Call
ask now = record { now = now; request = 1 }

-- The third call finds an empty bucket; the last one comes after the key has expired.
abbrev asked : List Call
asked = ask 5200 ∷ ask 5300 ∷ ask 90000 ∷ []

abbrev per_second : ℕ
per_second = rate_per_sec fixed_point 60

serve-expiry_example :
    serve fixed_point per_second 2 absent (ask 5000 ∷ asked)
    ≡ serve_kept fixed_point per_second 2 empty_hash (ask 5000 ∷ asked)
serve-expiry_example =
    serve-expiry fixed_point fixed_point-IsDoubles 60 2 (omega arith) (omega arith) (omega arith)
      absent (ask 5000) asked (omega arith, (omega arith, (omega arith, _)))

three_granted :
    map (λ r. r.allowed) (serve fixed_point per_second 2 absent (ask 5000 ∷ asked))
    ≡ true ∷ true ∷ false ∷ true ∷ []
unfolding serve script refilled
three_granted = refl

abbrev empty : Hash
empty = record { tokens = some (0 ∷ []); last_refill = some (5200 * unit ∷ []) }

-- Redis has lost the script that the object has loaded, and holds an empty bucket.
abbrev flushed : Client
flushed = record {
  script_sha = some "5f2c";
  server = record { scripts = []; slots = λ k. record { hash = empty; expires = 9000 } };
}

consume-Serves_example :
    Serves fixed_point "5f2c"
      (str_append "rl:" "ip:10.0.0.1")
      per_second
      2
      1
      5300
      flushed
      (consume fixed_point "5f2c" "rl:" "ip:10.0.0.1" 60 2 1 5300 flushed)
unfolding IsOwn
consume-Serves_example =
    consume-Serves fixed_point "5f2c" "rl:" "ip:10.0.0.1" 60 2 1 5300 flushed (omega arith)
      (omega arith) (omega arith) (inr refl)

abbrev settings : Settings
settings = record {
  enabled = true;
  default_per_min = 60;
  default_burst = 2;
  auth_per_min = 5;
  auth_burst = 5;
}

abbrev by_nobody : Incoming
by_nobody = record { path = "/api/v1/messages/"; client_ip = "10.0.0.1"; api_key = none }

-- The view counts its calls.
abbrev view : View ℕ
view calls = (
  some (record { status = 202; request_id = none; remaining = none; retry_after = none }),
  calls + 1,
)

abbrev limit : Limit
limit = record { identity = "ip:10.0.0.1"; rate = 60; burst = 2 }

abbrev limited : Option Response × ℕ
limited = limiter fixed_point "5f2c" spell settings 5300 by_nobody view flushed 0
