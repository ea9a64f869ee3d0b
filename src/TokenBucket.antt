-- ===== src/TokenBucket.antt =====
-- src/apps/ratelimit/bucket.py and the script src/apps/ratelimit/lua/token_bucket.lua that it runs in
-- Redis. The script's numbers are doubles and it stores them as text; their arithmetic and their
-- text are a parameter.
pub mod Arithmetic
pub mod Expiry
pub mod Consume
pub mod Limiter
mod Tests
use notify_relay.Prelude.{
  ℕ, ◌+◌, ◌*◌, Bool, true, false, ◌||◌, Option, none, some, List, [], ◌∷◌, String, leb, ltb, ◌==◌,
  str_eq, str_append, any, if◌then◌else◌,
}
use notify_relay.RateLimit.{BucketResult, Consumed, result, value_error, redis_error}

-- What Redis stores and returns.
abbrev pub Bytes : Type 0
Bytes = List ℕ

-- The doubles that are not negative, each as its bit pattern, whose order as a number is theirs, with
-- the rounded operations on them; `sub` is used where the difference is not negative. `of_nat` is
-- the double of an integer, `ceil` is `math.ceil` made an integer, `tostring` and `tonumber` are
-- Lua's ("%.14g"), and `whole` is Python's `int(float(text))`.
pub record Doubles : Type 0 where
  pub of_nat : ℕ → ℕ
  pub add : ℕ → ℕ → ℕ
  pub sub : ℕ → ℕ → ℕ
  pub mul : ℕ → ℕ → ℕ
  pub div : ℕ → ℕ → ℕ
  pub ceil : ℕ → ℕ
  pub tostring : ℕ → Bytes
  pub tonumber : Bytes → Option ℕ
  pub whole : Bytes → ℕ

-- The fields of the hash under a bucket's key, and when EXPIRE lets the key go, in milliseconds.
pub record Hash : Type 0 where
  pub tokens : Option Bytes
  pub last_refill : Option Bytes

pub record Slot : Type 0 where
  pub hash : Hash
  pub expires : ℕ

abbrev pub empty_hash : Hash
empty_hash = record { tokens = none; last_refill = none }

-- What Redis still has of a key at `now`.
abbrev pub alive_hash : ℕ → Slot → Hash
alive_hash now s = if ltb now s.expires then s.hash else empty_hash

abbrev pub get_or : ℕ → Option ℕ → ℕ
get_or d none = d
get_or d (some n) = n

-- `{allowed, tostring(tokens), retry_after_ms}`.
pub record Reply : Type 0 where
  pub allowed : Bool
  pub tokens : Bytes
  pub retry_after_ms : ℕ

module _ (d : Doubles) where
  -- `tonumber` of a field, which may be missing.
  abbrev pub number : Option Bytes → Option ℕ
  number none = none
  number (some text) = d.tonumber text

  -- `elapsed_ms`, 0 if the clock has gone back.
  abbrev pub elapsed : ℕ → ℕ → ℕ
  elapsed now last = if ltb now last then d.of_nat 0 else d.sub now last

  abbrev pub capped : ℕ → ℕ → ℕ
  capped burst tokens = if ltb burst tokens then burst else tokens

  -- The tokens at `now`: what was left and what has been gained, up to `burst`.
  unfoldable pub refilled : ℕ → ℕ → ℕ → Hash → ℕ
  refilled rate burst now h = capped burst (
      d.add (get_or burst (number h.tokens))
        (d.div (d.mul (elapsed now (get_or now (number h.last_refill))) rate) (d.of_nat 1000)))

  -- The tokens that are left, and whether the request is allowed and when to retry.
  abbrev pub left : ℕ → ℕ → ℕ
  left request tokens = if leb request tokens then d.sub tokens request else tokens

  abbrev pub decide : ℕ → ℕ → ℕ → Reply
  decide rate request tokens = record {
    allowed = leb request tokens;
    tokens = d.tostring (left request tokens);
    retry_after_ms =
        if leb request tokens
        then 0
        else d.ceil (d.div (d.mul (d.sub request tokens) (d.of_nat 1000)) rate);
  }

  -- `math.ceil(burst / rate) + 1`, in seconds.
  abbrev pub ttl_s : ℕ → ℕ → ℕ
  ttl_s rate burst = d.ceil (d.div burst rate) + 1

  -- The script on the hash that it finds; `rate` is a double, in tokens per second.
  unfoldable pub script : ℕ → ℕ → ℕ → ℕ → Hash → Reply × Slot
  unfolding refilled
  script rate burst request now h =
      let r = decide rate (d.of_nat request) (refilled rate (d.of_nat burst) (d.of_nat now) h) in
      (
        r,
        record {
          hash = record { tokens = some r.tokens; last_refill = some (d.tostring (d.of_nat now)) };
          expires = now + ttl_s rate (d.of_nat burst) * 1000;
        },
      )

-- Redis: the scripts that it has, by their digests, and the keys.
pub record Server : Type 0 where
  pub scripts : List String
  pub slots : String → Slot

pub data Eval : Type 0 where
  replied : Reply → Eval
  no_script : Eval

abbrev pub has_script : String → Server → Bool
has_script sha s = any (str_eq sha) s.scripts

abbrev pub write : String → Slot → Server → Server
write key slot s = record s { slots = λ k. if str_eq k key then slot else s.slots k }

-- `evalsha`.
unfoldable pub evalsha : Doubles → String → String → ℕ → ℕ → ℕ → ℕ → Server → Eval × Server
evalsha d sha key rate burst request now s =
    let run = script d rate burst request now (alive_hash now (s.slots key)) in
    if has_script sha s then (replied run.0, write key run.1 s) else (no_script, s)

-- The bucket object and the server.
pub record Client : Type 0 where
  pub script_sha : Option String
  pub server : Server

-- `_parse`; the fraction of `remaining` is dropped: its reader calls `int`.
abbrev pub parse : Doubles → Reply → BucketResult
parse d r = record {
  allowed = r.allowed;
  remaining = d.whole r.tokens;
  retry_after_ms = r.retry_after_ms;
}

-- `rate_per_min / 60.0`.
abbrev pub rate_per_sec : Doubles → ℕ → ℕ
rate_per_sec d rate_per_min = d.div (d.of_nat rate_per_min) (d.of_nat 60)

-- `_load_script`: the digest of the script is `sha`.
abbrev pub load_script : String → Server → Server
load_script sha s = record s { scripts = sha ∷ s.scripts }

module _ (d : Doubles) (sha : String) where
  -- `_eval`: the script is loaded first if this object has not yet done so.
  pub ensure_loaded : Client → Client
  ensure_loaded c = elim c.script_sha [
    | none ↦ record { script_sha = some sha; server = load_script sha c.server }
    | some known ↦ c
  ]

  abbrev pub known_sha : Client → String
  known_sha c = elim c.script_sha [ none ↦ sha | some known ↦ known ]

  pub eval : String → ℕ → ℕ → ℕ → ℕ → Client → Eval × Client
  unfolding ensure_loaded
  eval key rate burst request now c =
      let c' = ensure_loaded c in
      let run = evalsha d (known_sha c') key rate burst request now c'.server in
      (run.0, record c' { server = run.1 })

  -- NoScriptError is a RedisError.
  abbrev pub answer : Eval × Client → Consumed × Client
  answer (replied r, c) = (result (parse d r), c)
  answer (no_script, c) = (redis_error, c)

  -- `except NoScriptError`: load it and try once more.
  pub retry_eval : String → ℕ → ℕ → ℕ → ℕ → Eval × Client → Consumed × Client
  unfolding eval
  retry_eval key rate burst request now (replied r, c) = (result (parse d r), c)
  retry_eval key rate burst request now (no_script, c) = answer (
      eval key rate burst request now
        (record { script_sha = some sha; server = load_script sha c.server }))

  -- `TokenBucket.consume`, with Redis up.
  unfoldable pub consume : String → String → ℕ → ℕ → ℕ → ℕ → Client → Consumed × Client
  unfolding retry_eval eval
  consume key_prefix identity rate burst request now c =
      if (rate == 0) || (burst == 0) || (request == 0)
      then (value_error, c)
      else (let key = str_append key_prefix identity in
          let per_sec = rate_per_sec d rate in
          retry_eval key per_sec burst request now (eval key per_sec burst request now c))
