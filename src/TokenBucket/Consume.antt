-- ===== src/TokenBucket/Consume.antt =====
-- `TokenBucket.consume` of src/apps/ratelimit/bucket.py against the script: when the object has not
-- loaded it, when Redis has lost it, and when Redis has it.
use notify_relay.Prelude.{
  ℕ, ◌<◌, ◌≡◌, ◌⊎◌, refl, sym, ap, subst, Bool, true, false, ◌||◌, Option, none, some, any, String,
  str_eq, str_append, ◌==◌, arith, Bool-cases, inl, inr, eq_refl, if◌then◌else◌,
}
use notify_relay.RateLimit.{Consumed, result, value_error}
use notify_relay.TokenBucket.{
  Slot, alive_hash, script, Server, has_script, write, evalsha, Eval, replied, no_script, Client,
  parse, load_script, Doubles, rate_per_sec, ensure_loaded, eval, retry_eval, answer, consume,
  Reply,
}

module _ (sha : String) where
  -- The digest that a bucket object remembers, if any, is the script's.
  unfoldable pub IsOwn : Client → Type 0
  IsOwn c = (c.script_sha ≡ none) ⊎ (c.script_sha ≡ some sha)

  load_script-has : (s : Server) → has_script sha (load_script sha s) ≡ true
  load_script-has s = ap (λ b. b || any (str_eq sha) s.scripts) (eq_refl sha)

module _ (d : Doubles) (sha key : String) (rate burst request now : ℕ) where
  -- The script on the key.
  abbrev pub run_on : (String → Slot) → Reply × Slot
  run_on slots = script d rate burst request now (alive_hash now (slots key))

  -- An object that has had the script's reply.
  served : Server → Eval × Client
  served s = (
    replied (run_on s.slots).0,
    record { script_sha = some sha; server = write key (run_on s.slots).1 s },
  )

  -- What `eval` gives for each answer to whether Redis has the script.
  abbrev evaluated : Server → Bool → Eval × Client
  evaluated s known =
      let run : Eval × Server =
        if known
        then (replied (run_on s.slots).0, write key (run_on s.slots).1 s)
        else (no_script, s) in
      (run.0, record { script_sha = some sha; server = run.1 })

  eval-known :
      (s : Server)
      → has_script sha s ≡ true
      → eval d sha key rate burst request now (record { script_sha = some sha; server = s })
        ≡ served s
  unfolding eval ensure_loaded evalsha served
  eval-known s h = ap (evaluated s) h

  eval-unknown :
      (s : Server)
      → eval d sha key rate burst request now (record { script_sha = none; server = s })
        ≡ served (load_script sha s)
  unfolding eval ensure_loaded evalsha served
  eval-unknown s = ap (evaluated (load_script sha s)) (load_script-has sha s)

  eval-lost :
      (s : Server)
      → has_script sha s ≡ false
      → eval d sha key rate burst request now (record { script_sha = some sha; server = s })
        ≡ (no_script, record { script_sha = some sha; server = s })
  unfolding eval ensure_loaded evalsha
  eval-lost s h = ap (evaluated s) h

  -- A reply, the key's new state, the other keys as they were, and an object that knows the script.
  unfoldable pub Serves : Client → Consumed × Client → Type 0
  Serves c out =
      (out.0 ≡ result (parse d (run_on c.server.slots).0))
      × (out.1.server.slots ≡ (write key (run_on c.server.slots).1 c.server).slots)
      × (out.1.script_sha ≡ some sha)

  -- The tries of `consume`.
  tries : Client → Consumed × Client
  tries c = retry_eval d sha key rate burst request now (eval d sha key rate burst request now c)

  abbrev knowing : Option String → Server → Client
  knowing known s = record { script_sha = known; server = s }

  unknown-Serves : (s : Server) → Serves (knowing none s) (tries (knowing none s))
  unfolding Serves tries retry_eval served
  unknown-Serves s =
      subst (λ found. Serves (knowing none s) (retry_eval d sha key rate burst request now found))
        (sym (eval-unknown s)) (refl, refl, refl)

  known-Serves :
      (s : Server)
      → has_script sha s ≡ true
      → Serves (knowing (some sha) s) (tries (knowing (some sha) s))
  unfolding Serves tries retry_eval served
  known-Serves s h =
      subst
        (λ found. Serves (knowing (some sha) s) (retry_eval d sha key rate burst request now found))
        (sym (eval-known s h)) (refl, refl, refl)

  lost-Serves :
      (s : Server)
      → has_script sha s ≡ false
      → Serves (knowing (some sha) s) (tries (knowing (some sha) s))
  unfolding Serves tries retry_eval served
  lost-Serves s h =
      subst
        (λ found. Serves (knowing (some sha) s) (retry_eval d sha key rate burst request now found))
        (sym (eval-lost s h))
        (subst (λ found. Serves (knowing (some sha) s) (answer d sha found))
          (sym (eval-known (load_script sha s) (load_script-has sha s))) (refl, refl, refl))

  tries-Serves : (c : Client) → IsOwn sha c → Serves c (tries c)
  unfolding IsOwn
  tries-Serves c own =
      let goal = λ (known : Option String).
        Serves (knowing known c.server) (tries (knowing known c.server)) in
      elim own [
        | inl fresh ↦ subst goal (sym fresh) (unknown-Serves c.server)
        | inr known ↦ subst goal (sym known) (elim (Bool-cases (has_script sha c.server)) [
          | inl here ↦ known-Serves c.server here
          | inr lost ↦ lost-Serves c.server lost
        ])
      ]

module _ (d : Doubles) (sha key_prefix identity : String) (rate burst request now : ℕ) where
  -- With positive numbers `consume` returns what one run of the script replies, and leaves the other
  -- keys as they were, whether or not the object has loaded the script and Redis still has it.
  pub consume-Serves :
      (c : Client)
      → 0 < rate
      → 0 < burst
      → 0 < request
      → IsOwn sha c
      → Serves d sha
          (str_append key_prefix identity)
          (rate_per_sec d rate)
          burst
          request
          now
          c
          (consume d sha key_prefix identity rate burst request now c)
  unfolding consume tries
  consume-Serves c p q r own =
      let positive : ((rate == 0) || (burst == 0) || (request == 0)) ≡ false = ground arith in
      subst
        (λ (b : Bool).
          Serves d sha (str_append key_prefix identity) (rate_per_sec d rate) burst request now c (
            if b
            then (value_error, c)
            else tries d sha (str_append key_prefix identity) (rate_per_sec d rate) burst request
                now c))
        (sym positive)
        (tries-Serves d sha (str_append key_prefix identity) (rate_per_sec d rate) burst request now
          c own)
