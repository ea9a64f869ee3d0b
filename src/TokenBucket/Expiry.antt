-- ===== src/TokenBucket/Expiry.antt =====
-- The calls on one key of the script src/apps/ratelimit/lua/token_bucket.lua, whose EXPIRE lets the
-- key go, beside a bucket that is kept.
use notify_relay.Prelude.{
  ℕ, ◌+◌, ◌-◌, ◌*◌, ◌≤◌, ◌<◌, ◌≡◌, refl, sym, ap, subst, ◌∙◌, Bool, false, some, List, [], ◌∷◌, ltb,
  arith, if◌then◌else◌, All, Bool-cases, inl, inr,
}
use notify_relay.TokenBucket.{
  Bytes, Doubles, Hash, Slot, alive_hash, empty_hash, get_or, elapsed, capped, refilled, Reply,
  decide, ttl_s, rate_per_sec, script,
}
use notify_relay.TokenBucket.Arithmetic.{IsDoubles, text_limit, field_limit}

-- A call of the script: when, and for how many tokens.
pub record Call : Type 0 where
  pub now : ℕ
  pub request : ℕ

-- Calls on one key, by a bucket whose key expires and by one that is kept for ever; `rate` is the
-- script's argument.
module _ (d : Doubles) (rate burst : ℕ) where
  unfoldable pub serve : Slot → List Call → List Reply
  serve s [] = []
  serve s (c ∷ calls) =
      let run = script d rate burst c.request c.now (alive_hash c.now s) in
      run.0 ∷ serve run.1 calls

  unfoldable pub serve_kept : Hash → List Call → List Reply
  serve_kept h [] = []
  serve_kept h (c ∷ calls) =
      let run = script d rate burst c.request c.now h in run.0 ∷ serve_kept run.1.hash calls

  -- The script reads a hash only for the tokens.
  script_cong :
      (request now : ℕ) (h h' : Hash)
      → refilled d rate (d.of_nat burst) (d.of_nat now) h
        ≡ refilled d rate (d.of_nat burst) (d.of_nat now) h'
      → script d rate burst request now h ≡ script d rate burst request now h'
  unfolding script
  script_cong request now h h' same =
      ap
        (λ t.
          let r = decide d rate (d.of_nat request) t in
          (
            r,
            record {
              hash = record {
                tokens = some r.tokens;
                last_refill = some (d.tostring (d.of_nat now));
              };
              expires = now + ttl_s d rate (d.of_nat burst) * 1000;
            },
          ))
        same

  -- A bucket whose tokens were `text` at `n`.
  abbrev pub holding : Bytes → ℕ → Slot
  holding text n = record {
    hash = record { tokens = some text; last_refill = some (d.tostring (d.of_nat n)) };
    expires = n + ttl_s d rate (d.of_nat burst) * 1000;
  }

capped_full : (d : Doubles) (b t : ℕ) → b ≤ t → capped d b t ≡ b
capped_full d b t le = ground arith

module _ (d : Doubles) (laws : IsDoubles d) (per_min burst : ℕ) (some_rate : 0 < per_min)
    (low_rate : per_min < field_limit) (low_burst : burst < field_limit) where
  abbrev rate : ℕ
  rate = rate_per_sec d per_min

  abbrev gained : ℕ → ℕ → ℕ
  gained now last = d.div (d.mul (elapsed d now last) rate) (d.of_nat 1000)

  elapsed_exact :
      (n later : ℕ)
      → n ≤ later
      → later < text_limit
      → elapsed d (d.of_nat later) (d.of_nat n) ≡ d.of_nat (later - n)
  elapsed_exact n later le low =
      let order = laws.of_nat_mono n later le in
      let forward : ltb (d.of_nat later) (d.of_nat n) ≡ false = ground arith in
      ap (λ (b : Bool). if b then d.of_nat 0 else d.sub (d.of_nat later) (d.of_nat n)) forward
      ∙ laws.sub_exact n later le low

  -- After the time to live the gain alone fills the bucket.
  gained_full :
      (n later : ℕ)
      → later < text_limit
      → n + ttl_s d rate (d.of_nat burst) * 1000 ≤ later
      → d.of_nat burst ≤ gained (d.of_nat later) (d.of_nat n)
  gained_full n later low past =
      let quotient = laws.le_ceil per_min burst some_rate low_rate low_burst in
      let whole = d.ceil (d.div (d.of_nat burst) rate) in
      let covers = laws.one_more per_min burst whole some_rate low_rate low_burst quotient in
      let longer = laws.of_nat_mono ((whole + 1) * 1000) (later - n) (omega arith) in
      let more = laws.div_mono _ _ (
        laws.mul_mono (d.of_nat ((whole + 1) * 1000)) (d.of_nat (later - n)) per_min some_rate
          low_rate longer) in
      subst (λ e. d.of_nat burst ≤ d.div (d.mul e rate) (d.of_nat 1000))
        (sym (elapsed_exact n later (omega arith) low)) (omega (arith, covers, more))

  -- A key that is not there is a full bucket,
  refilled_empty :
      (now : ℕ)
      → now < text_limit
      → refilled d rate (d.of_nat burst) (d.of_nat now) empty_hash ≡ d.of_nat burst
  unfolding refilled
  refilled_empty now low =
      let no_time : elapsed d (d.of_nat now) (d.of_nat now) ≡ d.of_nat 0 =
        elapsed_exact now now (omega arith) low ∙ ap d.of_nat (omega arith) in
      let nothing : gained (d.of_nat now) (d.of_nat now) ≡ d.of_nat 0 =
        ap (λ e. d.div (d.mul e rate) (d.of_nat 1000)) no_time
        ∙ ap (λ e. d.div e (d.of_nat 1000)) (laws.zero_mul per_min some_rate low_rate)
        ∙ laws.zero_div in
      let sum : d.add (d.of_nat burst) (gained (d.of_nat now) (d.of_nat now)) ≡ d.of_nat burst =
        ap (d.add (d.of_nat burst)) nothing ∙ laws.add_zero (d.of_nat burst) in
      ap (capped d (d.of_nat burst)) sum
      ∙ capped_full d (d.of_nat burst) (d.of_nat burst) (omega arith)

  -- and so is one that has been kept for the time to live.
  refilled_late :
      (text : Bytes) (n later : ℕ)
      → later < text_limit
      → n + ttl_s d rate (d.of_nat burst) * 1000 ≤ later
      → refilled d rate (d.of_nat burst) (d.of_nat later) (holding d rate burst text n).hash
        ≡ d.of_nat burst
  unfolding refilled
  refilled_late text n later low past =
      let full = gained_full n later low past in
      let tokens = get_or (d.of_nat burst) (d.tonumber text) in
      let above = laws.le_add tokens (gained (d.of_nat later) (d.of_nat n)) in
      ap
        (λ last.
          capped d (d.of_nat burst)
            (d.add tokens (gained (d.of_nat later) (get_or (d.of_nat later) last))))
        (laws.text_exact n (omega arith))
      ∙ capped_full d (d.of_nat burst) _ (omega (arith, full, above))

  script-expiry :
      (request later : ℕ) (text : Bytes) (n : ℕ)
      → later < text_limit
      → script d rate burst request later (alive_hash later (holding d rate burst text n))
        ≡ script d rate burst request later (holding d rate burst text n).hash
  script-expiry request later text n low =
      let held = (holding d rate burst text n).hash in
      let ends = n + ttl_s d rate (d.of_nat burst) * 1000 in
      elim (Bool-cases (ltb later ends)) [
        | inl early ↦
            ap (λ (b : Bool). script d rate burst request later (if b then held else empty_hash))
              early
        | inr late ↦
            ap (λ (b : Bool). script d rate burst request later (if b then held else empty_hash))
              late
            ∙ script_cong d rate burst request later empty_hash held
                (refilled_empty later low ∙ sym (refilled_late text n later low (ground arith)))
      ]

  holding-serve :
      (text : Bytes) (n : ℕ) (calls : List Call)
      → All (λ c. c.now < text_limit) calls
      → serve d rate burst (holding d rate burst text n) calls
        ≡ serve_kept d rate burst (holding d rate burst text n).hash calls
  unfolding serve serve_kept script
  holding-serve text n [] low = refl
  holding-serve text n (c ∷ calls) low =
      let r =
        decide d rate (d.of_nat c.request)
          (refilled d rate (d.of_nat burst) (d.of_nat c.now) (holding d rate burst text n).hash) in
      ap (λ run. run.0 ∷ serve d rate burst run.1 calls)
        (script-expiry c.request c.now text n (low.0))
      ∙ ap (λ rest. r ∷ rest) (holding-serve r.tokens c.now calls (low.1))

  -- Whatever Redis holds under the key at the first call, the replies are those of a bucket with
  -- that hash that never expires: with a positive rate, a rate and burst below 2 ^ 32, times below
  -- 10 ^ 14 milliseconds, and doubles that round as `IsDoubles` says.
  pub serve-expiry :
      (s : Slot) (c : Call) (calls : List Call)
      → All (λ c. c.now < text_limit) calls
      → serve d rate burst s (c ∷ calls) ≡ serve_kept d rate burst (alive_hash c.now s) (c ∷ calls)
  unfolding serve serve_kept script
  serve-expiry s c calls low =
      let r =
        decide d rate (d.of_nat c.request)
          (refilled d rate (d.of_nat burst) (d.of_nat c.now) (alive_hash c.now s)) in
      ap (λ rest. r ∷ rest) (holding-serve r.tokens c.now calls low)
