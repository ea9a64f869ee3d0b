-- ===== src/TokenBucket/Arithmetic.antt =====
-- What the script src/apps/ratelimit/lua/token_bucket.lua relies on of doubles and their text, and an
-- arithmetic that has it.
use native.Mathlib.Nat.{div-lt_iff_lt-mul, add-mul, mul-le-mul_right}
use notify_relay.Prelude.{
  ℕ, ◌+◌, ◌-◌, ◌*◌, ◌/◌, ◌^◌, ◌≤◌, ◌<◌, ◌≡◌, ◌↔◌, refl, Option, none, some, [], ◌∷◌, arith,
}
use notify_relay.TokenBucket.{Bytes, Doubles, rate_per_sec}

-- "%.14g" writes an integer below this in full.
abbrev pub text_limit : ℕ
text_limit = 10 ^ 14

-- The values of the two settings of an API key, and of the settings of the program.
abbrev pub field_limit : ℕ
field_limit = 2 ^ 32

-- Integers are exact as far as times go, rounding keeps the order, and rounding loses less of a
-- quotient that is multiplied back than what a second more adds.
pub record IsDoubles (d : Doubles) : Type 0 where
  pub of_nat_mono : (m n : ℕ) → m ≤ n → d.of_nat m ≤ d.of_nat n
  pub sub_exact :
      (m n : ℕ) → m ≤ n → n < text_limit → d.sub (d.of_nat n) (d.of_nat m) ≡ d.of_nat (n - m)
  pub text_exact :
      (n : ℕ) → n < text_limit → d.tonumber (d.tostring (d.of_nat n)) ≡ some (d.of_nat n)
  pub add_zero : (x : ℕ) → d.add x (d.of_nat 0) ≡ x
  pub le_add : (x y : ℕ) → y ≤ d.add x y
  pub zero_mul :
      (p : ℕ) → 0 < p → p < field_limit → d.mul (d.of_nat 0) (rate_per_sec d p) ≡ d.of_nat 0
  pub zero_div : d.div (d.of_nat 0) (d.of_nat 1000) ≡ d.of_nat 0
  pub mul_mono :
      (x y p : ℕ)
      → 0 < p
      → p < field_limit
      → x ≤ y
      → d.mul x (rate_per_sec d p) ≤ d.mul y (rate_per_sec d p)
  pub div_mono : (x y : ℕ) → x ≤ y → d.div x (d.of_nat 1000) ≤ d.div y (d.of_nat 1000)
  pub le_ceil :
      (p b : ℕ)
      → 0 < p
      → p < field_limit
      → b < field_limit
      → let q = d.div (d.of_nat b) (rate_per_sec d p) in q ≤ d.of_nat (d.ceil q)
  pub one_more :
      (p b c : ℕ)
      → 0 < p
      → p < field_limit
      → b < field_limit
      → d.div (d.of_nat b) (rate_per_sec d p) ≤ d.of_nat c
      → d.of_nat b ≤ d.div (d.mul (d.of_nat ((c + 1) * 1000)) (rate_per_sec d p)) (d.of_nat 1000)

abbrev pub div_up : ℕ → ℕ → ℕ
div_up a b = (a + b - 1) / b

div_up-le : (a r n : ℕ) → 0 < r → (div_up a r ≤ n) ↔ (a ≤ n * r)
div_up-le a r n pos =
    let below : ((a + r - 1) / r < n + 1) ↔ (a + r - 1 < (n + 1) * r) = div-lt_iff_lt-mul pos in
    let spread = add-mul n 1 r in
    (
      λ le. let lt = below.0 (omega arith) in omega arith,
      λ le. let lt = below.1 (omega arith) in omega arith,
    )

-- Numbers in units of 1/60000, rounded up, and one character that stands for each.
abbrev pub unit : ℕ
unit = 60_000

abbrev read : Bytes → Option ℕ
read [] = none
read (x ∷ text) = some x

abbrev read_whole : Bytes → ℕ
read_whole [] = 0
read_whole (x ∷ text) = x / unit

abbrev pub fixed_point : Doubles
fixed_point = record {
  of_nat = λ n. n * unit;
  add = λ x y. x + y;
  sub = λ x y. x - y;
  mul = λ x y. div_up (x * y) unit;
  div = λ x y. div_up (x * unit) y;
  ceil = λ x. div_up x unit;
  tostring = λ x. x ∷ [];
  tonumber = read;
  whole = read_whole;
}

div_up-covers : (a r : ℕ) → 0 < r → a ≤ div_up a r * r
div_up-covers a r pos = (div_up-le a r (div_up a r) pos).0 (omega arith)

div_up_mono : (a b r : ℕ) → 0 < r → a ≤ b → div_up a r ≤ div_up b r
div_up_mono a b r pos le =
    (div_up-le a r (div_up b r) pos).1 (let up = div_up-covers b r pos in omega arith)

rate-positive : (p : ℕ) → 0 < p → 0 < rate_per_sec fixed_point p
rate-positive p pos =
    let up = div_up-covers (p * unit * unit) (60 * unit) (omega arith) in omega arith

fixed-one_more :
    (r b c : ℕ)
    → 0 < r
    → div_up (b * unit * unit) r ≤ c * unit
    → b * unit ≤ div_up (div_up ((c + 1) * 1000 * unit * r) unit * unit) (1000 * unit)
fixed-one_more r b c pos le =
    let back = (div_up-le (b * unit * unit) r (c * unit) pos).0 le in
    let first = div_up-covers ((c + 1) * 1000 * unit * r) unit (omega arith) in
    let second =
      div_up-covers (div_up ((c + 1) * 1000 * unit * r) unit * unit) (1000 * unit) (omega arith) in
    grind arith

pub fixed_point-IsDoubles : IsDoubles fixed_point
fixed_point-IsDoubles = record {
  of_nat_mono = λ m n le. omega arith;
  sub_exact = λ m n le lt. omega arith;
  text_exact = λ n lt. refl;
  add_zero = λ x. omega arith;
  le_add = λ x y. omega arith;
  zero_mul = λ p pos lt. omega arith;
  zero_div = refl;
  mul_mono = λ x y p pos lt le.
      div_up_mono _ _ unit (omega arith) (mul-le-mul_right (rate_per_sec fixed_point p) le);
  div_mono = λ x y le. div_up_mono _ _ (1000 * unit) (omega arith) (omega arith);
  le_ceil = λ p b pos lt small. div_up-covers _ unit (omega arith);
  one_more = λ p b c pos lt small le.
      fixed-one_more (rate_per_sec fixed_point p) b c (rate-positive p pos) le;
}
