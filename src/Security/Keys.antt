-- ===== src/Security/Keys.antt =====
-- Key strings of src/apps/core/security.py: `split_full_key` takes apart what `generate_api_key`
-- puts together, and nothing else.
use Prim.Native.String.{[], ◌∷◌}
use text.Mathlib.TextLemmas.{nil-append, cons-append, append_assoc}
use text.Mathlib.TextEquality.{Char-path}
use notify_relay.Prelude.{
  ℕ, zero, suc, ◌≡◌, ◌∙◌, refl, sym, ap, ap₂, String, Char, code, Bool, true, false, Option, none,
  some, ◌==◌, str_eq, str_append, if◌then◌else◌, arith, Bool-cases, inl, inr, ==_refl, ==_iff,
}
use notify_relay.Security.{
  after_prefix, partition, Parts, is_hex, hex_end, key_prefix, key_id_digits, split_parts,
  split_rest, split_full_key, generate_api_key, separator,
}

-- `n` hexadecimal digits, as `secrets.token_hex` draws them.
abbrev pub hex_token : ℕ → String → Bool
hex_token zero [] = true
hex_token zero (c ∷ s) = false
hex_token (suc n) [] = false
hex_token (suc n) (c ∷ s) = let rest = hex_token n s in if is_hex c then rest else false

pub after_prefix-append : (p s : String) → after_prefix p (str_append p s) ≡ some s
unfolding after_prefix
after_prefix-append [] s = rw nil-append refl
after_prefix-append (c ∷ p) s =
    rw cons-append (ground (arith, ==_refl (code c), after_prefix-append p s))

append-after_prefix : (p s t : String) → after_prefix p s ≡ some t → s ≡ str_append p t
unfolding after_prefix
append-after_prefix [] s t h = rw nil-append (ground arith)
append-after_prefix (c ∷ p) [] t h = cc
append-after_prefix (c ∷ p) (d ∷ s) t h = elim (Bool-cases (code c == code d)) [
  | inl same ↦ rw cons-append (
      ap₂ ◌∷◌ (sym (Char-path c d ((==_iff (code c) (code d)).0 same)))
        (append-after_prefix p s t (ground arith)))
  | inr other ↦ absurd (ground arith)
]

hex-plain : (c : Char) → is_hex c ≡ true → separator c ≡ false
hex-plain c h = ground arith

hex_token-end : (n : ℕ) (s : String) → hex_token n s ≡ true → hex_end n s ≡ true
unfolding hex_end
hex_token-end zero [] h = refl
hex_token-end zero (c ∷ s) h = cc
hex_token-end (suc n) [] h = cc
hex_token-end (suc n) (c ∷ s) h = ground (arith, hex_token-end n s)

abbrev underscore : Char
underscore = "_"

underscore-append : (t : String) → str_append "_" t ≡ underscore ∷ t
underscore-append t =
    cons-append underscore [] t ∙ ap (λ (s : String). underscore ∷ s) (nil-append t)

partition-join :
    (n : ℕ) (s t : String)
    → hex_token n s ≡ true
    → partition (str_append s (str_append "_" t)) ≡ record { head = s; sep = true; tail = t }
unfolding partition
partition-join zero [] t h = rw nil-append (rw (underscore-append t) refl)
partition-join zero (c ∷ s) t h = cc
partition-join (suc n) [] t h = cc
partition-join (suc n) (c ∷ s) t h =
    rw (cons-append c s (str_append "_" t)) (ground (arith, hex-plain c, partition-join n s t))

join-partition :
    (s : String)
    → (partition s).sep ≡ true
    → s ≡ str_append (partition s).head (str_append "_" (partition s).tail)
unfolding partition
join-partition [] h = cc
join-partition (c ∷ s) h = elim (Bool-cases (separator c)) [
  | inl here ↦ rw here (
      rw (nil-append (str_append "_" s), underscore-append s)
        (ap (λ (d : Char). d ∷ s) (Char-path c underscore ((==_iff (code c) 95).0 here))))
  | inr later ↦ rw later (
      rw (cons-append c (partition s).head (str_append "_" (partition s).tail))
        (ap (λ (r : String). c ∷ r) (join-partition s (rw later at h))))
]

-- A generated key is taken apart into its own id and secret.
pub split_full_key-generate :
    (hex_token' url_token : String)
    → hex_token key_id_digits hex_token' ≡ true
    → str_eq url_token "" ≡ false
    → let key = generate_api_key hex_token' url_token in
      split_full_key key.full_key ≡ some (key.key_id, key.secret)
unfolding split_full_key
split_full_key-generate h u hex filled =
    rw
      (
        append_assoc key_prefix h (str_append "_" u),
        after_prefix-append key_prefix (str_append h (str_append "_" u)),
        partition-join key_id_digits h u hex,
        hex_token-end key_id_digits h hex,
        filled,
      )
      refl

split_parts-join :
    (p : Parts) (key_id secret : String)
    → split_parts p ≡ some (key_id, secret)
    → (p.sep ≡ true)
      × (key_id ≡ str_append key_prefix p.head)
      × (secret ≡ p.tail)
      × (str_eq secret "" ≡ false)
      × (hex_end key_id_digits p.head ≡ true)
unfolding split_parts
split_parts-join p key_id secret h = ground arith

split_rest-join :
    (o : Option String) (key_id secret : String)
    → split_rest o ≡ some (key_id, secret)
    → (s : String) × (o ≡ some s) × (split_parts (partition s) ≡ some (key_id, secret))
unfolding split_rest
split_rest-join none key_id secret h = absurd (ground arith)
split_rest-join (some s) key_id secret h = (s, refl, h)

-- What `split_full_key` accepts is the id, "_" and the secret, joined again; the secret is not
-- empty, and the id is "nr_" with twelve hexadecimal digits, behind which a newline may stand.
pub split_full_key-join :
    (full_key key_id secret : String)
    → split_full_key full_key ≡ some (key_id, secret)
    → (full_key ≡ str_append key_id (str_append "_" secret))
      × (str_eq secret "" ≡ false)
      × ((digits : String) × (key_id ≡ str_append key_prefix digits)
          × (hex_end key_id_digits digits ≡ true))
unfolding split_full_key
split_full_key-join full_key key_id secret h =
    let (s, e, split) = split_rest-join (after_prefix key_prefix full_key) key_id secret h in
    let parts = split_parts-join (partition s) key_id secret split in
    let p = partition s in
    (
      append-after_prefix key_prefix full_key s e
          ∙ ap (str_append key_prefix) (join-partition s parts.0)
          ∙ sym (append_assoc key_prefix p.head (str_append "_" p.tail))
          ∙ ap₂ (λ (k : String) (t : String). str_append k (str_append "_" t)) (sym parts.1)
              (sym parts.2),
      parts.3,
      (p.head, parts.1, parts.4),
    )
