-- ===== src/Security.antt =====
-- src/apps/core/security.py: API keys `nr_<12 hex digits>_<secret>`. The random tokens of
-- `secrets` and the keyed hash HMAC-SHA256 are parameters.
pub mod Keys
mod Tests
use Prim.Native.String.{[], ◌∷◌}
use notify_relay.Prelude.{
  ℕ, zero, suc, ◌≡◌, String, Char, code, Bool, true, false, not, ◌&&◌, ◌||◌, Option, none, some,
  leb, ◌==◌, str_eq, str_append, if◌then◌else◌,
}

abbrev pub key_prefix : String
key_prefix = "nr_"

-- `full_key[len(p):]` where `full_key.startswith(p)`.
unfoldable pub after_prefix : String → String → Option String
after_prefix [] s = some s
after_prefix (p ∷ ps) [] = none
after_prefix (p ∷ ps) (c ∷ s) =
    let rest = after_prefix ps s in if code p == code c then rest else none

-- `s.partition("_")`: what stands before the first separator, whether there is one, and the rest.
pub record Parts : Type 0 where
  pub head : String
  pub sep : Bool
  pub tail : String

abbrev pub separator : Char → Bool
separator c = code c == b'_'

unfoldable pub partition : String → Parts
partition [] = record { head = ""; sep = false; tail = "" }
partition (c ∷ s) =
    let rest = partition s in
    if separator c
    then record { head = ""; sep = true; tail = s }
    else record rest { head = c ∷ rest.head }

-- `[0-9a-f]`.
abbrev pub is_hex : Char → Bool
is_hex c = (leb b'0' (code c) && leb (code c) b'9') || (leb b'a' (code c) && leb (code c) b'f')

-- `[0-9a-f]{n}$`: the anchor `$` of Python's `re` also matches before a final newline.
unfoldable pub hex_end : ℕ → String → Bool
hex_end zero [] = true
hex_end zero (c ∷ []) = code c == 10
hex_end zero (c ∷ d ∷ s) = false
hex_end (suc n) [] = false
hex_end (suc n) (c ∷ s) = let rest = hex_end n s in if is_hex c then rest else false

abbrev pub key_id_digits : ℕ
key_id_digits = 12

split_parts : Parts → Option (String × String)
split_parts p =
    if not p.sep || str_eq p.tail "" || not (hex_end key_id_digits p.head)
    then none
    else some (str_append key_prefix p.head, p.tail)

split_rest : Option String → Option (String × String)
unfolding split_parts
split_rest none = none
split_rest (some s) = split_parts (partition s)

-- `split_full_key`.
unfoldable pub split_full_key : String → Option (String × String)
unfolding split_rest after_prefix
split_full_key full_key = split_rest (after_prefix key_prefix full_key)

-- `generate_api_key`, from the tokens that `secrets` draws.
pub record GeneratedKey : Type 0 where
  pub key_id : String
  pub secret : String
  pub full_key : String

abbrev pub generate_api_key : String → String → GeneratedKey
generate_api_key hex_token url_token =
    let key_id = str_append key_prefix hex_token in
    record {
      key_id = key_id;
      secret = url_token;
      full_key = str_append key_id (str_append "_" url_token);
    }

-- `hash_secret`; `none` is the RuntimeError of an empty pepper. `hmac pepper secret` is the digest.
unfoldable pub hash_secret : (String → String → String) → String → String → Option String
hash_secret hmac pepper secret = if str_eq pepper "" then none else some (hmac pepper secret)

-- `verify_secret`: `compare_digest` is equality in constant time.
verify_digest : Option String → String → Option Bool
verify_digest none hashed = none
verify_digest (some h) hashed = some (str_eq h hashed)

unfoldable pub verify_secret : (String → String → String) → String → String → String → Option Bool
unfolding verify_digest hash_secret
verify_secret hmac pepper secret hashed = verify_digest (hash_secret hmac pepper secret) hashed
