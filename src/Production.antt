-- ===== src/Production.antt =====
-- The checks of src/notify_relay/settings/prod.py, without which no process starts in production.
pub mod Start
pub mod Dev
use Prim.Native.String.{count}
use notify_relay.Prelude.{
  ℕ, String, Bool, true, false, ◌||◌, Option, none, some, List, [], ◌∷◌, str_eq, any, ltb,
  if◌then◌else◌,
}
use notify_relay.RateLimit.{starts_with}

-- What the environment gives for the settings that are checked.
pub record Environment : Type 0 where
  pub secret_key : String
  pub jwt_signing_key : String
  pub api_key_hash_pepper : String
  pub webhook_hmac_secret : String
  pub allowed_hosts : List String

abbrev pub min_secret_length : ℕ
min_secret_length = 32

-- The test of the loop.
abbrev pub is_weak : String → Bool
is_weak s =
    ltb (count s) min_secret_length
    || (starts_with "dev-" s || starts_with "ci-" s || starts_with "test-" s)

-- The loop: the first name whose value is weak.
abbrev pub first_weak : List (String × String) → Option String
first_weak [] = none
first_weak (secret ∷ rest) =
    let later = first_weak rest in if is_weak secret.1 then some secret.0 else later

abbrev pub secrets : Environment → List (String × String)
secrets e =
    ("SECRET_KEY", e.secret_key)
    ∷ ("JWT_SIGNING_KEY", e.jwt_signing_key)
    ∷ ("API_KEY_HASH_PEPPER", e.api_key_hash_pepper)
    ∷ ("WEBHOOK_HMAC_SECRET", e.webhook_hmac_secret)
    ∷ []

abbrev pub no_hosts : List String → Bool
no_hosts [] = true
no_hosts (h ∷ hosts) = false

abbrev pub check_hosts : Environment → Option String → Option String
check_hosts e none =
    if no_hosts e.allowed_hosts || any (str_eq "*") e.allowed_hosts
    then some "ALLOWED_HOSTS"
    else none
check_hosts e (some name) = some name

-- The setting that ImproperlyConfigured names; `none` where the process starts.
unfoldable pub refused_setting : Environment → Option String
refused_setting e = check_hosts e (first_weak (secrets e))
