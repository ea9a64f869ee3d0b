-- ===== src/Production/Dev.antt =====
-- The throwaway secrets of src/notify_relay/settings/dev.py.
use notify_relay.Prelude.{
  ◌≡◌, refl, String, Bool, true, ◌||◌, is_some, List, [], ◌∷◌, str_eq, if◌then◌else◌, arith,
}
use notify_relay.Security.{after_prefix}
use notify_relay.Production.{Environment, is_weak, refused_setting}

-- `value or default`.
abbrev or_throwaway : String → String → String
or_throwaway value default = if str_eq value "" then default else value

abbrev local_hosts : List String → List String
local_hosts [] = "localhost" ∷ "127.0.0.1" ∷ "[::1]" ∷ []
local_hosts (h ∷ hosts) = h ∷ hosts

-- The settings of the development profile.
abbrev pub dev_settings : Environment → Environment
dev_settings e = record {
  secret_key = or_throwaway e.secret_key "dev-insecure-secret-key-change-me";
  jwt_signing_key = or_throwaway e.jwt_signing_key "dev-insecure-jwt-signing-key-change-me";
  api_key_hash_pepper = or_throwaway e.api_key_hash_pepper "dev-insecure-pepper";
  webhook_hmac_secret = or_throwaway e.webhook_hmac_secret "dev-insecure-webhook-secret";
  allowed_hosts = local_hosts e.allowed_hosts;
}

-- Whether one of the secrets is not set.
abbrev pub lacks_secret : Environment → Bool
lacks_secret e =
    str_eq e.secret_key ""
    || str_eq e.jwt_signing_key ""
    || str_eq e.api_key_hash_pepper ""
    || str_eq e.webhook_hmac_secret ""

throwaways :
    (is_weak "dev-insecure-secret-key-change-me" ≡ true)
    × (is_weak "dev-insecure-jwt-signing-key-change-me" ≡ true)
    × (is_weak "dev-insecure-pepper" ≡ true)
    × (is_weak "dev-insecure-webhook-secret" ≡ true)
unfolding after_prefix
throwaways = (refl, refl, refl, refl)

weak_throwaway :
    (value default : String)
    → is_weak default ≡ true
    → str_eq value "" ≡ true
    → is_weak (or_throwaway value default) ≡ true
weak_throwaway value default weak blank = rw blank weak

-- No throwaway secret passes the checks of the production profile.
pub dev_settings-refused :
    (e : Environment) → lacks_secret e ≡ true → is_some (refused_setting (dev_settings e)) ≡ true
unfolding refused_setting
dev_settings-refused e lacks =
    let (a, b, c, d) = throwaways in
    ground (
      arith,
      lacks,
      weak_throwaway e.secret_key "dev-insecure-secret-key-change-me" a,
      weak_throwaway e.jwt_signing_key "dev-insecure-jwt-signing-key-change-me" b,
      weak_throwaway e.api_key_hash_pepper "dev-insecure-pepper" c,
      weak_throwaway e.webhook_hmac_secret "dev-insecure-webhook-secret" d,
    )
