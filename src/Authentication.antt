-- ===== src/Authentication.antt =====
-- src/apps/core/authentication.py and the key management of src/apps/core/views.py.
-- `hmac` and `pepper` are those of the keyed hash; the memo on the request is part of the request.
pub mod Access
pub mod Revocation
pub mod Read
pub mod Legacy
mod Tests
use Prim.Native.String.{count}
use notify_relay.Prelude.{
  ℕ, String, Bool, true, false, not, ◌&&◌, ◌||◌, Option, none, some, is_some, List, [], ◌∷◌, ◌++◌,
  leb, ◌==◌, str_eq, if◌then◌else◌, find_first, update_where, by_key, any,
}
use notify_relay.Models.{ApiKey, active}
use notify_relay.State.{World}
use notify_relay.Security.{split_full_key, verify_secret, hash_secret, generate_api_key}

-- The header `X-API-Key`, empty if it is missing, and what `setattr(request, _RESOLVED_ATTR, ...)`
-- has stored.
pub record HttpRequest : Type 0 where
  pub api_key_header : String
  pub resolved : Option (Option ApiKey)

-- `ApiKey.objects.active().filter(key_id=key_id).first()`.
abbrev pub active_key : String → List ApiKey → Option ApiKey
active_key key_id l = find_first (λ k. active k && str_eq k.key_id key_id) l

remember : Option (Option ApiKey) → HttpRequest → Option (Option ApiKey × HttpRequest)
remember none r = none
remember (some k) r = some (k, record r { resolved = some k })

module _ (hmac : String → String → String) (pepper : String) where
  -- `none` is the RuntimeError of `verify_secret`.
  verified : ApiKey → Option Bool → Option (Option ApiKey)
  verified k none = none
  verified k (some true) = some (some k)
  verified k (some false) = some none

  check_candidate : String → Option ApiKey → Option (Option ApiKey)
  unfolding verified
  check_candidate secret none = some none
  check_candidate secret (some k) = verified k (verify_secret hmac pepper secret k.hashed_secret)

  look_up : Option (String × String) → List ApiKey → Option (Option ApiKey)
  unfolding check_candidate
  look_up none l = some none
  look_up (some (key_id, secret)) l = check_candidate secret (active_key key_id l)

  resolve_memo :
      Option (Option ApiKey) → HttpRequest → List ApiKey → Option (Option ApiKey × HttpRequest)
  unfolding look_up remember
  resolve_memo (some cached) r l = some (cached, r)
  resolve_memo none r l = remember (look_up (split_full_key r.api_key_header) l) r

  -- `resolve_api_key`.
  unfoldable pub resolve_api_key : HttpRequest → World → Option (Option ApiKey × HttpRequest)
  unfolding resolve_memo
  resolve_api_key r w = resolve_memo r.resolved r w.api_keys

-- `ApiKeyAuthentication.authenticate`: no header leaves the request to the next backend.
pub data Authenticated : Type 0 where
  passed_on : Authenticated
  as_key : ApiKey → Authenticated
  authentication_failed : Authenticated
  server_error : Authenticated

abbrev answer : Option (Option ApiKey × HttpRequest) → Authenticated
answer none = server_error
answer (some (none, r)) = authentication_failed
answer (some (some k, r)) = as_key k

unfoldable pub authenticate :
    (String → String → String) → String → HttpRequest → World → Authenticated
authenticate hmac pepper r w =
    if str_eq r.api_key_header "" then passed_on else answer (resolve_api_key hmac pepper r w)

-- `ApiKeyCreateSerializer` and `ApiKeyViewSet`.
pub record ApiKeyData : Type 0 where
  pub name : String
  pub rate_limit_per_min : ℕ
  pub burst : ℕ

abbrev pub valid_api_key : ApiKeyData → Bool
valid_api_key d =
    not (str_eq d.name "") && leb (count d.name) 128 && leb 1 d.rate_limit_per_min && leb 1 d.burst

-- The random tokens, the key of the new row and the time.
pub record KeyDraw : Type 0 where
  pub id : ℕ
  pub hex_token : String
  pub url_token : String
  pub webhook_token : String
  pub now : ℕ

pub data KeyResponse : Type 0 where
  bad_request not_found already_revoked server_error : KeyResponse
  created : ApiKey → String → String → KeyResponse
  one : ApiKey → KeyResponse

abbrev pub new_key : KeyDraw → ApiKeyData → String → ApiKey
new_key draw d hashed = record {
  id = draw.id;
  name = d.name;
  key_id = (generate_api_key draw.hex_token draw.url_token).key_id;
  hashed_secret = hashed;
  webhook_secret = draw.webhook_token;
  rate_limit_per_min = d.rate_limit_per_min;
  burst = d.burst;
  is_active = true;
  created_at = draw.now;
  revoked_at = none;
}

-- `key_id` is unique: INSERT raises IntegrityError where a key has it already, revoked or not.
abbrev pub key_id_taken : String → List ApiKey → Bool
key_id_taken key_id l = any (λ k. str_eq k.key_id key_id) l

add_key : KeyDraw → ApiKeyData → Option String → World → KeyResponse × World
add_key draw d none w = (server_error, w)
add_key draw d (some hashed) w =
    let k = new_key draw d hashed in
    if key_id_taken k.key_id w.api_keys then (server_error, w) else (
      created k (generate_api_key draw.hex_token draw.url_token).full_key draw.webhook_token,
      record w { api_keys = w.api_keys ++ k ∷ [] },
    )

-- `ApiKeyViewSet.create`: the full key and the webhook secret are shown here only.
unfoldable pub create_key :
    (String → String → String) → String → KeyDraw → ApiKeyData → World → KeyResponse × World
unfolding add_key
create_key hmac pepper draw d w =
    if valid_api_key d
    then add_key draw d (hash_secret hmac pepper draw.url_token) w
    else (bad_request, w)

abbrev pub revoked_row : ℕ → ApiKey → ApiKey
revoked_row now k = record k { is_active = false; revoked_at = some now }

revoke_row : ℕ → Option ApiKey → World → KeyResponse × World
revoke_row now none w = (not_found, w)
revoke_row now (some k) w = if is_some k.revoked_at then (already_revoked, w) else (
  one (revoked_row now k),
  record w { api_keys = update_where (by_key (λ x. x.id) k.id) (revoked_row now) w.api_keys },
)

-- `ApiKeyViewSet.revoke`.
unfoldable pub revoke : ℕ → ℕ → World → KeyResponse × World
unfolding revoke_row
revoke now pk w = revoke_row now (find_first (by_key (λ k. k.id) pk) w.api_keys) w
