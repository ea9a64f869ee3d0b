-- ===== src/Channels/Webhook.antt =====
-- src/apps/channels/webhook.py and src/apps/channels/security.py: `WebhookChannel.send` and the
-- signature. HMAC-SHA256, the URL guard's parameters and the HTTP client are parameters.
pub mod Guarded
use notify_relay.Prelude.{
  ℕ, String, Char, Bool, true, false, not, ◌&&◌, ◌||◌, Option, none, some, is_some, List, [], ◌∷◌,
  ltb, leb, ◌==◌, str_eq, str_append, if◌then◌else◌, find_first, by_key,
}
use notify_relay.Models.{Message, ApiKey}
use notify_relay.Security.{after_prefix}
use notify_relay.Channels.{ChannelResult, Sent, returned, threw}
use notify_relay.Validators.{
  Url, Address, NetworkSetting, Lookup, Vetted, refused, value_error, vetted, validate_webhook_url,
}

abbrev pub signature_prefix : String
signature_prefix = "sha256="

-- `compute_signature(body, secret, timestamp)`; `hmac secret text` is the hex digest.
unfoldable pub compute_signature : (String → String → String) → String → String → String → String
compute_signature hmac body secret timestamp =
    str_append signature_prefix (hmac secret (str_append timestamp (str_append "." body)))

-- `verify_signature`.
unfoldable pub verify_signature :
    (String → String → String) → String → String → String → String → Bool
verify_signature hmac body secret timestamp header =
    if not (is_some (after_prefix signature_prefix header))
    then false
    else str_eq (compute_signature hmac body secret timestamp) header

-- The request that is sent: to which address, and with which headers.
pub record Post : Type 0 where
  pub url : Url
  pub address : String
  pub host : String
  pub content : String
  pub signature : String
  pub timestamp : String
  pub message_id : ℕ
  pub sni_hostname : Option String

-- How the HTTP client ends: with a status, with TimeoutException, with another RequestError, or with
-- an exception of another class.
pub data Posted : Type 0 where
  status : ℕ → Posted
  timeout request_error client_exception : String → Posted

abbrev secret_of : String → Option ApiKey → String
secret_of global none = global
secret_of global (some k) = if str_eq k.webhook_secret "" then global else k.webhook_secret

-- `_default_secret`: the secret of the message's key, or the setting WEBHOOK_HMAC_SECRET.
abbrev row_of : List ApiKey → Option ℕ → Option ApiKey
row_of keys none = none
row_of keys (some k) = find_first (by_key (λ x. x.id) k) keys

unfoldable pub default_secret : String → List ApiKey → Message → String
default_secret global keys m = secret_of global (row_of keys m.api_key)

abbrev pub passing_status : ℕ → Bool
passing_status code =
    (code == 408) || (code == 425) || (code == 429) || (leb 500 code && ltb code 600)

abbrev failure : Bool → String → ChannelResult
failure transient e = record {
  success = false;
  transient = transient;
  error_message = e;
  http_status = none;
  smtp_code = none;
}

module _ (str : ℕ → String) where
  abbrev status_result : ℕ → ChannelResult
  status_result code =
      if leb 200 code && ltb code 300
      then record {
        success = true;
        transient = false;
        error_message = "";
        http_status = some code;
        smtp_code = none;
      }
      else record {
        success = false;
        transient = passing_status code;
        error_message = str_append "http " (str code);
        http_status = some code;
        smtp_code = none;
      }

  -- Only two classes of exceptions are caught.
  unfoldable pub http_result : Posted → Sent
  http_result (timeout e) = returned (failure true (str_append "timeout: " e))
  http_result (request_error e) = returned (failure true e)
  http_result (client_exception e) = threw e
  http_result (status code) = returned (status_result code)

module _ (space : Char → Bool) (ip_address : String → Option Address) (setting : NetworkSetting)
    (url : String → Option Url) (getaddrinfo : String → Option ℕ → Lookup)
    (hmac : String → String → String) (str : ℕ → String) where
  abbrev post_of : String → String → Url → String → Message → Post
  post_of secret timestamp u address m = record {
    url = u;
    address = address;
    host = u.netloc;
    content = m.rendered_body;
    signature = compute_signature hmac m.rendered_body secret timestamp;
    timestamp = timestamp;
    message_id = m.id;
    sni_hostname =
        if str_eq u.scheme "https" && not (is_some (ip_address u.host))
        then some u.raw_host
        else none;
  }

  -- The request goes to `addresses[0]`.
  send_to :
      String → String → (Post → Posted) → Option Url → List String → Message → Sent × Option Post
  send_to secret timestamp client none addresses m = (threw "InvalidURL", none)
  send_to secret timestamp client (some u) [] m =
      (threw "IndexError('list index out of range')", none)
  send_to secret timestamp client (some u) (a ∷ addresses) m =
      let p = post_of secret timestamp u a m in (http_result str (client p), some p)

  send_vetted : String → String → (Post → Posted) → Vetted → Message → Sent × Option Post
  unfolding send_to
  send_vetted secret timestamp client (refused e) m = (returned (failure false e), none)
  send_vetted secret timestamp client value_error m = (threw "ValueError", none)
  send_vetted secret timestamp client (vetted addresses) m =
      send_to secret timestamp client (url m.recipient) addresses m

  -- `WebhookChannel.send`, and the request that it makes, if any.
  unfoldable pub send :
      String → List ApiKey → String → (Post → Posted) → Message → Sent × Option Post
  unfolding send_vetted
  send global keys timestamp client m =
      send_vetted (default_secret global keys m) timestamp client
        (validate_webhook_url space ip_address setting url getaddrinfo none m.recipient) m
