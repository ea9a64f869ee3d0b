-- ===== src/Channels/Webhook/Guarded.antt =====
-- Where `WebhookChannel.send` of src/apps/channels/webhook.py connects to.
use notify_relay.Prelude.{
  ℕ, String, Char, ◌≡◌, refl, Bool, true, false, Option, none, some, List, [], ◌∷◌, str_append,
  arith, eq_refl,
}
use notify_relay.Models.{Message, ApiKey}
use notify_relay.Channels.{ChannelResult, Sent, returned, threw}
use notify_relay.Security.Keys.{after_prefix-append}
use notify_relay.Validators.{
  Url, Address, NetworkSetting, Lookup, Vetted, refused, value_error, vetted, validate_webhook_url,
  blocked_networks,
}
use notify_relay.Validators.Guard.{
  blocked, Free, validate_webhook_url-IsFree, validate_webhook_url-parsed,
}
use notify_relay.Channels.Webhook.{
  Post, Posted, send, send_to, send_vetted, default_secret, verify_signature, compute_signature,
  signature_prefix, http_result,
}

-- The receiver's check accepts what the sender computes for the same body, secret and time.
pub verify_signature-compute :
    (hmac : String → String → String) (body secret timestamp : String)
    → verify_signature hmac body secret timestamp (compute_signature hmac body secret timestamp)
      ≡ true
unfolding verify_signature compute_signature
verify_signature-compute hmac body secret timestamp =
    let digest = hmac secret (str_append timestamp (str_append "." body)) in
    rw (after_prefix-append signature_prefix digest) (eq_refl (str_append signature_prefix digest))

module _ (space : Char → Bool) (ip_address : String → Option Address) (setting : NetworkSetting)
    (url : String → Option Url) (getaddrinfo : String → Option ℕ → Lookup)
    (hmac : String → String → String) (str : ℕ → String) where
  -- A request that the guard lets through: to a free address, with the body and a signature of it;
  -- its answer, or the exception that it ends in, is what becomes of the call.
  pub record Guarded (secret : String) (client : Post → Posted) (m : Message) (sent : Sent)
      (p : Post) : Type 0 where
    pub parsed : url m.recipient ≡ some p.url
    pub free : blocked space ip_address setting p.address ≡ some false
    pub content : p.content ≡ m.rendered_body
    pub named : p.message_id ≡ m.id
    pub signed : verify_signature hmac m.rendered_body secret p.timestamp p.signature ≡ true
    pub answer : sent ≡ http_result str (client p)

  -- What `send` comes to: no request and a permanent failure; no request and the ValueError of a
  -- setting that cannot be read; or one guarded request.
  pub data Sending (secret : String) (client : Post → Posted) (m : Message)
      : Sent × Option Post → Type 0 where
    kept_back :
        (r : ChannelResult)
        → r.success ≡ false
        → r.transient ≡ false
        → Sending secret client m (returned r, none)
    unread :
        blocked_networks space setting ≡ none → Sending secret client m (threw "ValueError", none)
    went_out :
        (sent : Sent) (p : Post)
        → Guarded secret client m sent p
        → Sending secret client m (sent, some p)

  send_to-Sending :
      (secret timestamp : String) (client : Post → Posted) (u : Url) (l : List String) (m : Message)
      → url m.recipient ≡ some u
      → Free space ip_address setting false (vetted l)
      → Sending secret client m (
          send_to space ip_address setting url getaddrinfo hmac str secret timestamp client
            (some u)
            l
            m)
  unfolding send_to Free
  send_to-Sending secret timestamp client u [] m parsed h = absurd (ground (arith, h.1))
  send_to-Sending secret timestamp client u (a ∷ l) m parsed h = went_out _ _ (record {
    parsed = parsed;
    free = h.0.0;
    content = refl;
    named = refl;
    signed = verify_signature-compute hmac m.rendered_body secret timestamp;
    answer = refl;
  })

  send_vetted-Sending :
      (secret timestamp : String) (client : Post → Posted) (v : Vetted) (m : Message)
      → ((l : List String) → v ≡ vetted l → (u : Url) × (url m.recipient ≡ some u))
      → Free space ip_address setting false v
      → Sending secret client m (
          send_vetted space ip_address setting url getaddrinfo hmac str secret timestamp client v m)
  unfolding send_vetted Free
  send_vetted-Sending secret timestamp client (refused e) m parsed h = kept_back _ refl refl
  send_vetted-Sending secret timestamp client value_error m parsed h = unread h
  send_vetted-Sending secret timestamp client (vetted l) m parsed h =
      let u = parsed l refl in rw (u.1) (send_to-Sending secret timestamp client u.0 l m u.1 h)

  pub send-Sending :
      (global : String) (keys : List ApiKey) (timestamp : String) (client : Post → Posted)
      (m : Message)
      → Sending
          (default_secret global keys m)
          client
          m
          (send space ip_address setting url getaddrinfo hmac str global keys timestamp client m)
  unfolding send
  send-Sending global keys timestamp client m =
      send_vetted-Sending (default_secret global keys m) timestamp client
        (validate_webhook_url space ip_address setting url getaddrinfo none m.recipient) m
        (validate_webhook_url-parsed space ip_address setting url getaddrinfo none m.recipient)
        (validate_webhook_url-IsFree space ip_address setting url getaddrinfo none m.recipient)
