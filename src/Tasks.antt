-- ===== src/Tasks.antt =====
-- `send_email` and `send_webhook` of src/tasks/delivery.py: `_dispatch` with the channel of
-- src/apps/channels/email.py or webhook.py.
pub mod Delivered
pub mod Timing
mod Tests
use notify_relay.Prelude.{ℕ, String, Char, Bool, Option, List}
use notify_relay.Models.{Message, ApiKey}
use notify_relay.State.{World, Exec, TaskName, send_email, send_webhook}
use notify_relay.Channels.{Sent}
use notify_relay.Channels.Email
use notify_relay.Channels.Email.{Email, MailOutcome}
use notify_relay.Channels.Webhook
use notify_relay.Channels.Webhook.{Post, Posted}
use notify_relay.Delivery.{Request, Clock, Reply, dispatch}
use notify_relay.Validators.{Url, Address, NetworkSetting, Lookup}

-- What the channels need of their surroundings while a task runs: the mail backend, the guard's
-- parameters, the HTTP client, and the settings, keys and time that a signature depends on.
pub record Outside : Type 0 where
  pub backend : Email → MailOutcome
  pub default_from : String
  pub space : Char → Bool
  pub ip_address : String → Option Address
  pub blocked : NetworkSetting
  pub url : String → Option Url
  pub getaddrinfo : String → Option ℕ → Lookup
  pub hmac : String → String → String
  pub str : ℕ → String
  pub hmac_secret : String
  pub keys : List ApiKey
  pub timestamp : String
  pub client : Post → Posted

-- `WebhookChannel().send`, and the request that it makes, if any.
abbrev pub post_webhook : Outside → Message → Sent × Option Post
post_webhook o =
    Webhook.send o.space o.ip_address o.blocked o.url o.getaddrinfo o.hmac o.str o.hmac_secret
      o.keys o.timestamp o.client

-- The channel that a task gives to `_dispatch`.
abbrev pub channel_send : Outside → TaskName → Message → Sent
channel_send o send_email m = Email.send o.backend o.default_from m
channel_send o send_webhook m = (post_webhook o m).0

-- One run of a task; `others` is what other processes commit while its channel is busy.
abbrev pub run : Outside → TaskName → (World → World) → Clock → Request → ℕ → Exec Reply
run o name = dispatch (channel_send o name)
