-- ===== src/Channels.antt =====
-- The channel interface, src/apps/channels/base.py.
pub mod Email
pub mod Webhook
mod Tests
use notify_relay.Prelude.{ℕ, String, Bool, Option}

pub record ChannelResult : Type 0 where
  pub success : Bool
  pub transient : Bool
  pub error_message : String
  pub http_status : Option ℕ
  pub smtp_code : Option ℕ

-- What a call of `channel.send(msg)` ends in: a result, or an exception, shown by its `repr`.
pub data Sent : Type 0 where
  returned : ChannelResult → Sent
  threw : String → Sent
