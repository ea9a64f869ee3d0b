-- ===== src/System/Life.antt =====
-- The life of a message, as the API shows it, and that the system lives it.
use notify_relay.Prelude.{ℕ, ◌≡◌, true, Option, none, some, String}
use mathlib.Core.Option
use notify_relay.Models.{Message, MessageStatus, Channel, Dict, is_terminal}
use notify_relay.Delivery.{message_of}
use notify_relay.System.{System}

-- The part of a message that is fixed when it is created: to whom it goes and what it says.
pub record Letter : Type 0 where
  pub recipient : String
  pub channel : Channel
  pub rendered_subject : String
  pub rendered_body : String
  pub context : Dict

abbrev pub letter_of : Message → Letter
letter_of m = record {
  recipient = m.recipient;
  channel = m.channel;
  rendered_subject = m.rendered_subject;
  rendered_body = m.rendered_body;
  context = m.context;
}

-- The abstract view of one message: its letter and its status.
pub record View : Type 0 where
  pub letter : Letter
  pub status : MessageStatus

abbrev pub view_of : Message → View
view_of m = record { letter = letter_of m; status = m.status }

abbrev pub view : ℕ → System → Option View
view k s = Option.map view_of (message_of k s.world)

-- The steps of a life. A message is created in the queue, claimed, settled once, and removed only
-- when it is settled; from the claim it may fall back into the queue. Its letter never changes.
pub data Lives : Option View → Option View → Type 0 where
  stays : {v : Option View} → Lives v v
  begins : {l : Letter} → Lives none (some (record { letter = l; status = MessageStatus.queued }))
  is_claimed :
      {l : Letter}
      → Lives
          (some (record { letter = l; status = MessageStatus.queued }))
          (some (record { letter = l; status = MessageStatus.sending }))
  falls_back :
      {l : Letter}
      → Lives
          (some (record { letter = l; status = MessageStatus.sending }))
          (some (record { letter = l; status = MessageStatus.queued }))
  settles :
      {l : Letter} {status : MessageStatus}
      → is_terminal status ≡ true
      → Lives
          (some (record { letter = l; status = MessageStatus.sending }))
          (some (record { letter = l; status = status }))
  is_removed :
      {l : Letter} {status : MessageStatus}
      → is_terminal status ≡ true
      → Lives (some (record { letter = l; status = status })) none
