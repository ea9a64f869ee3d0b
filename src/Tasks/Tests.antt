-- ===== src/Tasks/Tests.antt =====
-- A webhook that is accepted.
use notify_relay.Prelude.{◌≡◌, ◌↔◌, refl, some, [], ◌∷◌}
use notify_relay.Models.{Message, MessageStatus}
use notify_relay.State.{send_webhook}
use notify_relay.Channels.Email.{Email, MailOutcome}
use notify_relay.Channels.Webhook.{Post, Posted}
use notify_relay.Delivery.{Request, owner, message_of, claim, claimed_row}
use notify_relay.Tasks.{Outside, run}
use notify_relay.Tasks.Delivered.{Delivered, run-Delivered}
use notify_relay.Samples.{
  public, spell, nobody, space, any_url, addresses, keyed_hash, unset, shop_key, order_5, shop,
  clock,
}

abbrev no_mail : Email → MailOutcome
no_mail e = MailOutcome.delivered 0

abbrev accepts : Post → Posted
accepts p = Posted.status 204

abbrev outside : Outside
outside = record {
  backend = no_mail;
  default_from = "no-reply@notify-relay.internal";
  space = space;
  ip_address = addresses;
  blocked = unset;
  url = any_url;
  getaddrinfo = public;
  hmac = keyed_hash;
  str = spell;
  hmac_secret = "global";
  keys = shop_key ∷ [];
  timestamp = "1700000000";
  client = accepts;
}

abbrev first_try : Request
first_try = record { id = some "task"; retries = 0 }

run-Delivered_example :
    (row : Message) × (message_of 5 (run outside send_webhook nobody clock first_try 5 shop).1
      ≡ some row)
    × ((row.status ≡ MessageStatus.sent)
        ↔ Delivered outside send_webhook (claimed_row (owner first_try) clock.claimed order_5))
unfolding claim
run-Delivered_example =
    run-Delivered outside send_webhook nobody clock first_try 5 shop order_5 refl refl refl tt
