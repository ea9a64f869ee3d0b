-- ===== src/MessageViews/Tests.antt =====
-- A request that is accepted, and what its sender sees.
use Prim.Native.String.{count}
use notify_relay.Prelude.{[], ◌∷◌, refl, ◌≡◌, ◌≤◌, true, false, none, some, order_by, str_eq}
use notify_relay.Models.{Message, Json, Dict}
use notify_relay.Middleware.{strip}
use notify_relay.Delivery.{enqueue_for}
use notify_relay.Validators.{Network, Lookup, validate_recipient, collect, has_percent}
use notify_relay.Renderer.{render}
use notify_relay.Templating.{latest_version}
use notify_relay.Services.{
  create_message, find_existing, resolve_template, resolve_version, insert_message,
  enqueue_after_commit,
}
use notify_relay.MessageViews.{RawMessage, validate, create, idempotency_key_max_length}
use notify_relay.MessageViews.Tenancy.{create-accepted}
use notify_relay.Samples.{
  any_url, addresses, shop, shop_key, order_5, alone, space, print_template, never_an_error,
  same_size, unset,
}

abbrev net : Network
net = record {
  email_ok = λ s. true;
  url = any_url;
  ip_address = addresses;
  setting = unset;
  getaddrinfo = λ host port. Lookup.resolved ("1.1.1.1" ∷ []);
  limit = record { slot_free = true; in_time = true };
}

abbrev posted : RawMessage
posted = record {
  channel = "webhook";
  recipient = "https://shop.example/hook";
  template = some "welcome";
  template_version = none;
  context = some (Json.object Dict.empty_dict);
  priority = none;
  scheduled_at = none;
}

abbrev message_6 : Message
message_6 = record order_5 {
  id = 6;
  idempotency_key = "order-6";
  scheduled_at = none;
  enqueued_at = some 300;
  created_at = 301;
  updated_at = 301;
}

create-accepted_example :
    (message_6.api_key ≡ some 7)
    × ("order-6" ≡ strip space " order-6")
    × (str_eq (strip space " order-6") "" ≡ false)
    × (count (strip space " order-6") ≤ idempotency_key_max_length)
unfolding create strip validate validate_recipient collect has_percent create_message find_existing
    resolve_template resolve_version latest_version order_by render insert_message
    enqueue_after_commit enqueue_for
create-accepted_example =
    create-accepted space net print_template never_an_error same_size alone posted shop shop_key
      " order-6" message_6 refl
