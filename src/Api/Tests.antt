-- ===== src/Api/Tests.antt =====
-- The owner of a message looks at it, and staff makes a key that is then used.
use notify_relay.Prelude.{none, some, refl, String, Bool, true}
use notify_relay.State.{World}
use notify_relay.Security.{split_full_key, partition, hex_end, verify_secret, hash_secret}
use notify_relay.Validators.{Network}
use notify_relay.MessageViews.{RawMessage, found, retrieve, visible}
use notify_relay.Authentication.{HttpRequest, ApiKeyData, resolve_api_key, authenticate}
use notify_relay.Api.{
  Backend, Reply, Permissions, IsDocumented, Occasion, Endpoint, get_message, post_key,
  is_authenticated, is_staff, of_messages, view, credentials, handle,
}
use notify_relay.Api.Rights.{Entitled, handle-Entitled}
use notify_relay.Api.Keys.{with_header}
use notify_relay.Samples.{
  any_url, addresses, public, shop, order_5, alone, space, print_template, never_an_error,
  same_size, keyed_hash, unset,
}

abbrev net : Network
net = record {
  email_ok = λ s. true;
  url = any_url;
  ip_address = addresses;
  setting = unset;
  getaddrinfo = public;
  limit = record { slot_free = true; in_time = true };
}

abbrev by_name : String → String → Bool
by_name a b = true

abbrev occasion : Occasion
occasion = record {
  around = alone;
  new_ids = record { template = 2; version = 2 };
  draw = record {
    id = 8;
    hex_token = "00ff00ff00ff";
    url_token = "fire";
    webhook_token = "earth";
    now = 40;
  };
  now = 40;
}

abbrev permissions : Permissions
permissions = record { allows_authenticated = is_authenticated; allows_admin = is_staff }

documented : IsDocumented permissions
documented = record { authenticated = λ u. refl; admin = λ u. refl }

abbrev by_shop : HttpRequest
by_shop = with_header "nr_0123456789ab_water"

handle-Entitled_example :
    Entitled keyed_hash "pepper" Backend.passes by_shop
      (get_message 5)
      shop
      (of_messages (found order_5), shop)
unfolding handle credentials authenticate resolve_api_key split_full_key partition hex_end
    verify_secret hash_secret view retrieve visible
handle-Entitled_example =
    handle-Entitled keyed_hash "pepper" space net print_template never_an_error same_size by_name
      occasion (record { others = λ w. refl; later = λ w. refl }) permissions documented by_shop
      Backend.passes (get_message 5) shop refl

abbrev depot : ApiKeyData
depot = record { name = "depot"; rate_limit_per_min = 60; burst = 10 }

abbrev served : HttpRequest → Backend → Endpoint → World → Reply × World
served r others e w =
    handle keyed_hash "pepper" space net print_template never_an_error same_size by_name occasion
      permissions others r e w

abbrev made : Reply × World
made = served (with_header "") (Backend.signed_in 1 true) (post_key depot) shop

abbrev posted : RawMessage
posted = record {
  channel = "webhook";
  recipient = "https://shop.example/hook ";
  template = some "welcome";
  template_version = none;
  context = none;
  priority = some "default";
  scheduled_at = none;
}
