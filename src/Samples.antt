-- ===== src/Samples.antt =====
-- Concrete rows, requests and third-party functions that the examples of the other modules run on.
use notify_relay.Prelude.{
  ℕ, ◌+◌, ◌≡◌, refl, Bool, true, false, not, str_eq, if◌then◌else◌, Char, code, String, Option,
  none, some, [], ◌∷◌, str_append, ◌==◌, ==_refl, leb, ◌&&◌, order_by,
}
use notify_relay.Models.{
  ApiKey, Template, TemplateVersion, Message, MessageStatus, Channel, Priority, Dict,
}
use notify_relay.State.{World}
use notify_relay.Channels.{Sent}
use notify_relay.Delivery.{Clock}
use notify_relay.Renderer.{Rendered, text}
use notify_relay.Validators.{Url, Address, Lookup, NetworkSetting, NetworkList}
use notify_relay.Services.{
  ValidatedData, Surroundings, new_message, insert_message, resolve_template, resolve_version,
}
use notify_relay.Templating.{latest_version}
use notify_relay.System.{System, Reach, Step, start, later, inserts}

-- No blocked networks are set.
abbrev pub unset : NetworkSetting
unset = record { raw = NetworkList.listed []; readable = λ n. true }

-- A keyed hash, a template engine and a JSON parser that are enough for the examples.
abbrev pub keyed_hash : String → String → String
keyed_hash pepper secret = str_append pepper secret

abbrev pub print_template : Bool → String → Dict → Rendered String
print_template escape template context = text template

abbrev pub never_an_error : String → Option String
never_an_error body = none

abbrev pub field_count : Dict → ℕ
field_count Dict.empty_dict = 0
field_count (Dict.field name value rest) = field_count rest + 1

abbrev pub same_size : Dict → Dict → Bool
same_size a b = field_count a == field_count b

pub same_size_refl : (d : Dict) → same_size d d ≡ true
same_size_refl d = ==_refl (field_count d)

abbrev pub space : Char → Bool
space c = code c == 32

abbrev pub shop_key : ApiKey
shop_key = record {
  id = 7;
  name = "shop";
  key_id = "nr_0123456789ab";
  hashed_secret = "pepperwater";
  webhook_secret = "hook";
  rate_limit_per_min = 60;
  burst = 10;
  is_active = true;
  created_at = 0;
  revoked_at = none;
}

abbrev pub welcome : Template
welcome = record {
  id = 1;
  name = "welcome";
  channel = Channel.webhook;
  is_active = true;
  created_at = 0;
  deleted_at = none;
}

abbrev pub welcome_1 : TemplateVersion
welcome_1 = record {
  id = 1;
  template = 1;
  version = 1;
  subject_template = "";
  body_template = "{}";
  created_at = 0;
  created_by = none;
}

-- A message as it waits in the queue.
abbrev pub order_5 : Message
order_5 = record {
  id = 5;
  idempotency_key = "order-5";
  api_key = some 7;
  channel = Channel.webhook;
  recipient = "https://shop.example/hook";
  template_version = some 1;
  rendered_subject = "";
  rendered_body = "{}";
  context = Dict.empty_dict;
  priority = Priority.default;
  status = MessageStatus.queued;
  scheduled_at = some 100;
  enqueued_at = none;
  claimed_by = "";
  created_at = 10;
  updated_at = 10;
}

abbrev pub shop : World
shop = record {
  api_keys = shop_key ∷ [];
  templates = welcome ∷ [];
  versions = welcome_1 ∷ [];
  messages = order_5 ∷ [];
  attempts = [];
  dead_letters = [];
  broker = [];
  metrics = [];
}

abbrev pub clock : Clock
clock = record { claimed = 200; started = 201; finished = 202; saved = 203 }

abbrev pub timed_out : Message → Sent
timed_out m = Sent.returned (record {
  success = false;
  transient = true;
  error_message = "timeout";
  http_status = none;
  smtp_code = none;
})

abbrev pub order_6 : ValidatedData
order_6 = record {
  channel = Channel.webhook;
  recipient = "https://shop.example/hook";
  template = some "welcome";
  template_version = none;
  context = none;
  priority = none;
  scheduled_at = none;
}

-- Nobody else commits anything, and the broker is up.
abbrev pub alone : Surroundings
alone = record { id = 6; now = 300; saved = 301; up = true; others = λ w. w; later = λ w. w }

-- Every URL names the same host, and every address that is not 10.0.0.1 or a name is public.
abbrev pub any_url : String → Option Url
any_url s = some (record {
  scheme = "https";
  host = "shop.example";
  raw_host = "shop.example";
  netloc = "shop.example";
  port = none;
})

abbrev pub addresses : String → Option Address
addresses a =
    if str_eq a "shop.example"
    then none
    else some (record {
      is_global = not (str_eq a "10.0.0.1");
      is_multicast = false;
      within = λ n. false;
    })

-- A host with one public address.
abbrev pub public : String → Option ℕ → Lookup
public host port = Lookup.resolved ("1.1.1.1" ∷ [])

abbrev pub spell : ℕ → String
spell n = "n"

abbrev pub lower : Char → Bool
lower c = leb b'a' (code c) && leb (code c) b'z'

-- Other processes that commit nothing.
abbrev pub nobody : World → World
nobody w = w

-- A system in which one message has been created.
abbrev pub quiet : World
quiet = record shop { messages = [] }

abbrev pub message_6 : Message
message_6 =
    new_message alone (some 7) "order-6" order_6 welcome_1 (record { subject = ""; body = "{}" })

abbrev pub waiting : System
waiting = record { world = record quiet { messages = message_6 ∷ [] }; flights = [] }

abbrev pub opened : System
opened = record { world = quiet; flights = [] }

pub opens : Reach opened
opens =
    start opened
      (record { no_messages = refl; no_attempts = refl; no_dead_letters = refl; no_flights = refl })

pub posts : Step opened waiting
unfolding insert_message resolve_template resolve_version latest_version order_by
posts =
    inserts alone (some 7) "order-6" order_6 welcome_1 (record { subject = ""; body = "{}" }) quiet
      waiting.world (record { source = λ c k h. h }) refl refl refl

pub waits : Reach waiting
waits = later opened waiting opens posts
