-- ===== src/Chain/Tests.antt =====
-- A client without a key whose bucket is empty.
use notify_relay.Prelude.{◌*◌, true, false, ◌≡◌, refl, String, none, some, [], ◌∷◌, inr, arith}
use notify_relay.Middleware.{Context, coerce_incoming, strip, all_chars}
use notify_relay.Security.{after_prefix}
use notify_relay.RateLimit.{View, derive}
use notify_relay.TokenBucket.{script, refilled}
use notify_relay.TokenBucket.Arithmetic.{unit, fixed_point}
use notify_relay.TokenBucket.Consume.{IsOwn}
use notify_relay.Health.{Surroundings, probe}
use notify_relay.Chain.{Config, Request, Site, answered, serve}
use notify_relay.Chain.Refused.{serve-refuses}
use notify_relay.Samples.{spell, lower, space}

abbrev config : Config
config = record {
  space = space;
  alnum = lower;
  doubles = fixed_point;
  sha = "5f2c";
  str = spell;
  settings = record {
    enabled = true;
    default_per_min = 60;
    default_burst = 2;
    auth_per_min = 5;
    auth_burst = 5;
  };
  server_error = record { status = 500; request_id = none; remaining = none; retry_after = none };
}

abbrev around : Surroundings
around = record {
  client_factory = false;
  redis_url = "redis://redis/0";
  database_answers = true;
  client_made = true;
  redis_answers = true;
}

abbrev request : Request
request = record {
  method = "GET";
  path_info = "/api/v1/messages/";
  incoming_id = "order-six";
  ulid = "01ulid";
  incoming = record { path = "/api/v1/messages/"; client_ip = "10.0.0.1"; api_key = none };
}

abbrev site : Site
site = record {
  process = record { redis_clients = []; logged = [] };
  context = record { request_id = none; logged = [] };
  bucket = record {
    script_sha = some "5f2c";
    server = record {
      scripts = [];
      slots = λ k. record {
        hash = record { tokens = some (0 ∷ []); last_refill = some (5200 * unit ∷ []) };
        expires = 9000;
      };
    };
  };
}

abbrev view : String → View Context
view id c =
    (some (record { status = 200; request_id = none; remaining = none; retry_after = none }), c)

serve-refuses_example :
    ((serve config around 5300 request view site).0
      ≡ answered (
          some (record {
            status = 429;
            request_id = some "order-six";
            remaining = some 0;
            retry_after = some 1;
          })))
    × ((serve config around 5300 request view site).1.context
        ≡ record { request_id = none; logged = some "order-six" ∷ [] })
unfolding IsOwn derive after_prefix script refilled probe coerce_incoming strip all_chars
serve-refuses_example =
    serve-refuses config around 5300 request view site
      (record { identity = "ip:10.0.0.1"; rate = 60; burst = 2 }) refl refl refl (omega arith)
      (omega arith) (inr refl) refl
