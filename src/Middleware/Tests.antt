-- ===== src/Middleware/Tests.antt =====
-- Headers and addresses of concrete requests.
use notify_relay.Prelude.{◌≡◌, String, Option, none, some, [], arith}
use notify_relay.Middleware.{
  coerce_incoming, all_chars, strip, Response, Context, with_request_id, IpAddress, client_ip,
  forwarded_chain,
}
use notify_relay.Middleware.Ids.{with_request_id-restores}
use notify_relay.Middleware.ClientIp.{client_ip-spoof}
use notify_relay.Samples.{lower, space}

-- Every entry is an address, spelled as it is.
abbrev spelled : String → Option IpAddress
spelled s = some (IpAddress.ipv4 s)

-- The view answers 200 and logs nothing.
abbrev good_view : String → Context → Option Response × Context
good_view id c =
    (some (record { status = 200; request_id = none; remaining = none; retry_after = none }), c)

with_request_id-restores_example :
    ((with_request_id space lower "01ulid" "abc" good_view
        (record { request_id = some "outer"; logged = [] })).1.request_id
      ≡ some "outer")
    × ((with_request_id space lower "01ulid" "abc" good_view
          (record { request_id = some "outer"; logged = [] })).0
        ≡ some (record {
          status = 200;
          request_id = some "abc";
          remaining = none;
          retry_after = none;
        }))
unfolding coerce_incoming strip all_chars
with_request_id-restores_example =
    with_request_id-restores space lower "01ulid" "abc" good_view
      (record { request_id = some "outer"; logged = [] })

-- One proxy appends the real address to what the client wrote.
client_ip-spoof_example :
    client_ip space spelled 1 "6.6.6.6,10.0.0.1" "127.0.0.1"
    ≡ client_ip space spelled 1 "10.0.0.1" "127.0.0.1"
unfolding forwarded_chain strip
client_ip-spoof_example =
    client_ip-spoof space spelled 1 "6.6.6.6" "10.0.0.1" "127.0.0.1" (omega arith) (omega arith)
