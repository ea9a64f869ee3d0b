-- ===== src/Authentication/Tests.antt =====
-- Keys that are created, used and revoked.
use notify_relay.Prelude.{refl, ◌≡◌, true, none, some, [], ◌∷◌}
use notify_relay.Security.{split_full_key, partition, hex_end, verify_secret, hash_secret}
use notify_relay.State.{World}
use notify_relay.Authentication.{
  HttpRequest, one, already_revoked, resolve_api_key, revoked_row, revoke,
}
use notify_relay.Authentication.Access.{Proven, resolve_api_key-Proven}
use notify_relay.Authentication.Revocation.{shut_out, revoke-shuts}
use notify_relay.Samples.{shop, shop_key, keyed_hash}

abbrev by_shop : HttpRequest
by_shop = record { api_key_header = "nr_0123456789ab_water"; resolved = none }

abbrev known : HttpRequest
known = record { api_key_header = "nr_0123456789ab_water"; resolved = some (some shop_key) }

resolve_api_key-Proven_example :
    Proven keyed_hash "pepper" by_shop shop_key
    × (resolve_api_key keyed_hash "pepper" known (record shop { api_keys = [] })
        ≡ some (some shop_key, known))
unfolding resolve_api_key split_full_key partition hex_end verify_secret hash_secret
resolve_api_key-Proven_example =
    resolve_api_key-Proven keyed_hash "pepper" by_shop known shop (record shop { api_keys = [] })
      shop_key refl refl

abbrev two_keys : World
two_keys = record shop {
  api_keys =
      record shop_key { id = 8; key_id = "nr_00ff00ff00ff"; hashed_secret = "pepperfire" }
      ∷ shop_key
      ∷ [];
}

-- The other key is revoked.
revoke-shuts_example :
    ((revoke 50 8 two_keys).0
      ≡ one (
          revoked_row 50
            (record shop_key { id = 8; key_id = "nr_00ff00ff00ff"; hashed_secret = "pepperfire" })))
    × (shut_out 8 (resolve_api_key keyed_hash "pepper" by_shop (revoke 50 8 two_keys).1) ≡ true)
    × (revoke 60 8 (revoke 50 8 two_keys).1 ≡ (already_revoked, (revoke 50 8 two_keys).1))
revoke-shuts_example =
    revoke-shuts keyed_hash "pepper" 50 60 8 two_keys by_shop
      (record shop_key { id = 8; key_id = "nr_00ff00ff00ff"; hashed_secret = "pepperfire" }) refl
      refl refl
