-- ===== src/Security/Tests.antt =====
-- A key that was typed.
use notify_relay.Prelude.{refl, ◌≡◌, false, true, String, str_append, str_eq}
use notify_relay.Security.{split_full_key, partition, key_prefix, key_id_digits, hex_end}
use notify_relay.Security.Keys.{split_full_key-join}

split_full_key-join_example :
    ("nr_00ff00ff00ff_fire" ≡ str_append "nr_00ff00ff00ff" (str_append "_" "fire"))
    × (str_eq "fire" "" ≡ false)
    × ((digits : String) × ("nr_00ff00ff00ff" ≡ str_append key_prefix digits)
        × (hex_end key_id_digits digits ≡ true))
unfolding split_full_key partition hex_end
split_full_key-join_example =
    split_full_key-join "nr_00ff00ff00ff_fire" "nr_00ff00ff00ff" "fire" refl
