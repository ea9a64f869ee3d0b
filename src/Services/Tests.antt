-- ===== src/Services/Tests.antt =====
-- Requests for concrete messages.
use notify_relay.Prelude.{refl, true, ◌≡◌, ◌⊎◌, some, arith, order_by}
use notify_relay.Models.{Message}
use notify_relay.State.{World}
use notify_relay.Renderer.{render}
use notify_relay.Delivery.{enqueue_for}
use notify_relay.Templating.{latest_version}
use notify_relay.Services.{
  find_existing, resolve_version, resolve_template, insert_message, enqueue_after_commit,
  ValidatedData, done, new_message, create_message,
}
use notify_relay.Services.Creation.{Created, create_message-Created, create_message-old}
use notify_relay.Services.Idempotency.{IsUnique, create_message-IsUnique}
use notify_relay.Samples.{
  shop, welcome_1, alone, order_6, print_template, never_an_error, same_size,
}

abbrev message_6 : Message
message_6 =
    new_message alone (some 7) "order-6" order_6 welcome_1 (record { subject = ""; body = "{}" })

abbrev after_6 : World
after_6 =
    (create_message print_template never_an_error same_size alone (some 7) "order-6" order_6 shop).1

created_6 :
    create_message print_template never_an_error same_size alone (some 7) "order-6" order_6 shop
    ≡ (done message_6 true, after_6)
unfolding create_message find_existing resolve_template render insert_message enqueue_after_commit
    enqueue_for latest_version order_by resolve_version
created_6 = refl

create_message-Created_example :
    Created print_template never_an_error alone (some 7) "order-6" order_6 shop message_6 after_6
create_message-Created_example =
    create_message-Created print_template never_an_error same_size alone (some 7) "order-6" order_6
      shop message_6 after_6 created_6

abbrev unknown : ValidatedData
unknown = record order_6 { template = some "unknown" }

-- A template that does not exist.
create_message-old_example :
    ((create_message print_template never_an_error same_size alone
        (some 7)
        "order-6"
        unknown
        shop).1
      ≡ shop)
    ⊎ ((create_message print_template never_an_error same_size alone
          (some 7)
          "order-6"
          unknown
          shop).1
        ≡ shop)
unfolding create_message find_existing resolve_template order_by
create_message-old_example =
    create_message-old print_template never_an_error same_size alone (some 7) "order-6" unknown shop
      refl

-- One row, with one key.
shop-IsUnique : IsUnique shop
shop-IsUnique = record { at = λ a key. ground arith }

create_message-IsUnique_example :
    IsUnique
      (create_message print_template never_an_error same_size alone
        (some 7)
        "order-6"
        order_6
        shop).1
create_message-IsUnique_example =
    create_message-IsUnique print_template never_an_error same_size alone 7 "order-6" order_6 shop
      shop-IsUnique shop-IsUnique shop-IsUnique
