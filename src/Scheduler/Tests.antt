-- ===== src/Scheduler/Tests.antt =====
-- Ticks and clean-ups of a table with a few messages.
use notify_relay.Prelude.{
  refl, ℕ, Bool, true, false, ◌≡◌, ◌≤◌, some, length, All, drop, [], ◌∷◌, arith, ◌&&◌,
}
use notify_relay.Models.{Message, MessageStatus}
use notify_relay.State.{World}
use notify_relay.Delivery.{message_of}
use notify_relay.Scheduler.{
  dispatch_scheduled, requeued_row, selected, candidates, batch_of, cleanup_old_messages,
  scheduled_before, free_row, dispatch_batch_size,
}
use notify_relay.Scheduler.Batch.{batch_of-IsFirst, dispatch_scheduled-releases}
use notify_relay.Scheduler.Cleanup.{Swept, cleanup_old_messages-Swept}
use notify_relay.Samples.{shop, order_5}

abbrev unlocked : Message → Bool
unlocked m = false

abbrev accepting : ℕ → Bool
accepting i = true

-- The tick at the message's time.
dispatch_scheduled-releases_example :
    message_of 5 (dispatch_scheduled true unlocked accepting 100 shop).1
    ≡ some (requeued_row 100 order_5)
unfolding selected
dispatch_scheduled-releases_example =
    dispatch_scheduled-releases true unlocked accepting 100 shop 5 100 order_5 (tt, tt) refl
      (omega arith) refl refl refl refl

abbrev busy : World
busy = record shop { messages = record order_5 { status = MessageStatus.sending } ∷ [] }

batch_of-IsFirst_example :
    (length (batch_of true unlocked 100 (order_5 ∷ order_5 ∷ [])) ≤ dispatch_batch_size)
    × All
        (λ m. (selected 100 m && free_row true unlocked m) ≡ true)
        (batch_of true unlocked 100 (order_5 ∷ order_5 ∷ []))
    × All
        (λ m.
          All
            (λ y. scheduled_before m y ≡ true)
            (drop dispatch_batch_size (candidates true unlocked 100 (order_5 ∷ order_5 ∷ []))))
        (batch_of true unlocked 100 (order_5 ∷ order_5 ∷ []))
batch_of-IsFirst_example = batch_of-IsFirst true unlocked 100 (order_5 ∷ order_5 ∷ [])

-- A hundred days later the sent message goes.
cleanup_old_messages-Swept_example :
    Swept 8640000000000 0
      (record shop { messages = record order_5 { status = MessageStatus.sent } ∷ [] })
      (cleanup_old_messages 8640000000000
        (record shop { messages = record order_5 { status = MessageStatus.sent } ∷ [] }))
cleanup_old_messages-Swept_example =
    cleanup_old_messages-Swept 8640000000000
      (record shop { messages = record order_5 { status = MessageStatus.sent } ∷ [] })
