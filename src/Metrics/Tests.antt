-- ===== src/Metrics/Tests.antt =====
-- The sample shop, with its one queued message or none.
use notify_relay.Prelude.{◌≡◌, some, length, select}
use notify_relay.Models.{webhook}
use notify_relay.Metrics.{collect}
use notify_relay.Metrics.Depth.{depth_of, waits_in, collect-counts}
use notify_relay.Samples.{shop}

collect-counts_example :
    (depth_of webhook (collect shop).queue_depth
      ≡ some (length (select (waits_in webhook) shop.messages)))
    × ((collect shop).dlq_size ≡ 0)
collect-counts_example = collect-counts shop webhook
