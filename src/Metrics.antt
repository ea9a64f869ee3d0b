-- ===== src/Metrics.antt =====
-- The collector of src/apps/core/metrics.py, which reads the tables when /metrics is scraped.
pub mod Depth
mod Tests
use notify_relay.Prelude.{
  ℕ, ◌+◌, Bool, true, false, Option, none, some, List, [], ◌∷◌, length, if◌then◌else◌,
}
use notify_relay.Models.{Message, Channel, email, webhook, channel_eq, is_queued}
use notify_relay.State.{World}

-- A number for each channel: the rows of the query, and the dict `depth`.
abbrev pub Counts : Type 0
Counts = List (Channel × ℕ)

-- One more in the group of `c`.
unfoldable pub count_in : Channel → Counts → Counts
count_in c [] = (c, 1) ∷ []
count_in c (row ∷ rows) =
    let rest = count_in c rows in
    if channel_eq c row.0 then (row.0, row.1 + 1) ∷ rows else row ∷ rest

-- `.filter(status=QUEUED).values("channel").annotate(n=Count("id"))`.
unfoldable pub group_queued : List Message → Counts
group_queued [] = []
group_queued (m ∷ messages) =
    let rest = group_queued messages in if is_queued m.status then count_in m.channel rest else rest

-- `dict.fromkeys(Channel.values, 0)`.
abbrev pub no_depth : Counts
no_depth = (email, 0) ∷ (webhook, 0) ∷ []

unfoldable pub set_depth : Channel × ℕ → Counts → Counts
set_depth new [] = new ∷ []
set_depth new (row ∷ rows) =
    let rest = set_depth new rows in if channel_eq new.0 row.0 then new ∷ rows else row ∷ rest

-- `depth.update(...)`.
unfoldable pub update_depth : Counts → Counts → Counts
update_depth depth [] = depth
update_depth depth (row ∷ rows) = update_depth (set_depth row depth) rows

-- The two gauges: notify_relay_queue_depth by channel, and notify_relay_dlq_size.
pub record Gauges : Type 0 where
  pub queue_depth : Counts
  pub dlq_size : ℕ

-- `DatabaseStateCollector.collect`.
abbrev pub collect : World → Gauges
collect w = record {
  queue_depth = update_depth no_depth (group_queued w.messages);
  dlq_size = length w.dead_letters;
}
