-- ===== src/System/Tests.antt =====
-- A message that is created and claimed, and how it goes on.
use notify_relay.Prelude.{order_by, arith, ◌⊎◌, ℕ, ◌+◌, ◌≡◌, refl, true, false, none, some}
use notify_relay.Models.{Message, MessageStatus, Channel}
use notify_relay.Channels.{ChannelResult}
use notify_relay.Scheduler.{reenqueue_after, selected, requeued_row}
use notify_relay.Delivery.{
  observe, record_attempt, conclude, Request, claim, claimed_row, with_status, message_of,
}
use notify_relay.System.{
  System, Flight, Reach, landed, try_run, tries, settles, Step, later, start_run, claims,
}
use notify_relay.State.{◌>>◌, Metric}
use notify_relay.System.Defs.{IsSound}
use notify_relay.System.Life.{Lives, view}
use notify_relay.System.Invariant.{Reach-IsSound}
use notify_relay.System.Refinement.{Step-Lives}
use notify_relay.System.Sources.{AllSourced}
use notify_relay.System.Sourced.{Reach-sourced}
use notify_relay.System.Progress.{Run, rest, next}
use notify_relay.System.Frozen.{SameMessage}
use notify_relay.System.Settled.{IsGoneBetween, Run-frozen}
use notify_relay.System.Recovery.{Reach-settles, Reach-recovers}
use notify_relay.Templating.{latest_version}
use notify_relay.Templating.Sources.{has_source}
use notify_relay.Services.{resolve_template, resolve_version}
use notify_relay.System.Library.{resolved-stays}
use notify_relay.Samples.{message_6, waiting, waits, clock, order_6, welcome_1, opens, posts}

abbrev first_try : Request
first_try = record { id = some "task"; retries = 0 }

abbrev busy : System
busy = start_run first_try (claim first_try 6 310 waiting.world) waiting.flights

is_taken : Step waiting busy
is_taken = claims first_try 6 310 refl refl

Reach-IsSound_example : IsSound busy
Reach-IsSound_example = Reach-IsSound (later waiting busy waits is_taken)

Step-Lives_example : Lives (view 6 waiting) (view 6 busy)
Step-Lives_example = Step-Lives waits is_taken 6

resolved-stays_example :
    has_source waiting.world.templates waiting.world.versions order_6.channel welcome_1.id ≡ true
unfolding resolve_template resolve_version latest_version order_by
resolved-stays_example = resolved-stays order_6 welcome_1 opens (next posts rest) refl

-- The worker that holds the message dies, and its task comes back.
abbrev taken_6 : Message
taken_6 = claimed_row "task" 310 message_6

abbrev accepted : ChannelResult
accepted = record {
  success = true;
  transient = false;
  error_message = "";
  http_status = some 200;
  smtp_code = none;
}

Reach-settles_example :
    (t : System) × Run busy t
    × (message_of 6 t.world
        ≡ some (with_status MessageStatus.sent 203 (claimed_row "task" 200 taken_6)))
unfolding start_run claim
Reach-settles_example =
    Reach-settles busy 6 taken_6 clock accepted (later waiting busy waits is_taken) refl refl refl

-- The task of the message was lost, and a tick later than 15 minutes publishes another.
abbrev late : ℕ
late = 301 + reenqueue_after

Reach-recovers_example :
    (t : System) × Run waiting t
    × (message_of 6 t.world
        ≡ some (
            with_status MessageStatus.sent 203
              (claimed_row "task" 200 (requeued_row late message_6))))
unfolding selected
Reach-recovers_example =
    Reach-recovers waiting 6 message_6 true (λ m. false) (λ i. true) late first_try clock accepted
      waits refl tt refl refl (omega arith) refl

-- The webhook accepts the message, and then its task comes again.
abbrev in_flight : Flight
in_flight = record { request = first_try; message = claimed_row "task" 310 message_6; tried = none }

abbrev answered : System
answered =
    try_run in_flight accepted
      ((observe (Metric.delivery_duration Channel.webhook)
          >> record_attempt clock in_flight.message accepted)
        busy.world)
      busy.flights

abbrev finished : System
finished = record {
  world = (conclude first_try 320 in_flight.message accepted answered.world).1;
  flights = landed 6 answered.flights;
}

abbrev repeated : System
repeated = start_run first_try (claim first_try 6 400 finished.world) finished.flights

finishes : Reach finished
unfolding start_run try_run claim record_attempt
finishes =
    later answered finished
      (later busy answered (later waiting busy waits is_taken)
        (tries 6 in_flight clock accepted refl refl refl))
      (settles 6 320 (record in_flight { tried = some accepted }) accepted refl refl refl)

Run-frozen_example : SameMessage 6 finished.world repeated.world ⊎ IsGoneBetween 6 finished repeated
unfolding start_run try_run claim record_attempt conclude
Run-frozen_example =
    Run-frozen 6 (with_status MessageStatus.sent 320 in_flight.message) finishes
      (next (claims first_try 6 400 refl refl) rest) refl refl

Reach-sourced_example : AllSourced waiting.world
Reach-sourced_example = Reach-sourced waits
