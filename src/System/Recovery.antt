-- ===== src/System/Recovery.antt =====
-- Ways on for a message that is not finished: another run of its task, and the Beat task that
-- brings it back to the queue.
use notify_relay.Prelude.{
  ℕ, ◌≡◌, ◌≤◌, refl, ◌∙◌, Bool, true, false, not, ◌||◌, some, All, select, length, arith, eq_refl,
  if◌then◌else◌,
}
use notify_relay.Models.{Message, MessageStatus, is_terminal}
use notify_relay.State.{ok}
use notify_relay.Channels.{ChannelResult}
use notify_relay.Delivery.{Request, Reply, Clock, owner, message_of, with_status, claimed_row}
use notify_relay.Delivery.Refusal.{claimable}
use notify_relay.Delivery.Verdict.{verdict}
use notify_relay.Scheduler.{selected, dispatch_batch_size, free_row, requeued_row}
use notify_relay.Scheduler.Batch.{wanted, in_batch-wanted}
use notify_relay.System.{System, InTime, ticks, Reach}
use notify_relay.System.Defs.{IsSound}
use notify_relay.System.Invariant.{Step-IsSound, Reach-IsSound}
use notify_relay.System.Effects.{tick-row}
use notify_relay.System.Progress.{Run, next, run_through, run_through-row}

-- A task that has the id of the one that claimed the message, as when the broker redelivers it.
abbrev pub redelivered : Message → Request
redelivered m = record { id = some m.claimed_by; retries = 0 }

-- A lasting verdict of the channel: success, or an error that no retry mends.
abbrev pub lasting : ChannelResult → Bool
lasting r = r.success || not r.transient

abbrev pub lasting_status : ChannelResult → MessageStatus
lasting_status r = if r.success then MessageStatus.sent else MessageStatus.failed

verdict-lasting :
    (request : Request) (r : ChannelResult)
    → lasting r ≡ true
    → verdict request r ≡ ok (if r.success then Reply.sent else Reply.failed)
verdict-lasting request r h = ground (arith, h)

-- A task that may take the message takes it to its end, whoever was at work on it.
pub run_to_end :
    (s : System) (k : ℕ) (m : Message) (request : Request) (clock : Clock) (r : ChannelResult)
    → IsSound s
    → message_of k s.world ≡ some m
    → claimable request m ≡ true
    → lasting r ≡ true
    → (t : System) × Run s t
      × (message_of k t.world
          ≡ some (
              with_status
                (lasting_status r)
                clock.saved
                (claimed_row (owner request) clock.claimed m)))
run_to_end s k m request clock r i found free last =
    let numbered = (i.fine m.id).numbered in
    (
      _,
      run_through s k m found request free clock r numbered,
      run_through-row s k m found request free clock r numbered
            (if r.success then Reply.sent else Reply.failed) (verdict-lasting request r last)
          ∙ ground arith,
    )

-- From every reachable state, also when the worker on it dies, a message that is not finished can be
-- taken to its end by the task that holds it, redelivered: if the channel then answers with a success
-- or with a permanent failure, there is a run of the system after which the message is sent or failed
-- and otherwise as claimed.
pub Reach-settles :
    (s : System) (k : ℕ) (m : Message) (clock : Clock) (r : ChannelResult)
    → Reach s
    → message_of k s.world ≡ some m
    → is_terminal m.status ≡ false
    → lasting r ≡ true
    → (t : System) × Run s t
      × (message_of k t.world
          ≡ some (
              with_status
                (lasting_status r)
                clock.saved
                (claimed_row m.claimed_by clock.claimed m)))
Reach-settles s k m clock r reach found live last =
    run_to_end s k m (redelivered m) clock r (Reach-IsSound reach) found
      (ground (arith, live, eq_refl m.claimed_by)) last

-- From every reachable state in which no run is older than two hours, a tick that selects a message,
-- whose row is not locked and which has a place among at most 200, puts it back into the queue, and
-- any task can then take it to its end: if the channel answers with a success or with a permanent
-- failure, there is a run of the system after which the message is sent or failed and otherwise as
-- the tick and the task have claimed it.
pub Reach-recovers :
    (s : System) (k : ℕ) (m : Message) (skip_locked : Bool) (locked : Message → Bool)
    (up : ℕ → Bool) (now : ℕ) (request : Request) (clock : Clock) (r : ChannelResult)
    → Reach s
    → message_of k s.world ≡ some m
    → All (InTime now) s.flights
    → selected now m ≡ true
    → free_row skip_locked locked m ≡ true
    → length (select (wanted skip_locked locked now s.world.messages) s.world.messages)
      ≤ dispatch_batch_size
    → lasting r ≡ true
    → (t : System) × Run s t
      × (message_of k t.world
          ≡ some (
              with_status
                (lasting_status r)
                clock.saved
                (claimed_row (owner request) clock.claimed (requeued_row now m))))
Reach-recovers s k m skip_locked locked up now request clock r reach found timely due free room
      last =
    let i = Reach-IsSound reach in
    let tick = ticks skip_locked locked up now timely refl in
    let row =
      tick-row skip_locked locked up now k s.world
      ∙ ground (
        arith,
        found,
        due,
        free,
        in_batch-wanted skip_locked locked now s.world.messages k m i.keys found room,
      ) in
    let (t, run, at) =
      run_to_end _ k (requeued_row now m) request clock r (Step-IsSound tick i) row refl last in
    (t, next tick run, at)
