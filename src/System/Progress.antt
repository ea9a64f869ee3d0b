-- ===== src/System/Progress.antt =====
-- No state of the system is a dead end for a message of src/tasks/delivery.py.
use notify_relay.Prelude.{
  ℕ, ◌≡◌, refl, ap, ◌∙◌, true, false, none, some, is_some, List, [], ◌∷◌, ==_refl, arith, any,
}
use notify_relay.Models.{Message}
use notify_relay.State.{ok}
use notify_relay.Channels.{ChannelResult}
use notify_relay.Delivery.{
  with_status, Reply, Request, Clock, owner, message_of, claimed_row, conclude,
}
use notify_relay.Delivery.Attempts.{IsNumbered}
use notify_relay.Delivery.Refusal.{claimable}
use notify_relay.Delivery.Outcome.{stored, record_attempt-numbered}
use notify_relay.Delivery.Verdict.{
  verdict, status_after, record_of_save, message_of-id, claim-claimable, conclude_lem, settled-row,
}
use notify_relay.System.{
  System, Flight, running, landed, start_run, try_run, Step, claims, tries, settles, dies, Reach,
  later,
}
use notify_relay.System.Claims.{claimed-message}

-- Any number of steps.
pub data Run : System → System → Type 0 where
  rest : {s : System} → Run s s
  next : {s t u : System} → Step s t → Run t u → Run s u

pub Run-Reach : {s t : System} → Run s t → Reach s → Reach t
Run-Reach rest r = r
Run-Reach (next st run) r = Run-Reach run (later _ _ r st)

landed-not-running :
    (request : Request) (k : ℕ) (l : List Flight) → any (running request k) (landed k l) ≡ false
landed-not-running request k [] = refl
landed-not-running request k (f ∷ l) = ground (arith, landed-not-running request k l)

-- The worker on message `k` dies, if there is one, and a task takes the message to its end.
module _ (s : System) (k : ℕ) (m : Message) (found : message_of k s.world ≡ some m)
    (request : Request) (free : claimable request m ≡ true) (clock : Clock) (r : ChannelResult)
    (numbered : IsNumbered m.id s.world.attempts) where
  abbrev left : List Flight
  left = landed k s.flights

  abbrev mine : Message
  mine = claimed_row (owner request) clock.claimed m

  abbrev flight : Flight
  flight = record { request = request; message = mine; tried = none }

  abbrev abandoned : System
  abandoned = record s { flights = left }

  abbrev taken : System
  taken = record {
    world = record_of_save k (claimed_row (owner request) clock.claimed) s.world;
    flights = flight ∷ left;
  }

  abbrev answered : System
  answered = record {
    world = stored clock mine r taken.world;
    flights = record flight { tried = some r } ∷ landed m.id taken.flights;
  }

  abbrev settled : System
  settled = record {
    world = (conclude request clock.saved mine r answered.world).1;
    flights = landed m.id answered.flights;
  }

  own : m.id ≡ k
  own = message_of-id k s.world m found

  is_taken : Step abandoned taken
  unfolding start_run
  is_taken =
      claims request k clock.claimed (landed-not-running request k s.flights)
        (rw (claim-claimable request k clock.claimed s.world m found free) refl)

  taken-row : message_of k taken.world ≡ some mine
  taken-row = rw (claimed-message request k clock.claimed s.world m found free k, ==_refl k) refl

  there : is_some (message_of mine.id taken.world) ≡ true
  there = ap (λ j. is_some (message_of j taken.world)) own ∙ ap is_some taken-row

  is_answered : Step taken answered
  unfolding try_run record_of_save
  is_answered =
      tries k flight clock r (ground (arith, own, ==_refl k)) refl
        (rw (record_attempt-numbered clock mine r taken.world there numbered) refl)

  is_settled : Step answered settled
  is_settled =
      settles k clock.saved (record flight { tried = some r }) r (ground (arith, own, ==_refl k))
        refl refl

  pub run_through : Run s settled
  run_through = next (dies k refl) (next is_taken (next is_answered (next is_settled rest)))

  pub run_through-row :
      (reply : Reply)
      → verdict request r ≡ ok reply
      → message_of k settled.world ≡ some (with_status (status_after (ok reply)) clock.saved mine)
  run_through-row reply v = rw (conclude_lem clock.saved mine r answered.world request there) (
      settled-row clock.saved mine r answered.world k (verdict request r)
      ∙ ground (arith, taken-row, own, ==_refl k, v))
