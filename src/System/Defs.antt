-- ===== src/System/Defs.antt =====
-- What holds of the database and of the runs between any two transactions.
use notify_relay.Prelude.{
  ℕ, ◌≡◌, Bool, true, false, not, ◌||◌, Option, none, some, is_some, length, ltb, Distinct, All,
  ◌==◌, if◌then◌else◌,
}
use notify_relay.Models.{Message, MessageStatus, is_terminal}
use notify_relay.State.{World}
use notify_relay.Delivery.{owner, message_of, attempts_of, has_dead_letter}
use notify_relay.Delivery.Attempts.{IsNumbered}
use notify_relay.System.{System, Flight, flight_key}
use notify_relay.System.Constraints.{Constraints}

abbrev pub is_buried : MessageStatus → Bool
is_buried MessageStatus.failed = true
is_buried MessageStatus.dead = true
is_buried _ = false

-- There is a dead letter exactly for a message that failed or died,
abbrev pub lettered : Option Message → Bool → Bool
lettered none letter = not letter
lettered (some m) letter = if is_buried m.status then letter else not letter

-- a finished message has been tried, and only messages have attempts.
abbrev pub was_tried : Option Message → ℕ → Bool
was_tried none n = n == 0
was_tried (some m) n = not (is_terminal m.status) || ltb 0 n

pub record Fine (k : ℕ) (w : World) : Type 0 where
  pub numbered : IsNumbered k w.attempts
  pub has_letter : lettered (message_of k w) (has_dead_letter k w.dead_letters) ≡ true
  pub tried : was_tried (message_of k w) (length (attempts_of k w.attempts)) ≡ true

-- The run's message is still as the run has claimed it, and once the run has tried, so it says.
pub record Held (w : World) (f : Flight) : Type 0 where
  pub row : message_of f.message.id w ≡ some f.message
  pub sending : f.message.status ≡ MessageStatus.sending
  pub mine : f.message.claimed_by ≡ owner f.request
  pub counted :
      (not (is_some f.tried) || ltb 0 (length (attempts_of f.message.id w.attempts))) ≡ true

pub record IsSound (s : System) : Type 0 where
  pub keys : Distinct (λ (m : Message). m.id) s.world.messages
  pub constraints : Constraints s.world
  pub fine : (k : ℕ) → Fine k s.world
  pub held : All (Held s.world) s.flights
  pub alone : Distinct flight_key s.flights
