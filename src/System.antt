-- ===== src/System.antt =====
-- The workers of src/tasks/delivery.py, the Beat tasks of src/tasks/scheduler.py and the API at work
-- on one database, one transaction at a time, in any order.
pub mod Defs
pub mod Effects
pub mod Constraints
pub mod Claims
pub mod Tries
pub mod Settles
pub mod Ticks
pub mod Sweeps
pub mod Inserts
pub mod Invariant
pub mod Life
pub mod Rules
pub mod Refinement
pub mod Progress
pub mod Recovery
pub mod Frozen
pub mod Settled
pub mod Sources
pub mod Sourced
pub mod Library
mod Tests
use notify_relay.Prelude.{
  ℕ, ◌+◌, ◌≡◌, String, Char, Bool, true, false, not, ◌&&◌, Option, none, some, List, [], ◌∷◌, leb,
  ◌==◌, str_eq, find_first, by_key, select, any, All,
}
use notify_relay.Models.{Message, TemplateVersion}
use notify_relay.State.{World, Result, ok, raised, ◌>>◌, Metric}
use notify_relay.Channels.{ChannelResult}
use notify_relay.Delivery.{
  Request, Clock, Reply, Claim, stop, go, owner, claim, observe, record_attempt, conclude,
}
use notify_relay.Scheduler.{stale_sending_after, dispatch_scheduled, cleanup_ids, delete_messages}
use notify_relay.Renderer.{RenderedMessage}
use notify_relay.Templating.Sources.{Keeps}
use notify_relay.Templating.{TemplateData, NewIds}
use notify_relay.Templating
use notify_relay.Authentication.{ApiKeyData, KeyDraw}
use notify_relay.Authentication
use notify_relay.Services.{
  ValidatedData, Surroundings, resolve_template, new_message, insert_message, enqueue_after_commit,
}

-- A run of the delivery task between its transactions: the message as the run has claimed it, and
-- the channel's result once the attempt is stored.
pub record Flight : Type 0 where
  pub request : Request
  pub message : Message
  pub tried : Option ChannelResult

pub record System : Type 0 where
  pub world : World
  pub flights : List Flight

abbrev pub flight_key : Flight → ℕ
flight_key f = f.message.id

-- A run of the task `request` on message `k`.
abbrev pub running : Request → ℕ → Flight → Bool
running request k f = (f.message.id == k) && str_eq (owner f.request) (owner request)

-- The runs that go on when the run on message `k` has ended.
abbrev pub landed : ℕ → List Flight → List Flight
landed k = select (λ f. not (f.message.id == k))

-- The first transaction of `_dispatch` and what it lets go on.
pub start_run : Request → Result Claim × World → List Flight → System
start_run request (ok (go m), w) flights = record {
  world = w;
  flights = record { request = request; message = m; tried = none } ∷ flights;
}
start_run request (ok (stop reply), w) flights = record { world = w; flights = flights }
start_run request (raised e, w) flights = record { world = w; flights = flights }

-- An exception on the way ends the run.
pub try_run : Flight → ChannelResult → Result (Unit {0}) × World → List Flight → System
try_run f r (ok u, w) flights = record {
  world = w;
  flights = record f { tried = some r } ∷ landed f.message.id flights;
}
try_run f r (raised e, w) flights = record { world = w; flights = landed f.message.id flights }

-- The message was claimed within the last two hours.
abbrev pub InTime : ℕ → Flight → Type 0
InTime now f = leb now (f.message.updated_at + stale_sending_after) ≡ true

abbrev pub flight_of : ℕ → System → Option Flight
flight_of k s = find_first (by_key flight_key k) s.flights

-- One transaction. Two premises are about the machinery around the code: the broker does not give a
-- task to a second worker while the first runs it (its visibility timeout is longer than
-- CELERY_TASK_TIME_LIMIT), and no run lasts for two hours (by that limit). A new message's version
-- is the one that `_resolve_template` found in the database as the request has `seen` it, whose
-- versions and templates are still there (`Keeps`, which `Run-Keeps` in Library proves of all runs).
pub data Step (s t : System) : Type 0 where
  claims :
      (request : Request) (k now : ℕ)
      → any (running request k) s.flights ≡ false
      → t ≡ start_run request (claim request k now s.world) s.flights
      → Step s t
  tries :
      (k : ℕ) (f : Flight) (clock : Clock) (r : ChannelResult)
      → flight_of k s ≡ some f
      → f.tried ≡ none
      → t
        ≡ try_run f r
            ((observe (Metric.delivery_duration f.message.channel)
                >> record_attempt clock f.message r)
              s.world)
            s.flights
      → Step s t
  settles :
      (k now : ℕ) (f : Flight) (r : ChannelResult)
      → flight_of k s ≡ some f
      → f.tried ≡ some r
      → t ≡ record {
        world = (conclude f.request now f.message r s.world).1;
        flights = landed f.message.id s.flights;
      }
      → Step s t
  dies : (k : ℕ) → t ≡ record s { flights = landed k s.flights } → Step s t
  ticks :
      (skip_locked : Bool) (locked : Message → Bool) (up : ℕ → Bool) (now : ℕ)
      → All (InTime now) s.flights
      → t ≡ record s { world = (dispatch_scheduled skip_locked locked up now s.world).1 }
      → Step s t
  cleans :
      (now : ℕ)
      → t ≡ record s { world = delete_messages (cleanup_ids now s.world.messages) s.world }
      → Step s t
  inserts :
      (around : Surroundings) (key : Option ℕ) (idempotency_key : String) (d : ValidatedData)
      (v : TemplateVersion) (r : RenderedMessage) (seen w : World)
      → Keeps seen s.world
      → resolve_template d seen ≡ some v
      → insert_message (new_message around key idempotency_key d v r) s.world ≡ some w
      → t ≡ record s { world = w }
      → Step s t
  publishes :
      (up : Bool) (m : Message)
      → t ≡ record s { world = enqueue_after_commit up m s.world }
      → Step s t
  posts_template :
      (ids : NewIds) (user : Option ℕ) (now : ℕ) (d : TemplateData)
      → t ≡ record s { world = (Templating.create ids user now d s.world).1 }
      → Step s t
  deletes_template :
      (now : ℕ) (name : String)
      → t ≡ record s { world = (Templating.destroy now name s.world).1 }
      → Step s t
  creates_key :
      (hmac : String → String → String) (pepper : String) (draw : KeyDraw) (d : ApiKeyData)
      → t ≡ record s { world = (Authentication.create_key hmac pepper draw d s.world).1 }
      → Step s t
  revokes_key :
      (now pk : ℕ) → t ≡ record s { world = (Authentication.revoke now pk s.world).1 } → Step s t

-- No messages, nothing about messages and no runs yet.
pub record IsNew (s : System) : Type 0 where
  pub no_messages : s.world.messages ≡ []
  pub no_attempts : s.world.attempts ≡ []
  pub no_dead_letters : s.world.dead_letters ≡ []
  pub no_flights : s.flights ≡ []

pub data Reach : System → Type 0 where
  start : (s : System) → IsNew s → Reach s
  later : (s t : System) → Reach s → Step s t → Reach t
