-- ===== src/System/Invariant.antt =====
-- Every transaction keeps the database and the runs sound, and so they are in every reachable state.
use notify_relay.Prelude.{
  ℕ, ◌≡◌, refl, sym, subst, Bool, false, not, Option, some, ◌==◌, inl, inr, arith, Distinct, All,
  any, by_key, find_first-All, Distinct-select, String,
}
use notify_relay.Models.{Message}
use notify_relay.State.{World}
use notify_relay.Delivery.{Request, claim}
use notify_relay.Delivery.Attempts.{IsNumbered}
use notify_relay.System.{
  System, Flight, flight_key, flight_of, running, start_run, Step, IsNew, Reach,
}
use notify_relay.System.Defs.{IsSound, Held}
use notify_relay.System.Claims.{same-IsSound, SameMessages, claimed-IsSound}
use notify_relay.Delivery.{enqueue_for}
use notify_relay.Services.{enqueue_after_commit}
use notify_relay.Templating
use notify_relay.Templating.{TemplateData, NewIds}
use notify_relay.Authentication
use notify_relay.Authentication.{ApiKeyData, KeyDraw}
use notify_relay.System.Tries.{Held-landed, try_run-IsSound}
use notify_relay.System.Settles.{settled-IsSound}
use notify_relay.System.{
  claims, tries, settles, dies, ticks, cleans, inserts, publishes, posts_template, deletes_template,
  creates_key, revokes_key, start, later,
}
use notify_relay.System.Ticks.{ticked-IsSound}
use notify_relay.System.Sweeps.{swept-IsSound}
use notify_relay.System.Inserts.{inserted-IsSound}
use notify_relay.System.Effects.{start_run-cases}

pub published-same :
    (up : Bool) (m : Message) (w : World) → SameMessages w (enqueue_after_commit up m w)
unfolding enqueue_after_commit enqueue_for
published-same up m w = ground arith

pub posted-same :
    (ids : NewIds) (user : Option ℕ) (now : ℕ) (d : TemplateData) (w : World)
    → SameMessages w (Templating.create ids user now d w).1
unfolding Templating.create
posted-same ids user now d w = ground arith

pub destroyed-same :
    (now : ℕ) (name : String) (w : World) → SameMessages w (Templating.destroy now name w).1
unfolding Templating.destroy
destroyed-same now name w = ground arith

pub key-same :
    (hmac : String → String → String) (pepper : String) (draw : KeyDraw) (d : ApiKeyData)
    (w : World)
    → SameMessages w (Authentication.create_key hmac pepper draw d w).1
unfolding Authentication.create_key
key-same hmac pepper draw d w = ground arith

pub revoked-same : (now pk : ℕ) (w : World) → SameMessages w (Authentication.revoke now pk w).1
unfolding Authentication.revoke
revoked-same now pk w = ground arith

pub IsNew-IsSound : (s : System) → IsNew s → IsSound s
IsNew-IsSound s new = record {
  keys = subst (Distinct (λ x. x.id)) (sym new.no_messages) tt;
  constraints = record {
    unique = record { at = λ a key. rw (new.no_messages) (omega arith) };
    one_letter = subst (Distinct (λ d. d.message)) (sym new.no_dead_letters) tt;
  };
  fine = λ k. record {
    numbered = subst (IsNumbered k) (sym new.no_attempts) tt;
    has_letter = rw (new.no_messages, new.no_dead_letters) refl;
    tried = rw (new.no_messages, new.no_attempts) refl;
  };
  held = subst (All (Held s.world)) (sym new.no_flights) tt;
  alone = subst (Distinct flight_key) (sym new.no_flights) tt;
}

pub found-Held :
    (k : ℕ) (s : System) (f : Flight) → IsSound s → flight_of k s ≡ some f → Held s.world f
found-Held k s f i found =
    find_first-All (Held s.world) (by_key flight_key k) s.flights f i.held found

start_run-IsSound :
    (request : Request) (k now : ℕ) (s : System)
    → any (running request k) s.flights ≡ false
    → IsSound s
    → IsSound (start_run request (claim request k now s.world) s.flights)
start_run-IsSound request k now s out i = elim (start_run-cases request k now s.world s.flights) [
  | inl e ↦ rw e i
  | inr (m, found, free, e) ↦
      rw e (claimed-IsSound request k now s.world m found free s.flights out i)
]

-- Every transaction keeps the system sound.
pub Step-IsSound : {s t : System} → Step s t → IsSound s → IsSound t
Step-IsSound {s} (claims request k now out e) i =
    subst IsSound (sym e) (start_run-IsSound request k now s out i)
Step-IsSound {s} (tries k f clock r found untried e) i =
    let h = found-Held k s f i found in
    subst IsSound (sym e)
      (try_run-IsSound s.world f clock r (i.fine f.message.id).numbered s.flights h i)
Step-IsSound {s} (settles k now f r found tried e) i =
    subst IsSound (sym e)
      (settled-IsSound s.world f r now (found-Held k s f i found) tried s.flights i)
Step-IsSound {s} (dies k e) i = subst IsSound (sym e) (record {
  keys = i.keys;
  constraints = i.constraints;
  fine = i.fine;
  held = Held-landed k s.world s.flights i.held;
  alone = Distinct-select flight_key (λ f. not (flight_key f == k)) s.flights i.alone;
})
Step-IsSound {s} (ticks skip_locked locked up now timely e) i =
    subst IsSound (sym e)
      (ticked-IsSound skip_locked locked up now s.world i.keys s.flights timely i)
Step-IsSound {s} (cleans now e) i =
    subst IsSound (sym e) (swept-IsSound now s.world i.keys s.flights i)
Step-IsSound {s} (inserts around key idempotency_key d v r seen w since resolved inserted e) i =
    subst IsSound (sym e) (inserted-IsSound _ s.world w inserted refl s.flights i)
Step-IsSound {s} (publishes up m e) i =
    subst IsSound (sym e) (same-IsSound s _ (published-same up m s.world) i)
Step-IsSound {s} (posts_template ids user now d e) i =
    subst IsSound (sym e) (same-IsSound s _ (posted-same ids user now d s.world) i)
Step-IsSound {s} (deletes_template now name e) i =
    subst IsSound (sym e) (same-IsSound s _ (destroyed-same now name s.world) i)
Step-IsSound {s} (creates_key hmac pepper draw d e) i =
    subst IsSound (sym e) (same-IsSound s _ (key-same hmac pepper draw d s.world) i)
Step-IsSound {s} (revokes_key now pk e) i =
    subst IsSound (sym e) (same-IsSound s _ (revoked-same now pk s.world) i)

-- In every reachable state the messages have different ids and different idempotency keys within an
-- API key, the attempts on each are numbered 1, 2, 3, ..., only messages have attempts, and each
-- finished message has one. There is a dead letter exactly for a message that failed or died, and
-- only one. At most one run is at work on a message, and the message is as that run has claimed it.
pub Reach-IsSound : {s : System} → Reach s → IsSound s
Reach-IsSound (start s new) = IsNew-IsSound s new
Reach-IsSound (later s t r st) = Step-IsSound st (Reach-IsSound r)
