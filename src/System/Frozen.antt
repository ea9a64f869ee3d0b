-- ===== src/System/Frozen.antt =====
-- A message that src/tasks/delivery.py has settled is left alone for good.
use notify_relay.Prelude.{
  ℕ, ◌≡◌, refl, sym, ap, subst, ◌∙◌, Bool, true, false, none, some, is_some, ◌==◌, ==_iff, ◌⊎◌, inl,
  inr, Bool-cases, arith, find_first-append,
}
use notify_relay.Models.{Message, is_terminal}
use notify_relay.State.{World, ◌>>◌, Metric}
use notify_relay.Channels.{ChannelResult}
use notify_relay.Delivery.{
  Request, Clock, message_of, attempts_of, has_dead_letter, claim, conclude, record_attempt,
  observe,
}
use notify_relay.Delivery.Verdict.{
  record_of_save, verdict, settled-row, settled-buried, settled-attempts, conclude_lem,
}
use notify_relay.Delivery.Outcome.{record_attempt-numbered}
use notify_relay.Scheduler.{dispatch_scheduled, cleanup_ids, delete_messages, id_in}
use notify_relay.Scheduler.Batch.{dispatch_scheduled-keeps}
use notify_relay.Services.{insert_message}
use notify_relay.System.{
  System, Flight, start_run, try_run, Step, Reach, claims, tries, settles, dies, ticks, cleans,
  inserts, publishes, posts_template, deletes_template, creates_key, revokes_key,
}
use notify_relay.System.Defs.{IsSound, Held}
use notify_relay.System.Claims.{SameMessages, claimed-message}
use notify_relay.System.Tries.{tried-attempts}
use notify_relay.System.Settles.{settled_row-apart}
use notify_relay.System.Ticks.{ticked-attempts, ticked-letters}
use notify_relay.System.Sweeps.{swept-row, swept-attempts, swept-letters}
use notify_relay.System.Effects.{start_run-cases, insert_message-cases}
use notify_relay.System.Invariant.{
  published-same, posted-same, destroyed-same, key-same, revoked-same, found-Held, Reach-IsSound,
}

-- Message `k`, its attempts and whether it has a dead letter are as they were.
pub record SameMessage (k : ℕ) (w w' : World) : Type 0 where
  pub row : message_of k w' ≡ message_of k w
  pub attempts : attempts_of k w'.attempts ≡ attempts_of k w.attempts
  pub letter : has_dead_letter k w'.dead_letters ≡ has_dead_letter k w.dead_letters

abbrev pub FrozenOrGone : ℕ → World → World → Type 0
FrozenOrGone k w w' = SameMessage k w w' ⊎ (message_of k w' ≡ none)

untouched : (k : ℕ) (w : World) → SameMessage k w w
untouched k w = record { row = refl; attempts = refl; letter = refl }

same_tables : (k : ℕ) (w w' : World) → SameMessages w w' → FrozenOrGone k w w'
same_tables k w w' same = inl (record {
  row = rw (same.messages) refl;
  attempts = rw (same.attempts) refl;
  letter = rw (same.dead_letters) refl;
})

module _ (s : System) (i : IsSound s) (k : ℕ) (m : Message) (found : message_of k s.world ≡ some m)
    (done : is_terminal m.status ≡ true) where
  -- No run is at work on it.
  no_run : (f : Flight) → Held s.world f → (k == f.message.id) ≡ false
  no_run f h = elim (Bool-cases (k == f.message.id)) [
    | inr apart ↦ apart
    | inl same ↦ absurd (
        ground (
          arith,
          found,
          done,
          h.row,
          h.sending,
          ap (λ j. message_of j s.world) ((==_iff k f.message.id).0 same),
        ))
  ]

  start_run-frozen :
      (request : Request) (j now : ℕ)
      → FrozenOrGone k s.world (start_run request (claim request j now s.world) s.flights).world
  unfolding record_of_save
  start_run-frozen request j now = elim (start_run-cases request j now s.world s.flights) [
    | inl e ↦ rw e (inl (untouched k s.world))
    | inr (n, here, free, e) ↦ rw e (
        inl (record {
          row =
              claimed-message request j now s.world n here free k
              ∙ ground (arith, found, done, here, free, ap (λ x. message_of x s.world), ==_iff k j);
          attempts = refl;
          letter = refl;
        }))
  ]

  try_run-frozen :
      (f : Flight) (clock : Clock) (r : ChannelResult)
      → Held s.world f
      → FrozenOrGone k s.world (
          (try_run f r
            ((observe (Metric.delivery_duration f.message.channel)
                >> record_attempt clock f.message r)
              s.world)
            s.flights).world)
  unfolding try_run
  try_run-frozen f clock r h =
      let numbered = (i.fine f.message.id).numbered in
      rw (record_attempt-numbered clock f.message r s.world (ap is_some h.row) numbered) (
        inl (record {
          row = refl;
          attempts =
              tried-attempts s.world f clock r numbered k
              ∙ ground (arith, no_run f h, ==_iff k f.message.id, ==_iff f.message.id k);
          letter = refl;
        }))

  conclude-frozen :
      (f : Flight) (now : ℕ) (r : ChannelResult)
      → Held s.world f
      → FrozenOrGone k s.world (conclude f.request now f.message r s.world).1
  conclude-frozen f now r h =
      let apart = no_run f h in
      let v = verdict f.request r in
      rw (conclude_lem now f.message r s.world f.request (ap is_some h.row)) (
        inl (record {
          row =
              settled-row now f.message r s.world k v
              ∙ settled_row-apart now f.message.id k v (message_of k s.world) apart;
          attempts = ap (attempts_of k) (settled-attempts now f.message r s.world v);
          letter =
              settled-buried now f.message r s.world k v
              ∙ ground (arith, apart, ==_iff k f.message.id, ==_iff f.message.id k);
        }))

  tick-frozen :
      (skip_locked : Bool) (locked : Message → Bool) (up : ℕ → Bool) (now : ℕ)
      → FrozenOrGone k s.world (dispatch_scheduled skip_locked locked up now s.world).1
  tick-frozen skip_locked locked up now = inl (record {
    row =
        dispatch_scheduled-keeps skip_locked locked up now s.world k m i.keys found
          (ground (arith, done))
        ∙ sym found;
    attempts = ap (attempts_of k) (ticked-attempts skip_locked locked up now s.world i.keys);
    letter = ap (has_dead_letter k) (ticked-letters skip_locked locked up now s.world i.keys);
  })

  sweep-frozen :
      (now : ℕ)
      → FrozenOrGone k s.world (delete_messages (cleanup_ids now s.world.messages) s.world)
  sweep-frozen now = elim (Bool-cases (id_in (cleanup_ids now s.world.messages) k)) [
    | inl out ↦ inr (swept-row now s.world i.keys k ∙ ground (arith, out))
    | inr stays ↦ inl (record {
      row = swept-row now s.world i.keys k ∙ ground (arith, stays);
      attempts = swept-attempts now s.world i.keys k ∙ ground (arith, stays);
      letter = swept-letters now s.world i.keys k ∙ ground (arith, stays);
    })
  ]

  insert-frozen :
      (n : Message) (w : World) → insert_message n s.world ≡ some w → FrozenOrGone k s.world w
  insert-frozen n w h =
      subst (FrozenOrGone k s.world) (sym (insert_message-cases n s.world w h).1) (
        inl (record {
          row = find_first-append (λ x. x.id) k s.world.messages n ∙ rw found refl;
          attempts = refl;
          letter = refl;
        }))

-- One step from a reachable state.
pub Step-frozen :
    {s t : System} (k : ℕ) (m : Message)
    → Reach s
    → Step s t
    → message_of k s.world ≡ some m
    → is_terminal m.status ≡ true
    → FrozenOrGone k s.world t.world
Step-frozen {s} k m reach (claims request j now out e) found done =
    subst (λ u. FrozenOrGone k s.world u.world) (sym e)
      (start_run-frozen s (Reach-IsSound reach) k m found done request j now)
Step-frozen {s} k m reach (tries j f clock r flying untried e) found done =
    let i = Reach-IsSound reach in
    subst (λ u. FrozenOrGone k s.world u.world) (sym e)
      (try_run-frozen s i k m found done f clock r (found-Held j s f i flying))
Step-frozen {s} k m reach (settles j now f r flying tried e) found done =
    let i = Reach-IsSound reach in
    subst (λ u. FrozenOrGone k s.world u.world) (sym e)
      (conclude-frozen s i k m found done f now r (found-Held j s f i flying))
Step-frozen {s} k m reach (dies j e) found done =
    subst (λ u. FrozenOrGone k s.world u.world) (sym e) (inl (untouched k s.world))
Step-frozen {s} k m reach (ticks skip_locked locked up now timely e) found done =
    subst (λ u. FrozenOrGone k s.world u.world) (sym e)
      (tick-frozen s (Reach-IsSound reach) k m found done skip_locked locked up now)
Step-frozen {s} k m reach (cleans now e) found done =
    subst (λ u. FrozenOrGone k s.world u.world) (sym e)
      (sweep-frozen s (Reach-IsSound reach) k m found done now)
Step-frozen {s} k m reach
      (inserts around key idempotency_key d v r seen w since resolved inserted e) found done =
    subst (λ u. FrozenOrGone k s.world u.world) (sym e)
      (insert-frozen s (Reach-IsSound reach) k m found done _ w inserted)
Step-frozen {s} k m reach (publishes up n e) found done =
    subst (λ u. FrozenOrGone k s.world u.world) (sym e)
      (same_tables k s.world _ (published-same up n s.world))
Step-frozen {s} k m reach (posts_template ids user now d e) found done =
    subst (λ u. FrozenOrGone k s.world u.world) (sym e)
      (same_tables k s.world _ (posted-same ids user now d s.world))
Step-frozen {s} k m reach (deletes_template now name e) found done =
    subst (λ u. FrozenOrGone k s.world u.world) (sym e)
      (same_tables k s.world _ (destroyed-same now name s.world))
Step-frozen {s} k m reach (creates_key hmac pepper draw d e) found done =
    subst (λ u. FrozenOrGone k s.world u.world) (sym e)
      (same_tables k s.world _ (key-same hmac pepper draw d s.world))
Step-frozen {s} k m reach (revokes_key now pk e) found done =
    subst (λ u. FrozenOrGone k s.world u.world) (sym e)
      (same_tables k s.world _ (revoked-same now pk s.world))
