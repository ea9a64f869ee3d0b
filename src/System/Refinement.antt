-- ===== src/System/Refinement.antt =====
-- The system refines the life of each message.
use notify_relay.Prelude.{
  ℕ, ◌≡◌, refl, sym, ap, subst, ◌∙◌, Bool, true, Option, none, some, is_some, List, ◌∷◌, ◌==◌,
  ==_iff, inl, inr, Bool-cases, if◌then◌else◌, arith, find_first-append,
}
use mathlib.Core.Option
use notify_relay.Models.{Message, MessageStatus, is_terminal}
use notify_relay.State.{World, ◌>>◌, Metric}
use notify_relay.Channels.{ChannelResult}
use notify_relay.Delivery.{
  Request, Clock, owner, message_of, claim, claimed_row, conclude, record_attempt, observe,
}
use notify_relay.Delivery.Refusal.{claimable}
use notify_relay.Delivery.Verdict.{record_of_save, verdict, settled_row, settled-row, conclude_lem}
use notify_relay.Delivery.Outcome.{record_attempt-numbered}
use notify_relay.System.{System, Flight, start_run, try_run, Step, Reach}
use notify_relay.System.Defs.{IsSound, Held}
use notify_relay.Scheduler.{
  dispatch_scheduled, in_batch, batch_of, requeued_row, cleanup_ids, delete_messages, id_in,
}
use notify_relay.Scheduler.Batch.{dispatch_scheduled-keeps}
use notify_relay.Services.{insert_message, new_message}
use notify_relay.System.{
  claims, tries, settles, dies, ticks, cleans, inserts, publishes, posts_template, deletes_template,
  creates_key, revokes_key,
}
use notify_relay.System.Settles.{settled_row-apart}
use notify_relay.System.Invariant.{
  published-same, posted-same, destroyed-same, key-same, revoked-same, found-Held, Reach-IsSound,
}
use notify_relay.System.Sweeps.{swept-row}
use notify_relay.System.Claims.{claimed-message}
use notify_relay.System.Life.{Lives, view_of, view, letter_of, stays}
use notify_relay.System.Effects.{start_run-cases, tick-row, id_in-expired, insert_message-cases}
use notify_relay.System.Rules.{
  same_view, same_messages, claim-Lives, between, removed, begun, with_row, taken_by, settled_own,
  tick-Lives,
}

claimed-Lives :
    (request : Request) (k now : ℕ) (s : System) (m : Message) (flights : List Flight)
    → message_of k s.world ≡ some m
    → claimable request m ≡ true
    → (j : ℕ)
    → Lives (view j s) (
        view j (record {
          world = record_of_save k (claimed_row (owner request) now) s.world;
          flights = flights;
        }))
claimed-Lives request k now s m flights found free j = elim (Bool-cases (j == k)) [
  | inr other ↦
      let e : message_of j (taken_by request k now s) ≡ message_of j s.world =
        rw (claimed-message request k now s.world m found free j, other) refl in
      same_view (view j s) _ (ap (Option.map view_of) e)
  | inl same ↦
      let before : message_of j s.world ≡ some m =
        ap (λ i. message_of i s.world) ((==_iff j k).0 same) ∙ found in
      let after : message_of j (taken_by request k now s)
          ≡ some (claimed_row (owner request) now m) =
        rw (claimed-message request k now s.world m found free j, same) refl in
      between before after (claim-Lives (letter_of m) m.status (ground (arith, free)))
]

module _ (s : System) (i : IsSound s) (j : ℕ) where
  start_run-Lives :
      (request : Request) (k now : ℕ)
      → Lives (view j s) (view j (start_run request (claim request k now s.world) s.flights))
  start_run-Lives request k now = elim (start_run-cases request k now s.world s.flights) [
    | inl e ↦ rw e stays
    | inr (m, found, free, e) ↦ rw e (
        claimed-Lives request k now s m
          (record { request = request; message = claimed_row (owner request) now m; tried = none }
            ∷ s.flights)
          found free j)
  ]

  try_run-Lives :
      (f : Flight) (clock : Clock) (r : ChannelResult)
      → Held s.world f
      → Lives (view j s) (
          view j (
            try_run f r
              ((observe (Metric.delivery_duration f.message.channel)
                  >> record_attempt clock f.message r)
                s.world)
              s.flights))
  unfolding try_run
  try_run-Lives f clock r h =
      rw
        (record_attempt-numbered clock f.message r s.world (ap is_some h.row)
          (i.fine f.message.id).numbered)
        stays

  conclude-Lives :
      (f : Flight) (now : ℕ) (r : ChannelResult)
      → Held s.world f
      → Lives
          (view j s)
          (Option.map view_of (message_of j (conclude f.request now f.message r s.world).1))
  conclude-Lives f now r h =
      rw (conclude_lem now f.message r s.world f.request (ap is_some h.row)) (
        rw (settled-row now f.message r s.world j (verdict f.request r))
          (elim (Bool-cases (j == f.message.id)) [
            | inr other ↦ same_view (view j s) _ (
                ap (Option.map view_of)
                  (settled_row-apart now f.message.id j (verdict f.request r) _ other))
            | inl same ↦
                subst
                  (λ n. Lives (Option.map view_of (message_of n s.world)) (
                    Option.map view_of (
                      settled_row now f.message.id n (verdict f.request r) (message_of n s.world))))
                  (sym ((==_iff j f.message.id).0 same))
                  (settled_own now f.message.id s.world f.message (verdict f.request r) h.row
                    h.sending)
          ]))

  tick-cases :
      (skip_locked : Bool) (locked : Message → Bool) (up : ℕ → Bool) (now : ℕ) (o : Option Message)
      → message_of j s.world ≡ o
      → Lives (view j s) (
          Option.map view_of
            (message_of j (dispatch_scheduled skip_locked locked up now s.world).1))
  tick-cases skip_locked locked up now none e = same_view (view j s) _ (
      ap (Option.map view_of) (
        tick-row skip_locked locked up now j s.world
        ∙ ap
            (Option.map (λ m.
              if in_batch (batch_of skip_locked locked now s.world.messages) m
              then requeued_row now m
              else m))
            e
        ∙ sym e))
  tick-cases skip_locked locked up now (some m) e = elim (Bool-cases (is_terminal m.status)) [
    | inl done ↦ same_view (view j s) _ (
        ap (Option.map view_of) (
          dispatch_scheduled-keeps skip_locked locked up now s.world j m i.keys e
            (ground (arith, done))
          ∙ sym e))
    | inr live ↦
        between e
          (tick-row skip_locked locked up now j s.world
            ∙ ap
                (Option.map (λ x.
                  if in_batch (batch_of skip_locked locked now s.world.messages) x
                  then requeued_row now x
                  else x))
                e)
          (tick-Lives (in_batch (batch_of skip_locked locked now s.world.messages)) now m live)
  ]

  swept-cases :
      (now : ℕ) (o : Option Message)
      → message_of j s.world ≡ o
      → Lives (view j s) (
          Option.map view_of
            (message_of j (delete_messages (cleanup_ids now s.world.messages) s.world)))
  swept-cases now none e =
      same_view (view j s) _
        (ap (Option.map view_of) (swept-row now s.world i.keys j ∙ ground (arith, e)))
  swept-cases now (some m) e = elim (Bool-cases (is_terminal m.status)) [
    | inr live ↦ same_view (view j s) _ (
        ap (Option.map view_of) (
          swept-row now s.world i.keys j
          ∙ ground (arith, id_in-expired now j s.world m i.keys e live)))
    | inl done ↦ elim (Bool-cases (id_in (cleanup_ids now s.world.messages) j)) [
      | inr stays_on ↦
          same_view (view j s) _
            (ap (Option.map view_of) (swept-row now s.world i.keys j ∙ ground (arith, stays_on)))
      | inl out ↦ removed e (swept-row now s.world i.keys j ∙ ground (arith, out)) done
    ]
  ]

  insert-cases :
      (m : Message) (o : Option Message)
      → message_of j s.world ≡ o
      → m.status ≡ MessageStatus.queued
      → Lives (view j s) (Option.map view_of (message_of j (with_row m s.world)))
  insert-cases m (some x) e waits =
      between {n = x} e (find_first-append (λ y. y.id) j s.world.messages m ∙ rw e refl) stays
  insert-cases m none e waits = elim (Bool-cases (m.id == j)) [
    | inl new ↦
        begun {m = m} e (find_first-append (λ y. y.id) j s.world.messages m ∙ rw (e, new) refl)
          waits
    | inr other ↦ same_view (view j s) _ (
        ap (Option.map view_of)
          (find_first-append (λ y. y.id) j s.world.messages m ∙ rw (e, other) refl))
  ]

  insert-Lives :
      (m : Message) (w : World)
      → insert_message m s.world ≡ some w
      → m.status ≡ MessageStatus.queued
      → Lives (view j s) (Option.map view_of (message_of j w))
  insert-Lives m w h waits =
      subst (λ v. Lives (view j s) (Option.map view_of (message_of j v)))
        (sym (insert_message-cases m s.world w h).1)
        (insert-cases m (message_of j s.world) refl waits)

-- In every reachable state a transaction takes each message along one step of its life, or leaves
-- it where it is: its letter never changes, it is settled from "sending" only, and it stays settled
-- until the clean-up removes it.
pub Step-Lives : {s t : System} → Reach s → Step s t → (k : ℕ) → Lives (view k s) (view k t)
Step-Lives {s} reach (claims request k now out e) j =
    subst (λ t. Lives (view j s) (view j t)) (sym e)
      (start_run-Lives s (Reach-IsSound reach) j request k now)
Step-Lives {s} reach (tries k f clock r found untried e) j =
    let i = Reach-IsSound reach in
    subst (λ t. Lives (view j s) (view j t)) (sym e)
      (try_run-Lives s i j f clock r (found-Held k s f i found))
Step-Lives {s} reach (settles k now f r found tried e) j =
    let i = Reach-IsSound reach in
    subst (λ t. Lives (view j s) (view j t)) (sym e)
      (conclude-Lives s i j f now r (found-Held k s f i found))
Step-Lives {s} reach (dies k e) j = subst (λ t. Lives (view j s) (view j t)) (sym e) stays
Step-Lives {s} reach (ticks skip_locked locked up now timely e) j =
    subst (λ t. Lives (view j s) (view j t)) (sym e)
      (tick-cases s (Reach-IsSound reach) j skip_locked locked up now (message_of j s.world) refl)
Step-Lives {s} reach (cleans now e) j =
    subst (λ t. Lives (view j s) (view j t)) (sym e)
      (swept-cases s (Reach-IsSound reach) j now (message_of j s.world) refl)
Step-Lives {s} reach (inserts around key idempotency_key d v r seen w since resolved inserted e) j =
    subst (λ t. Lives (view j s) (view j t)) (sym e)
      (insert-Lives s (Reach-IsSound reach) j (new_message around key idempotency_key d v r) w
        inserted refl)
Step-Lives {s} reach (publishes up m e) j =
    subst (λ t. Lives (view j s) (view j t)) (sym e)
      (same_messages j s _ (published-same up m s.world))
Step-Lives {s} reach (posts_template ids user now d e) j =
    subst (λ t. Lives (view j s) (view j t)) (sym e)
      (same_messages j s _ (posted-same ids user now d s.world))
Step-Lives {s} reach (deletes_template now name e) j =
    subst (λ t. Lives (view j s) (view j t)) (sym e)
      (same_messages j s _ (destroyed-same now name s.world))
Step-Lives {s} reach (creates_key hmac pepper draw d e) j =
    subst (λ t. Lives (view j s) (view j t)) (sym e)
      (same_messages j s _ (key-same hmac pepper draw d s.world))
Step-Lives {s} reach (revokes_key now pk e) j =
    subst (λ t. Lives (view j s) (view j t)) (sym e)
      (same_messages j s _ (revoked-same now pk s.world))
