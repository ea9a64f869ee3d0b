-- ===== src/System/Sourced.antt =====
-- Every message of a System has the template that it was rendered from.
use notify_relay.Prelude.{
  ℕ, ◌≡◌, refl, sym, ap, subst, ◌∙◌, Bool, true, not, is_some, inl, inr, arith, All-select,
  All-append, select, by_key,
}
use notify_relay.Models.{Message, MessageStatus, DeadLetter}
use notify_relay.State.{World, Result, ok, raised, ◌>>◌, Metric}
use notify_relay.Channels.{ChannelResult}
use notify_relay.Delivery.{
  with_status, Request, Clock, Reply, owner, claim, claimed_row, record_attempt, observe,
  get_or_create_dead_letter,
}
use notify_relay.Delivery.Verdict.{verdict, record_of_save, settled, bury-messages, conclude_lem}
use notify_relay.Delivery.Outcome.{stored, record_attempt-numbered}
use notify_relay.Scheduler.{
  dispatch_scheduled, in_batch, batch_of, requeued_row, cleanup_ids, delete_messages, id_in,
}
use notify_relay.Scheduler.Batch.{dispatch_scheduled_lem}
use notify_relay.System.{
  System, Flight, start_run, try_run, Step, Reach, start, later, claims, tries, settles, dies,
  ticks, cleans, inserts, publishes, posts_template, deletes_template, creates_key, revokes_key,
}
use notify_relay.System.Defs.{IsSound, Held}
use notify_relay.System.Effects.{start_run-cases, insert_message-cases}
use notify_relay.System.Invariant.{
  published-same, posted-same, destroyed-same, key-same, revoked-same, found-Held, Reach-IsSound,
}
use notify_relay.Services.Sources.{resolve_template-source}
use notify_relay.System.Sources.{
  AllSourced, Sourced, is_sourced, same-Keeps, kept, updated, unchanged,
}
use notify_relay.System.Library.{Step-Keeps, tick-Keeps, sweep-Keeps}

saved-sourced :
    (k now : ℕ) (status : MessageStatus) (w : World)
    → AllSourced w
    → AllSourced (record_of_save k (with_status status now) w)
unfolding record_of_save
saved-sourced k now status w h =
    let after = record_of_save k (with_status status now) w in
    updated w after (same-Keeps w after refl refl) (by_key (λ x. x.id) k) (with_status status now)
      (λ x. refl) refl h

buried-sourced :
    (d : DeadLetter) (w : World) → AllSourced w → AllSourced (get_or_create_dead_letter d w)
unfolding get_or_create_dead_letter
buried-sourced d w h =
    let after = get_or_create_dead_letter d w in
    unchanged w after (same-Keeps w after (ground arith) (ground arith)) (bury-messages d w) h

settled-sourced :
    (now : ℕ) (m : Message) (r : ChannelResult) (w : World) (v : Result Reply)
    → AllSourced w
    → AllSourced (settled now m r w v)
unfolding settled
settled-sourced now m r w (ok Reply.sent) h = saved-sourced m.id now MessageStatus.sent w h
settled-sourced now m r w (ok Reply.failed) h =
    buried-sourced _ _ (saved-sourced m.id now MessageStatus.failed w h)
settled-sourced now m r w (ok Reply.dead) h =
    buried-sourced _ _ (saved-sourced m.id now MessageStatus.dead w h)
settled-sourced now m r w (ok Reply.noop) h = h
settled-sourced now m r w (ok Reply.duplicate) h = h
settled-sourced now m r w (raised e) h = h

module _ (s : System) (h : AllSourced s.world) where
  start_run-sourced :
      (request : Request) (k now : ℕ)
      → AllSourced (start_run request (claim request k now s.world) s.flights).world
  unfolding record_of_save
  start_run-sourced request k now = elim (start_run-cases request k now s.world s.flights) [
    | inl e ↦ rw e h
    | inr (m, found, free, e) ↦
        let after = record_of_save k (claimed_row (owner request) now) s.world in
        rw e (
          updated s.world after (same-Keeps s.world after refl refl) (by_key (λ x. x.id) k)
            (claimed_row (owner request) now) (λ x. refl) refl h)
  ]

  try_run-sourced :
      (i : IsSound s) (f : Flight) (clock : Clock) (r : ChannelResult)
      → Held s.world f
      → AllSourced
          (try_run f r
            ((observe (Metric.delivery_duration f.message.channel)
                >> record_attempt clock f.message r)
              s.world)
            s.flights).world
  unfolding try_run
  try_run-sourced i f clock r held =
      let after = stored clock f.message r s.world in
      rw
        (record_attempt-numbered clock f.message r s.world (ap is_some held.row)
          (i.fine f.message.id).numbered)
        (unchanged s.world after (same-Keeps s.world after refl refl) refl h)

  ticked-sourced :
      (skip_locked : Bool) (locked : Message → Bool) (up : ℕ → Bool) (now : ℕ)
      → AllSourced (dispatch_scheduled skip_locked locked up now s.world).1
  ticked-sourced skip_locked locked up now =
      updated s.world (dispatch_scheduled skip_locked locked up now s.world).1
        (tick-Keeps s skip_locked locked up now)
        (in_batch (batch_of skip_locked locked now s.world.messages)) (requeued_row now) (λ x. refl)
        (ap (λ v. v.1.messages) (dispatch_scheduled_lem skip_locked locked up now s.world)) h

  swept-sourced :
      (now : ℕ) → AllSourced (delete_messages (cleanup_ids now s.world.messages) s.world)
  unfolding delete_messages
  swept-sourced now =
      let gone = id_in (cleanup_ids now s.world.messages) in
      kept s.world (delete_messages (cleanup_ids now s.world.messages) s.world) (sweep-Keeps s now)
        (select (λ m. not (gone m.id)) s.world.messages)
        (All-select _ (λ m. not (gone m.id)) s.world.messages h)

-- A step that leaves the messages as they are.
step_apart :
    {s t : System}
    → Reach s
    → Step s t
    → t.world.messages ≡ s.world.messages
    → AllSourced s.world
    → AllSourced t.world
step_apart {s} {t} reach step same h = unchanged s.world t.world (Step-Keeps reach step) same h

Step-sourced : {s t : System} → Reach s → Step s t → AllSourced s.world → AllSourced t.world
Step-sourced {s} reach (claims request k now out e) h =
    subst (λ u. AllSourced u.world) (sym e) (start_run-sourced s h request k now)
Step-sourced {s} reach (tries k f clock r flying untried e) h =
    let i = Reach-IsSound reach in
    subst (λ u. AllSourced u.world) (sym e)
      (try_run-sourced s h i f clock r (found-Held k s f i flying))
Step-sourced {s} reach (settles k now f r flying tried e) h =
    let held = found-Held k s f (Reach-IsSound reach) flying in
    subst (λ u. AllSourced u.world) (sym e)
      (rw (conclude_lem now f.message r s.world f.request (ap is_some held.row))
        (settled-sourced now f.message r s.world (verdict f.request r) h))
Step-sourced {s} reach (dies k e) h = step_apart reach (dies k e) (ap (λ u. u.world.messages) e) h
Step-sourced {s} reach (ticks skip_locked locked up now timely e) h =
    subst (λ u. AllSourced u.world) (sym e) (ticked-sourced s h skip_locked locked up now)
Step-sourced {s} reach (cleans now e) h =
    subst (λ u. AllSourced u.world) (sym e) (swept-sourced s h now)
Step-sourced {s} reach (inserts around key idempotency_key d v r seen w since resolved inserted e)
      h =
    let known = since.source d.channel v.id (resolve_template-source d seen v resolved) in
    subst (λ u. AllSourced u.world) (sym e)
      (subst AllSourced (sym (insert_message-cases _ s.world w inserted).1)
        (All-append (λ m. is_sourced s.world m ≡ true) s.world.messages _ h (known, tt)))
Step-sourced {s} reach (publishes up m e) h =
    step_apart reach (publishes up m e)
      (ap (λ u. u.world.messages) e ∙ (published-same up m s.world).messages) h
Step-sourced {s} reach (posts_template ids user now d e) h =
    step_apart reach (posts_template ids user now d e)
      (ap (λ u. u.world.messages) e ∙ (posted-same ids user now d s.world).messages) h
Step-sourced {s} reach (deletes_template now name e) h =
    step_apart reach (deletes_template now name e)
      (ap (λ u. u.world.messages) e ∙ (destroyed-same now name s.world).messages) h
Step-sourced {s} reach (creates_key hmac pepper draw d e) h =
    step_apart reach (creates_key hmac pepper draw d e)
      (ap (λ u. u.world.messages) e ∙ (key-same hmac pepper draw d s.world).messages) h
Step-sourced {s} reach (revokes_key now pk e) h =
    step_apart reach (revokes_key now pk e)
      (ap (λ u. u.world.messages) e ∙ (revoked-same now pk s.world).messages) h

-- In every reachable state the template version of each message, if it has one, is in its table, and
-- it belongs to a template for the message's channel; if each request resolves its template by
-- `_resolve_template` in a database whose versions and templates are still there when it inserts.
pub Reach-sourced : {s : System} → Reach s → AllSourced s.world
Reach-sourced (start s new) = subst (Sourced s.world) (sym new.no_messages) tt
Reach-sourced (later s t r st) = Step-sourced r st (Reach-sourced r)
