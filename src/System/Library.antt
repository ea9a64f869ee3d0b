-- ===== src/System/Library.antt =====
-- The templates and versions of a System stay, so what a request has resolved is there when its
-- message is inserted.
use notify_relay.Prelude.{ℕ, ◌≡◌, refl, sym, ap, subst, Bool, true, some, is_some, inl, inr, arith}
use notify_relay.Models.{Message}
use notify_relay.State.{World, Result, ok, raised, ◌>>◌, Metric}
use notify_relay.Channels.{ChannelResult}
use notify_relay.Delivery.{
  Request, Clock, Reply, owner, claim, claimed_row, record_attempt, observe, enqueue_for,
  get_or_create_dead_letter,
}
use notify_relay.Delivery.Verdict.{verdict, record_of_save, settled, conclude_lem}
use notify_relay.Delivery.Outcome.{stored, record_attempt-numbered}
use notify_relay.Scheduler.{dispatch_scheduled, cleanup_ids, delete_messages}
use notify_relay.Scheduler.Batch.{dispatch_scheduled_lem}
use notify_relay.Services.{enqueue_after_commit}
use notify_relay.Templating.Sources.{has_source, Keeps, create-source, destroy-source}
use notify_relay.Authentication
use notify_relay.System.{
  System, Flight, start_run, try_run, Step, Reach, later, claims, tries, settles, dies, ticks,
  cleans, inserts, publishes, posts_template, deletes_template, creates_key, revokes_key,
}
use notify_relay.System.Defs.{IsSound, Held}
use notify_relay.System.Effects.{start_run-cases, insert_message-cases}
use notify_relay.System.Invariant.{found-Held, Reach-IsSound}
use notify_relay.System.Sources.{same-Keeps}
use notify_relay.Services.{insert_message}
use notify_relay.Authentication.{ApiKeyData, KeyDraw}
use notify_relay.Prelude.{String}
use notify_relay.System.Progress.{Run, rest, next}
use notify_relay.Services.{ValidatedData, resolve_template}
use notify_relay.Services.Sources.{resolve_template-source}
use notify_relay.Models.{TemplateVersion}

pub settled-Keeps :
    (now : ℕ) (m : Message) (r : ChannelResult) (w : World) (v : Result Reply)
    → Keeps w (settled now m r w v)
unfolding settled record_of_save get_or_create_dead_letter
settled-Keeps now m r w (ok Reply.sent) = same-Keeps w (settled now m r w (ok Reply.sent)) refl refl
settled-Keeps now m r w (ok Reply.failed) =
    same-Keeps w (settled now m r w (ok Reply.failed)) (ground arith) (ground arith)
settled-Keeps now m r w (ok Reply.dead) =
    same-Keeps w (settled now m r w (ok Reply.dead)) (ground arith) (ground arith)
settled-Keeps now m r w (ok Reply.noop) = same-Keeps w w refl refl
settled-Keeps now m r w (ok Reply.duplicate) = same-Keeps w w refl refl
settled-Keeps now m r w (raised e) = same-Keeps w w refl refl

module _ (s : System) where
  abbrev KeepsTo : World → Type 0
  KeepsTo = Keeps s.world

  start_run-Keeps :
      (request : Request) (k now : ℕ)
      → KeepsTo (start_run request (claim request k now s.world) s.flights).world
  unfolding record_of_save
  start_run-Keeps request k now = elim (start_run-cases request k now s.world s.flights) [
    | inl e ↦ rw e (same-Keeps s.world s.world refl refl)
    | inr (m, found, free, e) ↦
        let after = record_of_save k (claimed_row (owner request) now) s.world in
        rw e (same-Keeps s.world after refl refl)
  ]

  try_run-Keeps :
      (i : IsSound s) (f : Flight) (clock : Clock) (r : ChannelResult)
      → Held s.world f
      → KeepsTo
          (try_run f r
            ((observe (Metric.delivery_duration f.message.channel)
                >> record_attempt clock f.message r)
              s.world)
            s.flights).world
  unfolding try_run
  try_run-Keeps i f clock r held =
      let after = stored clock f.message r s.world in
      rw
        (record_attempt-numbered clock f.message r s.world (ap is_some held.row)
          (i.fine f.message.id).numbered)
        (same-Keeps s.world after refl refl)

  pub tick-Keeps :
      (skip_locked : Bool) (locked : Message → Bool) (up : ℕ → Bool) (now : ℕ)
      → KeepsTo (dispatch_scheduled skip_locked locked up now s.world).1
  tick-Keeps skip_locked locked up now =
      let run = dispatch_scheduled skip_locked locked up now s.world in
      let e = dispatch_scheduled_lem skip_locked locked up now s.world in
      same-Keeps s.world run.1 (ap (λ v. v.1.templates) e) (ap (λ v. v.1.versions) e)

  pub sweep-Keeps : (now : ℕ) → KeepsTo (delete_messages (cleanup_ids now s.world.messages) s.world)
  unfolding delete_messages
  sweep-Keeps now =
      same-Keeps s.world (delete_messages (cleanup_ids now s.world.messages) s.world) refl refl

  insert-Keeps : (m : Message) (w : World) → insert_message m s.world ≡ some w → KeepsTo w
  insert-Keeps m w h =
      let e = (insert_message-cases m s.world w h).1 in
      same-Keeps s.world w (ap (λ v. v.templates) e) (ap (λ v. v.versions) e)

  publish-Keeps : (up : Bool) (m : Message) → KeepsTo (enqueue_after_commit up m s.world)
  unfolding enqueue_after_commit enqueue_for
  publish-Keeps up m =
      same-Keeps s.world (enqueue_after_commit up m s.world) (ground arith) (ground arith)

  key-Keeps :
      (hmac : String → String → String) (pepper : String) (draw : KeyDraw) (d : ApiKeyData)
      → KeepsTo (Authentication.create_key hmac pepper draw d s.world).1
  unfolding Authentication.create_key
  key-Keeps hmac pepper draw d =
      same-Keeps s.world (Authentication.create_key hmac pepper draw d s.world).1 (ground arith)
        (ground arith)

  revoke-Keeps : (now pk : ℕ) → KeepsTo (Authentication.revoke now pk s.world).1
  unfolding Authentication.revoke
  revoke-Keeps now pk =
      same-Keeps s.world (Authentication.revoke now pk s.world).1 (ground arith) (ground arith)

pub Step-Keeps : {s t : System} → Reach s → Step s t → Keeps s.world t.world
Step-Keeps {s} reach (claims request k now out e) =
    subst (λ u. Keeps s.world u.world) (sym e) (start_run-Keeps s request k now)
Step-Keeps {s} reach (tries k f clock r flying untried e) =
    let i = Reach-IsSound reach in
    subst (λ u. Keeps s.world u.world) (sym e)
      (try_run-Keeps s i f clock r (found-Held k s f i flying))
Step-Keeps {s} reach (settles k now f r flying tried e) =
    let held = found-Held k s f (Reach-IsSound reach) flying in
    subst (λ u. Keeps s.world u.world) (sym e)
      (rw (conclude_lem now f.message r s.world f.request (ap is_some held.row))
        (settled-Keeps now f.message r s.world (verdict f.request r)))
Step-Keeps {s} reach (dies k e) =
    subst (λ u. Keeps s.world u.world) (sym e) (same-Keeps s.world s.world refl refl)
Step-Keeps {s} reach (ticks skip_locked locked up now timely e) =
    subst (λ u. Keeps s.world u.world) (sym e) (tick-Keeps s skip_locked locked up now)
Step-Keeps {s} reach (cleans now e) = subst (λ u. Keeps s.world u.world) (sym e) (sweep-Keeps s now)
Step-Keeps {s} reach (inserts around key idempotency_key d v r seen w since resolved inserted e) =
    subst (λ u. Keeps s.world u.world) (sym e) (insert-Keeps s _ w inserted)
Step-Keeps {s} reach (publishes up m e) =
    subst (λ u. Keeps s.world u.world) (sym e) (publish-Keeps s up m)
Step-Keeps {s} reach (posts_template ids user now d e) =
    subst (λ u. Keeps s.world u.world) (sym e)
      (record { source = λ c k here. create-source ids user now d s.world c k here })
Step-Keeps {s} reach (deletes_template now name e) =
    subst (λ u. Keeps s.world u.world) (sym e)
      (record { source = λ c k here. destroy-source now s.world c k here name })
Step-Keeps {s} reach (creates_key hmac pepper draw d e) =
    subst (λ u. Keeps s.world u.world) (sym e) (key-Keeps s hmac pepper draw d)
Step-Keeps {s} reach (revokes_key now pk e) =
    subst (λ u. Keeps s.world u.world) (sym e) (revoke-Keeps s now pk)

-- A run of the system takes no version and no template away.
pub Run-Keeps : {s t : System} → Reach s → Run s t → Keeps s.world t.world
Run-Keeps {s} reach rest = same-Keeps s.world s.world refl refl
Run-Keeps {s} reach (next {t = u} step run) = record {
  source = λ c k here.
      (Run-Keeps (later s u reach step) run).source c k ((Step-Keeps reach step).source c k here);
}

-- The version that a request has resolved in a reachable state belongs to a template for the
-- request's channel, and both are still there after any run of the system.
pub resolved-stays :
    {s t : System} (d : ValidatedData) (v : TemplateVersion)
    → Reach s
    → Run s t
    → resolve_template d s.world ≡ some v
    → has_source t.world.templates t.world.versions d.channel v.id ≡ true
resolved-stays {s} d v reach run found =
    (Run-Keeps reach run).source d.channel v.id (resolve_template-source d s.world v found)
