-- ===== src/System/Effects.antt =====
-- What the transactions do to the rows of one message.
use notify_relay.Prelude.{
  ℕ, ◌≡◌, refl, ap, Bool, true, false, none, some, List, [], ◌∷◌, ◌++◌, ◌⊎◌, inl, inr, Bool-cases,
  if◌then◌else◌, arith, Distinct, select, has_key, by_key, find_first-update_rows, find_first-All,
  select-apart,
}
use mathlib.Core.Option
use notify_relay.Models.{Message, is_terminal}
use notify_relay.State.{World}
use notify_relay.Delivery.{Request, owner, message_of, claim, claimed_row}
use notify_relay.Delivery.Refusal.{claimable, claim-stops}
use notify_relay.Delivery.Verdict.{message_of-id, record_of_save, claim-claimable}
use notify_relay.Scheduler.{
  cleanup_ids, id_in, expired, dispatch_scheduled, in_batch, batch_of, requeued_row,
}
use notify_relay.Scheduler.Batch.{dispatch_scheduled_lem}
use notify_relay.Scheduler.Cleanup.{ids-expired}
use notify_relay.Services.{insert_message, has_id}
use notify_relay.System.{Flight, start_run}

-- A claim either takes the message or lets nothing happen.
pub start_run-cases :
    (request : Request) (k now : ℕ) (w : World) (flights : List Flight)
    → (start_run request (claim request k now w) flights ≡ record { world = w; flights = flights })
      ⊎ ((m : Message) × (message_of k w ≡ some m)
          × (claimable request m ≡ true)
          × (start_run request (claim request k now w) flights ≡ record {
            world = record_of_save k (claimed_row (owner request) now) w;
            flights =
                record {
                  request = request;
                  message = claimed_row (owner request) now m;
                  tried = none;
                }
                ∷ flights;
          }))
unfolding start_run
start_run-cases request k now w flights = elim (claim-stops request k now w) [
  | inl missing ↦ inl (rw missing)
  | inr (inl (m, found, free)) ↦
      inr (m, found, free, rw (claim-claimable request k now w m found free))
  | inr (inr (reply, e)) ↦ inl (rw e)
]

-- The row of message `k` after a tick.
pub tick-row :
    (skip_locked : Bool) (locked : Message → Bool) (up : ℕ → Bool) (now k : ℕ) (w : World)
    → message_of k (dispatch_scheduled skip_locked locked up now w).1
      ≡ Option.map
          (λ m.
            if in_batch (batch_of skip_locked locked now w.messages) m
            then requeued_row now m
            else m)
          (message_of k w)
tick-row skip_locked locked up now k w = rw (dispatch_scheduled_lem skip_locked locked up now w) (
    find_first-update_rows (λ m. m.id) (in_batch (batch_of skip_locked locked now w.messages))
      (requeued_row now) (λ m. refl) k w.messages)

-- The clean-up deletes finished messages only.
pub id_in-expired :
    (now k : ℕ) (w : World) (m : Message)
    → Distinct (λ x. x.id) w.messages
    → message_of k w ≡ some m
    → is_terminal m.status ≡ false
    → id_in (cleanup_ids now w.messages) k ≡ false
unfolding expired
id_in-expired now k w m keys found live =
    let same = message_of-id k w m found in
    let apart =
      find_first-All _ (by_key (λ x. x.id) k) w.messages m
        (select-apart (λ x. x.id) (expired now) w.messages keys) found in
    elim (Bool-cases (id_in (cleanup_ids now w.messages) k)) [
      | inr out ↦ out
      | inl named ↦ absurd (
          ground (
            arith,
            ids-expired now w.messages k named,
            same,
            ap (λ i. has_key (λ x. x.id) i (select (expired now) w.messages)) same,
            apart,
          ))
    ]

pub insert_message-cases :
    (m : Message) (w w' : World)
    → insert_message m w ≡ some w'
    → (has_id m.id w.messages ≡ false) × (w' ≡ record w { messages = w.messages ++ m ∷ [] })
unfolding insert_message
insert_message-cases m w w' h = ground (arith, h)
