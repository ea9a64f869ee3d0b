-- ===== src/Scheduler/Batch.antt =====
-- The batch of `dispatch_scheduled` of src/tasks/scheduler.py.
use mathlib.Core.Option
use notify_relay.Prelude.{
  ℕ, ◌+◌, ◌≤◌, ◌<◌, ◌≡◌, refl, ◌∙◌, sym, ap, Bool, true, false, ◌&&◌, ◌||◌, List, [], ◌∷◌, ◌++◌,
  map, some, none, arith, All, select, drop, length, length-take, length-order_by, All-take,
  All-order_by, order_by, order_by-IsOrdered, take-before-drop, if◌then◌else◌, any, any-take,
  any-order_by, take_all, ◌==◌, Distinct, select-apart, find_first-All, find_first-passes,
  has_key-found, ==_iff, by_key, has_key, inl, inr, Bool-cases, find_first, find_first-update_rows,
  leb, update_where,
}
use notify_relay.Models.{Message, MessageStatus, is_terminal, is_sending}
use notify_relay.State.{World, ok, raised, broker_error}
use notify_relay.Delivery.{message_of, task_of}
use notify_relay.Scheduler.{
  selected, scheduled_before, candidates, batch_of, free_row, in_batch, requeued_row, requeue,
  dispatch_scheduled, dispatch_batch_size, reenqueue_after, stale_sending_after,
}
use notify_relay.Scheduler.Publish.{accepted, all_accepted, enqueue_all_lem}

select-All {ℓ} : {A : Type ℓ} (p : A → Bool) (xs : List A) → All (λ x. p x ≡ true) (select p xs)
select-All p [] = tt
select-All p (x ∷ xs) = ground (arith, select-All p xs)

before-total : (a b : Message) → scheduled_before a b ≡ false → scheduled_before b a ≡ true
unfolding scheduled_before
before-total a b h = ground arith

before_trans :
    (a b c : Message)
    → scheduled_before a b ≡ true
    → scheduled_before b c ≡ true
    → scheduled_before a c ≡ true
unfolding scheduled_before
before_trans a b c h k = ground arith

busy-not-selected :
    (now : ℕ) (m : Message)
    → (is_terminal m.status
        || (is_sending m.status && leb now (m.updated_at + stale_sending_after)))
      ≡ true
    → selected now m ≡ false
unfolding selected
busy-not-selected now m h = ground arith

pub finished-not-selected :
    (now : ℕ) (m : Message) → is_terminal m.status ≡ true → selected now m ≡ false
unfolding selected
finished-not-selected now m h = ground arith

selected-scheduled :
    (now s : ℕ) (m : Message)
    → m.status ≡ MessageStatus.queued
    → m.enqueued_at ≡ none
    → m.scheduled_at ≡ some s
    → selected now m ≡ leb s now
unfolding selected
selected-scheduled now s m waits unsent at = ground arith

module _ (skip_locked : Bool) (locked : Message → Bool) (now : ℕ) (l : List Message) where
  abbrev pub wanted : Message → Bool
  wanted m = selected now m && free_row skip_locked locked m

  -- The batch holds at most 200 messages, each of them due, stranded or stale and not locked, and
  -- each comes before every candidate that is left for the next tick, by `scheduled_at` and then
  -- `created_at`.
  pub batch_of-IsFirst :
      (length (batch_of skip_locked locked now l) ≤ dispatch_batch_size)
      × All
          (λ m. (selected now m && free_row skip_locked locked m) ≡ true)
          (batch_of skip_locked locked now l)
      × All
          (λ m.
            All
              (λ y. scheduled_before m y ≡ true)
              (drop dispatch_batch_size (candidates skip_locked locked now l)))
          (batch_of skip_locked locked now l)
  unfolding batch_of candidates
  batch_of-IsFirst = (
    omega (arith, length-take dispatch_batch_size (order_by scheduled_before (select wanted l))),
    All-take _ dispatch_batch_size _ (All-order_by scheduled_before _ _ (select-All wanted l)),
    take-before-drop scheduled_before dispatch_batch_size _
        (order_by-IsOrdered scheduled_before before-total before_trans (select wanted l)),
  )

  -- The batch is drawn from the selected rows.
  batch-selected :
      (k : ℕ)
      → has_key (λ m. m.id) k (batch_of skip_locked locked now l) ≡ true
      → has_key (λ m. m.id) k (select wanted l) ≡ true
  unfolding batch_of candidates
  batch-selected k h =
      sym (any-order_by scheduled_before (λ m. m.id == k) (select wanted l))
      ∙ any-take (λ m. m.id == k) dispatch_batch_size (order_by scheduled_before (select wanted l))
          h

  -- A row that is not wanted is not in the batch, nor is another row of its key.
  pub not-in_batch :
      (k : ℕ) (m : Message)
      → Distinct (λ x. x.id) l
      → find_first (by_key (λ x. x.id) k) l ≡ some m
      → selected now m ≡ false
      → in_batch (batch_of skip_locked locked now l) m ≡ false
  not-in_batch k m distinct found out = ground (
    arith,
    find_first-All _ (by_key (λ x. x.id) k) l m (select-apart (λ x. x.id) wanted l distinct) found,
    batch-selected m.id,
  )

  found-key : (k : ℕ) (m : Message) → find_first (by_key (λ x. x.id) k) l ≡ some m → m.id ≡ k
  found-key k m found = (==_iff m.id k).0 (find_first-passes (by_key (λ x. x.id) k) l m found)

  pub in_batch-wanted :
      (k : ℕ) (m : Message)
      → Distinct (λ x. x.id) l
      → find_first (by_key (λ x. x.id) k) l ≡ some m
      → length (select wanted l) ≤ dispatch_batch_size
      → in_batch (batch_of skip_locked locked now l) m ≡ wanted m
  unfolding batch_of candidates
  in_batch-wanted k m distinct found room =
      let sorted = order_by scheduled_before (select wanted l) in
      ap (any (λ b. b.id == m.id)) (
        take_all dispatch_batch_size sorted
          (omega (arith, length-order_by scheduled_before (select wanted l))))
      ∙ any-order_by scheduled_before (λ b. b.id == m.id) (select wanted l)
      ∙ elim (Bool-cases (wanted m)) [
        | inl hit ↦ ground (
          arith,
          ap (λ j. has_key (λ x. x.id) j (select wanted l)) (found-key k m found),
          has_key-found (λ x. x.id) k wanted l m found,
        )
        | inr miss ↦ ground (
          arith,
          find_first-All _ (by_key (λ x. x.id) k) l m (select-apart (λ x. x.id) wanted l distinct)
              found,
        )
      ]

module _ (skip_locked : Bool) (locked : Message → Bool) (up : ℕ → Bool) (now : ℕ) (w : World) where
  abbrev chosen : List Message
  chosen = batch_of skip_locked locked now w.messages

  -- The rows of the batch are requeued whatever the broker says; the task publishes one delivery
  -- task for each message of the batch, up to the first that the broker refuses, and answers the
  -- size of the batch unless one is refused.
  pub dispatch_scheduled_lem : dispatch_scheduled skip_locked locked up now w ≡ (
    (if all_accepted up 0 (batch_of skip_locked locked now w.messages)
        then ok (length (batch_of skip_locked locked now w.messages))
        else raised broker_error),
    record w {
      messages =
          update_where
            (in_batch (batch_of skip_locked locked now w.messages))
            (requeued_row now)
            w.messages;
      broker = w.broker ++ map task_of (accepted up 0 (batch_of skip_locked locked now w.messages));
    },
  )
  unfolding dispatch_scheduled
  dispatch_scheduled_lem =
      rw (enqueue_all_lem up 0 chosen (requeue now chosen w))
        (elim (Bool-cases (all_accepted up 0 chosen)) [ inl e ↦ rw e refl | inr e ↦ rw e refl ])

  row_after_tick :
      (k : ℕ)
      → message_of k (dispatch_scheduled skip_locked locked up now w).1
        ≡ Option.map (λ m. if in_batch chosen m then requeued_row now m else m) (message_of k w)
  row_after_tick k = rw dispatch_scheduled_lem (
      find_first-update_rows (λ m. m.id) (in_batch chosen) (requeued_row now) (λ m. refl) k
        w.messages)

  -- A tick leaves finished messages alone, and messages that a task has claimed within the last
  -- two hours.
  pub dispatch_scheduled-keeps :
      (k : ℕ) (m : Message)
      → Distinct (λ x. x.id) w.messages
      → message_of k w ≡ some m
      → (is_terminal m.status
          || (is_sending m.status && leb now (m.updated_at + stale_sending_after)))
        ≡ true
      → message_of k (dispatch_scheduled skip_locked locked up now w).1 ≡ some m
  dispatch_scheduled-keeps k m distinct found busy =
      row_after_tick k
      ∙ ground (
        arith,
        found,
        not-in_batch skip_locked locked now w.messages k m distinct found
            (busy-not-selected now m busy),
      )

  -- A message of the batch waits in the queue again, unclaimed, and if its task is lost (the
  -- broker refused or dropped it) it is selected by every tick later than 15 minutes from now.
  pub dispatch_scheduled-requeues :
      (k later : ℕ) (m : Message)
      → message_of k w ≡ some m
      → in_batch (batch_of skip_locked locked now w.messages) m ≡ true
      → now + reenqueue_after < later
      → (message_of k (dispatch_scheduled skip_locked locked up now w).1
          ≡ some (requeued_row now m))
        × (selected later (requeued_row now m) ≡ true)
  unfolding selected
  dispatch_scheduled-requeues k later m found drawn late =
      (row_after_tick k ∙ ground (arith, found), ground arith)

  -- A scheduled message that has not been released and is not locked stays as it is until its
  -- time; the first tick at or after its time puts it into the batch, if no more than 200 messages
  -- are wanted then.
  pub dispatch_scheduled-releases :
      (k s : ℕ) (m : Message)
      → Distinct (λ x. x.id) w.messages
      → message_of k w ≡ some m
      → length (select (λ x. selected now x && free_row skip_locked locked x) w.messages)
        ≤ dispatch_batch_size
      → m.status ≡ MessageStatus.queued
      → m.enqueued_at ≡ none
      → m.scheduled_at ≡ some s
      → locked m ≡ false
      → message_of k (dispatch_scheduled skip_locked locked up now w).1
        ≡ some (if leb s now then requeued_row now m else m)
  dispatch_scheduled-releases k s m distinct found room waits unsent at unlocked =
      row_after_tick k
      ∙ ground (
        arith,
        found,
        in_batch-wanted skip_locked locked now w.messages k m distinct found room,
        selected-scheduled now s m waits unsent at,
      )
