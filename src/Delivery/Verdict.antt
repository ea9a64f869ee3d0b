-- ===== src/Delivery/Verdict.antt =====
-- What one run of the task of src/tasks/delivery.py leaves behind, branch by branch.
use mathlib.Core.Option
use notify_relay.Prelude.{
  ℕ, ◌≡◌, refl, ap, Bool, true, false, ◌&&◌, ◌||◌, not, is_some, List, [], ◌∷◌, ◌++◌, ◌==◌, ==_iff,
  Bool-cases, inl, inr, arith, Option, some, none, if◌then◌else◌, leb, find_first,
  find_first-passes, find_first-update_where, update_where, by_key, Distinct, Distinct-update_where,
  str_append, String,
}
use notify_relay.Models.{Message, MessageStatus, DeadLetter}
use notify_relay.State.{World, Result, Raised, ok, raised, Metric}
use notify_relay.Channels.{ChannelResult}
use notify_relay.Delivery.Refusal.{claimable}
use notify_relay.Delivery.{
  Request, Reply, go, owner, message_of, claim, claimed_row, save_message, has_dead_letter,
  get_or_create_dead_letter, conclude, with_status, max_retries, or_default, snapshot,
}

unfoldable pub record_of_save : ℕ → (Message → Message) → World → World
record_of_save k f w = record w { messages = update_where (by_key (λ m. m.id) k) f w.messages }

abbrev pub IdKept : (Message → Message) → Type 0
IdKept f = (m : Message) → (f m).id ≡ m.id

pub message_of-save :
    (k j : ℕ) (f : Message → Message) (w : World)
    → IdKept f
    → message_of j (record_of_save k f w) ≡ (
        if j == k
        then elim (message_of j w) [ none ↦ none | some m ↦ some (f m) ]
        else message_of j w)
unfolding record_of_save
message_of-save k j f w keep =
    ground (arith, find_first-update_where (λ m. m.id) f keep k j w.messages)

pub message_of-id : (k : ℕ) (w : World) (m : Message) → message_of k w ≡ some m → m.id ≡ k
message_of-id k w m e = (==_iff m.id k).0 (find_first-passes (by_key (λ x. x.id) k) w.messages m e)

pub save_message-found :
    (k : ℕ) (f : Message → Message) (w : World)
    → is_some (message_of k w) ≡ true
    → save_message k f w ≡ (ok tt, record_of_save k f w)
unfolding save_message record_of_save
save_message-found k f w e = rw e

-- A claim that succeeds marks the row and returns it.
pub claim-claimable :
    (request : Request) (k now : ℕ) (w : World) (m : Message)
    → message_of k w ≡ some m
    → claimable request m ≡ true
    → claim request k now w ≡ (
      ok (go (claimed_row (owner request) now m)),
      record_of_save k (claimed_row (owner request) now) w,
    )
unfolding claim record_of_save
claim-claimable request k now w m found free = let e = message_of-id k w m found in ground (arith)

-- The policy in one place: what the task answers, as a function of the channel's result.
abbrev pub verdict : Request → ChannelResult → Result Reply
verdict request r =
    if r.success
    then ok Reply.sent
    else if not r.transient
    then ok Reply.failed
    else if leb max_retries request.retries
    then ok Reply.dead
    else raised (Raised.transient (or_default r.error_message "transient failure"))

-- The status that goes with an answer; a run that will be retried leaves the message "sending".
abbrev pub status_after : Result Reply → MessageStatus
status_after (ok Reply.sent) = MessageStatus.sent
status_after (ok Reply.failed) = MessageStatus.failed
status_after (ok Reply.dead) = MessageStatus.dead
status_after _ = MessageStatus.sending

-- The answers after which the message lies in the dead-letter table.
abbrev pub buried : Result Reply → Bool
buried (ok Reply.failed) = true
buried (ok Reply.dead) = true
buried _ = false

has_dead_letter-append :
    (k : ℕ) (l : List DeadLetter) (d : DeadLetter)
    → has_dead_letter k (l ++ d ∷ []) ≡ (has_dead_letter k l || (d.message == k))
has_dead_letter-append k [] d = ground arith
has_dead_letter-append k (e ∷ l) d = ground (arith, has_dead_letter-append k l d)

module _ (d : DeadLetter) (w : World) where
  -- A dead letter is added for its message and for no other.
  pub bury-dead_letters :
      (j : ℕ)
      → has_dead_letter j (get_or_create_dead_letter d w).dead_letters
        ≡ (has_dead_letter j w.dead_letters || (d.message == j))
  unfolding get_or_create_dead_letter
  bury-dead_letters j = elim (Bool-cases (d.message == j)) [
    | inl same ↦ ground (
      arith,
      ap (λ k. has_dead_letter k w.dead_letters) ((==_iff d.message j).0 same),
      has_dead_letter-append j w.dead_letters d,
    )
    | inr other ↦ ground (arith, has_dead_letter-append j w.dead_letters d)
  ]

  pub bury-messages : (get_or_create_dead_letter d w).messages ≡ w.messages
  unfolding get_or_create_dead_letter
  bury-messages = ground arith

  pub bury-attempts : (get_or_create_dead_letter d w).attempts ≡ w.attempts
  unfolding get_or_create_dead_letter
  bury-attempts = ground arith

abbrev letter : Message → String → ℕ → DeadLetter
letter m reason now = record {
  message = m.id;
  reason = reason;
  payload_snapshot = snapshot m;
  created_at = now;
}

abbrev counted : Message → MessageStatus → World → World
counted m s w = record w { metrics = Metric.messages_total m.channel s ∷ w.metrics }

-- The row of message `j` when message `k` has been settled.
abbrev pub settled_row : ℕ → ℕ → ℕ → Result Reply → Option Message → Option Message
settled_row now k j (ok Reply.noop) row = row
settled_row now k j (ok Reply.duplicate) row = row
settled_row now k j (raised e) row = row
settled_row now k j v row =
    if j == k then Option.map (with_status (status_after v) now) row else row

module _ (now : ℕ) (m : Message) (r : ChannelResult) (w : World) where
  -- The world after `conclude`, by its answer.
  unfoldable pub settled : Result Reply → World
  settled (ok Reply.sent) =
      counted m MessageStatus.sent (record_of_save m.id (with_status MessageStatus.sent now) w)
  settled (ok Reply.failed) = counted m MessageStatus.failed (
      get_or_create_dead_letter (letter m (str_append "permanent: " r.error_message) now)
        (record_of_save m.id (with_status MessageStatus.failed now) w))
  settled (ok Reply.dead) = counted m MessageStatus.dead (
      get_or_create_dead_letter (letter m (str_append "exhausted: " r.error_message) now)
        (record_of_save m.id (with_status MessageStatus.dead now) w))
  settled _ = w

  saved :
      (s : MessageStatus) (j : ℕ)
      → find_first
          (by_key (λ x. x.id) j)
          (update_where (by_key (λ x. x.id) m.id) (with_status s now) w.messages)
        ≡ (if j == m.id then Option.map (with_status s now) (message_of j w) else message_of j w)
  saved s j = find_first-update_where (λ x. x.id) (with_status s now) (λ x. refl) m.id j w.messages

  restamped :
      (s : MessageStatus)
      → Distinct (λ x. x.id) w.messages
      → Distinct (λ x. x.id) (update_where (by_key (λ x. x.id) m.id) (with_status s now) w.messages)
  restamped s keys =
      Distinct-update_where (λ x. x.id) (by_key (λ x. x.id) m.id) (with_status s now) (λ x. refl)
        w.messages keys

  pub settled-row :
      (j : ℕ) (v : Result Reply)
      → message_of j (settled v) ≡ settled_row now m.id j v (message_of j w)
  unfolding settled record_of_save
  settled-row j (ok Reply.sent) = saved MessageStatus.sent j
  settled-row j (ok Reply.failed) = rw bury-messages (saved MessageStatus.failed j)
  settled-row j (ok Reply.dead) = rw bury-messages (saved MessageStatus.dead j)
  settled-row j _ = refl

  pub settled-buried :
      (j : ℕ) (v : Result Reply)
      → has_dead_letter j (settled v).dead_letters
        ≡ (has_dead_letter j w.dead_letters || (buried v && m.id == j))
  unfolding settled record_of_save
  settled-buried j (ok Reply.failed) = bury-dead_letters _ _ j
  settled-buried j (ok Reply.dead) = bury-dead_letters _ _ j
  settled-buried j _ = ground arith

  pub settled-attempts : (v : Result Reply) → (settled v).attempts ≡ w.attempts
  unfolding settled record_of_save
  settled-attempts (ok Reply.failed) = bury-attempts _ _
  settled-attempts (ok Reply.dead) = bury-attempts _ _
  settled-attempts _ = refl

  pub settled-keys :
      (v : Result Reply)
      → Distinct (λ x. x.id) w.messages
      → Distinct (λ x. x.id) (settled v).messages
  unfolding settled record_of_save
  settled-keys (ok Reply.sent) keys = restamped MessageStatus.sent keys
  settled-keys (ok Reply.failed) keys = rw bury-messages (restamped MessageStatus.failed keys)
  settled-keys (ok Reply.dead) keys = rw bury-messages (restamped MessageStatus.dead keys)
  settled-keys (ok Reply.noop) keys = keys
  settled-keys (ok Reply.duplicate) keys = keys
  settled-keys (raised e) keys = keys

  pub conclude_lem :
      (request : Request)
      → is_some (message_of m.id w) ≡ true
      → conclude request now m r w ≡ (verdict request r, settled (verdict request r))
  unfolding conclude settled record_of_save
  conclude_lem request there = ground arith
