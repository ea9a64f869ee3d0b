-- ===== src/Delivery.antt =====
-- src/tasks/delivery.py: the delivery task of one message, from the claim to the verdict.
-- `send` is the channel's own code, `others` is what other processes commit while it runs, and
-- `clock` holds the times that `timezone.now()` returns on the way.

pub mod Refusal
pub mod Attempts
pub mod Verdict
pub mod Outcome
pub mod Retries
mod Tests
use notify_relay.Prelude.{
  ℕ, ◌+◌, String, Bool, true, false, not, ◌&&◌, Option, none, some, is_some, List, [], ◌∷◌, leb,
  ◌++◌, ◌==◌, if◌then◌else◌, str_eq, str_append, find_first, update_where, by_key, any, select,
  length,
}
use notify_relay.Models.{
  Message, DeliveryAttempt, DeadLetter, Snapshot, Channel, MessageStatus, AttemptResult,
  is_terminal, is_sending,
}
use notify_relay.State.{
  World, Exec, Raised, Metric, TaskName, Task, ok, raised, pure, raise, gets, modify, atomic, ◌>>=◌,
  ◌>>◌, does_not_exist, integrity_error, database_error, broker_error,
}
use notify_relay.Channels.{ChannelResult, Sent, returned, threw}

abbrev pub max_retries : ℕ
max_retries = 6

-- The strings that `_dispatch` returns.
pub data Reply : Type 0 where
  noop duplicate sent failed dead : Reply

-- `task.request`.
pub record Request : Type 0 where
  pub id : Option String
  pub retries : ℕ

pub record Clock : Type 0 where
  pub claimed : ℕ
  pub started : ℕ
  pub finished : ℕ
  pub saved : ℕ

abbrev pub or_default : String → String → String
or_default s d = if str_eq s "" then d else s

-- `str(task.request.id or "")`.
abbrev pub owner : Request → String
owner request = elim request.id [ none ↦ "" | some i ↦ i ]

abbrev pub message_of : ℕ → World → Option Message
message_of k w = find_first (by_key (λ m. m.id) k) w.messages

abbrev found_message : Option Message → Exec Message
found_message none = raise does_not_exist
found_message (some m) = pure m

-- `Message.objects.get(pk=k)`.
abbrev pub get_message : ℕ → Exec Message
get_message k w = found_message (message_of k w) w

-- `msg.save(update_fields=...)`, where `f` writes those fields; Django raises if no row is left.
pub save_message : ℕ → (Message → Message) → Exec (Unit {0})
save_message k f w =
    if is_some (message_of k w)
    then (ok tt, record w { messages = update_where (by_key (λ m. m.id) k) f w.messages })
    else (raised database_error, w)

-- `messages_total.labels(...).inc()` and the like.
abbrev pub observe : Metric → Exec (Unit {0})
observe m = modify (λ w. record w { metrics = m ∷ w.metrics })

abbrev pub with_status : MessageStatus → ℕ → Message → Message
with_status s now m = record m { status = s; updated_at = now }

abbrev pub claimed_row : String → ℕ → Message → Message
claimed_row o now m = record m { status = MessageStatus.sending; claimed_by = o; updated_at = now }

pub data Claim : Type 0 where
  stop : Reply → Claim
  go : Message → Claim

claim_row : String → ℕ → Message → Exec Claim
unfolding save_message
claim_row o now m =
    if is_terminal m.status
    then pure (stop noop)
    else if is_sending m.status && not (str_eq m.claimed_by o)
    then pure (stop duplicate)
    else do save_message m.id (claimed_row o now); pure (go (claimed_row o now m))

-- The first transaction of `_dispatch`.
unfoldable pub claim : Request → ℕ → ℕ → Exec Claim
unfolding claim_row
claim request k now = atomic do m ← get_message k; claim_row (owner request) now m

-- `try: channel.send(msg) except Exception`.
abbrev pub send_result : Sent → ChannelResult
send_result (returned r) = r
send_result (threw e) = record {
  success = false;
  transient = true;
  error_message = e;
  http_status = none;
  smtp_code = none;
}

-- `_map_result`.
abbrev pub map_result : ChannelResult → AttemptResult
map_result r =
    if r.success
    then AttemptResult.success
    else if r.transient
    then AttemptResult.transient_error
    else AttemptResult.permanent_error

abbrev pub attempts_of : ℕ → List DeliveryAttempt → List DeliveryAttempt
attempts_of k = select (λ a. a.message == k)

-- `DeliveryAttempt.objects.create`: the message must be there, and the number be new to it.
pub create_attempt : DeliveryAttempt → Exec (Unit {0})
create_attempt a w =
    if is_some (message_of a.message w)
      && not (any (λ b. b.attempt_no == a.attempt_no) (attempts_of a.message w.attempts))
    then (ok tt, record w { attempts = w.attempts ++ a ∷ [] })
    else (raised integrity_error, w)

-- The rows from `started = timezone.now()` to the creation of the attempt.
unfoldable pub record_attempt : Clock → Message → ChannelResult → Exec (Unit {0})
unfolding create_attempt
record_attempt clock m r = do
  observe (Metric.delivery_attempts_total m.channel (map_result r))
  n ← gets (λ w. length (attempts_of m.id w.attempts))
  create_attempt (record {
    message = m.id;
    attempt_no = n + 1;
    started_at = clock.started;
    finished_at = some clock.finished;
    result = map_result r;
    http_status = r.http_status;
    smtp_code = r.smtp_code;
    error_message = r.error_message;
  })

-- `_snapshot`.
abbrev pub snapshot : Message → Snapshot
snapshot m = record {
  id = m.id;
  channel = m.channel;
  recipient = m.recipient;
  rendered_subject = m.rendered_subject;
  rendered_body = m.rendered_body;
  context = m.context;
  priority = m.priority;
}

abbrev pub has_dead_letter : ℕ → List DeadLetter → Bool
has_dead_letter k = any (λ d. d.message == k)

-- `DeadLetter.objects.get_or_create(message=msg, defaults=...)`.
unfoldable pub get_or_create_dead_letter : DeadLetter → World → World
get_or_create_dead_letter d w =
    if has_dead_letter d.message w.dead_letters
    then w
    else record w { dead_letters = w.dead_letters ++ d ∷ [] }

-- `_move_to_dead_letter`.
pub move_to_dead_letter : Message → MessageStatus → String → ℕ → Exec (Unit {0})
unfolding save_message
move_to_dead_letter m s reason now = atomic do
  save_message m.id (with_status s now)
  modify (
      get_or_create_dead_letter (record {
        message = m.id;
        reason = reason;
        payload_snapshot = snapshot m;
        created_at = now;
      }))

-- The end of `_dispatch`, from `if result.success`.
unfoldable pub conclude : Request → ℕ → Message → ChannelResult → Exec Reply
unfolding save_message move_to_dead_letter
conclude request now m r =
    if r.success
    then (do
      save_message m.id (with_status MessageStatus.sent now)
      observe (Metric.messages_total m.channel MessageStatus.sent)
      pure sent)
    else if not r.transient
    then (do
      move_to_dead_letter m MessageStatus.failed (str_append "permanent: " r.error_message) now
      observe (Metric.messages_total m.channel MessageStatus.failed)
      pure failed)
    else if leb max_retries request.retries
    then (do
      move_to_dead_letter m MessageStatus.dead (str_append "exhausted: " r.error_message) now
      observe (Metric.messages_total m.channel MessageStatus.dead)
      pure dead)
    else raise (Raised.transient (or_default r.error_message "transient failure"))

-- All of `_dispatch` after the claim.
pub deliver : (Message → Sent) → (World → World) → Clock → Request → Claim → Exec Reply
unfolding record_attempt conclude
deliver send others clock request (stop reply) = pure reply
deliver send others clock request (go m) = do
  modify others
  observe (Metric.delivery_duration m.channel)
  record_attempt clock m (send_result (send m))
  conclude request clock.saved m (send_result (send m))

-- `_dispatch(task, message_id, channel)`.
pub dispatch : (Message → Sent) → (World → World) → Clock → Request → ℕ → Exec Reply
dispatch send others clock request k = do
  c ← claim request k clock.claimed
  deliver send others clock request c

-- The task and the queue that `enqueue_for` picks.
abbrev pub task_for : Channel → TaskName
task_for Channel.email = TaskName.send_email
task_for Channel.webhook = TaskName.send_webhook

abbrev pub task_of : Message → Task
task_of m = record { name = task_for m.channel; message_id = m.id; queue = m.priority }

-- `enqueue_for(message)`; `up` says whether the broker takes the task.
unfoldable pub enqueue_for : Bool → Message → Exec (Unit {0})
enqueue_for up m w =
    if up
    then (ok tt, record w { broker = w.broker ++ task_of m ∷ [] })
    else (raised broker_error, w)
