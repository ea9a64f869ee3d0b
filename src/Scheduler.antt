-- ===== src/Scheduler.antt =====
-- src/tasks/scheduler.py: the housekeeping tasks that Celery Beat starts.
-- ORDER BY follows PostgreSQL, where NULL comes last. `locked` marks the rows that another
-- transaction holds, and `up i` says whether the broker takes the i-th task of a batch.
pub mod Publish
pub mod Batch
pub mod Cleanup
mod Tests
use notify_relay.Prelude.{
  ℕ, zero, suc, ◌+◌, ◌-◌, Bool, true, false, not, ◌&&◌, ◌||◌, Option, none, some, List, [], ◌∷◌,
  map, ltb, leb, ◌==◌, if◌then◌else◌, any, select, take, length, update_where, order_by, is_some,
}
use notify_relay.Models.{
  Message, MessageStatus, is_terminal, is_sending, is_queued, minutes, hours, days,
}
use notify_relay.State.{World, Exec, ok, pure, gets, modify, ◌>>=◌, ◌>>◌}
use notify_relay.Delivery.{enqueue_for}

abbrev pub dispatch_batch_size : ℕ
dispatch_batch_size = 200

abbrev pub reenqueue_after : ℕ
reenqueue_after = minutes 15

abbrev pub stale_sending_after : ℕ
stale_sending_after = hours 2

abbrev pub cleanup_age_days : ℕ
cleanup_age_days = 90

abbrev pub cleanup_batch_size : ℕ
cleanup_batch_size = 1000

-- A comparison with NULL is not true.
abbrev pub reached : Option ℕ → ℕ → Bool
reached none now = false
reached (some t) now = leb t now

abbrev pub passed : Option ℕ → ℕ → Bool
passed none t = false
passed (some s) t = ltb s t

-- The three `Q` objects of `dispatch_scheduled` and their combination.
abbrev pub due : ℕ → Message → Bool
due now m = not (is_some m.enqueued_at) && reached m.scheduled_at now

abbrev pub stranded : ℕ → Message → Bool
stranded now m = passed m.enqueued_at (now - reenqueue_after)

abbrev pub stale : ℕ → Message → Bool
stale now m = is_sending m.status && ltb m.updated_at (now - stale_sending_after)

unfoldable pub selected : ℕ → Message → Bool
selected now m = ((due now m || stranded now m) && is_queued m.status) || stale now m

-- `order_by("scheduled_at", "created_at")`.
abbrev pub time_before : Option ℕ → Option ℕ → Bool
time_before none none = false
time_before none (some t) = false
time_before (some s) none = true
time_before (some s) (some t) = ltb s t

pub scheduled_before : Message → Message → Bool
scheduled_before a b =
    time_before a.scheduled_at b.scheduled_at
    || (not (time_before b.scheduled_at a.scheduled_at) && leb a.created_at b.created_at)

-- The batch: the first unlocked rows, or the first rows where the database cannot skip locked ones
-- and waits for them.
abbrev pub free_row : Bool → (Message → Bool) → Message → Bool
free_row skip_locked locked m = not (skip_locked && locked m)

pub candidates : Bool → (Message → Bool) → ℕ → List Message → List Message
candidates skip_locked locked now l =
    order_by scheduled_before (select (λ m. selected now m && free_row skip_locked locked m) l)

pub batch_of : Bool → (Message → Bool) → ℕ → List Message → List Message
batch_of skip_locked locked now l = take dispatch_batch_size (candidates skip_locked locked now l)

-- `pk__in=[m.pk for m in batch]`.
abbrev pub in_batch : List Message → Message → Bool
in_batch batch m = any (λ b. b.id == m.id) batch

abbrev pub requeued_row : ℕ → Message → Message
requeued_row now m = record m {
  status = MessageStatus.queued;
  claimed_by = "";
  enqueued_at = some now;
  updated_at = now;
}

abbrev pub requeue : ℕ → List Message → World → World
requeue now batch w = record w {
  messages = update_where (in_batch batch) (requeued_row now) w.messages;
}

-- `_enqueue_all`: an error of the broker leaves the loop.
pub enqueue_all : (ℕ → Bool) → ℕ → List Message → Exec (Unit {0})
enqueue_all up i [] = pure tt
enqueue_all up i (m ∷ l) = do enqueue_for (up i) m; enqueue_all up (i + 1) l

pub dispatch_scheduled : Bool → (Message → Bool) → (ℕ → Bool) → ℕ → Exec ℕ
dispatch_scheduled skip_locked locked up now = do
  batch ← gets (λ w. batch_of skip_locked locked now w.messages)
  modify (requeue now batch)
  enqueue_all up 0 batch
  pure (length batch)

-- `base_qs` of `cleanup_old_messages`.
unfoldable pub expired : ℕ → Message → Bool
expired now m = is_terminal m.status && ltb m.created_at (now - days cleanup_age_days)

-- `Meta.ordering` of `Message`.
abbrev pub newest_first : Message → Message → Bool
newest_first a b = leb b.created_at a.created_at

-- `list(base_qs.values_list("pk", flat=True)[:CLEANUP_BATCH_SIZE])`.
pub cleanup_ids : ℕ → List Message → List ℕ
cleanup_ids now l =
    map (λ m. m.id) (take cleanup_batch_size (order_by newest_first (select (expired now) l)))

abbrev pub id_in : List ℕ → ℕ → Bool
id_in ids k = any (λ i. i == k) ids

-- `.delete()` takes the attempts and the dead letters of the messages along (CASCADE).
unfoldable pub delete_messages : List ℕ → World → World
delete_messages ids w = record w {
  messages = select (λ m. not (id_in ids m.id)) w.messages;
  attempts = select (λ a. not (id_in ids a.message)) w.attempts;
  dead_letters = select (λ d. not (id_in ids d.message)) w.dead_letters;
}

abbrev pub row_count : World → ℕ
row_count w = length w.messages + length w.attempts + length w.dead_letters

-- The number that Django's `delete()` returns counts every deleted row, the cascaded ones too.
abbrev pub deleted : World → World → ℕ
deleted before after = row_count before - row_count after

-- The loop of `cleanup_old_messages` on fuel; `none` means that the fuel ran out.
pub cleanup_loop : ℕ → ℕ → ℕ → World → Option (ℕ × World)
cleanup_loop zero now total w = none
cleanup_loop (suc fuel) now total w =
    let ids = cleanup_ids now w.messages in
    let w' = delete_messages ids w in
    let total' = total + deleted w w' in
    let rest = cleanup_loop fuel now total' w' in
    if length ids == 0
    then some (total, w)
    else if ltb (length ids) cleanup_batch_size
    then some (total', w')
    else rest

-- Every round deletes a message, so one round more than there are messages is enough.
pub cleanup_old_messages : ℕ → World → Option (ℕ × World)
unfolding cleanup_loop
cleanup_old_messages now w = cleanup_loop (length w.messages + 1) now 0 w
