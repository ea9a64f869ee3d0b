-- ===== src/Delivery/Outcome.antt =====
-- One whole run of `_dispatch` of src/tasks/delivery.py on a message that the task may take.
use notify_relay.Prelude.{
  ℕ, ◌+◌, ◌≡◌, ◌∙◌, refl, subst, ap, true, ◌||◌, is_some, [], ◌∷◌, ◌++◌, ==_refl, arith, length,
  some,
}
use notify_relay.Models.{Message, DeliveryAttempt}
use notify_relay.State.{World, Result, Metric, ok, raised}
use notify_relay.Channels.{ChannelResult, Sent}
use notify_relay.Delivery.Refusal.{claimable}
use notify_relay.Delivery.{
  Request, Clock, Reply, go, owner, message_of, claim, deliver, dispatch, claimed_row, send_result,
  map_result, attempts_of, has_dead_letter, record_attempt, with_status,
}
use notify_relay.Delivery.Attempts.{
  IsNumbered, IsNumbered-append, attempts_of-append, create_attempt-fresh,
}
use notify_relay.Delivery.Verdict.{
  record_of_save, message_of-id, claim-claimable, verdict, status_after, buried, settled,
  settled_row, settled-row, settled-buried, settled-attempts, conclude_lem,
}

-- The attempt that a run stores as number `n`.
abbrev pub attempt_row : Clock → Message → ChannelResult → ℕ → DeliveryAttempt
attempt_row clock m r n = record {
  message = m.id;
  attempt_no = n;
  started_at = clock.started;
  finished_at = some clock.finished;
  result = map_result r;
  http_status = r.http_status;
  smtp_code = r.smtp_code;
  error_message = r.error_message;
}

abbrev pub next_attempt : Clock → Message → ChannelResult → World → DeliveryAttempt
next_attempt clock m r w = attempt_row clock m r (length (attempts_of m.id w.attempts) + 1)

-- The world when the attempt is stored and its metrics are counted.
abbrev pub stored : Clock → Message → ChannelResult → World → World
stored clock m r w = record w {
  metrics =
      Metric.delivery_attempts_total m.channel (map_result r)
      ∷ Metric.delivery_duration m.channel
      ∷ w.metrics;
  attempts = w.attempts ++ next_attempt clock m r w ∷ [];
}

pub record_attempt-numbered :
    (clock : Clock) (m : Message) (r : ChannelResult) (w : World)
    → is_some (message_of m.id w) ≡ true
    → IsNumbered m.id w.attempts
    → record_attempt clock m r
        (record w { metrics = Metric.delivery_duration m.channel ∷ w.metrics })
      ≡ (ok tt, stored clock m r w)
unfolding record_attempt
record_attempt-numbered clock m r w there numbered =
    create_attempt-fresh (next_attempt clock m r w) _ there numbered refl

-- The rest of the task, when nobody has touched the message while its channel was busy.
deliver-go :
    (send : Message → Sent) (others : World → World) (clock : Clock) (request : Request)
    (m : Message) (w : World)
    → is_some (message_of m.id (others w)) ≡ true
    → IsNumbered m.id (others w).attempts
    → let r = send_result (send m) in
      deliver send others clock request (go m) w ≡ (
        verdict request r,
        settled clock.saved m r (stored clock m r (others w)) (verdict request r),
      )
unfolding deliver
deliver-go send others clock request m w there numbered =
    let r = send_result (send m) in
    rw (record_attempt-numbered clock m r (others w) there numbered)
      (conclude_lem clock.saved m r (stored clock m r (others w)) request there)

-- The row of message `k` once the task has answered `v`: settled by an answer, still claimed
-- while a retry is due.
abbrev pub row_after : Result Reply → ℕ → Message → Message
row_after (ok reply) now m = with_status (status_after (ok reply)) now m
row_after (raised e) now m = m

-- What a run leaves: its answer, the message's row, the attempt behind the older ones, their
-- numbering, and the dead letter.
pub record Recorded (clock : Clock) (request : Request) (k : ℕ) (m : Message) (r : ChannelResult)
    (before : World) (reply : Result Reply) (after : World) : Type 0 where
  pub answer : reply ≡ verdict request r
  pub row : message_of k after ≡ some (row_after (verdict request r) clock.saved m)
  pub tried :
      attempts_of k after.attempts
      ≡ attempts_of k before.attempts ++ next_attempt clock m r before ∷ []
  pub numbered : IsNumbered k after.attempts
  pub letter :
      has_dead_letter k after.dead_letters
      ≡ (has_dead_letter k before.dead_letters || buried (verdict request r))

settled_row-own :
    (now k : ℕ) (m : Message) (request : Request) (r : ChannelResult)
    → settled_row now k k (verdict request r) (some m) ≡ some (row_after (verdict request r) now m)
settled_row-own now k m request r = ground arith

deliver-Recorded :
    (send : Message → Sent) (others : World → World) (clock : Clock) (request : Request)
    (m : Message) (w : World)
    → message_of m.id (others w) ≡ some m
    → IsNumbered m.id (others w).attempts
    → let run = deliver send others clock request (go m) w in
      Recorded clock request m.id m (send_result (send m)) (others w) run.0 run.1
deliver-Recorded send others clock request m w kept numbered =
    let r = send_result (send m) in
    let v = verdict request r in
    let there = ap is_some kept in
    let b = stored clock m r (others w) in
    let a = next_attempt clock m r (others w) in
    rw (deliver-go send others clock request m w there numbered) (record {
      answer = refl;
      row =
          settled-row clock.saved m r b m.id v
          ∙ ap (settled_row clock.saved m.id m.id v) kept
          ∙ settled_row-own clock.saved m.id m request r;
      tried =
          ap (attempts_of m.id) (settled-attempts clock.saved m r b v)
          ∙ attempts_of-append m.id (others w).attempts a refl;
      numbered =
          rw settled-attempts (IsNumbered-append m.id a (others w).attempts refl refl numbered);
      letter = settled-buried clock.saved m r b m.id v ∙ ground (arith, ==_refl m.id);
    })

deliver-Recorded_at :
    (send : Message → Sent) (others : World → World) (clock : Clock) (request : Request)
    (m : Message) (w : World) (k : ℕ)
    → m.id ≡ k
    → message_of k (others w) ≡ some m
    → IsNumbered k (others w).attempts
    → let run = deliver send others clock request (go m) w in
      Recorded clock request k m (send_result (send m)) (others w) run.0 run.1
deliver-Recorded_at send others clock request m w k same =
    subst
      (λ j.
        message_of j (others w) ≡ some m
        → IsNumbered j (others w).attempts
        → Recorded clock request j m (send_result (send m)) (others w)
            (deliver send others clock request (go m) w).0
            (deliver send others clock request (go m) w).1)
      same (deliver-Recorded send others clock request m w)

-- What the task finds when the channel is done: its claim, and what others committed meanwhile.
abbrev pub when_sent : (World → World) → Clock → Request → ℕ → World → World
when_sent others clock request k w = others (claim request k clock.claimed w).1

-- A task that takes a message: if the message is as claimed when the channel is done, and its
-- attempts are numbered 1, 2, 3, ..., then the task answers by the verdict's table, the message
-- has the status that goes with the answer, one attempt with the next number stands behind the
-- older ones, and the message has a dead letter if it had one or has just failed or died.
pub dispatch_records :
    (send : Message → Sent) (others : World → World) (clock : Clock) (request : Request) (k : ℕ)
    (w : World) (m : Message)
    → message_of k w ≡ some m
    → claimable request m ≡ true
    → message_of k (when_sent others clock request k w)
      ≡ some (claimed_row (owner request) clock.claimed m)
    → IsNumbered k (when_sent others clock request k w).attempts
    → Recorded clock request k
        (claimed_row (owner request) clock.claimed m)
        (send_result (send (claimed_row (owner request) clock.claimed m)))
        (when_sent others clock request k w)
        (dispatch send others clock request k w).0
        (dispatch send others clock request k w).1
unfolding dispatch
dispatch_records send others clock request k w m found free kept numbered =
    let same = message_of-id k w m found in
    let taken = claim-claimable request k clock.claimed w m found free in
    rw taken (
      deliver-Recorded_at send others clock request (claimed_row (owner request) clock.claimed m)
        (record_of_save k (claimed_row (owner request) clock.claimed) w) k same
        (rw (when_sent, taken) at kept) (rw (when_sent, taken) at numbered))
