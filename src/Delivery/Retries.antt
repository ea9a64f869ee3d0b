-- ===== src/Delivery/Retries.antt =====
-- The whole life of a delivery task: src/tasks/delivery.py with `autoretry_for=(TransientError,)`
-- and `max_retries=MAX_RETRIES`. Celery runs a task that raised TransientError again under the same
-- id, with one more retry on its request, as often as `max_retries` allows.
pub mod Settling
use notify_relay.Prelude.{
  ℕ, zero, suc, ◌+◌, ◌-◌, ◌≤◌, ◌<◌, ◌≡◌, ◌∙◌, refl, ap, subst, Bool, true, false, ◌||◌, is_some,
  List, [], ◌∷◌, ◌++◌, arith, length, length-append, Option, some, none, String, ◌⊎◌, inl, inr,
  eq_refl, leb, if◌then◌else◌, Bool-cases,
}
use notify_relay.Models.{Message, MessageStatus, is_sending, is_terminal}
use notify_relay.State.{World, Exec, Result, Raised, ok, raised}
use notify_relay.Channels.{ChannelResult, Sent}
use notify_relay.Delivery.{
  Request, Clock, Reply, owner, message_of, claim, dispatch, claimed_row, send_result, attempts_of,
  has_dead_letter, max_retries, or_default,
}
use notify_relay.Delivery.Refusal.{claimable}
use notify_relay.Delivery.Attempts.{IsNumbered}
use notify_relay.Delivery.Verdict.{
  record_of_save, message_of-save, message_of-id, claim-claimable, verdict, status_after, buried,
}
use notify_relay.Delivery.Outcome.{Recorded, dispatch_records, row_after, next_attempt}

-- What surrounds one run: its channel, what others commit while it sends and before the next run.
pub record Run : Type 0 where
  pub send : Message → Sent
  pub others : World → World
  pub idle : World → World
  pub clock : Clock

abbrev pub retry : Result Reply × World → (World → Result Reply × World) → Result Reply × World
retry (raised (Raised.transient e), w) next = next w
retry r next = r

abbrev pub request_of : Option String → ℕ → Request
request_of id retries = record { id = id; retries = retries }

abbrev pub run_once : (ℕ → Run) → Option String → ℕ → ℕ → Exec Reply
run_once runs id retries k =
    dispatch (runs retries).send (runs retries).others (runs retries).clock (request_of id retries)
      k

-- The runs of one task with `left` retries to go.
pub run_task : ℕ → (ℕ → Run) → Option String → ℕ → ℕ → Exec Reply
run_task zero runs id retries k w = run_once runs id retries k w
run_task (suc left) runs id retries k w =
    retry (run_once runs id retries k w)
      (λ w'. run_task left runs id (retries + 1) k ((runs retries).idle w'))

-- `f` leaves message `k` alone: its row, its attempts and its dead letter.
pub record LeavesAlone (k : ℕ) (f : World → World) : Type 0 where
  pub row : (w : World) → message_of k (f w) ≡ message_of k w
  pub tried : (w : World) → attempts_of k (f w).attempts ≡ attempts_of k w.attempts
  pub letter : (w : World) → has_dead_letter k (f w).dead_letters ≡ has_dead_letter k w.dead_letters

pub record Quiet (k : ℕ) (run : Run) : Type 0 where
  pub others : LeavesAlone k run.others
  pub idle : LeavesAlone k run.idle

abbrev pub is_final : Reply → Bool
is_final Reply.sent = true
is_final Reply.failed = true
is_final Reply.dead = true
is_final _ = false

abbrev pub is_dead : Reply → Bool
is_dead Reply.dead = true
is_dead _ = false

-- The end of a task: its answer, the status that goes with it, `n` more attempts, no more than the
-- retries allow and exactly that many if the answer is "dead", and the dead letter.
pub record Settled (k left : ℕ) (before : World) (result : Result Reply × World) : Type 0 where
  pub reply : Reply
  pub final : is_final reply ≡ true
  pub answer : result.0 ≡ ok reply
  pub row : Message
  pub stored : message_of k result.1 ≡ some row
  pub status : row.status ≡ status_after (ok reply)
  pub n : ℕ
  pub some_tried : 1 ≤ n
  pub few_tried : n ≤ left + 1
  pub tried : length (attempts_of k result.1.attempts) ≡ length (attempts_of k before.attempts) + n
  pub exhausted : (is_dead reply ≡ false) ⊎ (n ≡ left + 1)
  pub numbered : IsNumbered k result.1.attempts
  pub letter :
      has_dead_letter k result.1.dead_letters
      ≡ (has_dead_letter k before.dead_letters || buried (ok reply))

-- Either the task ends with an answer, or a retry is due and allowed.
verdict-cases :
    (request : Request) (r : ChannelResult)
    → ((reply : Reply) × (verdict request r ≡ ok reply)
        × (is_final reply ≡ true)
        × ((is_dead reply ≡ false) ⊎ (max_retries ≤ request.retries)))
      ⊎ ((e : String) × (verdict request r ≡ raised (Raised.transient e))
          × (request.retries < max_retries))
verdict-cases request r = elim (Bool-cases r.success) [
  | inl good ↦ inl (Reply.sent, rw good, refl, inl refl)
  | inr bad ↦ elim (Bool-cases r.transient) [
    | inr permanent ↦ inl (Reply.failed, rw (bad, permanent), refl, inl refl)
    | inl passing ↦ elim (Bool-cases (leb max_retries request.retries)) [
      | inl spent ↦ inl (Reply.dead, rw (bad, passing, spent), refl, inr (ground arith))
      | inr more ↦
          inr
            (or_default r.error_message "transient failure", rw (bad, passing, more), ground arith)
    ]
  ]
]

-- In quiet surroundings the channel finds the message claimed, and its records as they were.
claim_quiet :
    (f : World → World) (request : Request) (k now : ℕ) (w : World) (m : Message)
    → LeavesAlone k f
    → message_of k w ≡ some m
    → claimable request m ≡ true
    → let before = f (claim request k now w).1 in
      (message_of k before ≡ some (claimed_row (owner request) now m))
      × (attempts_of k before.attempts ≡ attempts_of k w.attempts)
      × (has_dead_letter k before.dead_letters ≡ has_dead_letter k w.dead_letters)
unfolding record_of_save
claim_quiet f request k now w m quiet found free =
    rw (claim-claimable request k now w m found free) (
      quiet.row _
          ∙ message_of-save k k (claimed_row (owner request) now) w (λ x. refl)
          ∙ ground (arith, found),
      quiet.tried _,
      quiet.letter _,
    )

-- One run of a message that the task may take, in quiet surroundings.
run_once-Recorded :
    (runs : ℕ → Run) (id : Option String) (retries k : ℕ) (w : World) (m : Message)
    → LeavesAlone k (runs retries).others
    → message_of k w ≡ some m
    → claimable (request_of id retries) m ≡ true
    → IsNumbered k w.attempts
    → let run = runs retries in
      let mine = claimed_row (owner (request_of id retries)) run.clock.claimed m in
      let before = run.others (claim (request_of id retries) k run.clock.claimed w).1 in
      let result = run_once runs id retries k w in
      Recorded run.clock
        (request_of id retries)
        k
        mine
        (send_result (run.send mine))
        before
        result.0
        result.1
run_once-Recorded runs id retries k w m quiet found free numbered =
    let run = runs retries in
    let before =
      claim_quiet run.others (request_of id retries) k run.clock.claimed w m quiet found free in
    dispatch_records _ _ _ _ k w m found free before.0 (rw (before.1) numbered)
