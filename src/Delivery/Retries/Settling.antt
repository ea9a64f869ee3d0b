-- ===== src/Delivery/Retries/Settling.antt =====
-- Every delivery task comes to an end: the proof over the retries of `run_task`.
use notify_relay.Prelude.{
  ℕ, zero, suc, ◌+◌, ◌≡◌, ◌∙◌, refl, ap, true, false, [], ◌∷◌, arith, length, length-append, Option,
  some, String, ◌⊎◌, inl, inr, eq_refl,
}
use notify_relay.Models.{Message}
use notify_relay.State.{World, Result, Raised, ok, raised}
use notify_relay.Channels.{ChannelResult}
use notify_relay.Delivery.{
  Request, Clock, Reply, owner, message_of, claimed_row, send_result, attempts_of, has_dead_letter,
  max_retries,
}
use notify_relay.Delivery.Refusal.{claimable}
use notify_relay.Delivery.Attempts.{IsNumbered}
use notify_relay.Delivery.Verdict.{verdict}
use notify_relay.Delivery.Outcome.{Recorded, row_after, next_attempt}
use notify_relay.Delivery.Retries.{
  Run, Quiet, Settled, retry, request_of, run_once, run_task, is_final, is_dead, verdict-cases,
  claim_quiet, run_once-Recorded,
}

module _ {clock : Clock} {request : Request} {k : ℕ} {m : Message} {r : ChannelResult}
    {before after : World} {result : Result Reply} (w : World)
    (run : Recorded clock request k m r before result after)
    (tried : attempts_of k before.attempts ≡ attempts_of k w.attempts)
    (letter : has_dead_letter k before.dead_letters ≡ has_dead_letter k w.dead_letters) where
  one_more : length (attempts_of k after.attempts) ≡ length (attempts_of k w.attempts) + 1
  one_more =
      ap length run.tried
      ∙ length-append (attempts_of k before.attempts) (next_attempt clock m r before ∷ [])
      ∙ ap (λ l. length l + 1) tried

  -- A run that ends with an answer.
  ended :
      (left : ℕ) (reply : Reply)
      → verdict request r ≡ ok reply
      → is_final reply ≡ true
      → (is_dead reply ≡ false) ⊎ (1 ≡ left + 1)
      → Settled k left w (result, after)
  ended left reply v final exhausted = record {
    reply = reply;
    final = final;
    answer = run.answer ∙ v;
    row = row_after (ok reply) clock.saved m;
    stored = run.row ∙ ap (λ a. some (row_after a clock.saved m)) v;
    status = refl;
    n = 1;
    some_tried = omega arith;
    few_tried = omega arith;
    tried = one_more;
    exhausted = exhausted;
    numbered = run.numbered;
    letter = rw (run.letter, letter, v);
  }

  -- A run that is tried again, from the world `w'` that is left when the retry is due.
  continued :
      (left : ℕ) (e : String) (w' : World) (rest : Result Reply × World)
      → verdict request r ≡ raised (Raised.transient e)
      → attempts_of k w'.attempts ≡ attempts_of k after.attempts
      → has_dead_letter k w'.dead_letters ≡ has_dead_letter k after.dead_letters
      → Settled k left w' rest
      → Settled k (suc left) w rest
  continued left e w' rest v tried' letter' s = record {
    reply = s.reply;
    final = s.final;
    answer = s.answer;
    row = s.row;
    stored = s.stored;
    status = s.status;
    n = s.n + 1;
    some_tried = omega arith;
    few_tried = omega (arith, s.few_tried);
    tried = omega (arith, s.tried, ap length tried', one_more);
    exhausted = ground (arith, s.exhausted);
    numbered = s.numbered;
    letter = rw (s.letter, letter', run.letter, letter, v) (ground arith);
  }

still_claimable :
    (id : Option String) (retries later now : ℕ) (m : Message)
    → claimable (request_of id later) (claimed_row (owner (request_of id retries)) now m) ≡ true
still_claimable id retries later now m = eq_refl (owner (request_of id retries))

retry_ok :
    (x : Result Reply × World) (next : World → Result Reply × World) (reply : Reply)
    → x.0 ≡ ok reply
    → retry x next ≡ x
retry_ok (ok a, w) next reply e = refl
retry_ok (raised (Raised.transient c), w) next reply e = cc
retry_ok (raised c, w) next reply e = refl

retry_again :
    (x : Result Reply × World) (next : World → Result Reply × World) (c : String)
    → x.0 ≡ raised (Raised.transient c)
    → retry x next ≡ next x.1
retry_again (ok a, w) next c e = cc
retry_again (raised (Raised.transient d), w) next c e = refl
retry_again (raised d, w) next c e = cc

-- The runs of a task on a message that it may take, with attempts numbered 1, 2, 3, ..., in
-- surroundings that leave the message alone, always end with an answer: "sent", "failed" or "dead".
-- The message has the status that goes with it, one attempt at least and `left + 1` at most have
-- been added, all of them if the answer is "dead", and there is a dead letter exactly if there was
-- one before or the answer is "failed" or "dead".
pub run_task-Settled :
    (runs : ℕ → Run) (id : Option String) (k : ℕ)
    → ((i : ℕ) → Quiet k (runs i))
    → (left retries : ℕ) (w : World) (m : Message) → retries + left ≡ max_retries
    → message_of k w ≡ some m
    → claimable (request_of id retries) m ≡ true
    → IsNumbered k w.attempts
    → Settled k left w (run_task left runs id retries k w)
unfolding run_task
run_task-Settled runs id k quiet zero retries w m count found free numbered =
    let run = runs retries in
    let request = request_of id retries in
    let mine = claimed_row (owner request) run.clock.claimed m in
    let calm = (quiet retries).others in
    let before = claim_quiet run.others request k run.clock.claimed w m calm found free in
    let one = run_once-Recorded runs id retries k w m calm found free numbered in
    elim (verdict-cases request (send_result (run.send mine))) [
      | inl (reply, v, final, spent) ↦
          ended w one before.1 before.2 0 reply v final (ground (arith, spent))
      | inr (e, v, more) ↦ absurd (omega (arith, more))
    ]
run_task-Settled runs id k quiet (suc left) retries w m count found free numbered =
    let run = runs retries in
    let request = request_of id retries in
    let mine = claimed_row (owner request) run.clock.claimed m in
    let calm = (quiet retries).others in
    let still = (quiet retries).idle in
    let before = claim_quiet run.others request k run.clock.claimed w m calm found free in
    let one = run_once-Recorded runs id retries k w m calm found free numbered in
    let after = (run_once runs id retries k w).1 in
    let rest =
      run_task-Settled runs id k quiet left (retries + 1) (run.idle after) mine (omega arith) in
    elim (verdict-cases request (send_result (run.send mine))) [
      | inl (reply, v, final, spent) ↦
          rw (retry_ok (run_once runs id retries k w) _ reply (one.answer ∙ v))
            (ended w one before.1 before.2 (suc left) reply v final (ground (arith, spent)))
      | inr (e, v, more) ↦ rw (retry_again (run_once runs id retries k w) _ e (one.answer ∙ v)) (
          continued w one before.1 before.2 left e (run.idle after) _ v (still.tried after)
            (still.letter after)
            (rest (still.row after ∙ one.row ∙ ap (λ a. some (row_after a run.clock.saved mine)) v)
              (still_claimable id retries (retries + 1) run.clock.claimed m)
              (rw (still.tried after) one.numbered)))
    ]
