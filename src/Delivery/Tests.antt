-- ===== src/Delivery/Tests.antt =====
-- Runs of the delivery task on concrete messages.
use notify_relay.Prelude.{refl, ℕ, some}
use notify_relay.Delivery.{Request, owner, claim, dispatch, claimed_row, send_result, max_retries}
use notify_relay.Delivery.Outcome.{Recorded, when_sent, dispatch_records}
use notify_relay.Delivery.Retries.{Run, Quiet, Settled, run_task}
use notify_relay.Delivery.Retries.Settling.{run_task-Settled}
use notify_relay.Samples.{nobody, shop, order_5, clock, timed_out}

abbrev last_try : Request
last_try = record { id = some "task"; retries = 6 }

-- The last retry of a message whose endpoint does not answer.
dispatch_records_example :
    Recorded clock last_try 5
      (claimed_row (owner last_try) clock.claimed order_5)
      (send_result (timed_out (claimed_row (owner last_try) clock.claimed order_5)))
      (when_sent nobody clock last_try 5 shop)
      (dispatch timed_out nobody clock last_try 5 shop).0
      (dispatch timed_out nobody clock last_try 5 shop).1
unfolding claim
dispatch_records_example =
    dispatch_records timed_out nobody clock last_try 5 shop order_5 refl refl refl tt

abbrev silent : ℕ → Run
silent i = record { send = timed_out; others = nobody; idle = nobody; clock = clock }

silent-Quiet : (i : ℕ) → Quiet 5 (silent i)
silent-Quiet i = record {
  others = record { row = λ w. refl; tried = λ w. refl; letter = λ w. refl };
  idle = record { row = λ w. refl; tried = λ w. refl; letter = λ w. refl };
}

-- The seven runs of a message whose endpoint never answers.
run_task-Settled_example :
    Settled 5 max_retries shop (run_task max_retries silent (some "task") 0 5 shop)
run_task-Settled_example =
    run_task-Settled silent (some "task") 5 silent-Quiet max_retries 0 shop order_5 refl refl refl
      tt
