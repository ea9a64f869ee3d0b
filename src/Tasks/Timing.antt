-- ===== src/Tasks/Timing.antt =====
-- When the runs of one task follow each other: the retry options of src/tasks/delivery.py, the
-- limits of Celery in src/notify_relay/settings/base.py, and STALE_SENDING_AFTER of
-- src/tasks/scheduler.py. Celery draws the countdown of a retry: it is a parameter.
use notify_relay.Prelude.{ℕ, zero, suc, ◌+◌, ◌*◌, ◌^◌, ◌≤◌, ◌≡◌, min, false, arith}
use notify_relay.Models.{Message, MessageStatus}
use notify_relay.Delivery.{max_retries}
use notify_relay.Scheduler.{selected, stale_sending_after}

abbrev pub seconds : ℕ → ℕ
seconds n = n * 1000000

abbrev pub retry_backoff_base : ℕ
retry_backoff_base = seconds 30

abbrev pub retry_backoff_max : ℕ
retry_backoff_max = seconds 3600

abbrev pub task_time_limit : ℕ
task_time_limit = seconds 60

abbrev pub visibility_timeout : ℕ
visibility_timeout = seconds (3600 + 300)

-- With jitter Celery draws the countdown after `retries` retries up to the exponential backoff.
pub record IsBackoff (countdown : ℕ → ℕ) : Type 0 where
  pub at :
      (retries : ℕ) → countdown retries ≤ min retry_backoff_max (retry_backoff_base * 2 ^ retries)

-- When the next run of a task starts that claimed its message at `claimed`, after it has waited for
-- a worker: it asked for a retry within the time limit, or its worker was lost and the broker
-- redelivers it, `visibility_timeout` after it was delivered.
pub data NextRun (countdown : ℕ → ℕ) (claimed wait : ℕ) : ℕ → Type 0 where
  retried :
      (retries ended start : ℕ)
      → ended ≤ claimed + task_time_limit
      → start ≡ ended + countdown retries + wait
      → NextRun countdown claimed wait start
  redelivered :
      (delivered start : ℕ)
      → delivered ≤ claimed
      → start ≡ delivered + visibility_timeout + wait
      → NextRun countdown claimed wait start

-- The countdowns of the first `n` retries together.
abbrev pub total_countdown : (ℕ → ℕ) → ℕ → ℕ
total_countdown countdown zero = 0
total_countdown countdown (suc n) = total_countdown countdown n + countdown n

module _ (countdown : ℕ → ℕ) (backoff : IsBackoff countdown) where
  next-in_time :
      (claimed wait start : ℕ)
      → NextRun countdown claimed wait start
      → wait + visibility_timeout ≤ stale_sending_after
      → start ≤ claimed + stale_sending_after
  next-in_time claimed wait start (retried retries ended start' within e) room =
      omega (arith, within, e, room, backoff.at retries)
  next-in_time claimed wait start (redelivered delivered start' before e) room =
      omega (arith, before, e, room)

  -- No tick takes a message that is being sent away from its task before the next run of the task
  -- starts, if that run does not wait for a worker so long that two hours pass with the timeout.
  pub next_run-keeps :
      (m : Message) (claimed wait start now : ℕ)
      → m.status ≡ MessageStatus.sending
      → m.updated_at ≡ claimed
      → NextRun countdown claimed wait start
      → wait + visibility_timeout ≤ stale_sending_after
      → now ≤ start
      → selected now m ≡ false
  unfolding selected
  next_run-keeps m claimed wait start now sending at run room soon =
      ground (arith, sending, at, soon, next-in_time claimed wait start run room)

  total-bound :
      (n : ℕ) → total_countdown countdown n + retry_backoff_base ≤ retry_backoff_base * 2 ^ n
  total-bound zero = omega arith
  total-bound (suc n) = omega (arith, total-bound n, backoff.at n)

  -- The countdowns of all retries of a task are no more than 31.5 minutes.
  pub retries-bound : total_countdown countdown max_retries ≤ seconds 1890
  retries-bound = omega (arith, total-bound max_retries)
