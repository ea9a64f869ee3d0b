-- ===== src/State.antt =====
-- The state that the processes share: the tables of the database, the tasks handed to the broker
-- and the counters; and actions on it that may raise. Each statement commits by itself, as with
-- Django's autocommit, unless it stands in `atomic`.
use notify_relay.Prelude.{ℕ, String, List}
use notify_relay.Models.{
  ApiKey, Template, TemplateVersion, Message, DeliveryAttempt, DeadLetter, Channel, Priority,
  MessageStatus, AttemptResult,
}

pub data TaskName : Type 0 where
  send_email send_webhook : TaskName

-- What `apply_async(args=(message_id,), queue=queue)` publishes.
pub record Task : Type 0 where
  pub name : TaskName
  pub message_id : ℕ
  pub queue : Priority

-- One observation of a Prometheus metric of src/apps/core/metrics.py.
pub data Metric : Type 0 where
  messages_total : Channel → MessageStatus → Metric
  delivery_attempts_total : Channel → AttemptResult → Metric
  delivery_duration : Channel → Metric

pub record World : Type 0 where
  pub api_keys : List ApiKey
  pub templates : List Template
  pub versions : List TemplateVersion
  pub messages : List Message
  pub attempts : List DeliveryAttempt
  pub dead_letters : List DeadLetter
  pub broker : List Task
  pub metrics : List Metric

-- The exceptions that leave an operation. `broker_error` is kombu's OperationalError.
pub data Raised : Type 0 where
  does_not_exist integrity_error database_error broker_error : Raised
  transient : String → Raised

pub data Result {ℓ} (A : Type ℓ) : Type ℓ where
  ok : A → Result A
  raised : Raised → Result A

abbrev pub Exec : Type 0 → Type 0
Exec A = World → Result A × World

module _ {A : Type 0} where
  abbrev pub pure : A → Exec A
  pure a w = (ok a, w)

  abbrev pub raise : Raised → Exec A
  raise e w = (raised e, w)

  abbrev pub gets : (World → A) → Exec A
  gets f w = (ok (f w), w)

  abbrev rollback : World → Result A × World → Result A × World
  rollback w (ok a, w') = (ok a, w')
  rollback w (raised e, w') = (raised e, w)

  -- `with transaction.atomic()`: an exception undoes the block and goes on.
  abbrev pub atomic : Exec A → Exec A
  atomic m w = rollback w (m w)

abbrev pub modify : (World → World) → Exec (Unit {0})
modify f w = (ok tt, f w)

module _ {A B : Type 0} where
  abbrev continue : Result A × World → (A → Exec B) → Result B × World
  continue (ok a, w) f = f a w
  continue (raised e, w) f = (raised e, w)

  infixl 10 ◌>>=◌ ◌>>◌
  abbrev pub ◌>>=◌ : Exec A → (A → Exec B) → Exec B
  ◌>>=◌ m f w = continue (m w) f

  abbrev pub ◌>>◌ : Exec A → Exec B → Exec B
  m >> n = m >>= λ _. n
