-- ===== src/Models.antt =====
-- The data of the program: src/apps/messages_api/models.py, src/apps/templating/models.py and
-- src/apps/core/models/api_key.py. A row is a record with the model's fields; a foreign key is the
-- key of the row that it names. Times are microseconds since the epoch, as `timezone.now()` has
-- them, and a ULID is the number that its 26 characters spell.
use notify_relay.Prelude.{
  ℕ, ◌*◌, String, ◌≡◌, Bool, true, false, ◌&&◌, not, Option, is_some, arith, ◌↔◌,
}

-- JSON values. A number is kept as its literal text.
mutual
  pub data Json : Type 0 where
    null : Json
    boolean : Bool → Json
    number : String → Json
    text : String → Json
    array : Items → Json
    object : Dict → Json

  pub data Items : Type 0 where
    no_items : Items
    item : Json → Items → Items

  pub data Dict : Type 0 where
    empty_dict : Dict
    field : String → Json → Dict → Dict

-- `templating.models.Channel`.
pub data Channel : Type 0 where
  email webhook : Channel

pub data Priority : Type 0 where
  high default low : Priority

pub data MessageStatus : Type 0 where
  queued sending sent failed dead : MessageStatus

pub data AttemptResult : Type 0 where
  success transient_error permanent_error : AttemptResult

pub record ApiKey : Type 0 where
  pub id : ℕ
  pub name : String
  pub key_id : String
  pub hashed_secret : String
  pub webhook_secret : String
  pub rate_limit_per_min : ℕ
  pub burst : ℕ
  pub is_active : Bool
  pub created_at : ℕ
  pub revoked_at : Option ℕ

pub record Template : Type 0 where
  pub id : ℕ
  pub name : String
  pub channel : Channel
  pub is_active : Bool
  pub created_at : ℕ
  pub deleted_at : Option ℕ

pub record TemplateVersion : Type 0 where
  pub id : ℕ
  pub template : ℕ
  pub version : ℕ
  pub subject_template : String
  pub body_template : String
  pub created_at : ℕ
  pub created_by : Option ℕ

pub record Message : Type 0 where
  pub id : ℕ
  pub idempotency_key : String
  pub api_key : Option ℕ
  pub channel : Channel
  pub recipient : String
  pub template_version : Option ℕ
  pub rendered_subject : String
  pub rendered_body : String
  pub context : Dict
  pub priority : Priority
  pub status : MessageStatus
  pub scheduled_at : Option ℕ
  pub enqueued_at : Option ℕ
  pub claimed_by : String
  pub created_at : ℕ
  pub updated_at : ℕ

pub record DeliveryAttempt : Type 0 where
  pub message : ℕ
  pub attempt_no : ℕ
  pub started_at : ℕ
  pub finished_at : Option ℕ
  pub result : AttemptResult
  pub http_status : Option ℕ
  pub smtp_code : Option ℕ
  pub error_message : String

-- The snapshot that a dead letter keeps, `_snapshot` of src/tasks/delivery.py.
pub record Snapshot : Type 0 where
  pub id : ℕ
  pub channel : Channel
  pub recipient : String
  pub rendered_subject : String
  pub rendered_body : String
  pub context : Dict
  pub priority : Priority

pub record DeadLetter : Type 0 where
  pub message : ℕ
  pub reason : String
  pub payload_snapshot : Snapshot
  pub created_at : ℕ

-- Equality of enum members.
abbrev pub channel_eq : Channel → Channel → Bool
channel_eq email email = true
channel_eq email webhook = false
channel_eq webhook email = false
channel_eq webhook webhook = true

abbrev pub priority_eq : Priority → Priority → Bool
priority_eq high high = true
priority_eq default default = true
priority_eq low low = true
priority_eq _ _ = false

pub channel_eq_iff : (a b : Channel) → (channel_eq a b ≡ true) ↔ (a ≡ b)
channel_eq_iff a b = ground arith

pub priority_eq_iff : (a b : Priority) → (priority_eq a b ≡ true) ↔ (a ≡ b)
priority_eq_iff a b = ground arith

abbrev pub is_queued : MessageStatus → Bool
is_queued queued = true
is_queued _ = false

abbrev pub is_sending : MessageStatus → Bool
is_sending sending = true
is_sending _ = false

-- `status in {SENT, FAILED, DEAD}`, which is also `_TERMINAL_STATUSES`.
abbrev pub is_terminal : MessageStatus → Bool
is_terminal queued = false
is_terminal sending = false
is_terminal sent = true
is_terminal failed = true
is_terminal dead = true

-- `ApiKey.is_revoked` and the filter of `ApiKeyQuerySet.active`.
abbrev pub is_revoked : ApiKey → Bool
is_revoked k = is_some k.revoked_at

abbrev pub active : ApiKey → Bool
active k = k.is_active && not (is_some k.revoked_at)

-- `Template.is_deleted` and the filter of `TemplateQuerySet.alive`.
abbrev pub is_deleted : Template → Bool
is_deleted t = is_some t.deleted_at

abbrev pub alive : Template → Bool
alive t = not (is_some t.deleted_at)

-- Durations in microseconds.
abbrev pub second : ℕ
second = 1_000_000

abbrev pub minutes : ℕ → ℕ
minutes n = n * 60 * second

abbrev pub hours : ℕ → ℕ
hours n = n * 3600 * second

abbrev pub days : ℕ → ℕ
days n = n * 86400 * second
