-- ===== src/MessageViews/Read.antt =====
-- What `MessageReadSerializer` of src/apps/messages_api/serializers.py shows of a message.
use notify_relay.Prelude.{ℕ, String, Option, none, some, find_first, by_key}
use notify_relay.Models.{Message, Template, TemplateVersion, Channel, Dict, Priority, MessageStatus}
use notify_relay.State.{World}

pub record MessageRead : Type 0 where
  pub id : ℕ
  pub idempotency_key : String
  pub channel : Channel
  pub recipient : String
  pub template_name : Option String
  pub template_version : Option ℕ
  pub rendered_subject : String
  pub rendered_body : String
  pub context : Dict
  pub priority : Priority
  pub status : MessageStatus
  pub scheduled_at : Option ℕ
  pub created_at : ℕ
  pub updated_at : ℕ

abbrev pub version_of : World → Option ℕ → Option TemplateVersion
version_of w none = none
version_of w (some v) = find_first (by_key (λ v. v.id) v) w.versions

abbrev name_of : Option Template → Option String
name_of none = none
name_of (some t) = some t.name

-- `get_template_name`.
abbrev pub get_template_name : World → Option TemplateVersion → Option String
get_template_name w none = none
get_template_name w (some v) = name_of (find_first (by_key (λ t. t.id) v.template) w.templates)

-- Without a version the field is left out.
abbrev number_of : Option TemplateVersion → Option ℕ
number_of none = none
number_of (some v) = some v.version

abbrev pub message_read : World → Message → MessageRead
message_read w m = record {
  id = m.id;
  idempotency_key = m.idempotency_key;
  channel = m.channel;
  recipient = m.recipient;
  template_name = get_template_name w (version_of w m.template_version);
  template_version = number_of (version_of w m.template_version);
  rendered_subject = m.rendered_subject;
  rendered_body = m.rendered_body;
  context = m.context;
  priority = m.priority;
  status = m.status;
  scheduled_at = m.scheduled_at;
  created_at = m.created_at;
  updated_at = m.updated_at;
}
