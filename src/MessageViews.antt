-- ===== src/MessageViews.antt =====
-- src/apps/messages_api/views.py and src/apps/messages_api/serializers.py. The types of the fields
-- of a request are checked by the framework.
pub mod Tenancy
pub mod Read
pub mod Tables
pub mod Repeat
mod Tests
use Prim.Native.String.{count}
use notify_relay.Prelude.{
  ℕ, String, Char, Bool, true, false, not, ◌&&◌, ◌||◌, Option, none, some, is_some, List, [], ◌∷◌,
  leb, ltb, ◌==◌, str_eq, option_eq, if◌then◌else◌, select, find_first, by_key,
}
use notify_relay.Models.{ApiKey, Channel, Priority, Message, Dict, Json, email, webhook, object}
use notify_relay.State.{World}
use notify_relay.Middleware.{strip}
use notify_relay.Validators.{Network, validate_recipient}
use notify_relay.Renderer.{Rendered}
use notify_relay.Services.{
  ValidatedData, Surroundings, Outcome, done, render_failed, integrity_error, create_message,
}

-- `request.auth` and `request.user`: an API key, or a user who may be staff, or nobody.
pub data Caller : Type 0 where
  api_key : ApiKey → Caller
  user : Bool → Caller
  anonymous : Caller

-- The fields of `MessageCreateSerializer` before validation.
pub record RawMessage : Type 0 where
  pub channel : String
  pub recipient : String
  pub template : Option String
  pub template_version : Option ℕ
  pub context : Option Json
  pub priority : Option String
  pub scheduled_at : Option ℕ

-- `ChoiceField(choices=Channel.choices)` and `ChoiceField(choices=Priority.choices)`.
abbrev pub channel_choice : String → Option Channel
channel_choice s =
    if str_eq s "email" then some email else if str_eq s "webhook" then some webhook else none

abbrev pub priority_choice : String → Option Priority
priority_choice s =
    if str_eq s "high"
    then some Priority.high
    else if str_eq s "default"
    then some Priority.default
    else if str_eq s "low"
    then some Priority.low
    else none

-- `required=False` with a default, and `validate_context`.
abbrev pub priority_field : Option String → Option Priority
priority_field none = some Priority.default
priority_field (some s) = priority_choice s

abbrev pub context_field : Option Json → Option Dict
context_field none = some Dict.empty_dict
context_field (some (object d)) = some d
context_field (some _) = none

abbrev not_blank : Option String → Bool
not_blank none = true
not_blank (some s) = not (str_eq s "")

abbrev at_least_one : Option ℕ → Bool
at_least_one none = true
at_least_one (some n) = leb 1 n

-- How `is_valid` ends: with a list of errors, with the ValueError of a setting that cannot be read,
-- or with the data.
pub data Validation : Type 0 where
  invalid value_error : Validation
  validated : ValidatedData → Validation

abbrev with_recipient : Option Bool → ValidatedData → Validation
with_recipient none d = value_error
with_recipient (some false) d = invalid
with_recipient (some true) d = validated d

abbrev trimmed : (Char → Bool) → Option String → Option String
trimmed space none = none
trimmed space (some s) = some (strip space s)

module _ (space : Char → Bool) (net : Network) where
  -- `CharField` strips the text before its other checks.
  with_choices : RawMessage → Option Channel → Option Priority → Option Dict → Validation
  with_choices r (some c) (some p) (some d) =
      let recipient = strip space r.recipient in
      let template = trimmed space r.template in
      if not (str_eq recipient "")
        && leb (count recipient) 2048
        && not_blank template
        && at_least_one r.template_version
      then with_recipient (validate_recipient space net c recipient) (record {
        channel = c;
        recipient = recipient;
        template = template;
        template_version = r.template_version;
        context = some d;
        priority = some p;
        scheduled_at = r.scheduled_at;
      })
      else invalid
  with_choices r _ _ _ = invalid

  -- `MessageCreateSerializer.is_valid`.
  unfoldable pub validate : RawMessage → Validation
  unfolding with_choices
  validate r =
      with_choices r (channel_choice r.channel) (priority_field r.priority)
        (context_field r.context)

pub data Response : Type 0 where
  api_key_required idempotency_key_missing idempotency_key_too_long : Response
  validation_error idempotency_conflict template_not_found template_render_failed : Response
  not_found server_error : Response
  accepted : Message → Response
  found : Message → Response

abbrev pub status : Response → ℕ
status Response.api_key_required = 403
status Response.idempotency_key_missing = 400
status Response.idempotency_key_too_long = 400
status Response.validation_error = 422
status Response.idempotency_conflict = 409
status Response.template_not_found = 422
status Response.template_render_failed = 422
status Response.not_found = 404
status Response.server_error = 500
status (Response.accepted m) = 202
status (Response.found m) = 200

abbrev pub idempotency_key_max_length : ℕ
idempotency_key_max_length = 128

abbrev pub respond : Outcome × World → Response × World
respond (done m new, w) = (Response.accepted m, w)
respond (Outcome.idempotency_conflict, w) = (Response.idempotency_conflict, w)
respond (Outcome.template_not_found, w) = (Response.template_not_found, w)
respond (render_failed e, w) = (Response.template_render_failed, w)
respond (integrity_error, w) = (Response.server_error, w)

module _ (space : Char → Bool) (net : Network) (jinja : Bool → String → Dict → Rendered String)
    (json_error : String → Option String) (dict_eq : Dict → Dict → Bool) where
  create_valid : Surroundings → ApiKey → String → Validation → World → Response × World
  create_valid s k key invalid w = (Response.validation_error, w)
  create_valid s k key value_error w = (Response.server_error, w)
  create_valid s k key (validated d) w =
      respond (create_message jinja json_error dict_eq s (some k.id) key d w)

  create_with_key : Surroundings → ApiKey → String → RawMessage → World → Response × World
  unfolding create_valid
  create_with_key s k key r w =
      if str_eq key ""
      then (Response.idempotency_key_missing, w)
      else if ltb idempotency_key_max_length (count key)
      then (Response.idempotency_key_too_long, w)
      else create_valid s k key (validate space net r) w

  -- `MessageViewSet.create`; `header` is the Idempotency-Key header, empty if it is missing.
  unfoldable pub create : Surroundings → Caller → String → RawMessage → World → Response × World
  unfolding create_with_key
  create s (api_key k) header r w = create_with_key s k (strip space header) r w
  create s (user staff) header r w = (Response.api_key_required, w)
  create s anonymous header r w = (Response.api_key_required, w)

-- `MessageViewSet.get_queryset`.
unfoldable pub visible : Caller → Message → Bool
visible (api_key k) m = option_eq m.api_key (some k.id)
visible (user staff) m = staff
visible anonymous m = false

abbrev detail : Option Message → Response
detail none = Response.not_found
detail (some m) = Response.found m

-- `MessageViewSet.retrieve`.
unfoldable pub retrieve : Caller → ℕ → World → Response
retrieve caller k w =
    detail (find_first (by_key (λ m. m.id) k) (select (visible caller) w.messages))
