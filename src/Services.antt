-- ===== src/Services.antt =====
-- src/apps/messages_api/services.py: how a message is created once for its idempotency key.
-- `jinja`, `json_error` are those of the renderer, and `dict_eq` is Python's `==` on JSON objects.
pub mod Creation
pub mod Idempotency
pub mod Owner
pub mod Tables
pub mod Sources
mod Tests
use notify_relay.Prelude.{
  ℕ, String, Bool, true, false, not, ◌&&◌, ◌||◌, Option, none, some, is_some, List, [], ◌∷◌, ◌++◌,
  leb, ◌==◌, str_eq, option_eq, if◌then◌else◌, select, any, order_by, by_key,
}
use notify_relay.Models.{
  Channel, Priority, MessageStatus, Message, Dict, TemplateVersion, Template, channel_eq,
  priority_eq, empty_dict,
}
use notify_relay.State.{World, Raised, Result, ok, raised}
use notify_relay.Delivery.{enqueue_for}
use notify_relay.Scheduler.{newest_first}
use notify_relay.Templating.{first, template_named, latest_version, version_numbered}
use notify_relay.Renderer.{Rendered, RenderedMessage, text, render_error, render}

-- `validated_data` of `MessageCreateSerializer`; `none` stands for a key that is not there, and for
-- the value None of a nullable field.
pub record ValidatedData : Type 0 where
  pub channel : Channel
  pub recipient : String
  pub template : Option String
  pub template_version : Option ℕ
  pub context : Option Dict
  pub priority : Option Priority
  pub scheduled_at : Option ℕ

-- `... or {}` and `... or Priority.DEFAULT`.
abbrev pub context_of : ValidatedData → Dict
context_of d = elim d.context [ none ↦ empty_dict | some c ↦ c ]

abbrev pub priority_of : ValidatedData → Priority
priority_of d = elim d.priority [ none ↦ Priority.default | some p ↦ p ]

-- How `create_message` ends: the message and whether it is new, or the exception that it raises.
pub data Outcome : Type 0 where
  done : Message → Bool → Outcome
  idempotency_conflict : Outcome
  template_not_found : Outcome
  render_failed : String → Outcome
  integrity_error : Outcome

abbrev pub same_key : Option ℕ → String → Message → Bool
same_key api_key key m = option_eq m.api_key api_key && str_eq m.idempotency_key key

-- `_find_existing`: `.first()` takes the first in `Meta.ordering`.
unfoldable pub find_existing : Option ℕ → String → List Message → Option Message
find_existing api_key key l = first (order_by newest_first (select (same_key api_key key) l))

-- The constraint `message_idempotency_unique`, in which NULL is equal to nothing.
abbrev pub key_taken : Message → List Message → Bool
key_taken m = any (λ x. is_some m.api_key && same_key m.api_key m.idempotency_key x)

abbrev pub has_id : ℕ → List Message → Bool
has_id k = any (λ x. x.id == k)

-- `_resolve_template`.
unfoldable pub resolve_version : Template → Option ℕ → List TemplateVersion → Option TemplateVersion
resolve_version t none l = latest_version t.id l
resolve_version t (some n) l = if n == 0 then latest_version t.id l else version_numbered t.id n l

resolve_named : ValidatedData → Option Template → List TemplateVersion → Option TemplateVersion
resolve_named d none l = none
resolve_named d (some t) l =
    if not (channel_eq t.channel d.channel) then none else resolve_version t d.template_version l

resolve_name : ValidatedData → Option String → World → Option TemplateVersion
unfolding resolve_named
resolve_name d none w = none
resolve_name d (some name) w =
    if str_eq name "" then none else resolve_named d (template_named name w.templates) w.versions

unfoldable pub resolve_template : ValidatedData → World → Option TemplateVersion
unfolding resolve_name
resolve_template d w = resolve_name d d.template w

module _ (dict_eq : Dict → Dict → Bool) where
  -- `_payload_matches`.
  unfoldable pub payload_matches : Message → ValidatedData → Bool
  payload_matches m d =
      channel_eq m.channel d.channel
      && str_eq m.recipient d.recipient
      && dict_eq (context_of d) m.context
      && option_eq d.scheduled_at m.scheduled_at
      && priority_eq m.priority (priority_of d)

  -- `_replay`.
  unfoldable pub replay : Message → ValidatedData → Outcome
  replay m d = if payload_matches m d then done m false else idempotency_conflict

-- What the request brings and what the surroundings decide: the new message's ULID, the times of
-- `timezone.now()` before and during the insert, whether the broker is up, and what other requests
-- commit before the insert and before the second look-up.
pub record Surroundings : Type 0 where
  pub id : ℕ
  pub now : ℕ
  pub saved : ℕ
  pub up : Bool
  pub others : World → World
  pub later : World → World

abbrev pub send_now : ℕ → ValidatedData → Bool
send_now now d = elim d.scheduled_at [ none ↦ true | some t ↦ leb t now ]

abbrev pub new_message :
    Surroundings → Option ℕ → String → ValidatedData → TemplateVersion → RenderedMessage → Message
new_message s api_key key d v r = record {
  id = s.id;
  idempotency_key = key;
  api_key = api_key;
  channel = d.channel;
  recipient = d.recipient;
  template_version = some v.id;
  rendered_subject = r.subject;
  rendered_body = r.body;
  context = context_of d;
  priority = priority_of d;
  status = MessageStatus.queued;
  scheduled_at = d.scheduled_at;
  enqueued_at = if send_now s.now d then some s.now else none;
  claimed_by = "";
  created_at = s.saved;
  updated_at = s.saved;
}

-- `_enqueue_after_commit` swallows the broker's error.
unfoldable pub enqueue_after_commit : Bool → Message → World → World
enqueue_after_commit up m w = (enqueue_for up m w).1

-- `Message.objects.create`; `none` stands for IntegrityError.
unfoldable pub insert_message : Message → World → Option World
insert_message m w =
    if has_id m.id w.messages || key_taken m w.messages
    then none
    else some (record w { messages = w.messages ++ m ∷ [] })

module _ (dict_eq : Dict → Dict → Bool) where
  lost_race : ValidatedData → Option Message → World → Outcome × World
  lost_race d none w = (integrity_error, w)
  lost_race d (some m) w = (replay dict_eq m d, w)

  store_message :
      Surroundings
      → Option ℕ
      → String
      → ValidatedData
      → Message
      → Option World
      → World
      → Outcome × World
  unfolding lost_race
  store_message s api_key key d m none w =
      let w' = s.later w in lost_race d (find_existing api_key key w'.messages) w'
  store_message s api_key key d m (some w') w =
      (done m true, if send_now s.now d then enqueue_after_commit s.up m w' else w')

module _ (jinja : Bool → String → Dict → Rendered String) (json_error : String → Option String)
    (dict_eq : Dict → Dict → Bool) where
  insert_rendered :
      Surroundings
      → Option ℕ
      → String
      → ValidatedData
      → TemplateVersion
      → Rendered RenderedMessage
      → World
      → Outcome × World
  unfolding store_message
  insert_rendered s api_key key d v (render_error e) w = (render_failed e, w)
  insert_rendered s api_key key d v (text r) w =
      let m = new_message s api_key key d v r in
      let w' = s.others w in store_message dict_eq s api_key key d m (insert_message m w') w'

  create_new :
      Surroundings
      → Option ℕ
      → String
      → ValidatedData
      → Option TemplateVersion
      → World
      → Outcome × World
  unfolding insert_rendered
  create_new s api_key key d none w = (template_not_found, w)
  create_new s api_key key d (some v) w =
      insert_rendered s api_key key d v (render jinja json_error v (context_of d) d.channel) w

  replay_or_create :
      Surroundings → Option ℕ → String → ValidatedData → Option Message → World → Outcome × World
  unfolding create_new
  replay_or_create s api_key key d (some m) w = (replay dict_eq m d, w)
  replay_or_create s api_key key d none w = create_new s api_key key d (resolve_template d w) w

  -- `create_message`.
  unfoldable pub create_message :
      Surroundings → Option ℕ → String → ValidatedData → World → Outcome × World
  unfolding replay_or_create
  create_message s api_key key d w =
      replay_or_create s api_key key d (find_existing api_key key w.messages) w
