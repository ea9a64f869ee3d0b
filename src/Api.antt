-- ===== src/Api.antt =====
-- The API in front of the views: the viewsets that src/notify_relay/urls.py routes to, who is let
-- in by the backends of REST_FRAMEWORK in src/notify_relay/settings/base.py and the
-- `permission_classes` of the viewsets, and the view that answers.
pub mod Rights
pub mod Keys
pub mod Routes
pub mod Repeat
mod Tests
use notify_relay.Prelude.{
  ℕ, ◌≡◌, String, Char, Bool, true, false, Option, none, some, List, if◌then◌else◌,
}
use notify_relay.Models.{ApiKey, Dict}
use notify_relay.State.{World}
use notify_relay.Validators.{Network}
use notify_relay.Renderer.{Rendered}
use notify_relay.Services.{Surroundings}
use notify_relay.MessageViews
use notify_relay.MessageViews.{Caller, RawMessage}
use notify_relay.Templating
use notify_relay.Templating.{TemplateData, NewIds}
use notify_relay.Templating.Read.{TemplateRead, list_templates}
use notify_relay.Authentication.{
  HttpRequest, Authenticated, passed_on, as_key, authentication_failed, authenticate, ApiKeyData,
  KeyDraw, KeyResponse, create_key, revoke,
}
use notify_relay.Authentication.Read.{KeyRead, list_keys, retrieve_key}

-- `request.user`: an `ApiKeyPrincipal`, an account with its id and whether it is staff, or nobody.
pub data Principal : Type 0 where
  principal : ApiKey → Principal
  account : ℕ → Bool → Principal
  nobody : Principal

abbrev pub is_authenticated : Principal → Bool
is_authenticated (principal k) = true
is_authenticated (account u staff) = true
is_authenticated nobody = false

abbrev pub is_staff : Principal → Bool
is_staff (principal k) = false
is_staff (account u staff) = staff
is_staff nobody = false

-- The answer of the backends after the first, JWTAuthentication and SessionAuthentication: no
-- credentials of theirs, an account, bad credentials, or a failed CSRF check.
pub data Backend : Type 0 where
  passes fails denies : Backend
  signed_in : ℕ → Bool → Backend

pub data Credentials : Type 0 where
  known : Principal → Credentials
  failed denied crashed : Credentials

after_backends : Backend → Credentials
after_backends passes = known nobody
after_backends fails = failed
after_backends denies = denied
after_backends (signed_in u staff) = known (account u staff)

after_key : Authenticated → Backend → Credentials
unfolding after_backends
after_key passed_on others = after_backends others
after_key (as_key k) others = known (principal k)
after_key authentication_failed others = failed
after_key Authenticated.server_error others = crashed

-- DEFAULT_AUTHENTICATION_CLASSES in their order.
unfoldable pub credentials :
    (String → String → String) → String → Backend → HttpRequest → World → Credentials
unfolding after_key
credentials hmac pepper others r w = after_key (authenticate hmac pepper r w) others

-- `ApiKeyAuthentication.authenticate_header`, the challenge of a 401.
abbrev pub authenticate_header : String
authenticate_header = "X-API-Key"

-- The operations of the three viewsets with what the client sends.
pub data Endpoint : Type 0 where
  post_message : String → RawMessage → Endpoint
  get_message : ℕ → Endpoint
  post_template : TemplateData → Endpoint
  list_of_templates list_of_keys : Endpoint
  get_template delete_template get_versions : String → Endpoint
  get_version : String → ℕ → Endpoint
  post_key : ApiKeyData → Endpoint
  get_key post_revoke : ℕ → Endpoint

-- What the surroundings bring to a request.
pub record Occasion : Type 0 where
  pub around : Surroundings
  pub new_ids : NewIds
  pub draw : KeyDraw
  pub now : ℕ

pub data Reply : Type 0 where
  unauthorized : String → Reply
  forbidden server_error : Reply
  of_messages : MessageViews.Response → Reply
  of_templates : Templating.Response → Reply
  of_keys : KeyResponse → Reply
  templates : List TemplateRead → Reply
  keys : List KeyRead → Reply
  key_detail : Option KeyRead → Reply

abbrev template_status : Templating.Response → ℕ
template_status Templating.Response.bad_request = 400
template_status Templating.Response.conflict = 409
template_status Templating.Response.not_found = 404
template_status Templating.Response.no_content = 204
template_status (Templating.Response.created t v) = 201
template_status _ = 200

abbrev key_status : KeyResponse → ℕ
key_status KeyResponse.bad_request = 400
key_status KeyResponse.not_found = 404
key_status KeyResponse.already_revoked = 409
key_status KeyResponse.server_error = 500
key_status (KeyResponse.created k full secret) = 201
key_status (KeyResponse.one k) = 200

abbrev pub status : Reply → ℕ
status (unauthorized challenge) = 401
status forbidden = 403
status server_error = 500
status (of_messages r) = MessageViews.status r
status (of_templates r) = template_status r
status (of_keys r) = key_status r
status (key_detail none) = 404
status _ = 200

-- `permission_classes`: the classes of the framework that the viewsets name.
pub record Permissions : Type 0 where
  pub allows_authenticated : Principal → Bool
  pub allows_admin : Principal → Bool

-- IsAuthenticated reads `is_authenticated` of the user, IsAdminUser `is_staff`.
pub record IsDocumented (p : Permissions) : Type 0 where
  pub authenticated : (u : Principal) → p.allows_authenticated u ≡ is_authenticated u
  pub admin : (u : Principal) → p.allows_admin u ≡ is_staff u

abbrev pub about_messages : Endpoint → Bool
about_messages (post_message header r) = true
about_messages (get_message k) = true
about_messages _ = false

abbrev pub permitted : Permissions → Endpoint → Principal → Bool
permitted p e u = if about_messages e then p.allows_authenticated u else p.allows_admin u

abbrev pub caller : Principal → Caller
caller (principal k) = Caller.api_key k
caller (account u staff) = Caller.user staff
caller nobody = Caller.anonymous

-- `created_by` of a version cannot be an `ApiKeyPrincipal`: the new rows are rolled back.
rolled_back : World → Templating.Response × World → Reply × World
rolled_back w (Templating.Response.created t v, w') = (server_error, w)
rolled_back w (r, w') = (of_templates r, w')

posted_template : Occasion → TemplateData → Principal → World → Reply × World
unfolding rolled_back
posted_template o d (principal k) w = rolled_back w (Templating.create o.new_ids none o.now d w)
posted_template o d (account u staff) w =
    let out = Templating.create o.new_ids (some u) o.now d w in (of_templates out.0, out.1)
posted_template o d nobody w =
    let out = Templating.create o.new_ids none o.now d w in (of_templates out.0, out.1)

module _ (hmac : String → String → String) (pepper : String) (space : Char → Bool) (net : Network)
    (jinja : Bool → String → Dict → Rendered String) (json_error : String → Option String)
    (dict_eq : Dict → Dict → Bool) (before : String → String → Bool) (o : Occasion) where
  -- The view of an endpoint.
  unfoldable pub view : Endpoint → Principal → World → Reply × World
  unfolding posted_template
  view (post_message header r) u w =
      let out =
        MessageViews.create space net jinja json_error dict_eq o.around (caller u) header r w in
      (of_messages out.0, out.1)
  view (get_message k) u w = (of_messages (MessageViews.retrieve (caller u) k w), w)
  view (post_template d) u w = posted_template o d u w
  view list_of_templates u w = (templates (list_templates before w), w)
  view (get_template name) u w = (of_templates (Templating.retrieve name w), w)
  view (delete_template name) u w =
      let out = Templating.destroy o.now name w in (of_templates out.0, out.1)
  view (get_versions name) u w = (of_templates (Templating.versions name w), w)
  view (get_version name n) u w = (of_templates (Templating.version_detail name n w), w)
  view (post_key d) u w = let out = create_key hmac pepper o.draw d w in (of_keys out.0, out.1)
  view list_of_keys u w = (keys (list_keys w), w)
  view (get_key pk) u w = (key_detail (retrieve_key pk w), w)
  view (post_revoke pk) u w = let out = revoke o.now pk w in (of_keys out.0, out.1)

  -- Without permission, a client that has not signed in is asked to.
  refused : Principal → Reply
  refused nobody = unauthorized authenticate_header
  refused _ = forbidden

  checked : Permissions → Endpoint → Credentials → World → Reply × World
  unfolding refused
  checked p e failed w = (unauthorized authenticate_header, w)
  checked p e denied w = (forbidden, w)
  checked p e crashed w = (server_error, w)
  checked p e (known u) w = if permitted p e u then view e u w else (refused u, w)

  -- A request to the API.
  unfoldable pub handle : Permissions → Backend → HttpRequest → Endpoint → World → Reply × World
  unfolding checked
  handle p others r e w = checked p e (credentials hmac pepper others r w) w
