-- ===== src/Api/Keys.antt =====
-- The life of an API key through the API: src/apps/core/views.py makes and revokes it, and
-- src/apps/core/authentication.py knows it in between.
use notify_relay.Prelude.{◌≡◌, refl, String, Char, Bool, true, Option, none}
use notify_relay.Models.{ApiKey, Dict}
use notify_relay.State.{World}
use notify_relay.Validators.{Network}
use notify_relay.Renderer.{Rendered}
use notify_relay.Authentication.{HttpRequest, authenticate, as_key}
use notify_relay.Api.{
  principal, Backend, Endpoint, Occasion, Permissions, IsDocumented, about_messages, after_key,
  checked, credentials, view, handle,
}

-- A request with this header `X-API-Key`.
abbrev pub with_header : String → HttpRequest
with_header header = record { api_key_header = header; resolved = none }

module _ (hmac : String → String → String) (pepper : String) (space : Char → Bool) (net : Network)
    (jinja : Bool → String → Dict → Rendered String) (json_error : String → Option String)
    (dict_eq : Dict → Dict → Bool) (before : String → String → Bool) (o : Occasion)
    (p : Permissions) (documented : IsDocumented p) where
  pub key-viewed :
      (others : Backend) (r : HttpRequest) (e : Endpoint) (w : World) (k : ApiKey)
      → about_messages e ≡ true
      → authenticate hmac pepper r w ≡ as_key k
      → handle hmac pepper space net jinja json_error dict_eq before o p others r e w
        ≡ view hmac pepper space net jinja json_error dict_eq before o e (principal k) w
  unfolding handle credentials after_key checked
  key-viewed others r e w k messages h =
      rw (h, messages, documented.authenticated (principal k)) refl
