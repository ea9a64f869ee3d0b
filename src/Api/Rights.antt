-- ===== src/Api/Rights.antt =====
-- What a client of the API gets by its credentials: the backends and `permission_classes` against
-- the views of src/apps/*/views.py.
use notify_relay.Prelude.{
  ℕ, ◌≡◌, refl, String, Char, Bool, true, false, Option, none, List, [], ◌∷◌, select, find_first,
  by_key, leb, str_eq, ◌⊎◌, inl, inr, arith,
}
use notify_relay.Models.{ApiKey, Message, Dict}
use notify_relay.State.{World}
use notify_relay.Validators.{Network}
use notify_relay.Renderer.{Rendered}
use notify_relay.Services.Tables.{LeavesManaged, managed}
use notify_relay.MessageViews
use notify_relay.MessageViews.{Caller, RawMessage, Response, accepted, found, retrieve, visible}
use notify_relay.MessageViews.Tenancy.{belongs, retrieve-belongs, create-belongs}
use notify_relay.MessageViews.Tables.{create-managed}
use notify_relay.Authentication.{
  HttpRequest, Authenticated, passed_on, as_key, authentication_failed, authenticate,
}
use notify_relay.Authentication.Access.{Proven, authenticate-Proven, authenticate-passed_on}
use notify_relay.Api.{
  Principal, principal, account, nobody, known, post_message, get_message, Backend, Credentials,
  credentials, after_key, Endpoint, Occasion, Reply, of_messages, status, Permissions, IsDocumented,
  about_messages, view, checked, handle,
}

-- The message in an answer to the API key `k` was sent with that key.
abbrev pub owns : ApiKey → Reply → Bool
owns k (of_messages r) = belongs k.id r
owns k _ = true

-- An error that leaves everything as it was.
abbrev pub IsRefusal : World → Reply × World → Type 0
IsRefusal w out = (leb 400 (status out.0) ≡ true) × (out.1 ≡ w)

-- A member of staff who sent no API key.
pub record ByStaff (others : Backend) (r : HttpRequest) : Type 0 where
  pub id : ℕ
  pub signed : others ≡ Backend.signed_in id true
  pub no_key : str_eq r.api_key_header "" ≡ true

-- An active API key, with its secret, on an endpoint of messages.
pub record ByKey (hmac : String → String → String) (pepper : String) (r : HttpRequest)
    (e : Endpoint) (w : World) (out : Reply × World) : Type 0 where
  pub key : ApiKey
  pub proven : Proven hmac pepper r key
  pub endpoint : about_messages e ≡ true
  pub own : owns key out.0 ≡ true
  pub tables : managed out.1 ≡ managed w

-- Who does what by a request.
abbrev pub Entitled :
    (String → String → String)
    → String
    → Backend
    → HttpRequest
    → Endpoint
    → World
    → Reply × World
    → Type 0
Entitled hmac pepper others r e w out =
    IsRefusal w out ⊎ (ByStaff others r ⊎ ByKey hmac pepper r e w out)

none_visible :
    (l : List Message) (k : ℕ) → find_first (by_key (λ m. m.id) k) (select (λ m. false) l) ≡ none
none_visible [] k = refl
none_visible (m ∷ l) k = none_visible l k

hidden : (u k : ℕ) (w : World) → retrieve (Caller.user false) k w ≡ Response.not_found
unfolding retrieve visible
hidden u k w = rw (none_visible w.messages k) refl

module _ (hmac : String → String → String) (pepper : String) (space : Char → Bool) (net : Network)
    (jinja : Bool → String → Dict → Rendered String) (json_error : String → Option String)
    (dict_eq : Dict → Dict → Bool) (before : String → String → Bool) (o : Occasion)
    (quiet : LeavesManaged o.around) (p : Permissions) (documented : IsDocumented p) where
  abbrev viewed : Endpoint → Principal → World → Reply × World
  viewed = view hmac pepper space net jinja json_error dict_eq before o

  abbrev answered : Endpoint → Credentials → World → Reply × World
  answered = checked hmac pepper space net jinja json_error dict_eq before o p

  stranger-refused : (e : Endpoint) (w : World) → IsRefusal w (answered e (known nobody) w)
  unfolding checked
  stranger-refused e w = ground (arith, documented.authenticated nobody, documented.admin nobody)

  -- An account that is not staff's gets at nothing.
  guest-refused :
      (u : ℕ) (e : Endpoint) (w : World) → IsRefusal w (answered e (known (account u false)) w)
  unfolding checked view MessageViews.create
  guest-refused u (post_message header m) w =
      rw (documented.authenticated (account u false)) (refl, refl)
  guest-refused u (get_message k) w =
      rw (documented.authenticated (account u false), hidden u k w) (refl, refl)
  guest-refused u e w = rw (documented.admin (account u false)) (refl, refl)

  key-answered :
      (r : HttpRequest) (others : Backend) (k : ApiKey) (e : Endpoint) (w : World)
      → Proven hmac pepper r k
      → Entitled hmac pepper others r e w (answered e (known (principal k)) w)
  unfolding checked view
  key-answered r others k (post_message header m) w proven = inr (
      inr (record {
        key = k;
        proven = proven;
        endpoint = refl;
        own =
            rw (documented.authenticated (principal k))
              (create-belongs space net jinja json_error dict_eq o.around m w k header);
        tables =
            rw (documented.authenticated (principal k))
              (create-managed space net jinja json_error dict_eq o.around quiet k header m w);
      }))
  key-answered r others k (get_message j) w proven = inr (
      inr (record {
        key = k;
        proven = proven;
        endpoint = refl;
        own = rw (documented.authenticated (principal k)) (retrieve-belongs k j w);
        tables = rw (documented.authenticated (principal k)) refl;
      }))
  key-answered r others k e w proven = inl (rw (documented.admin (principal k)) (refl, refl))

  others-answered :
      (r : HttpRequest) (others : Backend) (e : Endpoint) (w : World)
      → str_eq r.api_key_header "" ≡ true
      → Entitled hmac pepper others r e w (answered e (after_key passed_on others) w)
  unfolding after_key checked
  others-answered r Backend.passes e w blank = inl (stranger-refused e w)
  others-answered r Backend.fails e w blank = inl (refl, refl)
  others-answered r Backend.denies e w blank = inl (refl, refl)
  others-answered r (Backend.signed_in u true) e w blank =
      inr (inl (record { id = u; signed = refl; no_key = blank }))
  others-answered r (Backend.signed_in u false) e w blank = inl (guest-refused u e w)

  authenticated-answered :
      (r : HttpRequest) (others : Backend) (a : Authenticated) (e : Endpoint) (w : World)
      → r.resolved ≡ none
      → authenticate hmac pepper r w ≡ a
      → Entitled hmac pepper others r e w (answered e (after_key a others) w)
  unfolding after_key checked
  authenticated-answered r others passed_on e w fresh h =
      others-answered r others e w (authenticate-passed_on hmac pepper r w h)
  authenticated-answered r others (as_key k) e w fresh h =
      key-answered r others k e w (authenticate-Proven hmac pepper r w k fresh h)
  authenticated-answered r others authentication_failed e w fresh h = inl (refl, refl)
  authenticated-answered r others Authenticated.server_error e w fresh h = inl (refl, refl)

  -- A request that has no remembered key is answered with an error that changes nothing, or it is by
  -- a member of staff who is signed in and sent no API key, or it is by an active API key with its
  -- secret on an endpoint of messages, and then the answer shows no message of another key, and the
  -- keys, the templates and their versions stay as they are, if other requests leave them alone
  -- meanwhile; as long as the framework's permission classes do what they document.
  pub handle-Entitled :
      (r : HttpRequest) (others : Backend) (e : Endpoint) (w : World)
      → r.resolved ≡ none
      → Entitled hmac pepper others r e w
          (handle hmac pepper space net jinja json_error dict_eq before o p others r e w)
  unfolding handle credentials
  handle-Entitled r others e w fresh =
      authenticated-answered r others (authenticate hmac pepper r w) e w fresh refl
