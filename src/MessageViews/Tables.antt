-- ===== src/MessageViews/Tables.antt =====
-- The tables of staff's that `MessageViewSet.create` of src/apps/messages_api/views.py leaves alone.
use notify_relay.Prelude.{◌≡◌, refl, String, Char, Bool, Option, some, arith}
use notify_relay.Models.{ApiKey, Dict}
use notify_relay.State.{World}
use notify_relay.Validators.{Network}
use notify_relay.Renderer.{Rendered}
use notify_relay.Middleware.{strip}
use notify_relay.Services.{Outcome, done, create_message, Surroundings}
use notify_relay.Services.Tables.{LeavesManaged, managed, create_message-managed}
use notify_relay.MessageViews.{
  RawMessage, api_key, create, respond, create_valid, create_with_key, validate, Validation,
  invalid, value_error, validated,
}

module _ (space : Char → Bool) (net : Network) (jinja : Bool → String → Dict → Rendered String)
    (json_error : String → Option String) (dict_eq : Dict → Dict → Bool) (s : Surroundings)
    (quiet : LeavesManaged s) where
  respond-managed :
      (o : Outcome) (w v : World) → managed w ≡ managed v → managed (respond (o, w)).1 ≡ managed v
  respond-managed (done m new) w v h = h
  respond-managed Outcome.idempotency_conflict w v h = h
  respond-managed Outcome.template_not_found w v h = h
  respond-managed (Outcome.render_failed e) w v h = h
  respond-managed Outcome.integrity_error w v h = h

  create_valid-managed :
      (k : ApiKey) (key : String) (d : Validation) (w : World)
      → managed (create_valid space net jinja json_error dict_eq s k key d w).1 ≡ managed w
  unfolding create_valid
  create_valid-managed k key invalid w = refl
  create_valid-managed k key value_error w = refl
  create_valid-managed k key (validated d) w =
      let run = create_message jinja json_error dict_eq s (some k.id) key d w in
      respond-managed run.0 run.1 w
        (create_message-managed jinja json_error dict_eq s quiet (some k.id) key d w)

  pub create-managed :
      (k : ApiKey) (header : String) (m : RawMessage) (w : World)
      → managed (create space net jinja json_error dict_eq s (api_key k) header m w).1 ≡ managed w
  unfolding create create_with_key
  create-managed k header m w =
      ground (arith, create_valid-managed k (strip space header) (validate space net m) w)
