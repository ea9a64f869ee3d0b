-- ===== src/Services/Tables.antt =====
-- The tables that `create_message` of src/apps/messages_api/services.py has no business with.
use notify_relay.Prelude.{
  ℕ, ◌≡◌, refl, ◌∙◌, String, Bool, Option, none, some, List, inl, inr, Bool-cases, arith,
}
use notify_relay.Models.{ApiKey, Template, TemplateVersion, Message, Dict}
use notify_relay.State.{World}
use notify_relay.Delivery.{enqueue_for}
use notify_relay.Renderer.{Rendered, RenderedMessage, text, render_error}
use notify_relay.Services.{
  ValidatedData, Surroundings, send_now, new_message, enqueue_after_commit, insert_message,
  lost_race, store_message, insert_rendered, create_new, replay_or_create, create_message,
}

-- What staff manages: the API keys, the templates and their versions.
pub record Managed : Type 0 where
  pub api_keys : List ApiKey
  pub templates : List Template
  pub versions : List TemplateVersion

abbrev pub managed : World → Managed
managed w = record { api_keys = w.api_keys; templates = w.templates; versions = w.versions }

-- The other requests commit nothing of staff's meanwhile.
pub record LeavesManaged (s : Surroundings) : Type 0 where
  pub others : (w : World) → managed (s.others w) ≡ managed w
  pub later : (w : World) → managed (s.later w) ≡ managed w

published-managed :
    (up : Bool) (m : Message) (w : World) → managed (enqueue_after_commit up m w) ≡ managed w
unfolding enqueue_after_commit enqueue_for
published-managed up m w = ground arith

inserted-managed :
    (m : Message) (w w' : World) → insert_message m w ≡ some w' → managed w' ≡ managed w
unfolding insert_message
inserted-managed m w w' h = ground (arith, h)

module _ (jinja : Bool → String → Dict → Rendered String) (json_error : String → Option String)
    (dict_eq : Dict → Dict → Bool) (s : Surroundings) (quiet : LeavesManaged s) (api_key : Option ℕ)
    (key : String) (d : ValidatedData) where
  lost_race-managed :
      (m : Option Message) (w : World) → managed (lost_race dict_eq d m w).1 ≡ managed w
  unfolding lost_race
  lost_race-managed none w = refl
  lost_race-managed (some m) w = refl

  store-managed :
      (m : Message) (o : Option World) (w : World)
      → insert_message m w ≡ o
      → managed (store_message dict_eq s api_key key d m o w).1 ≡ managed w
  unfolding store_message
  store-managed m none w e = lost_race-managed _ (s.later w) ∙ quiet.later w
  store-managed m (some w') w e = elim (Bool-cases (send_now s.now d)) [
    | inl now ↦ rw now (published-managed s.up m w' ∙ inserted-managed m w w' e)
    | inr waits ↦ rw waits (inserted-managed m w w' e)
  ]

  insert_rendered-managed :
      (v : TemplateVersion) (r : Rendered RenderedMessage) (w : World)
      → managed (insert_rendered jinja json_error dict_eq s api_key key d v r w).1 ≡ managed w
  unfolding insert_rendered
  insert_rendered-managed v (render_error e) w = refl
  insert_rendered-managed v (text r) w =
      store-managed (new_message s api_key key d v r) _ (s.others w) refl ∙ quiet.others w

  create_new-managed :
      (v : Option TemplateVersion) (w : World)
      → managed (create_new jinja json_error dict_eq s api_key key d v w).1 ≡ managed w
  unfolding create_new
  create_new-managed none w = refl
  create_new-managed (some v) w = insert_rendered-managed v _ w

  replay_or_create-managed :
      (m : Option Message) (w : World)
      → managed (replay_or_create jinja json_error dict_eq s api_key key d m w).1 ≡ managed w
  unfolding replay_or_create
  replay_or_create-managed (some m) w = refl
  replay_or_create-managed none w = create_new-managed _ w

  pub create_message-managed :
      (w : World)
      → managed (create_message jinja json_error dict_eq s api_key key d w).1 ≡ managed w
  unfolding create_message
  create_message-managed w = replay_or_create-managed _ w
