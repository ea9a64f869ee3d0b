-- ===== src/Services/Creation.antt =====
-- `create_message` of src/apps/messages_api/services.py: what a new message is and what it sets off.
use notify_relay.Prelude.{
  ℕ, String, ◌≡◌, refl, Bool, true, false, ◌&&◌, Option, none, some, [], ◌∷◌, ◌++◌, if◌then◌else◌,
  inl, inr, ◌⊎◌, arith,
}
use notify_relay.Models.{Message, Dict, TemplateVersion}
use notify_relay.State.{World}
use notify_relay.Delivery.{task_of, enqueue_for}
use notify_relay.Renderer.{Rendered, RenderedMessage, text, render_error, render}
use notify_relay.Services.{
  ValidatedData, Surroundings, Outcome, done, context_of, find_existing, key_taken,
  resolve_template, replay, send_now, new_message, enqueue_after_commit, insert_message,
  store_message, insert_rendered, create_new, replay_or_create, create_message,
}

abbrev pub is_new : Outcome → Bool
is_new (done m new) = new
is_new _ = false

-- What stands behind a new message: its template version and the rendered text.
pub record Created (jinja : Bool → String → Dict → Rendered String)
    (json_error : String → Option String) (s : Surroundings) (api_key : Option ℕ) (key : String)
    (d : ValidatedData) (w : World) (m : Message) (after : World) : Type 0 where
  pub version : TemplateVersion
  pub rendered : RenderedMessage
  pub unused : find_existing api_key key w.messages ≡ none
  pub resolved : resolve_template d w ≡ some version
  pub faithful : render jinja json_error version (context_of d) d.channel ≡ text rendered
  pub message : m ≡ new_message s api_key key d version rendered
  pub free : key_taken m (s.others w).messages ≡ false
  pub messages : after.messages ≡ (s.others w).messages ++ m ∷ []
  pub broker : after.broker ≡ (
      if send_now s.now d && s.up
      then (s.others w).broker ++ task_of m ∷ []
      else (s.others w).broker)

module _ (jinja : Bool → String → Dict → Rendered String) (json_error : String → Option String)
    (dict_eq : Dict → Dict → Bool) (s : Surroundings) (api_key : Option ℕ) (key : String)
    (d : ValidatedData) (w : World) where
  abbrev before : World
  before = s.others w

  store-new :
      (m m' : Message) (after : World)
      → store_message dict_eq s api_key key d m (insert_message m before) before
        ≡ (done m' true, after)
      → (m' ≡ m)
        × (key_taken m before.messages ≡ false)
        × (after.messages ≡ before.messages ++ m ∷ [])
        × (after.broker
            ≡ (if send_now s.now d && s.up then before.broker ++ task_of m ∷ [] else before.broker))
  unfolding store_message insert_message enqueue_after_commit enqueue_for replay
  store-new m m' after h = ground arith

  -- What the insert of the rendered text `r` of version `v` comes to.
  abbrev Stored : Message → World → TemplateVersion → RenderedMessage → Type 0
  Stored m after v r =
      (m ≡ new_message s api_key key d v r)
      × (key_taken (new_message s api_key key d v r) before.messages ≡ false)
      × (after.messages ≡ before.messages ++ new_message s api_key key d v r ∷ [])
      × (after.broker ≡ (
          if send_now s.now d && s.up
          then before.broker ++ task_of (new_message s api_key key d v r) ∷ []
          else before.broker))

  insert_rendered-new :
      (v : TemplateVersion) (o : Rendered RenderedMessage) (m : Message) (after : World)
      → insert_rendered jinja json_error dict_eq s api_key key d v o w ≡ (done m true, after)
      → (r : RenderedMessage) × (o ≡ text r) × Stored m after v r
  unfolding insert_rendered
  insert_rendered-new v (render_error e) m after h = absurd (ground arith)
  insert_rendered-new v (text r) m after h =
      (r, refl, store-new (new_message s api_key key d v r) m after h)

  create_new-new :
      (o : Option TemplateVersion) (m : Message) (after : World)
      → create_new jinja json_error dict_eq s api_key key d o w ≡ (done m true, after)
      → (v : TemplateVersion) × (r : RenderedMessage) × (o ≡ some v)
        × (render jinja json_error v (context_of d) d.channel ≡ text r)
        × Stored m after v r
  unfolding create_new
  create_new-new none m after h = absurd (ground arith)
  create_new-new (some v) m after h =
      let (r, e, stored) = insert_rendered-new v _ m after h in (v, r, refl, e, stored)

  replay_or_create-new :
      (o : Option Message) (m : Message) (after : World)
      → replay_or_create jinja json_error dict_eq s api_key key d o w ≡ (done m true, after)
      → (v : TemplateVersion) × (r : RenderedMessage) × (o ≡ none)
        × (resolve_template d w ≡ some v)
        × (render jinja json_error v (context_of d) d.channel ≡ text r)
        × Stored m after v r
  unfolding replay_or_create replay
  replay_or_create-new (some x) m after h = absurd (ground arith)
  replay_or_create-new none m after h =
      let (v, r, e, f, stored) = create_new-new (resolve_template d w) m after h in
      (v, r, refl, e, f, stored)

  -- A message is reported as new only if its key was unused; it is the snapshot of the rendered
  -- template, queued; it is the one row that is added, its key was still free then; and exactly
  -- one delivery task is published if it is to be sent now and the broker is up, else none.
  pub create_message-Created :
      (m : Message) (after : World)
      → create_message jinja json_error dict_eq s api_key key d w ≡ (done m true, after)
      → Created jinja json_error s api_key key d w m after
  unfolding create_message
  create_message-Created m after h =
      let (v, r, unused, e, f, stored) = replay_or_create-new _ m after h in
      let same = stored.0 in
      record {
        version = v;
        rendered = r;
        unused = unused;
        resolved = e;
        faithful = f;
        message = same;
        free = rw same stored.1;
        messages = rw same stored.2;
        broker = rw same stored.3;
      }

  store-old :
      (m : Message)
      → is_new (store_message dict_eq s api_key key d m (insert_message m before) before).0 ≡ false
      → (store_message dict_eq s api_key key d m (insert_message m before) before).1
        ≡ s.later before
  unfolding store_message insert_message replay
  store-old m h = ground arith

  insert_rendered-old :
      (v : TemplateVersion) (o : Rendered RenderedMessage)
      → let run = insert_rendered jinja json_error dict_eq s api_key key d v o w in
        is_new run.0 ≡ false → (run.1 ≡ w) ⊎ (run.1 ≡ s.later (s.others w))
  unfolding insert_rendered
  insert_rendered-old v (render_error e) h = inl refl
  insert_rendered-old v (text r) h = inr (store-old (new_message s api_key key d v r) h)

  create_new-old :
      (o : Option TemplateVersion)
      → let run = create_new jinja json_error dict_eq s api_key key d o w in
        is_new run.0 ≡ false → (run.1 ≡ w) ⊎ (run.1 ≡ s.later (s.others w))
  unfolding create_new
  create_new-old none h = inl refl
  create_new-old (some v) h =
      insert_rendered-old v (render jinja json_error v (context_of d) d.channel) h

  replay_or_create-old :
      (o : Option Message)
      → let run = replay_or_create jinja json_error dict_eq s api_key key d o w in
        is_new run.0 ≡ false → (run.1 ≡ w) ⊎ (run.1 ≡ s.later (s.others w))
  unfolding replay_or_create
  replay_or_create-old (some m) h = inl refl
  replay_or_create-old none h = create_new-old (resolve_template d w) h

  -- A request that creates nothing (a replay, a conflict, an error) writes nothing: the world is as
  -- it was, or as other requests left it when the insert lost the race for its key.
  pub create_message-old :
      is_new (create_message jinja json_error dict_eq s api_key key d w).0 ≡ false
      → ((create_message jinja json_error dict_eq s api_key key d w).1 ≡ w)
        ⊎ ((create_message jinja json_error dict_eq s api_key key d w).1 ≡ s.later (s.others w))
  unfolding create_message
  create_message-old h = replay_or_create-old (find_existing api_key key w.messages) h

  new-cases : (o : Outcome) → (is_new o ≡ false) ⊎ ((m : Message) × (o ≡ done m true))
  new-cases (done m true) = inr (m, refl)
  new-cases (done m false) = inl refl
  new-cases _ = inl refl

  pub create_message-cases :
      let run = create_message jinja json_error dict_eq s api_key key d w in
      ((run.1 ≡ w) ⊎ (run.1 ≡ s.later (s.others w)))
      ⊎ ((m : Message) × (run ≡ (done m true, run.1)))
  create_message-cases =
      elim (new-cases (create_message jinja json_error dict_eq s api_key key d w).0) [
        | inl old ↦ inl (create_message-old old)
        | inr (m, e) ↦ inr (m, cc e)
      ]
