-- ===== src/Services/Owner.antt =====
-- The message that `create_message` of src/apps/messages_api/services.py returns is the caller's.
use notify_relay.Prelude.{
  ℕ, String, ◌≡◌, refl, ◌∙◌, sym, Bool, true, Option, none, some, List, [], ◌∷◌, eq_refl, arith,
  select, order_by, All, All-order_by, ==_refl, ap,
}
use notify_relay.Models.{Message, Dict, TemplateVersion}
use notify_relay.State.{World}
use notify_relay.Renderer.{Rendered, RenderedMessage, text, render_error, render}
use notify_relay.Templating.{first}
use notify_relay.Scheduler.{newest_first}
use notify_relay.Services.{
  ValidatedData, Surroundings, Outcome, done, find_existing, same_key, replay, create_message,
  replay_or_create, create_new, insert_rendered, store_message, new_message, resolve_template,
  context_of, lost_race,
}

first-All :
    (p : Message → Bool) (l : List Message) (m : Message)
    → All (λ x. p x ≡ true) l
    → first l ≡ some m
    → p m ≡ true
first-All p [] m h e = cc
first-All p (x ∷ l) m h e = ground (arith, h.0)

select-All : (p : Message → Bool) (l : List Message) → All (λ x. p x ≡ true) (select p l)
select-All p [] = tt
select-All p (x ∷ l) = ground (arith, select-All p l)

find_existing-own :
    (a : Option ℕ) (key : String) (l : List Message) (m : Message)
    → find_existing a key l ≡ some m
    → same_key a key m ≡ true
unfolding find_existing
find_existing-own a key l m e =
    first-All (same_key a key) (order_by newest_first (select (same_key a key) l)) m
      (All-order_by newest_first (λ x. same_key a key x ≡ true) (select (same_key a key) l)
        (select-All (same_key a key) l))
      e

module _ (jinja : Bool → String → Dict → Rendered String) (json_error : String → Option String)
    (dict_eq : Dict → Dict → Bool) (s : Surroundings) (a : ℕ) (key : String) (d : ValidatedData)
    (w : World) where
  own : Outcome → Bool
  own (done m new) = same_key (some a) key m
  own _ = true

  new-own :
      (v : TemplateVersion) (r : RenderedMessage)
      → same_key (some a) key (new_message s (some a) key d v r) ≡ true
  new-own v r = ground (arith, ==_refl a, eq_refl key)

  replay-own : (m : Message) → same_key (some a) key m ≡ true → own (replay dict_eq m d) ≡ true
  unfolding replay own
  replay-own m h = ground arith

  lost_race-own :
      (o : Option Message) (v : World)
      → ((m : Message) → o ≡ some m → same_key (some a) key m ≡ true)
      → own (lost_race dict_eq d o v).0 ≡ true
  unfolding lost_race own
  lost_race-own none v h = refl
  lost_race-own (some m) v h = replay-own m (h m refl)

  store_message-own :
      (m : Message) (o : Option World) (v : World)
      → same_key (some a) key m ≡ true
      → own (store_message dict_eq s (some a) key d m o v).0 ≡ true
  unfolding store_message own
  store_message-own m none v h =
      lost_race-own (find_existing (some a) key (s.later v).messages) (s.later v)
        (find_existing-own (some a) key (s.later v).messages)
  store_message-own m (some v') v h = h

  insert_rendered-own :
      (v : TemplateVersion) (o : Rendered RenderedMessage)
      → own (insert_rendered jinja json_error dict_eq s (some a) key d v o w).0 ≡ true
  unfolding insert_rendered own
  insert_rendered-own v (render_error e) = refl
  insert_rendered-own v (text r) =
      store_message-own (new_message s (some a) key d v r) _ (s.others w) (new-own v r)

  create_new-own :
      (o : Option TemplateVersion)
      → own (create_new jinja json_error dict_eq s (some a) key d o w).0 ≡ true
  unfolding create_new own
  create_new-own none = refl
  create_new-own (some v) =
      insert_rendered-own v (render jinja json_error v (context_of d) d.channel)

  replay_or_create-own :
      (o : Option Message)
      → ((m : Message) → o ≡ some m → same_key (some a) key m ≡ true)
      → own (replay_or_create jinja json_error dict_eq s (some a) key d o w).0 ≡ true
  unfolding replay_or_create
  replay_or_create-own none h = create_new-own (resolve_template d w)
  replay_or_create-own (some m) h = replay-own m (h m refl)

  -- Whatever is returned, new or found, has the caller's API key and the request's key.
  pub create_message-own :
      (m : Message) (new : Bool)
      → (create_message jinja json_error dict_eq s (some a) key d w).0 ≡ done m new
      → same_key (some a) key m ≡ true
  unfolding create_message own
  create_message-own m new h =
      sym (ap own h)
      ∙ replay_or_create-own (find_existing (some a) key w.messages)
          (find_existing-own (some a) key w.messages)
