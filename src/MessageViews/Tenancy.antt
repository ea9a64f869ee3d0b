-- ===== src/MessageViews/Tenancy.antt =====
-- Who sees and creates what through src/apps/messages_api/views.py.
use Prim.Native.String.{count}
use notify_relay.Prelude.{
  ℕ, ◌≤◌, String, Char, ◌≡◌, refl, ap, Bool, true, false, ◌&&◌, Option, some, List, [], ◌∷◌, str_eq,
  arith, select, find_first, by_key, option_eq, Option-cases, inl, inr, option_eq_iff, eq_iff, ◌==◌,
}
use notify_relay.Models.{ApiKey, Message, Dict}
use notify_relay.State.{World}
use notify_relay.Middleware.{strip}
use notify_relay.Validators.{Network}
use notify_relay.Renderer.{Rendered}
use notify_relay.Services.{Surroundings, Outcome, done, create_message, same_key}
use notify_relay.Services.Owner.{create_message-own}
use notify_relay.MessageViews.{
  Caller, api_key, RawMessage, Response, accepted, found, create, create_with_key, create_valid,
  validate, Validation, invalid, value_error, validated, respond, retrieve, visible,
  idempotency_key_max_length,
}

select-found :
    (p q : Message → Bool) (l : List Message) (m : Message)
    → find_first q (select p l) ≡ some m
    → (p m && q m) ≡ true
select-found p q [] m h = cc
select-found p q (x ∷ l) m h = ground (arith, select-found p q l m)

-- A caller retrieves only what it may see: an API key the messages that it sent itself, staff every
-- message, and nobody else any; and the message has the id that was asked for.
pub retrieve-visible :
    (caller : Caller) (k : ℕ) (w : World) (m : Message)
    → retrieve caller k w ≡ found m
    → (visible caller m ≡ true) × ((m.id == k) ≡ true)
unfolding retrieve
retrieve-visible caller k w m h =
    let hit =
      select-found (visible caller) (by_key (λ x. x.id) k) w.messages m (ground (arith, h)) in
    ground (arith, hit)

-- Whether an answer shows only a message of this owner.
abbrev pub belongs : ℕ → Response → Bool
belongs a (accepted m) = option_eq m.api_key (some a)
belongs a (found m) = option_eq m.api_key (some a)
belongs a _ = true

pub retrieve-belongs :
    (k : ApiKey) (j : ℕ) (w : World) → belongs k.id (retrieve (api_key k) j w) ≡ true
unfolding retrieve visible
retrieve-belongs k j w =
    elim (Option-cases
      (find_first (by_key (λ m. m.id) j) (select (visible (api_key k)) w.messages))) [
        | inl missing ↦ rw missing refl
        | inr (m, e) ↦
            let hit = select-found (visible (api_key k)) (by_key (λ x. x.id) j) w.messages m e in
            rw e (ground (arith, hit))
      ]

-- Whether an answer accepts only a message with this owner and key, and shows no other.
sent_by : ℕ → String → Response → Bool
sent_by a key (accepted m) = same_key (some a) key m
sent_by a key (found m) = false
sent_by a key _ = true

sent_by-belongs :
    (a : ℕ) (key : String) (x : Response) → sent_by a key x ≡ true → belongs a x ≡ true
unfolding sent_by
sent_by-belongs a key (accepted m) h = ground (arith, h)
sent_by-belongs a key (found m) h = absurd (ground (arith, h))
sent_by-belongs a key x h = refl

respond-sent_by :
    (a : ℕ) (key : String) (o : Outcome) (w : World)
    → ((m : Message) (new : Bool) → o ≡ done m new → same_key (some a) key m ≡ true)
    → sent_by a key (respond (o, w)).0 ≡ true
unfolding sent_by
respond-sent_by a key (done n new) w h = h n new refl
respond-sent_by a key Outcome.idempotency_conflict w h = refl
respond-sent_by a key Outcome.template_not_found w h = refl
respond-sent_by a key (Outcome.render_failed e) w h = refl
respond-sent_by a key Outcome.integrity_error w h = refl

respond-pair :
    (a : ℕ) (key : String) (r : Outcome × World)
    → ((m : Message) (new : Bool) → r.0 ≡ done m new → same_key (some a) key m ≡ true)
    → sent_by a key (respond r).0 ≡ true
respond-pair a key (o, w) h = respond-sent_by a key o w h

same_key-fields :
    (a : ℕ) (key : String) (m : Message)
    → same_key (some a) key m ≡ true
    → (m.api_key ≡ some a) × (m.idempotency_key ≡ key)
same_key-fields a key m h =
    ground (arith, option_eq_iff m.api_key (some a), eq_iff m.idempotency_key key)

module _ (space : Char → Bool) (net : Network) (jinja : Bool → String → Dict → Rendered String)
    (json_error : String → Option String) (dict_eq : Dict → Dict → Bool) (s : Surroundings)
    (r : RawMessage) (w : World) where
  create_valid-sent_by :
      (k : ApiKey) (key : String) (d : Validation)
      → sent_by k.id key (create_valid space net jinja json_error dict_eq s k key d w).0 ≡ true
  unfolding create_valid sent_by
  create_valid-sent_by k key invalid = refl
  create_valid-sent_by k key value_error = refl
  create_valid-sent_by k key (validated d) =
      respond-pair k.id key (create_message jinja json_error dict_eq s (some k.id) key d w)
        (create_message-own jinja json_error dict_eq s k.id key d w)

  create_with_key-accepted :
      (k : ApiKey) (key : String) (m : Message)
      → (create_with_key space net jinja json_error dict_eq s k key r w).0 ≡ accepted m
      → (same_key (some k.id) key m ≡ true)
        × (str_eq key "" ≡ false)
        × (count key ≤ idempotency_key_max_length)
  unfolding create_with_key sent_by
  create_with_key-accepted k key m h =
      let own = create_valid-sent_by k key (validate space net r) in
      ground (arith, ap (sent_by k.id key) h)

  pub create-belongs :
      (k : ApiKey) (header : String)
      → belongs k.id (create space net jinja json_error dict_eq s (api_key k) header r w).0 ≡ true
  unfolding create create_with_key
  create-belongs k header =
      let key = strip space header in
      let own =
        sent_by-belongs k.id key
          (create_valid space net jinja json_error dict_eq s k key (validate space net r) w).0
          (create_valid-sent_by k key (validate space net r)) in
      ground (arith, own)

  -- A message that is accepted belongs to the API key of the caller, and its idempotency key is the
  -- stripped header, not empty and at most 128 characters long.
  pub create-accepted :
      (k : ApiKey) (header : String) (m : Message)
      → (create space net jinja json_error dict_eq s (api_key k) header r w).0 ≡ accepted m
      → (m.api_key ≡ some k.id)
        × (m.idempotency_key ≡ strip space header)
        × (str_eq (strip space header) "" ≡ false)
        × (count (strip space header) ≤ idempotency_key_max_length)
  unfolding create
  create-accepted k header m h =
      let hit = create_with_key-accepted k (strip space header) m h in
      let own = same_key-fields k.id (strip space header) m hit.0 in (own.0, own.1, hit.1, hit.2)
