-- ===== src/MessageViews/Repeat.antt =====
-- A request to `MessageViewSet.create` of src/apps/messages_api/views.py whose key is in use.
use Prim.Native.String.{count}
use notify_relay.Prelude.{
  ℕ, ◌≡◌, ◌≤◌, refl, sym, subst, String, Char, Bool, true, false, Option, some, List, [], ◌∷◌,
  str_eq, length, select, ltb, find_first, by_key, if◌then◌else◌, Bool-cases, inl, inr, arith,
}
use notify_relay.Models.{ApiKey, Message, Dict}
use notify_relay.State.{World}
use notify_relay.Middleware.{strip}
use notify_relay.Validators.{Network}
use notify_relay.Renderer.{Rendered}
use notify_relay.Delivery.{message_of}
use notify_relay.Services.{Surroundings, ValidatedData, same_key, payload_matches, replay}
use notify_relay.Services.Idempotency.{IsUnique, rows_of, replay_lem, own_key}
use notify_relay.MessageViews.{
  api_key, RawMessage, Response, accepted, create, create_with_key, create_valid, validate,
  validated, idempotency_key_max_length,
}

no_row : (l : List Message) → length l ≤ 0 → l ≡ []
no_row [] h = refl
no_row (x ∷ l) h = absurd (ground (arith, h))

-- The row that is found is the only one that passes a test which one row passes at most.
only_row :
    (p q : Message → Bool) (l : List Message) (n : Message)
    → find_first q l ≡ some n
    → p n ≡ true
    → length (select p l) ≤ 1
    → select p l ≡ n ∷ []
only_row p q [] n found mine one = absurd (ground (arith, found))
only_row p q (x ∷ l) n found mine one = elim (Bool-cases (q x)) [
  | inl here ↦
      let same : x ≡ n = ground (arith, found, here) in
      let passes : p x ≡ true = subst (λ y. p y ≡ true) (sym same) mine in
      rw (passes, no_row (select p l) (ground (arith, one, passes)), same) refl
  | inr further ↦
      let there : find_first q l ≡ some n = ground (arith, found, further) in
      ground (arith, only_row p q l n there mine, one)
]

pub rows_of-only :
    (w : World) (k a : ℕ) (n : Message)
    → IsUnique w
    → message_of k w ≡ some n
    → n.api_key ≡ some a
    → rows_of a n.idempotency_key w ≡ n ∷ []
rows_of-only w k a n unique found owned =
    only_row (same_key (some a) n.idempotency_key) (by_key (λ m. m.id) k) w.messages n found
      (own_key a n.idempotency_key n owned refl) (unique.at a n.idempotency_key)

-- A valid request with the header `key` of its message.
pub record IsRepeat (space : Char → Bool) (net : Network) (n : Message) (header : String)
    (r : RawMessage) (d : ValidatedData) : Type 0 where
  pub key : strip space header ≡ n.idempotency_key
  pub filled : str_eq n.idempotency_key "" ≡ false
  pub short : ltb idempotency_key_max_length (count n.idempotency_key) ≡ false
  pub valid : validate space net r ≡ validated d

-- It gets that message if the payload is the same, else a conflict, and changes nothing.
pub create-known :
    (space : Char → Bool) (net : Network) (jinja : Bool → String → Dict → Rendered String)
    (json_error : String → Option String) (dict_eq : Dict → Dict → Bool) (s : Surroundings)
    (k : ApiKey) (header : String) (r : RawMessage) (d : ValidatedData) (w : World) (j : ℕ)
    (n : Message)
    → IsUnique w
    → message_of j w ≡ some n
    → n.api_key ≡ some k.id
    → IsRepeat space net n header r d
    → create space net jinja json_error dict_eq s (api_key k) header r w
      ≡ ((if payload_matches dict_eq n d then accepted n else Response.idempotency_conflict), w)
unfolding create create_with_key create_valid replay
create-known space net jinja json_error dict_eq s k header r d w j n unique found owned again =
    let run =
      replay_lem jinja json_error dict_eq s k.id n.idempotency_key d w n
        (rows_of-only w j k.id n unique found owned) in
    rw (again.key, again.filled, again.short, again.valid, run) (ground arith)
