-- ===== src/Services/Idempotency.antt =====
-- Idempotency of src/apps/messages_api/services.py: one key of an API key, one message.
use notify_relay.Prelude.{
  ℕ, ◌≤◌, String, ◌≡◌, refl, ◌∙◌, sym, ap, ap₂, Bool, true, false, ◌&&◌, Option, some, is_some,
  List, [], ◌∷◌, ◌++◌, Bool-cases, inl, inr, arith, select, select-append, length, length-append,
  any, order_by, eq_refl, option_eq_iff, eq_iff, ==_refl,
}
use notify_relay.Models.{Message, Dict}
use notify_relay.State.{World}
use notify_relay.Renderer.{Rendered}
use notify_relay.Services.{
  ValidatedData, Surroundings, find_existing, key_taken, replay, replay_or_create, create_message,
  same_key,
}
use notify_relay.Services.Creation.{create_message-Created, create_message-cases}

-- The rows of one key.
abbrev pub rows_of : ℕ → String → World → List Message
rows_of a key w = select (same_key (some a) key) w.messages

-- The part of a message that a repeated request is compared with.
abbrev pub SamePayload : Message → Message → Type 0
SamePayload m n =
    (n.channel ≡ m.channel)
    × (n.recipient ≡ m.recipient)
    × (n.context ≡ m.context)
    × (n.scheduled_at ≡ m.scheduled_at)
    × (n.priority ≡ m.priority)

find_existing-one :
    (a : ℕ) (key : String) (w : World) (m : Message)
    → rows_of a key w ≡ m ∷ []
    → find_existing (some a) key w.messages ≡ some m
unfolding find_existing order_by
find_existing-one a key w m e = rw e refl

-- A request whose key is in use writes nothing and answers with the message of that key, or with a
-- conflict.
pub replay_lem :
    (jinja : Bool → String → Dict → Rendered String) (json_error : String → Option String)
    (dict_eq : Dict → Dict → Bool) (s : Surroundings) (a : ℕ) (key : String) (d : ValidatedData)
    (w : World) (m : Message)
    → rows_of a key w ≡ m ∷ []
    → create_message jinja json_error dict_eq s (some a) key d w ≡ (replay dict_eq m d, w)
unfolding create_message replay_or_create
replay_lem jinja json_error dict_eq s a key d w m e = rw (find_existing-one a key w m e)

any-false-select {ℓ} : {A : Type ℓ} (p : A → Bool) (l : List A) → any p l ≡ false → select p l ≡ []
any-false-select p [] h = refl
any-false-select p (x ∷ l) h = ground (arith, any-false-select p l)

pub own_key :
    (a : ℕ) (key : String) (m : Message)
    → m.api_key ≡ some a
    → m.idempotency_key ≡ key
    → same_key (some a) key m ≡ true
own_key a key m e f = rw (e, f, eq_refl) (ground (arith, ==_refl a))

key_taken-own :
    (a : ℕ) (key : String) (m : Message) (l : List Message)
    → m.api_key ≡ some a
    → m.idempotency_key ≡ key
    → key_taken m l ≡ any (same_key (some a) key) l
key_taken-own a key m l e f = ap₂ (λ b k. any (λ x. is_some b && same_key b k x) l) e f

-- The constraint on the table: one row at most for each key of each API key.
pub record IsUnique (w : World) : Type 0 where
  pub at : (a : ℕ) (key : String) → length (rows_of a key w) ≤ 1

pub free_for :
    (a b : ℕ) (key : String) (m : Message) (l : List Message)
    → m.api_key ≡ some b
    → key_taken m l ≡ false
    → length (select (same_key (some a) key) l) ≤ 1
    → length (select (same_key (some a) key) (l ++ m ∷ [])) ≤ 1
free_for a b key m l e free one = elim (Bool-cases (same_key (some a) key m)) [
  | inl mine ↦
      let named : m.idempotency_key ≡ key = ground (arith, eq_iff m.idempotency_key key) in
      let owned : m.api_key ≡ some a = ground (arith, option_eq_iff m.api_key (some a)) in
      let none_yet =
        any-false-select (same_key (some a) key) l
          (sym (key_taken-own a key m l owned named) ∙ free) in
      rw (select-append (same_key (some a) key) l (m ∷ []), none_yet, mine) (omega arith)
  | inr other ↦
      rw (select-append (same_key (some a) key) l (m ∷ []), other)
        (omega (arith, length-append (select (same_key (some a) key) l) []))
]

-- However requests with one key race, the table has one row for it at most, provided that what
-- other requests commit in between keeps it so.
pub create_message-IsUnique :
    (jinja : Bool → String → Dict → Rendered String) (json_error : String → Option String)
    (dict_eq : Dict → Dict → Bool) (s : Surroundings) (b : ℕ) (key : String) (d : ValidatedData)
    (w : World)
    → IsUnique w
    → IsUnique (s.others w)
    → IsUnique (s.later (s.others w))
    → IsUnique (create_message jinja json_error dict_eq s (some b) key d w).1
create_message-IsUnique jinja json_error dict_eq s b key d w before between after =
    elim (create_message-cases jinja json_error dict_eq s (some b) key d w) [
      | inl (inl e) ↦ rw e before
      | inl (inr e) ↦ rw e after
      | inr (m, e) ↦
          let after_it = (create_message jinja json_error dict_eq s (some b) key d w).1 in
          let c = create_message-Created jinja json_error dict_eq s (some b) key d w m after_it e in
          record {
            at = λ a k. rw c.messages (
                free_for a b k m (s.others w).messages (ap (λ x. x.api_key) c.message) c.free
                  (between.at a k));
          }
    ]
