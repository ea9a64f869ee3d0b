-- ===== src/System/Constraints.antt =====
-- The uniqueness constraints of src/apps/messages_api/models.py on the tables of a System: one
-- message for each idempotency key of an API key, one dead letter for each message.
use notify_relay.Prelude.{
  ℕ, ◌≤◌, ◌≡◌, refl, sym, subst, Bool, false, not, some, List, [], ◌∷◌, ◌++◌, inl, inr, Bool-cases,
  Option-cases, arith, length, length-append, select, select-append, update_where, Distinct,
  Distinct-select, Distinct-append, String, by_key,
}
use notify_relay.Models.{Message, DeadLetter}
use notify_relay.State.{World, Result, ok, raised}
use notify_relay.Channels.{ChannelResult}
use notify_relay.Delivery.{Reply, get_or_create_dead_letter, has_dead_letter}
use notify_relay.Delivery.Verdict.{settled, record_of_save, bury-messages}
use notify_relay.Scheduler.{delete_messages, id_in}
use notify_relay.Services.{insert_message, same_key, key_taken}
use notify_relay.Services.Idempotency.{IsUnique, free_for}

pub record Constraints (w : World) : Type 0 where
  pub unique : IsUnique w
  pub one_letter : Distinct (λ (d : DeadLetter). d.message) w.dead_letters

length-select-update :
    (p q : Message → Bool) (f : Message → Message)
    → ((m : Message) → p (f m) ≡ p m)
    → (l : List Message) → length (select p (update_where q f l)) ≡ length (select p l)
length-select-update p q f keep [] = refl
length-select-update p q f keep (m ∷ l) = ground (arith, keep m, length-select-update p q f keep l)

length-select-select :
    (p q : Message → Bool) (l : List Message) → length (select p (select q l)) ≤ length (select p l)
length-select-select p q [] = omega arith
length-select-select p q (m ∷ l) = ground (arith, length-select-select p q l)

-- An UPDATE of other columns keeps the keys of the messages.
pub updated-IsUnique :
    (q : Message → Bool) (f : Message → Message) (w v : World)
    → ((a : ℕ) (key : String) (m : Message) → same_key (some a) key (f m) ≡ same_key (some a) key m)
    → v.messages ≡ update_where q f w.messages
    → IsUnique w
    → IsUnique v
updated-IsUnique q f w v keep e u = record {
  at = λ a key. rw e (
      omega (
        arith,
        u.at a key,
        length-select-update (same_key (some a) key) q f (keep a key) w.messages,
      ));
}

pub deleted-IsUnique :
    (q : Message → Bool) (w v : World) → v.messages ≡ select q w.messages → IsUnique w → IsUnique v
deleted-IsUnique q w v e u = record {
  at = λ a key.
      rw e (omega (arith, u.at a key, length-select-select (same_key (some a) key) q w.messages));
}

inserted-IsUnique :
    (m : Message) (w w' : World) → insert_message m w ≡ some w' → IsUnique w → IsUnique w'
unfolding insert_message
inserted-IsUnique m w w' h u =
    let e : (key_taken m w.messages ≡ false) × (w' ≡ record w { messages = w.messages ++ m ∷ [] }) =
      ground (arith, h) in
    subst IsUnique (sym e.1) (record {
      at = λ a key. elim (Option-cases m.api_key) [
        | inr (b, mine) ↦ free_for a b key m w.messages mine e.0 (u.at a key)
        | inl nobody ↦
            rw (select-append (same_key (some a) key) w.messages (m ∷ []), nobody)
              (omega (
                arith,
                length-append {0} (select (same_key (some a) key) w.messages) [],
                u.at a key,
              ))
      ];
    })

pub inserted-Constraints :
    (m : Message) (w w' : World) → insert_message m w ≡ some w' → Constraints w → Constraints w'
unfolding insert_message
inserted-Constraints m w w' h c = record {
  unique = inserted-IsUnique m w w' h c.unique;
  one_letter = subst (Distinct (λ (d : DeadLetter). d.message)) (ground (arith, h)) c.one_letter;
}

-- `get_or_create` adds no second dead letter.
buried-Distinct :
    (d : DeadLetter) (w : World)
    → Distinct (λ (d : DeadLetter). d.message) w.dead_letters
    → Distinct (λ (d : DeadLetter). d.message) (get_or_create_dead_letter d w).dead_letters
unfolding get_or_create_dead_letter
buried-Distinct d w h = elim (Bool-cases (has_dead_letter d.message w.dead_letters)) [
  | inl there ↦ rw there h
  | inr fresh ↦ rw fresh (Distinct-append (λ x. x.message) w.dead_letters d h fresh)
]

pub settled-Constraints :
    (now : ℕ) (m : Message) (r : ChannelResult) (w : World) (v : Result Reply)
    → Constraints w
    → Constraints (settled now m r w v)
unfolding settled record_of_save
settled-Constraints now m r w (ok Reply.sent) c = record {
  unique = updated-IsUnique (by_key (λ x. x.id) m.id) _ w _ (λ a key x. refl) refl c.unique;
  one_letter = c.one_letter;
}
settled-Constraints now m r w (ok Reply.failed) c = record {
  unique =
      updated-IsUnique (by_key (λ x. x.id) m.id) _ w _ (λ a key x. refl) (bury-messages _ _)
        c.unique;
  one_letter = buried-Distinct _ _ c.one_letter;
}
settled-Constraints now m r w (ok Reply.dead) c = record {
  unique =
      updated-IsUnique (by_key (λ x. x.id) m.id) _ w _ (λ a key x. refl) (bury-messages _ _)
        c.unique;
  one_letter = buried-Distinct _ _ c.one_letter;
}
settled-Constraints now m r w (ok Reply.noop) c = c
settled-Constraints now m r w (ok Reply.duplicate) c = c
settled-Constraints now m r w (raised e) c = c

pub swept-Constraints :
    (ids : List ℕ) (w : World) → Constraints w → Constraints (delete_messages ids w)
unfolding delete_messages
swept-Constraints ids w c = record {
  unique = deleted-IsUnique (λ m. not (id_in ids m.id)) w _ refl c.unique;
  one_letter =
      Distinct-select (λ d. d.message) (λ d. not (id_in ids d.message)) w.dead_letters c.one_letter;
}
