-- ===== src/System/Inserts.antt =====
-- The insert of a message keeps the database and the runs sound.
use notify_relay.Prelude.{
  ℕ, ◌≡◌, refl, sym, subst, ◌∙◌, Bool, true, Option, none, some, List, [], ◌∷◌, ◌++◌, ◌==◌,
  if◌then◌else◌, arith, length, find_first-append, Distinct-append,
}
use notify_relay.Models.{Message, MessageStatus}
use notify_relay.State.{World}
use notify_relay.Delivery.{message_of, attempts_of, has_dead_letter}
use notify_relay.System.{Flight}
use notify_relay.System.Constraints.{Constraints, inserted-Constraints}
use notify_relay.System.Defs.{IsSound, Fine, Held, lettered, was_tried}
use notify_relay.System.Claims.{All-map}
use notify_relay.Services.{insert_message}
use notify_relay.System.Effects.{insert_message-cases}

module _ (m : Message) (w w' : World) (inserted : insert_message m w ≡ some w')
    (waits : m.status ≡ MessageStatus.queued) where
  abbrev with_row : World
  with_row = record w { messages = w.messages ++ m ∷ [] }

  with_row-row :
      (j : ℕ)
      → message_of j with_row
        ≡ elim (message_of j w) [ none ↦ if m.id == j then some m else none | some x ↦ some x ]
  with_row-row j = find_first-append (λ x. x.id) j w.messages m

  lettered-insert :
      (j : ℕ) (row : Option Message) (letter : Bool)
      → lettered row letter ≡ true
      → lettered (elim row [ none ↦ if m.id == j then some m else none | some x ↦ some x ]) letter
        ≡ true
  lettered-insert j none letter h = ground (arith, waits, h)
  lettered-insert j (some x) letter h = h

  was_tried-insert :
      (j : ℕ) (row : Option Message) (n : ℕ)
      → was_tried row n ≡ true
      → was_tried (elim row [ none ↦ if m.id == j then some m else none | some x ↦ some x ]) n
        ≡ true
  was_tried-insert j none n h = ground (arith, waits, h)
  was_tried-insert j (some x) n h = h

  with_row-Fine : (j : ℕ) → Fine j w → Fine j with_row
  with_row-Fine j i = record {
    numbered = i.numbered;
    has_letter =
        rw (with_row-row j)
          (lettered-insert j (message_of j w) (has_dead_letter j w.dead_letters) i.has_letter);
    tried =
        rw (with_row-row j)
          (was_tried-insert j (message_of j w) (length (attempts_of j w.attempts)) i.tried);
  }

  with_row-Held : (f : Flight) → Held w f → Held with_row f
  with_row-Held f h = record {
    row = with_row-row f.message.id ∙ rw (h.row) refl;
    sending = h.sending;
    mine = h.mine;
    counted = h.counted;
  }

  pub inserted-IsSound :
      (flights : List Flight)
      → IsSound (record { world = w; flights = flights })
      → IsSound (record { world = w'; flights = flights })
  inserted-IsSound flights i =
      let new = insert_message-cases m w w' inserted in
      subst (λ v. IsSound (record { world = v; flights = flights })) (sym new.1)
        (record {
          keys = Distinct-append (λ x. x.id) w.messages m i.keys new.0;
          constraints =
              subst Constraints new.1 (inserted-Constraints m w w' inserted i.constraints);
          fine = λ j. with_row-Fine j (i.fine j);
          held = All-map flights with_row-Held i.held;
          alone = i.alone;
        })
