-- ===== src/System/Sweeps.antt =====
-- The clean-up keeps the database and the runs sound.
use notify_relay.Prelude.{
  ℕ, ◌≡◌, refl, ◌∙◌, Bool, not, ◌&&◌, none, List, [], inl, inr, Bool-cases, if◌then◌else◌, arith,
  Distinct, any-delete, Distinct-select, find_first-delete, select-delete,
}
use notify_relay.Models.{Message}
use notify_relay.State.{World}
use notify_relay.Delivery.{message_of, attempts_of, has_dead_letter}
use notify_relay.System.{Flight}
use notify_relay.System.Constraints.{swept-Constraints}
use notify_relay.System.Defs.{IsSound, Fine, Held}
use notify_relay.System.Claims.{All-map}
use notify_relay.Scheduler.{cleanup_ids, delete_messages, id_in}
use notify_relay.System.Effects.{id_in-expired}

module _ (now : ℕ) (w : World) (keys : Distinct (λ (m : Message). m.id) w.messages) where
  abbrev gone : ℕ → Bool
  gone = id_in (cleanup_ids now w.messages)

  abbrev swept : World
  swept = delete_messages (cleanup_ids now w.messages) w

  pub swept-row : (j : ℕ) → message_of j swept ≡ (if gone j then none else message_of j w)
  unfolding delete_messages
  swept-row j = find_first-delete (λ m. m.id) j gone w.messages

  pub swept-attempts :
      (j : ℕ) → attempts_of j swept.attempts ≡ (if gone j then [] else attempts_of j w.attempts)
  unfolding delete_messages
  swept-attempts j = select-delete (λ a. a.message) j gone w.attempts

  pub swept-letters :
      (j : ℕ)
      → has_dead_letter j swept.dead_letters ≡ (has_dead_letter j w.dead_letters && not (gone j))
  unfolding delete_messages
  swept-letters j = any-delete (λ d. d.message) j gone w.dead_letters

  swept-Fine : (j : ℕ) → Fine j w → Fine j swept
  swept-Fine j i = elim (Bool-cases (gone j)) [
    | inl out ↦ record {
      numbered = rw (swept-attempts j, out) tt;
      has_letter = rw (swept-row j, out) (rw (swept-letters j) (ground (arith, out)));
      tried = rw (swept-row j, out) (rw (swept-attempts j, out) refl);
    }
    | inr stays ↦ record {
      numbered = rw (swept-attempts j, stays) i.numbered;
      has_letter =
          rw (swept-row j, stays) (rw (swept-letters j) (ground (arith, i.has_letter, stays)));
      tried = rw (swept-row j, stays) (rw (swept-attempts j, stays) i.tried);
    }
  ]

  swept-Held : (f : Flight) → Held w f → Held swept f
  swept-Held f h =
      let stays =
        id_in-expired now f.message.id w f.message keys h.row (ground (arith, h.sending)) in
      record {
        row = swept-row f.message.id ∙ ground (arith, stays, h.row);
        sending = h.sending;
        mine = h.mine;
        counted = rw (swept-attempts f.message.id, stays) h.counted;
      }

  pub swept-IsSound :
      (flights : List Flight)
      → IsSound (record { world = w; flights = flights })
      → IsSound (record { world = swept; flights = flights })
  unfolding delete_messages
  swept-IsSound flights i = record {
    keys = Distinct-select (λ x. x.id) (λ m. not (gone m.id)) w.messages keys;
    constraints = swept-Constraints (cleanup_ids now w.messages) w i.constraints;
    fine = λ j. swept-Fine j (i.fine j);
    held = All-map flights swept-Held i.held;
    alone = i.alone;
  }
