-- ===== src/System/Settles.antt =====
-- The end of a run of src/tasks/delivery.py keeps the database and the runs sound.
use notify_relay.Prelude.{
  ℕ, ◌≡◌, refl, sym, ap, subst, ◌∙◌, Bool, true, false, not, ◌&&◌, ◌||◌, Option, none, some,
  is_some, List, ◌==◌, ==_iff, ltb, inl, inr, Bool-cases, arith, length, Distinct-select,
}
use notify_relay.Models.{Message, is_sending}
use notify_relay.State.{World, Result, ok, raised}
use notify_relay.Channels.{ChannelResult}
use notify_relay.Delivery.{Reply, message_of, attempts_of, conclude}
use notify_relay.Delivery.Verdict.{
  verdict, buried, settled, settled_row, settled-row, settled-buried, settled-keys,
  settled-attempts, conclude_lem,
}
use notify_relay.System.{Flight, flight_key, landed}
use notify_relay.System.Constraints.{settled-Constraints}
use notify_relay.System.Defs.{IsSound, Fine, Held, lettered, was_tried}
use notify_relay.System.Claims.{All-map₂}
use notify_relay.System.Tries.{apart-landed, Held-landed}

abbrev is_in_flight : Option Message → Bool
is_in_flight none = false
is_in_flight (some m) = is_sending m.status

lettered-settled :
    (now k j : ℕ) (v : Result Reply) (row : Option Message) (letter : Bool)
    → (not (j == k) || is_in_flight row) ≡ true
    → lettered row letter ≡ true
    → lettered (settled_row now k j v row) (letter || (buried v && k == j)) ≡ true
lettered-settled now k j (ok Reply.noop) row letter own h = ground (arith, own, h)
lettered-settled now k j (ok Reply.duplicate) row letter own h = ground (arith, own, h)
lettered-settled now k j (raised e) row letter own h = ground (arith, own, h)
lettered-settled now k j (ok Reply.sent) row letter own h = ground (arith, own, h)
lettered-settled now k j (ok Reply.failed) row letter own h = ground (arith, own, h)
lettered-settled now k j (ok Reply.dead) row letter own h = ground (arith, own, h)

was_tried-settled :
    (now k j : ℕ) (v : Result Reply) (row : Option Message) (n : ℕ)
    → (not (j == k) || is_in_flight row) ≡ true
    → was_tried row n ≡ true
    → (not (j == k) || ltb 0 n) ≡ true
    → was_tried (settled_row now k j v row) n ≡ true
was_tried-settled now k j (ok Reply.noop) row n own h t = h
was_tried-settled now k j (ok Reply.duplicate) row n own h t = h
was_tried-settled now k j (raised e) row n own h t = h
was_tried-settled now k j (ok Reply.sent) row n own h t = ground (arith, own, h, t)
was_tried-settled now k j (ok Reply.failed) row n own h t = ground (arith, own, h, t)
was_tried-settled now k j (ok Reply.dead) row n own h t = ground (arith, own, h, t)

pub settled_row-apart :
    (now k j : ℕ) (v : Result Reply) (row : Option Message)
    → (j == k) ≡ false
    → settled_row now k j v row ≡ row
settled_row-apart now k j (ok Reply.noop) row h = refl
settled_row-apart now k j (ok Reply.duplicate) row h = refl
settled_row-apart now k j (raised e) row h = refl
settled_row-apart now k j (ok Reply.sent) row h = rw h
settled_row-apart now k j (ok Reply.failed) row h = rw h
settled_row-apart now k j (ok Reply.dead) row h = rw h

module _ (w : World) (f : Flight) (r : ChannelResult) (now : ℕ) (h : Held w f)
    (tried : f.tried ≡ some r) where
  abbrev reply : Result Reply
  reply = verdict f.request r

  abbrev settled_world : World
  settled_world = settled now f.message r w reply

  own_tried :
      (j : ℕ) → (not (j == f.message.id) || ltb 0 (length (attempts_of j w.attempts))) ≡ true
  own_tried j = elim (Bool-cases (j == f.message.id)) [
    | inr other ↦ rw other refl
    | inl same ↦
        subst (λ i. (not (i == f.message.id) || ltb 0 (length (attempts_of i w.attempts))) ≡ true)
          (sym ((==_iff j f.message.id).0 same)) (ground (arith, h.counted, tried))
  ]

  own_row : (j : ℕ) → (not (j == f.message.id) || is_in_flight (message_of j w)) ≡ true
  own_row j = elim (Bool-cases (j == f.message.id)) [
    | inr other ↦ rw other refl
    | inl same ↦
        let row = ap (λ i. message_of i w) ((==_iff j f.message.id).0 same) ∙ h.row in
        rw same (rw row (ap is_sending h.sending))
  ]

  settled-Fine : (j : ℕ) → Fine j w → Fine j settled_world
  settled-Fine j i = record {
    numbered = rw (settled-attempts now f.message r w reply) i.numbered;
    has_letter =
        rw (settled-row now f.message r w j reply, settled-buried now f.message r w j reply)
          (lettered-settled now f.message.id j reply _ _ (own_row j) i.has_letter);
    tried =
        rw (settled-row now f.message r w j reply, settled-attempts now f.message r w reply)
          (was_tried-settled now f.message.id j reply _ _ (own_row j) i.tried (own_tried j));
  }

  settled-Held :
      (g : Flight) → (flight_key g == f.message.id) ≡ false → Held w g → Held settled_world g
  settled-Held g apart i = record {
    row =
        settled-row now f.message r w g.message.id reply
        ∙ settled_row-apart now f.message.id g.message.id reply _ apart
        ∙ i.row;
    sending = i.sending;
    mine = i.mine;
    counted = rw (settled-attempts now f.message r w reply) i.counted;
  }

  pub settled-IsSound :
      (flights : List Flight)
      → IsSound (record { world = w; flights = flights })
      → IsSound (record {
        world = (conclude f.request now f.message r w).1;
        flights = landed f.message.id flights;
      })
  settled-IsSound flights i =
      rw (conclude_lem now f.message r w f.request (ap is_some h.row)) (record {
        keys = settled-keys now f.message r w reply i.keys;
        constraints = settled-Constraints now f.message r w reply i.constraints;
        fine = λ j. settled-Fine j (i.fine j);
        held =
            All-map₂ (landed f.message.id flights) settled-Held (apart-landed f.message.id flights)
              (Held-landed f.message.id w flights i.held);
        alone =
            Distinct-select flight_key (λ g. not (flight_key g == f.message.id)) flights i.alone;
      })
