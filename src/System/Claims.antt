-- ===== src/System/Claims.antt =====
-- What leaves the tables of messages alone, and the claim, keep the database and the runs sound.
use notify_relay.Prelude.{
  ℕ, ◌≡◌, refl, sym, ap, subst, ◌∙◌, true, false, none, some, List, [], ◌∷◌, ◌==◌, ==_iff, ==_refl,
  inl, inr, Bool-cases, if◌then◌else◌, arith, All, any, by_key, Distinct-update_where, str_eq,
  str_eq,
}
use notify_relay.Models.{Message}
use notify_relay.State.{World}
use notify_relay.Delivery.{Request, owner, message_of, claimed_row}
use notify_relay.Delivery.Refusal.{claimable}
use notify_relay.Delivery.Verdict.{record_of_save, message_of-save, message_of-id}
use notify_relay.System.{System, Flight, flight_key, running}
use notify_relay.System.Constraints.{updated-IsUnique}
use notify_relay.System.Defs.{IsSound, Fine, Held}

-- The three tables of messages are as they were.
pub record SameMessages (w w' : World) : Type 0 where
  pub messages : w'.messages ≡ w.messages
  pub attempts : w'.attempts ≡ w.attempts
  pub dead_letters : w'.dead_letters ≡ w.dead_letters

module _ {w w' : World} (same : SameMessages w w') where
  same-Fine : (k : ℕ) → Fine k w → Fine k w'
  same-Fine k h = record {
    numbered = rw (same.attempts) h.numbered;
    has_letter = rw (same.messages, same.dead_letters) h.has_letter;
    tried = rw (same.messages, same.attempts) h.tried;
  }

  same-Held : (f : Flight) → Held w f → Held w' f
  same-Held f h = record {
    row = rw (same.messages) h.row;
    sending = h.sending;
    mine = h.mine;
    counted = rw (same.attempts) h.counted;
  }

pub All-map :
    {P Q : Flight → Type 0} (l : List Flight) → ((f : Flight) → P f → Q f) → All P l → All Q l
All-map [] g h = tt
All-map (f ∷ l) g h = (g f h.0, All-map l g h.1)

pub All-map₂ :
    {P Q R : Flight → Type 0} (l : List Flight)
    → ((f : Flight) → P f → Q f → R f)
    → All P l
    → All Q l
    → All R l
All-map₂ [] g h k = tt
All-map₂ (f ∷ l) g h k = (g f h.0 k.0, All-map₂ l g h.1 k.1)

pub same-IsSound :
    (s : System) (w : World) → SameMessages s.world w → IsSound s → IsSound (record s { world = w })
same-IsSound s w same i = record {
  keys = rw (same.messages) i.keys;
  constraints = record {
    unique = record { at = λ a key. rw (same.messages) (i.constraints.unique.at a key) };
    one_letter = rw (same.dead_letters) i.constraints.one_letter;
  };
  fine = λ k. same-Fine same k (i.fine k);
  held = All-map s.flights (same-Held same) i.held;
  alone = i.alone;
}

-- Claims.
module _ (request : Request) (k now : ℕ) (w : World) (m : Message) (found : message_of k w ≡ some m)
    (free : claimable request m ≡ true) where
  abbrev taken : World
  taken = record_of_save k (claimed_row (owner request) now) w

  pub claimed-message :
      (j : ℕ)
      → message_of j taken
        ≡ (if j == k then some (claimed_row (owner request) now m) else message_of j w)
  claimed-message j = elim (Bool-cases (j == k)) [
    | inl same ↦ rw same (
        message_of-save k j (claimed_row (owner request) now) w (λ x. refl)
        ∙ ground (arith, found, ap (λ i. message_of i w) ((==_iff j k).0 same)))
    | inr other ↦
        rw other
          (message_of-save k j (claimed_row (owner request) now) w (λ x. refl) ∙ ground (arith))
  ]

  claimed-Fine : (j : ℕ) → Fine j w → Fine j taken
  unfolding record_of_save
  claimed-Fine j h = record {
    numbered = h.numbered;
    has_letter = rw (claimed-message j) (ground (arith, h.has_letter));
    tried = rw (claimed-message j) (ground (arith, h.tried));
  }

  same_row : (f : Flight) → Held w f → f.message.id ≡ k → f.message ≡ m
  same_row f h same = ground (arith, h.row, found, ap (λ i. message_of i w) same)

  no_run : (f : Flight) → Held w f → running request k f ≡ false → (flight_key f == k) ≡ false
  no_run f h out = elim (Bool-cases (flight_key f == k)) [
    | inr other ↦ other
    | inl same ↦
        let free' =
          subst (λ x. claimable request x ≡ true)
            (sym (same_row f h ((==_iff f.message.id k).0 same))) free in
        absurd (
          ground
            (arith, free', h.sending, h.mine, ap (λ o. str_eq o (owner request)) h.mine, out, same))
  ]

  -- A run on the message would hold it against the claim.
  none_running :
      (l : List Flight)
      → All (Held w) l
      → any (running request k) l ≡ false
      → All (λ f. (flight_key f == k) ≡ false) l
  none_running [] h out = tt
  none_running (f ∷ l) h out = (no_run f h.0 (ground arith), none_running l h.1 (ground arith))

  claimed-Held : (f : Flight) → (flight_key f == k) ≡ false → Held w f → Held taken f
  unfolding record_of_save
  claimed-Held f apart h = record {
    row = claimed-message f.message.id ∙ ground (arith, h.row);
    sending = h.sending;
    mine = h.mine;
    counted = h.counted;
  }

  pub claimed-IsSound :
      (flights : List Flight)
      → any (running request k) flights ≡ false
      → IsSound (record { world = w; flights = flights })
      → IsSound (record {
        world = taken;
        flights =
            record { request = request; message = claimed_row (owner request) now m; tried = none }
            ∷ flights;
      })
  unfolding record_of_save
  claimed-IsSound flights out i =
      let same = message_of-id k w m found in
      let apart = none_running flights i.held out in
      record {
        keys =
            Distinct-update_where (λ x. x.id) (by_key (λ x. x.id) k)
              (claimed_row (owner request) now) (λ x. refl) w.messages i.keys;
        constraints = record {
          unique =
              updated-IsUnique (by_key (λ x. x.id) k) _ w _ (λ a key x. refl) refl
                i.constraints.unique;
          one_letter = i.constraints.one_letter;
        };
        fine = λ j. claimed-Fine j (i.fine j);
        held = (
          record {
            row = claimed-message m.id ∙ ground (arith, same, ==_refl k);
            sending = refl;
            mine = refl;
            counted = refl;
          },
          All-map₂ flights claimed-Held apart i.held,
        );
        alone =
            (subst (λ j. All (λ f. (flight_key f == j) ≡ false) flights) (sym same) apart, i.alone);
      }
