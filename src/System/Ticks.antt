-- ===== src/System/Ticks.antt =====
-- A tick keeps the database and the runs sound.
use notify_relay.Prelude.{
  ℕ, ◌≡◌, refl, sym, ap, subst, Bool, true, not, ◌||◌, Option, none, some, is_some, List, ltb, inl,
  inr, Bool-cases, if◌then◌else◌, arith, Distinct, All, length, update_where, Distinct-update_where,
}
use mathlib.Core.Option
use notify_relay.Models.{Message, is_terminal}
use notify_relay.State.{World}
use notify_relay.Delivery.{message_of, attempts_of, has_dead_letter}
use notify_relay.Delivery.Attempts.{IsNumbered}
use notify_relay.System.{Flight}
use notify_relay.System.Constraints.{updated-IsUnique}
use notify_relay.System.Defs.{IsSound, Fine, Held, lettered, was_tried}
use notify_relay.System.Claims.{All-map₂}
use notify_relay.Scheduler.{dispatch_scheduled, in_batch, batch_of, requeued_row}
use notify_relay.Scheduler.Batch.{
  dispatch_scheduled_lem, dispatch_scheduled-keeps, not-in_batch, finished-not-selected,
}
use notify_relay.System.{InTime}
use notify_relay.System.Effects.{tick-row}

lettered-tick :
    (p : Message → Bool) (now : ℕ) (row : Option Message) (letter : Bool)
    → ((m : Message) → row ≡ some m → (not (is_terminal m.status) || not (p m)) ≡ true)
    → lettered row letter ≡ true
    → lettered (Option.map (λ m. if p m then requeued_row now m else m) row) letter ≡ true
lettered-tick p now none letter live h = h
lettered-tick p now (some m) letter live h = ground (arith, live m refl, h)

was_tried-tick :
    (p : Message → Bool) (now : ℕ) (row : Option Message) (n : ℕ)
    → ((m : Message) → row ≡ some m → (not (is_terminal m.status) || not (p m)) ≡ true)
    → was_tried row n ≡ true
    → was_tried (Option.map (λ m. if p m then requeued_row now m else m) row) n ≡ true
was_tried-tick p now none n live h = h
was_tried-tick p now (some m) n live h = ground (arith, live m refl, h)

module _ (skip_locked : Bool) (locked : Message → Bool) (up : ℕ → Bool) (now : ℕ) (w : World)
    (keys : Distinct (λ (m : Message). m.id) w.messages) where
  abbrev ticked : World
  ticked = (dispatch_scheduled skip_locked locked up now w).1

  pub ticked-attempts : ticked.attempts ≡ w.attempts
  ticked-attempts = ap (λ v. v.1.attempts) (dispatch_scheduled_lem skip_locked locked up now w)

  pub ticked-letters : ticked.dead_letters ≡ w.dead_letters
  ticked-letters = ap (λ v. v.1.dead_letters) (dispatch_scheduled_lem skip_locked locked up now w)

  ticked-messages :
      ticked.messages
      ≡ update_where
          (in_batch (batch_of skip_locked locked now w.messages))
          (requeued_row now)
          w.messages
  ticked-messages = ap (λ v. v.1.messages) (dispatch_scheduled_lem skip_locked locked up now w)

  abbrev batched : Message → Bool
  batched = in_batch (batch_of skip_locked locked now w.messages)

  batched-live :
      (j : ℕ) (m : Message)
      → message_of j w ≡ some m
      → (not (is_terminal m.status) || not (batched m)) ≡ true
  batched-live j m found = elim (Bool-cases (is_terminal m.status)) [
    | inr live ↦ rw live refl
    | inl done ↦
        let out =
          not-in_batch skip_locked locked now w.messages j m keys found
            (finished-not-selected now m done) in
        rw (done, out) refl
  ]

  ticked-Fine : (j : ℕ) → Fine j w → Fine j ticked
  ticked-Fine j i = record {
    numbered = subst (IsNumbered j) (sym ticked-attempts) i.numbered;
    has_letter = rw (tick-row skip_locked locked up now j w) (
        subst
          (λ l.
            lettered
              (Option.map (λ m. if batched m then requeued_row now m else m) (message_of j w))
              (has_dead_letter j l)
            ≡ true)
          (sym ticked-letters)
          (lettered-tick batched now (message_of j w) (has_dead_letter j w.dead_letters)
            (batched-live j) i.has_letter));
    tried = rw (tick-row skip_locked locked up now j w) (
        subst
          (λ l.
            was_tried
              (Option.map (λ m. if batched m then requeued_row now m else m) (message_of j w))
              (length (attempts_of j l))
            ≡ true)
          (sym ticked-attempts)
          (was_tried-tick batched now (message_of j w) (length (attempts_of j w.attempts))
            (batched-live j) i.tried));
  }

  ticked-Held : (f : Flight) → InTime now f → Held w f → Held ticked f
  ticked-Held f timely h = record {
    row =
        dispatch_scheduled-keeps skip_locked locked up now w f.message.id f.message keys h.row
          (ground (arith, h.sending, timely));
    sending = h.sending;
    mine = h.mine;
    counted =
        subst (λ l. (not (is_some f.tried) || ltb 0 (length (attempts_of f.message.id l))) ≡ true)
          (sym ticked-attempts) h.counted;
  }

  pub ticked-IsSound :
      (flights : List Flight)
      → All (InTime now) flights
      → IsSound (record { world = w; flights = flights })
      → IsSound (record { world = ticked; flights = flights })
  ticked-IsSound flights timely i = record {
    keys =
        subst (Distinct (λ x. x.id)) (sym ticked-messages) (
          Distinct-update_where (λ x. x.id) batched (requeued_row now) (λ x. refl) w.messages keys);
    constraints = record {
      unique =
          updated-IsUnique batched (requeued_row now) w ticked (λ a key x. refl) ticked-messages
            i.constraints.unique;
      one_letter = subst (Distinct (λ x. x.message)) (sym ticked-letters) i.constraints.one_letter;
    };
    fine = λ j. ticked-Fine j (i.fine j);
    held = All-map₂ flights ticked-Held timely i.held;
    alone = i.alone;
  }
