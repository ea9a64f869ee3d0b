-- ===== src/System/Tries.antt =====
-- The attempt of a run of src/tasks/delivery.py keeps the database and the runs sound.
use notify_relay.Prelude.{
  ℕ, ◌+◌, ◌≡◌, sym, ap, ◌∙◌, false, not, is_some, List, [], ◌∷◌, ◌++◌, ◌==◌, ==_iff, ==_refl, inl,
  inr, Bool-cases, if◌then◌else◌, arith, All, length, length-append, Distinct-select, All-select,
}
use mathlib.Core.List.{append-nil}
use notify_relay.State.{World, ◌>>◌, Metric}
use notify_relay.Channels.{ChannelResult}
use notify_relay.Delivery.{Clock, message_of, attempts_of, record_attempt, observe}
use notify_relay.Delivery.Attempts.{
  IsNumbered, IsNumbered-append, attempts_of-append, attempts_of-append_ne,
}
use notify_relay.Delivery.Outcome.{stored, record_attempt-numbered, next_attempt}
use notify_relay.System.{Flight, flight_key, landed, try_run}
use notify_relay.System.Defs.{IsSound, Fine, Held}
use notify_relay.System.Claims.{All-map}

-- The other runs when the run on message `k` has tried or ended.
pub apart-landed : (k : ℕ) (l : List Flight) → All (λ f. (flight_key f == k) ≡ false) (landed k l)
apart-landed k [] = tt
apart-landed k (f ∷ l) = ground (arith, apart-landed k l)

pub Held-landed : (k : ℕ) (w : World) (l : List Flight) → All (Held w) l → All (Held w) (landed k l)
Held-landed k w l h = All-select (Held w) (λ f. not (flight_key f == k)) l h

-- The attempt.
module _ (w : World) (f : Flight) (clock : Clock) (r : ChannelResult)
    (numbered : IsNumbered f.message.id w.attempts) where
  abbrev tried_world : World
  tried_world = stored clock f.message r w

  pub tried-attempts :
      (j : ℕ)
      → attempts_of j tried_world.attempts ≡ (
          if f.message.id == j
          then attempts_of j w.attempts ++ next_attempt clock f.message r w ∷ []
          else attempts_of j w.attempts)
  tried-attempts j = elim (Bool-cases (f.message.id == j)) [
    | inl same ↦ rw same (attempts_of-append j w.attempts _ ((==_iff f.message.id j).0 same))
    | inr other ↦
        rw other
          (attempts_of-append_ne j w.attempts _ other ∙ append-nil (attempts_of j w.attempts))
  ]

  tried-IsNumbered : (j : ℕ) → IsNumbered j w.attempts → IsNumbered j tried_world.attempts
  tried-IsNumbered j n = elim (Bool-cases (f.message.id == j)) [
    | inl same ↦
        let e = (==_iff f.message.id j).0 same in
        IsNumbered-append j (next_attempt clock f.message r w) w.attempts e
          (ap (λ i. length (attempts_of i w.attempts) + 1) e) n
    | inr other ↦ rw (tried-attempts j, other) n
  ]

  tried-more :
      (j : ℕ)
      → length (attempts_of j tried_world.attempts)
        ≡ length (attempts_of j w.attempts) + (if f.message.id == j then 1 else 0)
  tried-more j = elim (Bool-cases (f.message.id == j)) [
    | inl same ↦
        rw (tried-attempts j, same)
          (omega (
            arith,
            length-append (attempts_of j w.attempts) (next_attempt clock f.message r w ∷ []),
          ))
    | inr other ↦ rw (tried-attempts j, other) (omega arith)
  ]

  tried-Fine : (j : ℕ) → Held w f → Fine j w → Fine j tried_world
  tried-Fine j h i = record {
    numbered = tried-IsNumbered j i.numbered;
    has_letter = i.has_letter;
    tried = elim (Bool-cases (f.message.id == j)) [
      | inl same ↦
          let row = ap (λ k. message_of k w) (sym ((==_iff f.message.id j).0 same)) ∙ h.row in
          ground (arith, i.tried, tried-more j, row)
      | inr other ↦ ground (arith, i.tried, tried-more j, other)
    ];
  }

  tried-Held : (g : Flight) → Held w g → Held tried_world g
  tried-Held g i = record {
    row = i.row;
    sending = i.sending;
    mine = i.mine;
    counted = ground (arith, i.counted, tried-more g.message.id);
  }

  pub try_run-IsSound :
      (flights : List Flight)
      → Held w f
      → IsSound (record { world = w; flights = flights })
      → IsSound (
          try_run f r
            ((observe (Metric.delivery_duration f.message.channel)
                >> record_attempt clock f.message r)
              w)
            flights)
  unfolding try_run
  try_run-IsSound flights h i =
      let there = ap is_some h.row in
      rw (record_attempt-numbered clock f.message r w there numbered) (record {
        keys = i.keys;
        constraints = record {
          unique = record { at = λ a key. i.constraints.unique.at a key };
          one_letter = i.constraints.one_letter;
        };
        fine = λ j. tried-Fine j h (i.fine j);
        held = (
          record {
            row = h.row;
            sending = h.sending;
            mine = h.mine;
            counted = ground (arith, tried-more f.message.id, ==_refl f.message.id);
          },
          All-map (landed f.message.id flights) tried-Held
              (Held-landed f.message.id w flights i.held),
        );
        alone = (
          apart-landed f.message.id flights,
          Distinct-select flight_key (λ g. not (flight_key g == f.message.id)) flights i.alone,
        );
      })
