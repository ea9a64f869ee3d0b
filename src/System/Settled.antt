-- ===== src/System/Settled.antt =====
-- What becomes of a message that src/tasks/delivery.py has settled, as long as the system runs.
use notify_relay.Prelude.{ℕ, ◌≡◌, refl, ◌∙◌, true, none, some, ◌⊎◌, inl, inr}
use notify_relay.Models.{Message, is_terminal}
use notify_relay.State.{World}
use notify_relay.Delivery.{message_of}
use notify_relay.System.{System, Reach, later}
use notify_relay.System.Frozen.{SameMessage, Step-frozen}
use notify_relay.System.Progress.{Run, rest, next}

-- On the way from `s` to `t` the clean-up has deleted message `k`.
pub record IsGoneBetween (k : ℕ) (s t : System) : Type 0 where
  pub at : System
  pub before : Run s at
  pub gone : message_of k at.world ≡ none
  pub after : Run at t

same_trans : (k : ℕ) (u v w : World) → SameMessage k u v → SameMessage k v w → SameMessage k u w
same_trans k u v w a b = record {
  row = b.row ∙ a.row;
  attempts = b.attempts ∙ a.attempts;
  letter = b.letter ∙ a.letter;
}

-- Once a message is finished, nothing touches it, its attempts and its dead letter any more, in
-- whatever run of the system, unless the clean-up deletes it: it is not claimed, sent or settled
-- again.
pub Run-frozen :
    {s t : System} (k : ℕ) (m : Message)
    → Reach s
    → Run s t
    → message_of k s.world ≡ some m
    → is_terminal m.status ≡ true
    → SameMessage k s.world t.world ⊎ IsGoneBetween k s t
Run-frozen k m reach rest found done = inl (record { row = refl; attempts = refl; letter = refl })
Run-frozen {s} {t} k m reach (next {t = u} step run) found done =
    elim (Step-frozen k m reach step found done) [
      | inr gone ↦ inr (record { at = u; before = next step rest; gone = gone; after = run })
      | inl same ↦ elim (Run-frozen k m (later s u reach step) run (same.row ∙ found) done) [
        | inl on ↦ inl (same_trans k s.world u.world t.world same on)
        | inr lost ↦ inr (record {
          at = lost.at;
          before = next step lost.before;
          gone = lost.gone;
          after = lost.after;
        })
      ]
    ]
