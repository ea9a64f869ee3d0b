-- ===== src/Scheduler/Publish.antt =====
-- `_enqueue_all` of src/tasks/scheduler.py: what reaches the broker.
use mathlib.Core.List.{append-nil, append_assoc}
use notify_relay.Prelude.{
  ℕ, ◌+◌, ◌≡◌, ◌∙◌, Bool, true, false, List, [], ◌∷◌, ◌++◌, map, if◌then◌else◌, arith, inl, inr,
  Bool-cases,
}
use notify_relay.Models.{Message}
use notify_relay.State.{World, ok, raised, broker_error}
use notify_relay.Delivery.{enqueue_for, task_of}
use notify_relay.Scheduler.{enqueue_all}

-- The messages before the first one that the broker refuses.
abbrev pub accepted : (ℕ → Bool) → ℕ → List Message → List Message
accepted up i [] = []
accepted up i (m ∷ l) = let rest = accepted up (i + 1) l in if up i then m ∷ rest else []

abbrev pub all_accepted : (ℕ → Bool) → ℕ → List Message → Bool
all_accepted up i [] = true
all_accepted up i (m ∷ l) = let rest = all_accepted up (i + 1) l in if up i then rest else false

-- The loop publishes one task for each message, in order, up to the first refusal, which it
-- raises; it writes nothing else.
pub enqueue_all_lem :
    (up : ℕ → Bool) (i : ℕ) (l : List Message) (w : World)
    → enqueue_all up i l w ≡ (
      (if all_accepted up i l then ok tt else raised broker_error),
      record w { broker = w.broker ++ map task_of (accepted up i l) },
    )
unfolding enqueue_all enqueue_for
enqueue_all_lem up i [] w = ground (arith, append-nil w.broker)
enqueue_all_lem up i (m ∷ l) w = elim (Bool-cases (up i)) [
  | inl e ↦ rw e (
      enqueue_all_lem up (i + 1) l (record w { broker = w.broker ++ task_of m ∷ [] })
      ∙ ground
          (arith, append_assoc w.broker (task_of m ∷ []) (map task_of (accepted up (i + 1) l))))
  | inr e ↦ rw e (ground (arith, append-nil w.broker))
]
