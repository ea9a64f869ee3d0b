-- ===== src/Delivery/Refusal.antt =====
-- What the claim of src/tasks/delivery.py refuses: finished messages and messages that another
-- task holds.
use notify_relay.Prelude.{
  ℕ, Bool, ◌≡◌, ◌⊎◌, inl, inr, refl, Bool-cases, Option, none, true, not, ◌&&◌, ◌||◌, some, arith,
  str_eq, if◌then◌else◌,
}
use notify_relay.Models.{Message, is_terminal, is_sending}
use notify_relay.State.{World, ok, raised, does_not_exist}
use notify_relay.Delivery.{stop, Request, Reply, owner, message_of, claim}

-- The task may take the message: it waits in the queue, or this very task holds it.
abbrev pub claimable : Request → Message → Bool
claimable request m =
    not (is_terminal m.status) && (not (is_sending m.status) || str_eq m.claimed_by (owner request))

-- The claim by itself: a message that is not there or not to be taken stops the task.
pub claim-stops :
    (request : Request) (k now : ℕ) (w : World)
    → (claim request k now w ≡ (raised does_not_exist, w))
      ⊎ ((m : Message) × (message_of k w ≡ some m) × (claimable request m ≡ true))
      ⊎ ((reply : Reply) × (claim request k now w ≡ (ok (stop reply), w)))
unfolding claim
claim-stops request k now w = stops (message_of k w) refl
  where
    stops :
        (o : Option Message)
        → message_of k w ≡ o
        → (claim request k now w ≡ (raised does_not_exist, w))
          ⊎ ((m : Message) × (message_of k w ≡ some m) × (claimable request m ≡ true))
          ⊎ ((reply : Reply) × (claim request k now w ≡ (ok (stop reply), w)))
    stops none e = inl (rw e)
    stops (some m) e = elim (Bool-cases (claimable request m)) [
      | inl free ↦ inr (inl (m, e, free))
      | inr taken ↦ inr (
          inr (
            if is_terminal m.status then Reply.noop else Reply.duplicate,
            ground (arith, e, taken),
          ))
    ]
