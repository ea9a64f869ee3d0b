-- ===== src/Delivery/Attempts.antt =====
-- Attempt numbers of src/tasks/delivery.py: `attempts.count() + 1` numbers them 1, 2, 3, ...
use notify_relay.Prelude.{
  ℕ, ◌+◌, ◌≡◌, ◌∙◌, refl, true, false, is_some, List, [], ◌∷◌, ◌++◌, ◌==◌, arith, any, length,
  select-append,
}
use notify_relay.Models.{DeliveryAttempt}
use notify_relay.State.{World, ok}
use notify_relay.Delivery.{attempts_of, message_of, create_attempt}

-- The numbers run on from `n`.
abbrev pub Consecutive : ℕ → List DeliveryAttempt → Type 0
Consecutive n [] = Unit
Consecutive n (a ∷ l) = (a.attempt_no ≡ n + 1) × Consecutive (n + 1) l

-- The attempts of message `k` are numbered 1, 2, 3, ... in the order of their creation.
abbrev pub IsNumbered : ℕ → List DeliveryAttempt → Type 0
IsNumbered k l = Consecutive 0 (attempts_of k l)

Consecutive-fresh :
    (n i : ℕ) (l : List DeliveryAttempt)
    → Consecutive n l
    → n + length l + 1 ≡ i
    → any (λ b. b.attempt_no == i) l ≡ false
Consecutive-fresh n i [] h e = refl
Consecutive-fresh n i (a ∷ l) h e = ground (arith, Consecutive-fresh (n + 1) i l h.1 (omega arith))

Consecutive-append :
    (n : ℕ) (l : List DeliveryAttempt) (a : DeliveryAttempt)
    → Consecutive n l
    → a.attempt_no ≡ n + length l + 1
    → Consecutive n (l ++ a ∷ [])
Consecutive-append n [] a h e = (omega arith, tt)
Consecutive-append n (b ∷ l) a h e = (h.0, Consecutive-append (n + 1) l a h.1 (omega arith))

pub attempts_of-append :
    (k : ℕ) (l : List DeliveryAttempt) (a : DeliveryAttempt)
    → a.message ≡ k
    → attempts_of k (l ++ a ∷ []) ≡ attempts_of k l ++ a ∷ []
attempts_of-append k l a e = select-append (λ b. b.message == k) l (a ∷ []) ∙ ground arith

pub attempts_of-append_ne :
    (k : ℕ) (l : List DeliveryAttempt) (a : DeliveryAttempt)
    → (a.message == k) ≡ false
    → attempts_of k (l ++ a ∷ []) ≡ attempts_of k l ++ []
attempts_of-append_ne k l a e = select-append (λ b. b.message == k) l (a ∷ []) ∙ ground arith

-- The next number is free, so the attempt is stored.
pub create_attempt-fresh :
    (a : DeliveryAttempt) (w : World)
    → is_some (message_of a.message w) ≡ true
    → IsNumbered a.message w.attempts
    → a.attempt_no ≡ length (attempts_of a.message w.attempts) + 1
    → create_attempt a w ≡ (ok tt, record w { attempts = w.attempts ++ a ∷ [] })
unfolding create_attempt
create_attempt-fresh a w there numbered next =
    let fresh =
      Consecutive-fresh 0 a.attempt_no (attempts_of a.message w.attempts) numbered (omega arith) in
    rw (there, fresh) refl

-- And the numbering goes on.
pub IsNumbered-append :
    (k : ℕ) (a : DeliveryAttempt) (l : List DeliveryAttempt)
    → a.message ≡ k
    → a.attempt_no ≡ length (attempts_of k l) + 1
    → IsNumbered k l
    → IsNumbered k (l ++ a ∷ [])
IsNumbered-append k a l e next h =
    rw (attempts_of-append k l a e) (Consecutive-append 0 (attempts_of k l) a h (omega arith))
