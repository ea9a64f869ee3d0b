-- ===== src/System/Rules.antt =====
-- The rules of `Lives` in the form in which the code meets them.
use notify_relay.Prelude.{
  ℕ, ◌≡◌, refl, sym, ap, subst, Bool, true, false, Option, none, some, [], ◌∷◌, ◌++◌, ==_refl, inl,
  inr, Bool-cases, if◌then◌else◌, arith, find_first, by_key,
}
use mathlib.Core.Option
use notify_relay.Models.{Message, MessageStatus, is_terminal}
use notify_relay.State.{World, Result, ok, raised}
use notify_relay.Delivery.{Request, Reply, owner, message_of, claimed_row}
use notify_relay.Delivery.Verdict.{record_of_save, settled_row}
use notify_relay.System.{System}
use notify_relay.System.Claims.{SameMessages}
use notify_relay.Scheduler.{requeued_row}
use notify_relay.System.Life.{
  View, Lives, view_of, view, letter_of, Letter, stays, begins, is_claimed, falls_back, is_removed,
}

-- A view that stays.
pub same_view : (a b : Option View) → b ≡ a → Lives a b
same_view a b e = subst (Lives a) (sym e) stays

pub same_row :
    (k : ℕ) (s t : System)
    → message_of k t.world ≡ message_of k s.world
    → Lives (view k s) (view k t)
same_row k s t e = same_view (view k s) (view k t) (ap (Option.map view_of) e)

pub same_messages :
    (k : ℕ) (s : System) (w : World)
    → SameMessages s.world w
    → Lives (view k s) (view k (record s { world = w }))
same_messages k s w same =
    same_row k s (record s { world = w }) (ap (find_first (by_key (λ m. m.id) k)) same.messages)

-- The rules as the code meets them, by the status of the row.
abbrev pub seen : Letter → MessageStatus → Option View
seen l status = some (record { letter = l; status = status })

pub claim-Lives :
    (l : Letter) (status : MessageStatus)
    → is_terminal status ≡ false
    → Lives (seen l status) (seen l MessageStatus.sending)
claim-Lives l MessageStatus.queued h = is_claimed
claim-Lives l MessageStatus.sending h = stays
claim-Lives l MessageStatus.sent h = absurd (ground arith)
claim-Lives l MessageStatus.failed h = absurd (ground arith)
claim-Lives l MessageStatus.dead h = absurd (ground arith)

pub requeue-Lives :
    (l : Letter) (status : MessageStatus)
    → is_terminal status ≡ false
    → Lives (seen l status) (seen l MessageStatus.queued)
requeue-Lives l MessageStatus.queued h = stays
requeue-Lives l MessageStatus.sending h = falls_back
requeue-Lives l MessageStatus.sent h = absurd (ground arith)
requeue-Lives l MessageStatus.failed h = absurd (ground arith)
requeue-Lives l MessageStatus.dead h = absurd (ground arith)

-- From the rows before and after a step to its views.
pub between :
    {a b : Option Message} {m n : Message}
    → a ≡ some m
    → b ≡ some n
    → Lives (some (view_of m)) (some (view_of n))
    → Lives (Option.map view_of a) (Option.map view_of b)
between {b} {m} e h l =
    subst (λ o. Lives (Option.map view_of o) (Option.map view_of b)) (sym e)
      (subst (λ o. Lives (some (view_of m)) (Option.map view_of o)) (sym h) l)

pub removed :
    {a b : Option Message} {m : Message}
    → a ≡ some m
    → b ≡ none
    → is_terminal m.status ≡ true
    → Lives (Option.map view_of a) (Option.map view_of b)
removed {b} {m} e h done =
    subst (λ o. Lives (Option.map view_of o) (Option.map view_of b)) (sym e)
      (subst (λ o. Lives (some (view_of m)) (Option.map view_of o)) (sym h) (is_removed done))

pub begun :
    {a b : Option Message} {m : Message}
    → a ≡ none
    → b ≡ some m
    → m.status ≡ MessageStatus.queued
    → Lives (Option.map view_of a) (Option.map view_of b)
begun {b} {m} e h waits =
    subst (λ o. Lives (Option.map view_of o) (Option.map view_of b)) (sym e)
      (subst (λ o. Lives none (Option.map view_of o)) (sym h)
        (subst (λ status. Lives none (seen (letter_of m) status)) (sym waits) begins))

abbrev pub with_row : Message → World → World
with_row m w = record w { messages = w.messages ++ m ∷ [] }

abbrev pub taken_by : Request → ℕ → ℕ → System → World
taken_by request k now s = record_of_save k (claimed_row (owner request) now) s.world

pub settle-Lives :
    (l : Letter) (status status' : MessageStatus)
    → status ≡ MessageStatus.sending
    → is_terminal status' ≡ true
    → Lives (seen l status) (seen l status')
settle-Lives l status status' h e =
    subst (λ x. Lives (seen l x) (seen l status')) (sym h) (Lives.settles e)

pub settled-Lives :
    (now j : ℕ) (m : Message) (v : Result Reply)
    → m.status ≡ MessageStatus.sending
    → Lives (some (view_of m)) (Option.map view_of (settled_row now j j v (some m)))
settled-Lives now j m (ok Reply.noop) h = stays
settled-Lives now j m (ok Reply.duplicate) h = stays
settled-Lives now j m (raised e) h = stays
settled-Lives now j m (ok Reply.sent) h =
    rw (==_refl j) (settle-Lives (letter_of m) m.status MessageStatus.sent h refl)
settled-Lives now j m (ok Reply.failed) h =
    rw (==_refl j) (settle-Lives (letter_of m) m.status MessageStatus.failed h refl)
settled-Lives now j m (ok Reply.dead) h =
    rw (==_refl j) (settle-Lives (letter_of m) m.status MessageStatus.dead h refl)

pub settled_own :
    (now k : ℕ) (w : World) (m : Message) (v : Result Reply)
    → message_of k w ≡ some m
    → m.status ≡ MessageStatus.sending
    → Lives
        (Option.map view_of (message_of k w))
        (Option.map view_of (settled_row now k k v (message_of k w)))
settled_own now k w m v found h =
    subst (λ o. Lives (Option.map view_of o) (Option.map view_of (settled_row now k k v o)))
      (sym found) (settled-Lives now k m v h)

pub tick-Lives :
    (p : Message → Bool) (now : ℕ) (m : Message)
    → is_terminal m.status ≡ false
    → Lives (some (view_of m)) (Option.map view_of (some (if p m then requeued_row now m else m)))
tick-Lives p now m h = elim (Bool-cases (p m)) [
  | inl hit ↦ rw hit (requeue-Lives (letter_of m) m.status h)
  | inr miss ↦ rw miss stays
]
