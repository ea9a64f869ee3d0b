-- ===== src/Validators/Resolver.antt =====
-- The resolver pool of `_getaddrinfo` in src/apps/messages_api/validators.py: a bounded semaphore
-- of as many slots as the executor has threads, shared by every request of the process.
pub mod Slots
mod Tests
use notify_relay.Prelude.{
  ℕ, ◌+◌, ◌-◌, ◌<◌, ◌≡◌, Bool, true, false, Option, none, some, ltb, ◌==◌, if◌then◌else◌,
}
use notify_relay.Validators.{Limit}

abbrev pub resolver_threads : ℕ
resolver_threads = 4

-- The free slots; the look-ups in the executor's queue and in its threads; and the threads that
-- have given back their slot but not yet taken the next look-up.
pub record Pool : Type 0 where
  pub slots : ℕ
  pub queued : ℕ
  pub looking : ℕ
  pub returning : ℕ

abbrev pub new_pool : Pool
new_pool = record { slots = resolver_threads; queued = 0; looking = 0; returning = 0 }

-- `_resolver_slots.acquire(blocking=False)`, and `submit` if there is a slot.
unfoldable pub acquire : Pool → Bool × Pool
acquire p =
    if p.slots == 0
    then (false, p)
    else (true, record p { slots = p.slots - 1; queued = p.queued + 1 })

-- What `_getaddrinfo` finds under a timeout: a slot, and an answer in time or not.
abbrev pub limit_of : Bool → Pool → Limit
limit_of in_time p = record { slot_free = (acquire p).0; in_time = in_time }

-- `_resolver_slots.release()`, which raises where the semaphore is full.
unfoldable pub release : ℕ → Option ℕ
release slots = if ltb slots resolver_threads then some (slots + 1) else none

-- The end of `lookup`: the `finally` clause.
unfoldable pub finish : Pool → Pool
unfolding release
finish p = elim (release p.slots) [
  | none ↦ record p { looking = p.looking - 1; returning = p.returning + 1 }
  | some slots ↦ record p { slots = slots; looking = p.looking - 1; returning = p.returning + 1 }
]

-- A request asks, a thread takes the next look-up, a look-up ends, a thread is idle again. A request
-- whose time is up only stops waiting.
pub data Step (p q : Pool) : Type 0 where
  asks : q ≡ (acquire p).1 → Step p q
  takes :
      0 < p.queued
      → p.looking + p.returning < resolver_threads
      → q ≡ record p { queued = p.queued - 1; looking = p.looking + 1 }
      → Step p q
  ends : 0 < p.looking → q ≡ finish p → Step p q
  returns : 0 < p.returning → q ≡ record p { returning = p.returning - 1 } → Step p q

pub data Reach : Pool → Type 0 where
  start : Reach new_pool
  later : (p q : Pool) → Reach p → Step p q → Reach q
