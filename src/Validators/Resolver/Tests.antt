-- ===== src/Validators/Resolver/Tests.antt =====
-- Four slow look-ups, and a fifth request.
use notify_relay.Prelude.{ℕ, ◌+◌, ◌-◌, ◌≡◌, ◌≤◌, ◌||◌, ◌==◌, true, is_some, refl, arith}
use notify_relay.Validators.Resolver.{
  Pool, new_pool, resolver_threads, acquire, release, Reach, start, later, asks, takes,
}
use notify_relay.Validators.Resolver.Slots.{Reach-Slots}

abbrev waiting : ℕ → Pool
waiting n = record { slots = 4 - n; queued = n; looking = 0; returning = 0 }

abbrev busy : Pool
busy = record { slots = 0; queued = 3; looking = 1; returning = 0 }

busy-Reach : Reach busy
unfolding acquire
busy-Reach =
    later (waiting 4) busy
      (later (waiting 3) (waiting 4)
        (later (waiting 2) (waiting 3)
          (later (waiting 1) (waiting 2) (later new_pool (waiting 1) start (asks refl)) (asks refl))
          (asks refl))
        (asks refl))
      (takes (omega arith) (omega arith) refl)

Reach-Slots_example :
    (busy.queued + busy.looking ≤ resolver_threads)
    × (busy.queued ≤ resolver_threads - busy.looking)
    × (((acquire busy).0 || (busy.queued + busy.looking == resolver_threads)) ≡ true)
    × (((busy.looking == 0) || is_some (release busy.slots)) ≡ true)
Reach-Slots_example = Reach-Slots busy-Reach
