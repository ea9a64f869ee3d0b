-- ===== src/Validators/Resolver/Slots.antt =====
-- What the slots of the resolver pool guarantee.
use notify_relay.Prelude.{◌+◌, ◌-◌, ◌<◌, ◌≤◌, ◌≡◌, sym, subst, true, ◌||◌, is_some, ◌==◌, arith}
use notify_relay.Validators.Resolver.{
  Pool, resolver_threads, acquire, release, finish, Step, asks, takes, ends, returns, Reach, start,
  later,
}

-- Each slot is free, or with a look-up that waits or runs; a thread has one look-up at most.
pub record IsBalanced (p : Pool) : Type 0 where
  pub held : p.slots + p.queued + p.looking ≡ resolver_threads
  pub threads : p.looking + p.returning ≤ resolver_threads

acquire-IsBalanced : (p : Pool) → IsBalanced p → IsBalanced (acquire p).1
unfolding acquire
acquire-IsBalanced p i =
    let held = i.held in
    let threads = i.threads in record { held = ground arith; threads = ground arith }

finish-IsBalanced : (p : Pool) → 0 < p.looking → IsBalanced p → IsBalanced (finish p)
unfolding finish release
finish-IsBalanced p some_look i =
    let held = i.held in
    let threads = i.threads in record { held = ground arith; threads = ground arith }

Step-IsBalanced : {p q : Pool} → Step p q → IsBalanced p → IsBalanced q
Step-IsBalanced {p} (asks e) i = subst IsBalanced (sym e) (acquire-IsBalanced p i)
Step-IsBalanced {p} (takes waits room e) i =
    let held = i.held in
    subst IsBalanced (sym e) (record { held = omega arith; threads = omega arith })
Step-IsBalanced {p} (ends looks e) i = subst IsBalanced (sym e) (finish-IsBalanced p looks i)
Step-IsBalanced {p} (returns some_return e) i =
    let threads = i.threads in
    subst IsBalanced (sym e) (record { held = i.held; threads = omega arith })

Reach-IsBalanced : {p : Pool} → Reach p → IsBalanced p
Reach-IsBalanced start = record { held = omega arith; threads = omega arith }
Reach-IsBalanced (later p q r s) = Step-IsBalanced s (Reach-IsBalanced r)

-- However requests and threads interleave, at most four look-ups wait or run at once, a look-up in
-- the queue has a thread that runs none, a request that finds no slot finds every one of the four in
-- use, and a look-up that ends gives its slot back without an error.
pub Reach-Slots :
    {p : Pool}
    → Reach p
    → (p.queued + p.looking ≤ resolver_threads)
      × (p.queued ≤ resolver_threads - p.looking)
      × (((acquire p).0 || (p.queued + p.looking == resolver_threads)) ≡ true)
      × (((p.looking == 0) || is_some (release p.slots)) ≡ true)
unfolding acquire release
Reach-Slots {p} r =
    let held = (Reach-IsBalanced r).held in (omega arith, omega arith, ground arith, ground arith)
