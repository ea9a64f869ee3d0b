-- ===== src/Health/Ready.antt =====
-- What `ready` of src/apps/core/health.py says of a process.
use notify_relay.Prelude.{
  ℕ, ◌+◌, ◌≤◌, ◌≡◌, String, Bool, false, not, ◌&&◌, ◌||◌, List, [], ◌∷◌, str_eq, any, if◌then◌else◌,
  arith, length, select, refl, max, eq_refl, Bool-cases, inl, inr,
}
use notify_relay.Health.{Surroundings, Process, ready}

abbrev pub clients_for : String → List String → ℕ
clients_for url clients = length (select (str_eq url) clients)

none_selected : (p : String → Bool) (l : List String) → any p l ≡ false → length (select p l) ≡ 0
none_selected p [] h = refl
none_selected p (x ∷ l) h = let rest = none_selected p l in ground arith

module _ (around : Surroundings) (p : Process) where
  -- Whether the process can reach Redis: it has a client, or makes one, and Redis answers it.
  abbrev pub reaches_redis : Bool
  reaches_redis =
      (around.client_made
        || (not around.client_factory && any (str_eq around.redis_url) p.redis_clients))
      && around.redis_answers

  one_client :
      clients_for around.redis_url (ready around p).1.redis_clients
      ≤ max 1 (clients_for around.redis_url p.redis_clients)
  unfolding ready
  one_client = elim (Bool-cases (any (str_eq around.redis_url) p.redis_clients)) [
    | inl known ↦ ground (arith, known)
    | inr fresh ↦
        let unselected = none_selected (str_eq around.redis_url) p.redis_clients fresh in
        let self = eq_refl around.redis_url in ground (arith, fresh, unselected, self)
  ]

  -- The probe answers 200 exactly if the database answers and Redis can be reached, and else 503; it
  -- logs a line for each of the two that fails; and it never makes a second client for the URL.
  pub ready-reports :
      let out = ready around p in
      (out.0.code ≡ (if around.database_answers && reaches_redis then 200 else 503))
      × (length out.1.logged
          ≡ (if around.database_answers then 0 else 1)
            + (if reaches_redis then 0 else 1)
            + length p.logged)
      × (clients_for around.redis_url out.1.redis_clients
          ≤ max 1 (clients_for around.redis_url p.redis_clients))
  unfolding ready
  ready-reports = (ground arith, ground arith, one_client)
