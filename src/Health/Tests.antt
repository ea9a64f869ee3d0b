-- ===== src/Health/Tests.antt =====
-- A process whose Redis does not answer.
use notify_relay.Prelude.{◌≡◌, ◌≤◌, true, false, [], length}
use notify_relay.Health.{Surroundings, Process, ready}
use notify_relay.Health.Ready.{ready-reports, clients_for}

abbrev around : Surroundings
around = record {
  client_factory = false;
  redis_url = "redis://redis/0";
  database_answers = true;
  client_made = true;
  redis_answers = false;
}

abbrev fresh : Process
fresh = record { redis_clients = []; logged = [] }

ready-reports_example :
    ((ready around fresh).0.code ≡ 503)
    × (length (ready around fresh).1.logged ≡ 1)
    × (clients_for "redis://redis/0" (ready around fresh).1.redis_clients ≤ 1)
ready-reports_example = ready-reports around fresh
