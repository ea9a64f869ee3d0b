-- ===== src/Health.antt =====
-- src/apps/core/health.py: the probes, and the middleware that answers them.
pub mod Ready
mod Tests
use notify_relay.Prelude.{
  ℕ, String, Bool, true, false, ◌&&◌, ◌||◌, Option, none, some, List, [], ◌∷◌, str_eq, any,
  if◌then◌else◌,
}

-- What the probes find: the settings' client factory, if any, and REDIS_URL, and whether the
-- database answers `SELECT 1`, a client can be made, and Redis answers `PING`.
pub record Surroundings : Type 0 where
  pub client_factory : Bool
  pub redis_url : String
  pub database_answers : Bool
  pub client_made : Bool
  pub redis_answers : Bool

-- A process: the URLs that `_redis_clients` has a client for, and what it has logged.
pub record Process : Type 0 where
  pub redis_clients : List String
  pub logged : List String

-- The status of a probe's answer, its "status" and its "checks".
pub record Probe : Type 0 where
  pub code : ℕ
  pub status : String
  pub checks : List (String × String)

abbrev pub log : String → Process → Process
log line p = record p { logged = line ∷ p.logged }

module _ (around : Surroundings) where
  -- `_make_redis`; without a client to reuse, one is made, which may raise.
  abbrev pub make_redis : Process → Bool × Process
  make_redis p =
      if around.client_factory
      then (around.client_made, p)
      else if any (str_eq around.redis_url) p.redis_clients
      then (true, p)
      else if around.client_made
      then (true, record p { redis_clients = around.redis_url ∷ p.redis_clients })
      else (false, p)

  -- `_check_db`.
  abbrev pub check_db : Process → Bool × Process
  check_db p =
      if around.database_answers then (true, p) else (false, log "readiness check failed: db" p)

  -- `_check_redis`.
  abbrev pub check_redis : Process → Bool × Process
  check_redis p =
      let client = make_redis p in
      if client.0 && around.redis_answers
      then (true, client.1)
      else (false, log "readiness check failed: redis" client.1)

  abbrev pub outcome : Bool → String
  outcome ok = if ok then "ok" else "error"

  -- `ready`.
  unfoldable pub ready : Process → Probe × Process
  ready p =
      let db = check_db p in
      let redis = check_redis db.1 in
      let overall_ok = db.0 && redis.0 in
      (
        record {
          code = if overall_ok then 200 else 503;
          status = if overall_ok then "ok" else "degraded";
          checks = ("db", outcome db.0) ∷ ("redis", outcome redis.0) ∷ [];
        },
        redis.1,
      )

  -- `live`.
  abbrev pub live : Process → Probe × Process
  live p = (record { code = 200; status = "ok"; checks = [] }, p)

  -- `_PROBES`, for the methods that the middleware answers.
  unfoldable pub probe : String → String → Option (Process → Probe × Process)
  probe method path_info =
      if str_eq method "GET" || str_eq method "HEAD"
      then (if str_eq path_info "/health/live"
          then some live
          else if str_eq path_info "/health/ready"
          then some ready
          else none)
      else none
