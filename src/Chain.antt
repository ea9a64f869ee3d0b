-- ===== src/Chain.antt =====
-- The repository's middleware in the order of MIDDLEWARE in src/notify_relay/settings/base.py: the
-- probes, the request id, the rate limiter, and then the framework's middleware and the view.
pub mod Refused
mod Tests
use notify_relay.Prelude.{ℕ, String, Char, Bool, Option, none, some}
use notify_relay.Middleware.{Response, Context, with_request_id}
use notify_relay.RateLimit.{Settings, Incoming, View}
use notify_relay.TokenBucket.{Doubles, Client}
use notify_relay.TokenBucket.Limiter.{limiter, bucket_after}
use notify_relay.Health.{Surroundings, Process, Probe, probe}

-- What the chain reads of a request: `incoming_id` is the header X-Request-ID, `ulid` a new ULID.
pub record Request : Type 0 where
  pub method : String
  pub path_info : String
  pub incoming_id : String
  pub ulid : String
  pub incoming : Incoming

-- A process of the API: its probes, its logging context, and its bucket with Redis.
pub record Site : Type 0 where
  pub process : Process
  pub context : Context
  pub bucket : Client

pub data Answer : Type 0 where
  probed : Probe → Answer
  answered : Option Response → Answer

-- What the chain is configured with. `server_error` is the framework's answer to an exception
-- that leaves a middleware.
pub record Config : Type 0 where
  pub space : Char → Bool
  pub alnum : Char → Bool
  pub doubles : Doubles
  pub sha : String
  pub str : ℕ → String
  pub settings : Settings
  pub server_error : Response

abbrev pub or_server_error : Response → Option Response × Context → Option Response × Context
or_server_error e (none, c) = (some e, c)
or_server_error e (some r, c) = (some r, c)

module _ (config : Config) (around : Surroundings) where
  -- The request id and the limiter around `view`, which is given the request id.
  unfoldable pub inner : ℕ → Request → (String → View Context) → Site → Answer × Site
  inner now r view s =
      let out =
        with_request_id config.space config.alnum r.ulid r.incoming_id
          (λ id c. or_server_error config.server_error (
            limiter config.doubles config.sha config.str config.settings now r.incoming (view id)
              s.bucket c))
          s.context in
      (
        answered out.0,
        record s {
          context = out.1;
          bucket =
              bucket_after config.doubles config.sha config.str config.settings now r.incoming
                s.bucket;
        },
      )

  -- `HealthProbeMiddleware.__call__`, and what it leaves to the rest.
  probe_or : Option (Process → Probe × Process) → (Site → Answer × Site) → Site → Answer × Site
  probe_or none rest s = rest s
  probe_or (some answer) rest s =
      let out = answer s.process in (probed out.0, record s { process = out.1 })

  -- A request at `now`.
  unfoldable pub serve : ℕ → Request → (String → View Context) → Site → Answer × Site
  unfolding probe_or
  serve now r view s = probe_or (probe around r.method r.path_info) (inner now r view) s
