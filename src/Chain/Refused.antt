-- ===== src/Chain/Refused.antt =====
-- A request that the rate limiter refuses, seen from outside the chain.
use notify_relay.Prelude.{ℕ, ◌<◌, ◌≡◌, String, true, false, none, some, ◌∷◌, arith}
use notify_relay.Middleware.{Context, with_request_id}
use notify_relay.Middleware.Ids.{request_id_of}
use notify_relay.RateLimit.{View, Limit, derive, retry_after_seconds}
use notify_relay.TokenBucket.{parse}
use notify_relay.TokenBucket.Consume.{IsOwn}
use notify_relay.TokenBucket.Limiter.{run_for, limiter-refuses}
use notify_relay.Health.{Surroundings, probe}
use notify_relay.Chain.{Config, Request, Site, answered, inner, serve}

module _ (config : Config) (around : Surroundings) where
  -- The request id of a request.
  abbrev pub id_of : Request → String
  id_of r = request_id_of config.space config.alnum r.ulid r.incoming_id

  -- A request that is no probe and finds its bucket empty, with the limiter on and a positive rate and
  -- burst, is answered with 429, its request id and the bucket's Retry-After; one line is logged under
  -- that id, the view does not run, and the logging context is as before.
  pub serve-refuses :
      (now : ℕ) (r : Request) (view : String → View Context) (s : Site) (l : Limit)
      → probe around r.method r.path_info ≡ none
      → config.settings.enabled ≡ true
      → derive config.str config.settings r.incoming ≡ some l
      → 0 < l.rate
      → 0 < l.burst
      → IsOwn config.sha s.bucket
      → (run_for config.doubles config.sha config.str config.settings now s.bucket l).0.allowed
        ≡ false
      → let out = serve config around now r view s in
        (out.0
          ≡ answered (
              some (record {
                status = 429;
                request_id = some (id_of r);
                remaining = some 0;
                retry_after = some (
                    retry_after_seconds (
                      parse config.doubles
                        (run_for config.doubles config.sha config.str config.settings now s.bucket
                          l).0));
              })))
        × (out.1.context ≡ record s.context { logged = some (id_of r) ∷ s.context.logged })
  unfolding serve inner with_request_id
  serve-refuses now r view s l unprobed on e p q own empty =
      let bound : Context = record s.context { request_id = some (id_of r) } in
      let refused =
        limiter-refuses config.doubles config.sha config.str config.settings now r.incoming
          (view (id_of r)) bound s.bucket l on e p q own empty in
      ground (arith, unprobed, refused)
