-- ===== src/Lib.antt =====
-- notify-relay: a service that accepts messages over an HTTP API, renders them from templates,
-- keeps them in a database and delivers them by email or webhook from Celery workers.
--
-- The parts and how they meet. A request passes the middleware (src/apps/core/middleware.py), which
-- gives it an id and takes a token from the bucket of its API key or address; the API key is
-- resolved from the header (src/apps/core/authentication.py, security.py). The message view
-- (src/apps/messages_api/views.py) validates the request and calls `create_message`
-- (services.py), which looks up the template, renders it (src/apps/templating) and inserts the
-- row under its idempotency key; after the commit the delivery task is published. The task
-- (src/tasks/delivery.py) claims the row, calls the channel, records the attempt and settles the
-- status, or is retried; the Beat tasks (src/tasks/scheduler.py) release scheduled messages, bring
-- lost ones back to the queue and delete old ones.
--
-- Which file models what, with the functions of the source under their own names:
--   Models          the rows and enumerations of messages_api/models.py, templating/models.py and
--                   core/models/api_key.py
--   State           the shared tables, the broker and the counters, and actions that may raise
--   Channels        channels/base.py: the result of a channel; Channels/Email and Channels/Webhook
--                   have `send` of the two channels, and channels/security.py
--   Validators      messages_api/validators.py: `validate_recipient`, `validate_webhook_url`;
--                   Validators/Resolver has the pool of resolver threads of `_getaddrinfo`
--   Delivery        tasks/delivery.py: `_dispatch` is `dispatch`, in its steps `claim`, `deliver`,
--                   `record_attempt`, `conclude`; Delivery/Retries has Celery's retries (`run_task`)
--   Tasks           tasks/delivery.py: `send_email`, `send_webhook`: `_dispatch` with its channel;
--                   Tasks/Timing has the retry options and the time limits of
--                   notify_relay/settings/base.py
--   Scheduler       tasks/scheduler.py: `dispatch_scheduled`, `cleanup_old_messages`
--   Renderer        templating/renderer.py: `render`
--   Templating      templating/views.py and the queries of its models; Templating/Read has the list
--                   and templating/serializers.py
--   Services        messages_api/services.py: `create_message` and its helpers
--   Security        core/security.py: the format of the full key, the keyed hash
--   Authentication  core/authentication.py and core/views.py: `resolve_api_key`, `create`, `revoke`;
--                   Authentication/Read has the list and the detail, Authentication/Legacy the data
--                   migration of core/migrations/0002_api_key_id_and_webhook_secret.py
--   Middleware      core/middleware.py: request ids and the address of the client
--   RateLimit       core/middleware.py: `RateLimitMiddleware`; the result of ratelimit/bucket.py
--   TokenBucket     ratelimit/bucket.py: `TokenBucket.consume` and the script that it runs in Redis,
--                   ratelimit/lua/token_bucket.lua; TokenBucket/Limiter has the middleware with it
--   Health          core/health.py: `ready`, `live` and the middleware that answers them
--   Api             who may call which view: core/authentication.py, REST_FRAMEWORK of
--                   notify_relay/settings/base.py, notify_relay/urls.py and the `permission_classes`;
--                   Api/Routes has the paths, Api/Repeat a request that comes again
--   Chain           the repository's own middleware in the order of notify_relay/settings/base.py
--   Production      notify_relay/settings/prod.py: the checks of the secrets and the host names;
--                   Production/Dev has the throwaway secrets of settings/dev.py
--   Metrics         core/metrics.py: the collector that /metrics reads
--   System          the workers, the Beat tasks and the API at once, in any order of transactions
--   MessageViews    messages_api/views.py and serializers.py
--   Prelude         Boolean tests, lists and tables that the parts share
--   Samples         concrete rows and requests; the module Tests of each part runs on them
--
-- How state is modelled. `World` holds the tables as lists of rows in the order of their insertion.
-- An operation is a function of the world; one that may raise is an `Exec`, whose `atomic` undoes a
-- block that raises. What other processes commit between two transactions of an operation is a
-- function of the world that the operation takes (`others`, `later`, `idle`): any interleaving of
-- whole transactions is such a function. Times are microseconds since the epoch, and the clock's
-- readings are arguments. The subtraction in `now - REENQUEUE_AFTER` is written as an addition on
-- the other side. `Step` in System is one transaction of one process; a task is its claim, its
-- attempt and its verdict, and its worker may die before each. Its premises are that the broker does
-- not hand out a task that is being run (the visibility timeout is longer than the time limit of a
-- task) and that no run lasts for two hours (by that limit); Tasks/Timing compares these limits. An
-- insert has the version that `_resolve_template` found in an earlier state of the database, whose
-- templates and versions are still there (System/Library proves that they always are). A round of the
-- clean-up, which selects and then deletes, is one step there.
--
-- The script of the token bucket counts in doubles and stores them as text. Both are a parameter,
-- `Doubles`; what the expiry relies on of them is in TokenBucket/Arithmetic. Nothing is claimed about
-- how many tokens exactly a bucket has, since that depends on the rounding. Redis's clock is the time
-- that a call of the script is given, in milliseconds, and EXPIRE ends a key at that clock.
--
-- Third-party code is a parameter: Jinja2 and the JSON parser, HMAC-SHA256 and the random tokens,
-- the tests of Python's `str` for white space and letters, the parsers of URLs and IP addresses,
-- which texts `ipaddress.ip_network` can read, the resolver, the HTTP client and the mail backend, the broker (whether it takes a task) and the
-- row locks of the database. So are, in Delivery, the channel that `_dispatch` is given (Tasks puts
-- both in), and in RateLimit the outcome of `TokenBucket.consume` (TokenBucket/Limiter puts it in).
-- Redis itself is a table of scripts and keys. In Api the sign-in by JWT or session and the two
-- permission classes of the framework are parameters; `IsDocumented` says what the latter document.
--
-- Loops and fuel. `cleanup_old_messages` loops on as much fuel as there are messages and one round
-- more, since a round that is not the last deletes a message.
-- The retries of a task are a recursion on the retries that are left, from MAX_RETRIES.
--
-- Not modelled: the settings that configure the frameworks, the schema migrations, the start-up of
-- Celery, the OpenAPI schema, and the formatters of the log; an answer of the mail server without a
-- code that can be read, for which smtplib gives -1; the framework's refusal of NUL characters in text
-- fields. The data of a template or an API key (`TemplateData`, `ApiKeyData`) are the values that the
-- serializer has stripped.
pub mod Prelude
pub mod Models
pub mod State
pub mod Channels
pub mod Delivery
pub mod Scheduler
pub mod Renderer
pub mod Templating
pub mod Services
pub mod Security
pub mod Authentication
pub mod Middleware
pub mod RateLimit
pub mod Health
pub mod Metrics
pub mod Production
pub mod MessageViews
pub mod Validators
pub mod TokenBucket
pub mod Chain
pub mod Api
pub mod Tasks
pub mod System
pub mod Samples
