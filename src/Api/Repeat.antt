-- ===== src/Api/Repeat.antt =====
-- Idempotency seen from outside: a POST to src/apps/messages_api/views.py whose idempotency key is
-- in use, in any state of the system of workers, Beat tasks and requests.
use notify_relay.System.{System}
