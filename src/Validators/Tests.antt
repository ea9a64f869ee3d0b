-- ===== src/Validators/Tests.antt =====
-- A host with a public and a private address.
use notify_relay.Prelude.{refl, ℕ, ◌≡◌, String, false, Option, none, [], ◌∷◌}
use notify_relay.Middleware.{strip}
use notify_relay.Validators.{collect, has_percent, Lookup, resolved, refused, validate_webhook_url}
use notify_relay.Validators.Guard.{Free, validate_webhook_url-IsFree}
use notify_relay.Samples.{space, any_url, addresses, unset}

abbrev both : String → Option ℕ → Lookup
both host port = resolved ("1.1.1.1" ∷ "10.0.0.1" ∷ [])

private_refused :
    validate_webhook_url space addresses unset any_url both none "https://shop.example/hook"
    ≡ refused "webhook URL resolves to a blocked address range"
unfolding validate_webhook_url collect strip has_percent
private_refused = refl

validate_webhook_url-IsFree_example :
    Free space addresses unset false
      (validate_webhook_url space addresses unset any_url both none "https://shop.example/hook")
validate_webhook_url-IsFree_example =
    validate_webhook_url-IsFree space addresses unset any_url both none "https://shop.example/hook"
