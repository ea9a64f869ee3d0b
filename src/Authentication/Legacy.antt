-- ===== src/Authentication/Legacy.antt =====
-- The data migration `revoke_legacy_keys` of
-- src/apps/core/migrations/0002_api_key_id_and_webhook_secret.py.
use notify_relay.Prelude.{
  ℕ, ◌≡◌, refl, String, false, Option, none, some, List, [], ◌∷◌, map, str_append, arith, any,
}
use notify_relay.Models.{ApiKey, active}

abbrev pub revoked_since : ℕ → Option ℕ → ℕ
revoked_since now none = now
revoked_since now (some at) = at

-- `now` is the time at which the loop comes to a key, and `str` spells a number.
abbrev pub legacy_row : (ℕ → String) → (ApiKey → ℕ) → ApiKey → ApiKey
legacy_row str now k = record k {
  key_id = str_append "legacy_" (str k.id);
  is_active = false;
  revoked_at = some (revoked_since (now k) k.revoked_at);
}

unfoldable pub revoke_legacy_keys : (ℕ → String) → (ApiKey → ℕ) → List ApiKey → List ApiKey
revoke_legacy_keys str now l = map (legacy_row str now) l

-- After the migration no key is active, whatever a request asks of it.
pub revoke_legacy_keys-inactive :
    (str : ℕ → String) (now : ApiKey → ℕ) (l : List ApiKey)
    → any active (revoke_legacy_keys str now l) ≡ false
unfolding revoke_legacy_keys
revoke_legacy_keys-inactive str now [] = refl
revoke_legacy_keys-inactive str now (k ∷ l) = ground (arith, revoke_legacy_keys-inactive str now l)
