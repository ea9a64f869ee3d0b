-- ===== src/Authentication/Read.antt =====
-- What `ApiKeyViewSet.list` and `.retrieve` of src/apps/core/views.py show of the keys, by
-- `ApiKeyReadSerializer` of src/apps/core/serializers.py.
use notify_relay.Prelude.{
  ℕ, ◌≡◌, refl, ap, ◌∙◌, String, Bool, Option, none, some, List, [], ◌∷◌, map, leb, order_by,
  order_by-map, find_first, by_key, arith,
}
use notify_relay.Models.{ApiKey, is_revoked}
use notify_relay.State.{World}

pub record KeyRead : Type 0 where
  pub id : ℕ
  pub name : String
  pub key_id : String
  pub rate_limit_per_min : ℕ
  pub burst : ℕ
  pub is_active : Bool
  pub is_revoked : Bool
  pub created_at : ℕ
  pub revoked_at : Option ℕ

abbrev pub key_read : ApiKey → KeyRead
key_read k = record {
  id = k.id;
  name = k.name;
  key_id = k.key_id;
  rate_limit_per_min = k.rate_limit_per_min;
  burst = k.burst;
  is_active = k.is_active;
  is_revoked = is_revoked k;
  created_at = k.created_at;
  revoked_at = k.revoked_at;
}

-- `.order_by("-created_at")`.
abbrev pub newest_key : ApiKey → ApiKey → Bool
newest_key a b = leb b.created_at a.created_at

unfoldable pub list_keys : World → List KeyRead
list_keys w = map key_read (order_by newest_key w.api_keys)

abbrev read_found : Option ApiKey → Option KeyRead
read_found none = none
read_found (some k) = some (key_read k)

-- `none` stands for 404.
unfoldable pub retrieve_key : ℕ → World → Option KeyRead
retrieve_key pk w = read_found (find_first (by_key (λ k. k.id) pk) w.api_keys)

-- A key without its secrets.
abbrev pub without_secrets : ApiKey → ApiKey
without_secrets k = record k { hashed_secret = ""; webhook_secret = "" }

read-without_secrets : (l : List ApiKey) → map key_read (map without_secrets l) ≡ map key_read l
read-without_secrets [] = refl
read-without_secrets (k ∷ l) = ap (λ rest. key_read k ∷ rest) (read-without_secrets l)

found-without_secrets :
    (pk : ℕ) (l : List ApiKey)
    → read_found (find_first (by_key (λ k. k.id) pk) (map without_secrets l))
      ≡ read_found (find_first (by_key (λ k. k.id) pk) l)
found-without_secrets pk [] = refl
found-without_secrets pk (k ∷ l) = ground (arith, found-without_secrets pk l)

-- Neither the list of the keys nor the detail of one depends on any secret: both are the same for
-- keys whose stored hashes and webhook secrets are blank.
pub read_keys-secrets :
    (w : World) (pk : ℕ)
    → let blank = record w { api_keys = map without_secrets w.api_keys } in
      (list_keys blank ≡ list_keys w) × (retrieve_key pk blank ≡ retrieve_key pk w)
unfolding list_keys retrieve_key
read_keys-secrets w pk = (
  ap (map key_read) (order_by-map newest_key newest_key without_secrets (λ a b. refl) w.api_keys)
      ∙ read-without_secrets (order_by newest_key w.api_keys),
  found-without_secrets pk w.api_keys,
)
