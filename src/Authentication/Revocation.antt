-- ===== src/Authentication/Revocation.antt =====
-- Revoking a key: `ApiKeyViewSet.revoke` of src/apps/core/views.py.
use notify_relay.Prelude.{
  ℕ, ◌≡◌, refl, ◌∙◌, String, Bool, true, false, not, ◌&&◌, Option, none, some, List, [], ◌∷◌, ◌==◌,
  ==_iff, str_eq, find_first, find_first-passes, find_first-All, find_first-update_where,
  update_where, by_key, All, arith,
}
use notify_relay.Models.{ApiKey, active}
use notify_relay.State.{World}
use notify_relay.Authentication.{
  HttpRequest, resolve_api_key, revoke, revoked_row, one, already_revoked,
}
use notify_relay.Authentication.Access.{resolve_api_key-found}

-- No active key has the primary key `pk`.
abbrev pub IsShut : ℕ → List ApiKey → Type 0
IsShut pk l = All (λ k. (active k && k.id == pk) ≡ false) l

revoked-IsShut :
    (now pk : ℕ) (l : List ApiKey)
    → IsShut pk (update_where (by_key (λ k. k.id) pk) (revoked_row now) l)
revoked-IsShut now pk [] = tt
revoked-IsShut now pk (k ∷ l) = (ground arith, revoked-IsShut now pk l)

abbrev after_revoke : ℕ → ℕ → World → World
after_revoke now pk w = record w {
  api_keys = update_where (by_key (λ x. x.id) pk) (revoked_row now) w.api_keys;
}

revoke_lem :
    (now pk : ℕ) (w : World) (k : ApiKey)
    → find_first (by_key (λ x. x.id) pk) w.api_keys ≡ some k
    → k.revoked_at ≡ none
    → revoke now pk w ≡ (one (revoked_row now k), after_revoke now pk w)
unfolding revoke
revoke_lem now pk w k here alive =
    let same = (==_iff k.id pk).0 (find_first-passes (by_key (λ x. x.id) pk) w.api_keys k here) in
    rw here (ground (arith, same))

revoke_again :
    (later now pk : ℕ) (w : World) (k : ApiKey)
    → find_first (by_key (λ x. x.id) pk) w.api_keys ≡ some k
    → revoke later pk (after_revoke now pk w) ≡ (already_revoked, after_revoke now pk w)
unfolding revoke
revoke_again later now pk w k here =
    let e : find_first (by_key (λ x. x.id) pk) (after_revoke now pk w).api_keys
        ≡ some (revoked_row now k) =
      find_first-update_where (λ x. x.id) (revoked_row now) (λ x. refl) pk pk w.api_keys
      ∙ rw here (ground arith) in
    rw e refl

-- The look-up does not end in the key `pk`: it fails, finds no key, or finds another one.
abbrev pub shut_out : ℕ → Option (Option ApiKey × HttpRequest) → Bool
shut_out pk none = true
shut_out pk (some (none, r)) = true
shut_out pk (some (some k, r)) = not (k.id == pk)

-- The answer to a call that revokes a live key shows the revoked key; after it a request without a
-- memo does not resolve to that key, whatever its header; and a second call answers that the key was
-- revoked before and changes nothing.
pub revoke-shuts :
    (hmac : String → String → String) (pepper : String) (now later pk : ℕ) (w : World)
    (r : HttpRequest) (k : ApiKey)
    → find_first (by_key (λ x. x.id) pk) w.api_keys ≡ some k
    → k.revoked_at ≡ none
    → r.resolved ≡ none
    → ((revoke now pk w).0 ≡ one (revoked_row now k))
      × (shut_out pk (resolve_api_key hmac pepper r (revoke now pk w).1) ≡ true)
      × (revoke later pk (revoke now pk w).1 ≡ (already_revoked, (revoke now pk w).1))
revoke-shuts hmac pepper now later pk w r k here alive fresh =
    let e = revoke_lem now pk w k here alive in
    rw e (
      refl,
      stays_out (resolve_api_key hmac pepper r (after_revoke now pk w)) refl,
      revoke_again later now pk w k here,
    )
  where
    stays_out :
        (o : Option (Option ApiKey × HttpRequest))
        → resolve_api_key hmac pepper r (after_revoke now pk w) ≡ o
        → shut_out pk o ≡ true
    stays_out none e = refl
    stays_out (some (none, after)) e = refl
    stays_out (some (some found, after)) e =
        let (key_id, active_one) =
          resolve_api_key-found hmac pepper r after (after_revoke now pk w) found fresh e in
        let passes =
          find_first-passes (λ x. active x && str_eq x.key_id key_id)
            (after_revoke now pk w).api_keys found active_one in
        let shut =
          find_first-All (λ x. (active x && x.id == pk) ≡ false)
            (λ x. active x && str_eq x.key_id key_id) (after_revoke now pk w).api_keys found
            (revoked-IsShut now pk w.api_keys) active_one in
        ground arith
