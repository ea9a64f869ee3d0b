-- ===== src/Authentication/Access.antt =====
-- Who gets in: `resolve_api_key` and `authenticate` of src/apps/core/authentication.py against the
-- keys that `ApiKeyViewSet` of src/apps/core/views.py creates and revokes.
use notify_relay.Prelude.{
  String, ◌≡◌, refl, ◌∙◌, sym, ap, true, false, ◌&&◌, Option, none, some, List, [], ◌∷◌, ◌++◌,
  str_eq, find_first-passes, arith, eq_iff, eq_refl, Bool-cases, inl, inr,
}
use notify_relay.Models.{ApiKey, active}
use notify_relay.State.{World}
use notify_relay.Security.{
  split_full_key, verify_secret, hash_secret, generate_api_key, key_id_digits,
}
use notify_relay.Security.Keys.{hex_token, split_full_key-generate}
use notify_relay.Authentication.{
  HttpRequest, answer, passed_on, active_key, check_candidate, look_up, remember, resolve_memo,
  resolve_api_key, authenticate, as_key, create_key, KeyDraw, ApiKeyData, created, new_key,
  valid_api_key, key_id_taken,
}

-- A key was found for the header of a request.
pub record Proven (hmac : String → String → String) (pepper : String) (r : HttpRequest) (k : ApiKey)
    : Type 0 where
  pub secret : String
  pub header : split_full_key r.api_key_header ≡ some (k.key_id, secret)
  pub live : active k ≡ true
  pub hashed : k.hashed_secret ≡ hmac pepper secret
  pub peppered : str_eq pepper "" ≡ false

-- `remember` stores what was found.
remember-some :
    (o : Option (Option ApiKey)) (r after : HttpRequest) (k : Option ApiKey)
    → remember o r ≡ some (k, after)
    → (o ≡ some k) × (after.resolved ≡ some k)
unfolding remember
remember-some none r after k h = absurd (ground arith)
remember-some (some j) r after k h = ground arith

module _ (hmac : String → String → String) (pepper : String) where
  check_candidate-some :
      (secret : String) (o : Option ApiKey) (k : ApiKey)
      → check_candidate hmac pepper secret o ≡ some (some k)
      → (o ≡ some k) × (k.hashed_secret ≡ hmac pepper secret) × (str_eq pepper "" ≡ false)
  unfolding check_candidate verify_secret
  check_candidate-some secret none k h = absurd (ground arith)
  check_candidate-some secret (some c) k h =
      ground (arith, eq_iff (hmac pepper secret) c.hashed_secret)

  look_up-some :
      (r : HttpRequest) (o : Option (String × String)) (l : List ApiKey) (k : ApiKey)
      → split_full_key r.api_key_header ≡ o
      → look_up hmac pepper o l ≡ some (some k)
      → Proven hmac pepper r k
  unfolding look_up
  look_up-some r none l k e h = absurd (ground arith)
  look_up-some r (some (key_id, secret)) l k e h =
      let (found, hashed, peppered) = check_candidate-some secret (active_key key_id l) k h in
      let passes = find_first-passes (λ x. active x && str_eq x.key_id key_id) l k found in
      record {
        secret = secret;
        header = ground (arith, e, eq_iff k.key_id key_id);
        live = ground arith;
        hashed = hashed;
        peppered = peppered;
      }

  look_up-found :
      (o : Option (String × String)) (l : List ApiKey) (k : ApiKey)
      → look_up hmac pepper o l ≡ some (some k)
      → (key_id : String) × (active_key key_id l ≡ some k)
  unfolding look_up
  look_up-found none l k h = absurd (ground arith)
  look_up-found (some (key_id, secret)) l k h =
      (key_id, (check_candidate-some secret (active_key key_id l) k h).0)

  memo-fresh :
      (o : Option (Option ApiKey)) (r : HttpRequest) (l : List ApiKey)
      → o ≡ none
      → resolve_memo hmac pepper o r l
        ≡ remember (look_up hmac pepper (split_full_key r.api_key_header) l) r
  unfolding resolve_memo
  memo-fresh none r l e = refl
  memo-fresh (some k) r l e = cc

  memo-kept :
      (o : Option (Option ApiKey)) (r : HttpRequest) (l : List ApiKey) (k : Option ApiKey)
      → o ≡ some k
      → resolve_memo hmac pepper o r l ≡ some (k, r)
  unfolding resolve_memo
  memo-kept none r l k e = cc
  memo-kept (some j) r l k e = ground arith

  -- A request resolves to a key only if its header is that key's id with a secret whose keyed hash
  -- is the stored one, the key is active, and a pepper is configured; and the request remembers
  -- it: a later call gives the same key without a look-up, whatever has happened to the tables.
  pub resolve_api_key-Proven :
      (r after : HttpRequest) (w later : World) (k : ApiKey)
      → r.resolved ≡ none
      → resolve_api_key hmac pepper r w ≡ some (some k, after)
      → Proven hmac pepper r k × (resolve_api_key hmac pepper after later ≡ some (some k, after))
  unfolding resolve_api_key
  resolve_api_key-Proven r after w later k first_time h =
      let (found, kept) =
        remember-some (look_up hmac pepper (split_full_key r.api_key_header) w.api_keys) r after
          (some k) (sym (memo-fresh r.resolved r w.api_keys first_time) ∙ h) in
      (
        look_up-some r (split_full_key r.api_key_header) w.api_keys k refl found,
        memo-kept after.resolved after later.api_keys (some k) kept,
      )

answer-key :
    (o : Option (Option ApiKey × HttpRequest)) (k : ApiKey)
    → answer o ≡ as_key k
    → (after : HttpRequest) × (o ≡ some (some k, after))
answer-key none k h = absurd (ground arith)
answer-key (some (none, after)) k h = absurd (ground arith)
answer-key (some (some j, after)) k h = (after, ground arith)

answer-passed_on : (o : Option (Option ApiKey × HttpRequest)) → answer o ≡ passed_on → ⊥
answer-passed_on none h = ground arith
answer-passed_on (some (none, after)) h = ground arith
answer-passed_on (some (some j, after)) h = ground arith

-- The backend lets a request in as a key only with that key's secret,
pub authenticate-Proven :
    (hmac : String → String → String) (pepper : String) (r : HttpRequest) (w : World) (k : ApiKey)
    → r.resolved ≡ none
    → authenticate hmac pepper r w ≡ as_key k
    → Proven hmac pepper r k
unfolding authenticate
authenticate-Proven hmac pepper r w k fresh h =
    let (after, found) = answer-key (resolve_api_key hmac pepper r w) k (ground (arith, h)) in
    (resolve_api_key-Proven hmac pepper r after w w k fresh found).0

-- and passes on only requests without the header.
pub authenticate-passed_on :
    (hmac : String → String → String) (pepper : String) (r : HttpRequest) (w : World)
    → authenticate hmac pepper r w ≡ passed_on
    → str_eq r.api_key_header "" ≡ true
unfolding authenticate
authenticate-passed_on hmac pepper r w h = elim (Bool-cases (str_eq r.api_key_header "")) [
  | inl empty ↦ empty
  | inr filled ↦
      absurd (answer-passed_on (resolve_api_key hmac pepper r w) (ground (arith, h, filled)))
]

-- The key stands among the active ones.
pub resolve_api_key-found :
    (hmac : String → String → String) (pepper : String) (r after : HttpRequest) (w : World)
    (k : ApiKey)
    → r.resolved ≡ none
    → resolve_api_key hmac pepper r w ≡ some (some k, after)
    → (key_id : String) × (active_key key_id w.api_keys ≡ some k)
unfolding resolve_api_key
resolve_api_key-found hmac pepper r after w k first_time h =
    let (found, kept) =
      remember-some (look_up hmac pepper (split_full_key r.api_key_header) w.api_keys) r after
        (some k) (sym (memo-fresh hmac pepper r.resolved r w.api_keys first_time) ∙ h) in
    look_up-found hmac pepper (split_full_key r.api_key_header) w.api_keys k found

active_key-append :
    (key_id : String) (l : List ApiKey) (k : ApiKey)
    → active_key key_id l ≡ none
    → active k ≡ true
    → k.key_id ≡ key_id
    → active_key key_id (l ++ k ∷ []) ≡ some k
active_key-append key_id [] k e a same = ground (arith, eq_iff k.key_id key_id)
active_key-append key_id (x ∷ l) k e a same = ground (arith, active_key-append key_id l k)

active_key-free :
    (key_id : String) (l : List ApiKey) → key_id_taken key_id l ≡ false → active_key key_id l ≡ none
active_key-free key_id [] h = refl
active_key-free key_id (x ∷ l) h = ground (arith, active_key-free key_id l)

split-nonempty :
    (s : String) {x : String × String} → split_full_key s ≡ some x → str_eq s "" ≡ false
unfolding split_full_key
split-nonempty s h = elim (Bool-cases (str_eq s "")) [
  | inr filled ↦ filled
  | inl empty ↦ cc (sym h ∙ ap split_full_key ((eq_iff s "").0 empty))
]

authenticate_lem :
    (hmac : String → String → String) (pepper header secret key_id : String) (w : World)
    (k : ApiKey)
    → split_full_key header ≡ some (key_id, secret)
    → str_eq pepper "" ≡ false
    → active_key key_id w.api_keys ≡ some k
    → k.hashed_secret ≡ hmac pepper secret
    → authenticate hmac pepper (record { api_key_header = header; resolved = none }) w ≡ as_key k
unfolding authenticate resolve_api_key verify_secret
authenticate_lem hmac pepper header secret key_id w k split peppered found hashed =
    rw (split-nonempty header split, split, found, peppered, hashed, eq_refl) refl

-- The full key that `create` shows once opens the door to the new key.
pub create_key-authenticate :
    (hmac : String → String → String) (pepper : String) (draw : KeyDraw) (d : ApiKeyData)
    (w : World)
    → valid_api_key d ≡ true
    → str_eq pepper "" ≡ false
    → hex_token key_id_digits draw.hex_token ≡ true
    → str_eq draw.url_token "" ≡ false
    → key_id_taken (generate_api_key draw.hex_token draw.url_token).key_id w.api_keys ≡ false
    → let key = generate_api_key draw.hex_token draw.url_token in
      let k = new_key draw d (hmac pepper draw.url_token) in
      let run = create_key hmac pepper draw d w in
      (run.0 ≡ created k key.full_key draw.webhook_token)
      × (authenticate hmac pepper (record { api_key_header = key.full_key; resolved = none }) run.1
          ≡ as_key k)
unfolding create_key hash_secret
create_key-authenticate hmac pepper draw d w good peppered hex filled fresh =
    let key = generate_api_key draw.hex_token draw.url_token in
    let k = new_key draw d (hmac pepper draw.url_token) in
    rw (good, peppered, fresh)
      (
        refl,
        authenticate_lem hmac pepper key.full_key draw.url_token key.key_id _ k
            (split_full_key-generate draw.hex_token draw.url_token hex filled) peppered
            (active_key-append key.key_id w.api_keys k (active_key-free key.key_id w.api_keys fresh)
              refl refl)
            refl,
      )
