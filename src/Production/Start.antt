-- ===== src/Production/Start.antt =====
-- What holds of every process that src/notify_relay/settings/prod.py lets start.
use Prim.Native.String.{count}
use notify_relay.Prelude.{
  ◌≤◌, ◌≡◌, refl, subst, All, eq_iff, String, Bool, true, false, Option, none, some, is_some, List,
  [], ◌∷◌, str_eq, any, arith, Bool-cases, if◌then◌else◌, inl, inr,
}
use notify_relay.Security.{hash_secret}
use notify_relay.Production.{
  Environment, min_secret_length, is_weak, first_weak, secrets, check_hosts, refused_setting,
}

strong-long : (s : String) → is_weak s ≡ false → min_secret_length ≤ count s
strong-long s h = ground arith

long-nonempty : (s : String) → min_secret_length ≤ count s → str_eq s "" ≡ false
long-nonempty s h = elim (Bool-cases (str_eq s "")) [
  | inl empty ↦
      let long = subst (λ t. min_secret_length ≤ count t) ((eq_iff s "").0 empty) h in
      absurd (omega (arith, long))
  | inr other ↦ other
]

none_weak :
    (l : List (String × String))
    → first_weak l ≡ none
    → All (λ (s : String × String). is_weak s.1 ≡ false) l
none_weak [] h = tt
none_weak (s ∷ l) h =
    let read : (b : Bool) → is_weak s.1 ≡ b → (if b then some s.0 else first_weak l) ≡ none =
      λ b same. subst (λ (b : Bool). (if b then some s.0 else first_weak l) ≡ none) same h in
    elim (Bool-cases (is_weak s.1)) [
      | inl weak ↦ absurd (ground (arith, read true weak))
      | inr strong ↦ (strong, none_weak l (read false strong))
    ]

checked :
    (e : Environment) (found : Option String)
    → check_hosts e found ≡ none
    → (found ≡ none) × (any (str_eq "*") e.allowed_hosts ≡ false)
checked e none h = (refl, ground (arith, h))
checked e (some name) h = absurd (ground (arith, h))

-- Each of the four secrets has 32 characters at least, there is an allowed host, and none of them is
-- the wildcard; so the keyed hash of an API key never meets a missing pepper.
pub started-secure :
    (e : Environment) (hmac : String → String → String) (secret : String)
    → refused_setting e ≡ none
    → (min_secret_length ≤ count e.secret_key)
      × (min_secret_length ≤ count e.jwt_signing_key)
      × (min_secret_length ≤ count e.webhook_hmac_secret)
      × (any (str_eq "*") e.allowed_hosts ≡ false)
      × (is_some (hash_secret hmac e.api_key_hash_pepper secret) ≡ true)
unfolding refused_setting hash_secret
started-secure e hmac secret h =
    let hosts = checked e (first_weak (secrets e)) h in
    let strong = none_weak (secrets e) hosts.0 in
    let peppered =
      long-nonempty e.api_key_hash_pepper (strong-long e.api_key_hash_pepper strong.1.1.0) in
    (
      strong-long e.secret_key strong.0,
      strong-long e.jwt_signing_key strong.1.0,
      strong-long e.webhook_hmac_secret strong.1.1.1.0,
      hosts.1,
      ground (arith, peppered),
    )
