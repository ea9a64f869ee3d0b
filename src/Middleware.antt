-- ===== src/Middleware.antt =====
-- src/apps/core/middleware.py with the result type of src/apps/ratelimit/bucket.py. Python's
-- character classes, the `ipaddress` parser and the token bucket's answer are parameters.
pub mod Ids
pub mod ClientIp
mod Tests
use Prim.Native.String.{count}
use notify_relay.Prelude.{
  ℕ, zero, suc, ◌+◌, ◌-◌, ◌/◌, max, String, Char, code, Bool, true, false, not, ◌&&◌, ◌||◌, Option,
  none, some, is_some, leb, ltb, ◌==◌, str_eq, str_append, if◌then◌else◌, select, List, [], ◌∷◌,
}
use mathlib.Core.List.{reverse}
use notify_relay.Models.{ApiKey}
use notify_relay.Security.{after_prefix}

abbrev pub max_id_length : ℕ
max_id_length = 64

-- `all(p(c) for c in s)`.
unfoldable pub all_chars : (Char → Bool) → String → Bool
all_chars p String.[] = true
all_chars p (String.◌∷◌ c s) = p c && all_chars p s

-- `s.strip()` for the whitespace `space`.
lstrip : (Char → Bool) → String → String
lstrip space String.[] = ""
lstrip space (String.◌∷◌ c s) =
    let rest = lstrip space s in if space c then rest else String.◌∷◌ c s

rstrip_char : (Char → Bool) → Char → String → String
rstrip_char space c String.[] = if space c then "" else String.◌∷◌ c ""
rstrip_char space c (String.◌∷◌ d s) = String.◌∷◌ c (String.◌∷◌ d s)

rstrip : (Char → Bool) → String → String
unfolding rstrip_char
rstrip space String.[] = ""
rstrip space (String.◌∷◌ c s) = rstrip_char space c (rstrip space s)

unfoldable pub strip : (Char → Bool) → String → String
unfolding lstrip rstrip
strip space s = rstrip space (lstrip space s)

abbrev pub id_char : (Char → Bool) → Char → Bool
id_char alnum c = alnum c || code c == b'-' || code c == b'_'

abbrev coerce_stripped : (Char → Bool) → String → Option String
coerce_stripped alnum v =
    if str_eq v "" || ltb max_id_length (count v)
    then none
    else if not (all_chars (id_char alnum) v)
    then none
    else some v

-- `_coerce_incoming`.
unfoldable pub coerce_incoming : (Char → Bool) → (Char → Bool) → String → Option String
coerce_incoming space alnum value = coerce_stripped alnum (strip space value)

-- A response's status and the headers that the middleware writes.
pub record Response : Type 0 where
  pub status : ℕ
  pub request_id : Option String
  pub remaining : Option ℕ
  pub retry_after : Option ℕ

-- The context variable of src/apps/core/logging.py, and the request ids of the lines logged here.
pub record Context : Type 0 where
  pub request_id : Option String
  pub logged : List (Option String)

abbrev or_ulid : Option String → String → String
or_ulid none ulid = ulid
or_ulid (some i) ulid = i

abbrev log_errors : Response → Context → Context
log_errors r c = if leb 400 r.status then record c { logged = c.request_id ∷ c.logged } else c

-- The `finally` clause, then the header; an exception of the view goes on.
leave : Context → String → Option Response × Context → Option Response × Context
leave before id (none, c) = (none, record c { request_id = before.request_id })
leave before id (some r, c) = (
  some (record r { request_id = some id }),
  record (log_errors r c) { request_id = before.request_id },
)

-- `RequestIDMiddleware.__call__`; `view id` runs the rest of the chain, which may raise (`none`)
-- and may log, but binds the context variable to nothing else.
unfoldable pub with_request_id :
    (Char → Bool)
    → (Char → Bool)
    → String
    → String
    → (String → Context → Option Response × Context)
    → Context
    → Option Response × Context
unfolding leave
with_request_id space alnum ulid incoming view c =
    let id = or_ulid (coerce_incoming space alnum incoming) ulid in
    leave c id (view id (record c { request_id = some id }))

-- What `ipaddress.ip_address` says of a text: `str(ip)`, or for IPv6 the mapped IPv4 address, if
-- any, and the text of its /64 network.
pub data IpAddress : Type 0 where
  ipv4 : String → IpAddress
  ipv6 : Option String → String → IpAddress

-- `raw.split("%", 1)[0]`.
unfoldable pub before_percent : String → String
before_percent String.[] = ""
before_percent (String.◌∷◌ c s) =
    let rest = before_percent s in if code c == b'%' then "" else String.◌∷◌ c rest

abbrev pub bucket_key : Option IpAddress → Option String
bucket_key none = none
bucket_key (some (ipv4 s)) = some s
bucket_key (some (ipv6 (some mapped) net)) = some mapped
bucket_key (some (ipv6 none net)) = some net

-- `_bucket_address`.
unfoldable pub bucket_address : (String → Option IpAddress) → String → Option String
bucket_address parse raw = bucket_key (parse (before_percent raw))

-- `s.split(",")`.
abbrev add_char : Char → List String → List String
add_char c [] = (String.◌∷◌ c "") ∷ []
add_char c (s ∷ l) = (String.◌∷◌ c s) ∷ l

split_commas : String → List String
split_commas String.[] = "" ∷ []
split_commas (String.◌∷◌ c s) =
    let rest = split_commas s in if code c == b',' then "" ∷ rest else add_char c rest

abbrev pub strip_all : (Char → Bool) → List String → List String
strip_all space [] = []
strip_all space (s ∷ l) = strip space s ∷ strip_all space l

-- `[part.strip() for part in forwarded.split(",") if part.strip()]`.
unfoldable pub forwarded_chain : (Char → Bool) → String → List String
unfolding split_commas
forwarded_chain space s = select (λ p. not (str_eq p "")) (strip_all space (split_commas s))

-- `chain[-hops]` for `1 ≤ hops ≤ len(chain)`: the entry that many places from the right.
abbrev pub nth {ℓ} : {A : Type ℓ} → ℕ → List A → Option A
nth n [] = none
nth zero (x ∷ l) = some x
nth (suc n) (x ∷ l) = nth n l

unfoldable pub from_right : ℕ → List String → Option String
from_right zero l = none
from_right (suc n) l = nth n (reverse l)

abbrev or_else : Option String → String → String
or_else none s = s
or_else (some a) s = a

abbrev remote_bucket : (String → Option IpAddress) → String → String
remote_bucket parse remote =
    or_else (bucket_address parse remote) (if str_eq remote "" then "unknown" else remote)

abbrev forwarded_bucket : (String → Option IpAddress) → Option String → Option String
forwarded_bucket parse none = none
forwarded_bucket parse (some entry) = bucket_address parse entry

-- `_client_ip` with `hops = NUM_PROXIES`.
unfoldable pub client_ip :
    (Char → Bool) → (String → Option IpAddress) → ℕ → String → String → String
client_ip space parse hops forwarded remote =
    or_else (forwarded_bucket parse (from_right hops (forwarded_chain space forwarded)))
      (remote_bucket parse remote)
