-- ===== src/Validators.antt =====
-- src/apps/messages_api/validators.py: the guard against requests into internal networks. The URL
-- parser of httpx, the parser of IP addresses and the resolver are parameters.
pub mod Guard
pub mod Resolver
mod Tests
use Prim.Native.String.{[], ◌∷◌}
use notify_relay.Prelude.{
  ℕ, String, Char, code, Bool, true, false, not, ◌&&◌, ◌||◌, Option, none, some, is_some, List, ◌∷◌,
  [], ◌++◌, ltb, ◌==◌, str_eq, if◌then◌else◌, any, select,
}
use notify_relay.Models.{Channel, email, webhook}
use notify_relay.Middleware.{strip, forwarded_chain, strip_all}

-- What the code reads of an `httpx.URL`.
pub record Url : Type 0 where
  pub scheme : String
  pub host : String
  pub raw_host : String
  pub netloc : String
  pub port : Option ℕ

-- What the code reads of an `ipaddress.ip_address`; `within n` is `ip in ip_network(n)`.
pub record Address : Type 0 where
  pub is_global : Bool
  pub is_multicast : Bool
  pub within : String → Bool

abbrev pub tunnel_networks : List String
tunnel_networks =
    "64:ff9b::/96" ∷ "64:ff9b:1::/48" ∷ "2002::/16" ∷ "2001::/32" ∷ "::/96" ∷ "::ffff:0:0:0/96"
    ∷ "fec0::/10" ∷ []

-- The setting WEBHOOK_BLOCKED_NETWORKS, a list or a text with commas.
pub data NetworkList : Type 0 where
  listed : List String → NetworkList
  joined : String → NetworkList

-- The setting, and which texts `ipaddress.ip_network(_, strict=False)` can read; on the others it
-- raises ValueError.
pub record NetworkSetting : Type 0 where
  pub raw : NetworkList
  pub readable : String → Bool

abbrev pub network_texts : (Char → Bool) → NetworkList → List String
network_texts space (listed l) = select (λ n. not (str_eq n "")) (strip_all space l)
network_texts space (joined s) = forwarded_chain space s

-- `_blocked_networks`; `none` is the ValueError.
abbrev pub blocked_networks : (Char → Bool) → NetworkSetting → Option (List String)
blocked_networks space s =
    let texts = network_texts space s.raw in
    if any (λ n. not (s.readable n)) texts then none else some texts

-- How `socket.getaddrinfo` ends: with addresses, or with gaierror or UnicodeError.
pub data Lookup : Type 0 where
  resolved : List String → Lookup
  unresolved : Lookup

-- A look-up under a time limit finds a free slot of the pool or not, and is in time or not.
pub record Limit : Type 0 where
  pub slot_free : Bool
  pub in_time : Bool

-- What `validate_recipient` reads: the framework's check of an email address, the parsers, the
-- setting, the resolver and what becomes of a look-up under the API's time limit.
pub record Network : Type 0 where
  pub email_ok : String → Bool
  pub url : String → Option Url
  pub ip_address : String → Option Address
  pub setting : NetworkSetting
  pub getaddrinfo : String → Option ℕ → Lookup
  pub limit : Limit

-- How `validate_webhook_url` ends: with a ValidationError, with the ValueError of a setting that
-- cannot be read, or with addresses.
pub data Vetted : Type 0 where
  refused : String → Vetted
  value_error : Vetted
  vetted : List String → Vetted

unfoldable pub has_percent : String → Bool
has_percent [] = false
has_percent (c ∷ s) = let rest = has_percent s in (code c == 37) || rest

abbrev pub bracket : Char → Bool
bracket c = (code c == 91) || (code c == 93)

abbrev pub good_port : Option ℕ → Bool
good_port none = true
good_port (some p) = ltb 0 p && ltb p 65536

abbrev in_networks : Address → Option (List String) → Option Bool
in_networks ip none = none
in_networks ip (some networks) = some (any ip.within networks)

-- The setting is read only if the other tests let the address pass; `none` is its ValueError.
abbrev blocked_address : Option (List String) → Option Address → Option Bool
blocked_address networks none = some true
blocked_address networks (some ip) =
    if not ip.is_global || ip.is_multicast || any ip.within tunnel_networks
    then some true
    else in_networks ip networks

-- What follows the test of an address: an exception, a refusal, or the rest.
abbrev pub if_free : Option Bool → String → Vetted → Vetted
if_free none reason rest = value_error
if_free (some true) reason rest = refused reason
if_free (some false) reason rest = rest

-- `_getaddrinfo`; `none` means no answer in time or no free slot.
abbrev pub look_up : Option Limit → Lookup → Option Lookup
look_up none found = some found
look_up (some l) found = if l.slot_free && l.in_time then some found else none

module _ (space : Char → Bool) (ip_address : String → Option Address)
    (setting : NetworkSetting) where
  -- `_is_blocked_ip`.
  abbrev pub is_blocked_ip : String → Option Bool
  is_blocked_ip a = blocked_address (blocked_networks space setting) (ip_address a)

  -- `_looks_like_ip`.
  abbrev pub looks_like_ip : String → Bool
  looks_like_ip host = is_some (ip_address (strip bracket host))

  abbrev any_left : List String → Vetted
  any_left [] = refused "webhook URL hostname does not resolve"
  any_left l = vetted l

  -- The loop over the addresses that the resolver found.
  unfoldable pub collect : List String → List String → Vetted
  collect [] found = any_left found
  collect (a ∷ infos) found =
      let same = collect infos found in
      let more = collect infos (found ++ a ∷ []) in
      if_free (is_blocked_ip a) "webhook URL resolves to a blocked address range"
        (if any (str_eq a) found then same else more)

  vet_lookup : Option Lookup → Vetted
  unfolding collect
  vet_lookup none = vetted []
  vet_lookup (some unresolved) = refused "webhook URL hostname does not resolve"
  vet_lookup (some (resolved infos)) = collect infos []

  vet_url : (String → Option ℕ → Lookup) → Option Limit → Option Url → Vetted
  unfolding vet_lookup
  vet_url getaddrinfo limit none = refused "webhook URL is malformed"
  vet_url getaddrinfo limit (some u) =
      if not (str_eq u.scheme "http") && not (str_eq u.scheme "https")
      then refused "webhook URL must use http(s)"
      else if str_eq u.raw_host ""
      then refused "webhook URL must include a hostname"
      else if not (good_port u.port)
      then refused "webhook URL port is out of range"
      else if has_percent u.raw_host
      then refused "webhook URL must not carry an IPv6 zone id"
      else if looks_like_ip u.raw_host
      then if_free (is_blocked_ip u.raw_host) "webhook URL points to a blocked address range"
          (vetted (u.raw_host ∷ []))
      else vet_lookup (look_up limit (getaddrinfo u.raw_host u.port))

  -- `validate_webhook_url`; a limit stands for `resolve_timeout`.
  unfoldable pub validate_webhook_url :
      (String → Option Url) → (String → Option ℕ → Lookup) → Option Limit → String → Vetted
  unfolding vet_url
  validate_webhook_url url getaddrinfo limit s = vet_url getaddrinfo limit (url s)

abbrev accepted : Vetted → Option Bool
accepted (refused e) = some false
accepted value_error = none
accepted (vetted l) = some true

-- `validate_recipient`: true if it raises nothing, false for a ValidationError, `none` for the
-- ValueError.
unfoldable pub validate_recipient : (Char → Bool) → Network → Channel → String → Option Bool
unfolding validate_webhook_url
validate_recipient space net email s = some (net.email_ok s)
validate_recipient space net webhook s = accepted (
    validate_webhook_url space net.ip_address net.setting net.url net.getaddrinfo (some net.limit)
      s)
