-- ===== src/Validators/Guard.antt =====
-- What `validate_webhook_url` of src/apps/messages_api/validators.py lets through.
use notify_relay.Prelude.{
  ℕ, String, Char, ◌≡◌, ◌∙◌, sym, refl, Bool, true, false, not, ◌||◌, ◌&&◌, Option, none, some,
  is_some, List, [], ◌∷◌, ◌++◌, str_eq, if◌then◌else◌, any, arith, All, Bool-cases, inl, inr,
}
use notify_relay.Validators.{
  Url, Address, NetworkSetting, Lookup, resolved, unresolved, Limit, Vetted, refused, vetted,
  is_blocked_ip, collect, vet_lookup, vet_url, validate_webhook_url, look_up, looks_like_ip,
  good_port, has_percent, value_error, in_networks, blocked_address, blocked_networks,
  tunnel_networks, if_free,
}

All-append_one :
    (p : String → Option Bool) (l : List String) (a : String)
    → All (λ x. p x ≡ some false) l
    → p a ≡ some false
    → All (λ x. p x ≡ some false) (l ++ a ∷ [])
All-append_one p [] a h e = (e, tt)
All-append_one p (x ∷ l) a h e = (h.0, All-append_one p l a (h.1) e)

abbrev pub is_empty : List String → Bool
is_empty [] = true
is_empty (x ∷ l) = false

module _ (space : Char → Bool) (ip_address : String → Option Address)
    (setting : NetworkSetting) where
  abbrev pub blocked : String → Option Bool
  blocked = is_blocked_ip space ip_address setting

  -- The addresses are free, and there are some unless `may_be_empty`; and there is an exception only
  -- if the setting cannot be read.
  unfoldable pub Free : Bool → Vetted → Type 0
  Free may_be_empty (refused e) = Unit {0}
  Free may_be_empty value_error = blocked_networks space setting ≡ none
  Free may_be_empty (vetted l) =
      All (λ a. blocked a ≡ some false) l × ((is_empty l && not may_be_empty) ≡ false)

  Free-if : (e b : Bool) (v w : Vetted) → Free e v → Free e w → Free e (if b then v else w)
  Free-if e true v w h k = h
  Free-if e false v w h k = k

  networks-unread : (ip : Address) (o : Option (List String)) → in_networks ip o ≡ none → o ≡ none
  networks-unread ip none h = refl
  networks-unread ip (some l) h = absurd (ground (arith, h))

  address-unread :
      (o : Option Address)
      → blocked_address (blocked_networks space setting) o ≡ none
      → blocked_networks space setting ≡ none
  address-unread none h = absurd (ground (arith, h))
  address-unread (some ip) h =
      elim (Bool-cases (not ip.is_global || ip.is_multicast || any ip.within tunnel_networks)) [
        | inl bad ↦ absurd (ground (arith, h, bad))
        | inr good ↦ networks-unread ip (blocked_networks space setting) (sym (rw good refl) ∙ h)
      ]

  -- What is done with an address that passes.
  if_free-Free :
      (e : Bool) (a : String) (o : Option Bool) (r : String) (v : Vetted)
      → blocked a ≡ o
      → (blocked a ≡ some false → Free e v)
      → Free e (if_free o r v)
  unfolding Free
  if_free-Free e a none r v same h = address-unread (ip_address a) same
  if_free-Free e a (some true) r v same h = tt
  if_free-Free e a (some false) r v same h = h same

  collect-Free :
      (infos found : List String)
      → All (λ a. blocked a ≡ some false) found
      → Free false (collect space ip_address setting infos found)
  unfolding collect Free
  collect-Free [] [] h = tt
  collect-Free [] (x ∷ found) h = (h, refl)
  collect-Free (a ∷ infos) found h =
      if_free-Free false a (blocked a) "webhook URL resolves to a blocked address range" _ refl
        λ good.
          Free-if false (any (str_eq a) found) _ _ (collect-Free infos found h)
            (collect-Free infos (found ++ a ∷ []) (All-append_one blocked found a h good))

  collected : (may_be_empty : Bool) (v : Vetted) → Free false v → Free may_be_empty v
  unfolding Free
  collected may_be_empty (refused e) h = tt
  collected may_be_empty value_error h = h
  collected may_be_empty (vetted l) h = (h.0, ground (arith, h.1))

  answered : (f : Lookup) → Free false (vet_lookup space ip_address setting (some f))
  unfolding vet_lookup Free
  answered (resolved infos) = collect-Free infos [] tt
  answered unresolved = tt

  look_up-Free :
      (limit : Option Limit) (found : Lookup)
      → Free (is_some limit) (vet_lookup space ip_address setting (look_up limit found))
  unfolding vet_lookup Free
  look_up-Free none found = answered found
  look_up-Free (some l) found = elim (Bool-cases (l.slot_free && l.in_time)) [
    | inr late ↦ rw late (tt, refl)
    | inl timely ↦ rw timely (collected true _ (answered found))
  ]

  refused-Free : (e : Bool) (r : String) → Free e (refused r)
  unfolding Free
  refused-Free e r = tt

  guarded : (e b : Bool) (w : Vetted) (r : String) → Free e w → Free e (if b then refused r else w)
  guarded e b w r h = Free-if e b (refused r) w (refused-Free e r) h

  vet_literal :
      (e : Bool) (host : String) (r : String)
      → Free e (if_free (blocked host) r (vetted (host ∷ [])))
  unfolding Free
  vet_literal e host r = if_free-Free e host (blocked host) r _ refl λ good. ((good, tt), refl)

  vet_url-Free :
      (getaddrinfo : String → Option ℕ → Lookup) (limit : Option Limit) (u : Option Url)
      → Free (is_some limit) (vet_url space ip_address setting getaddrinfo limit u)
  unfolding vet_url
  vet_url-Free getaddrinfo limit none = refused-Free (is_some limit) _
  vet_url-Free getaddrinfo limit (some u) =
      let e = is_some limit in
      guarded e (not (str_eq u.scheme "http") && not (str_eq u.scheme "https")) _
        "webhook URL must use http(s)"
        (guarded e (str_eq u.raw_host "") _ "webhook URL must include a hostname" (
          guarded e (not (good_port u.port)) _ "webhook URL port is out of range" (
            guarded e (has_percent u.raw_host) _ "webhook URL must not carry an IPv6 zone id" (
              Free-if e (looks_like_ip space ip_address setting u.raw_host) _ _
                (vet_literal e u.raw_host "webhook URL points to a blocked address range")
                (look_up-Free limit (getaddrinfo u.raw_host u.port))))))

  -- Every address that a webhook URL is vetted for is free: it parses, is global, no multicast, and
  -- in no tunnel or blocked network; and without a time limit there is such an address. The guard
  -- raises ValueError only if some entry of the blocked networks cannot be read.
  pub validate_webhook_url-IsFree :
      (url : String → Option Url) (getaddrinfo : String → Option ℕ → Lookup) (limit : Option Limit)
      (s : String)
      → Free (is_some limit) (validate_webhook_url space ip_address setting url getaddrinfo limit s)
  unfolding validate_webhook_url
  validate_webhook_url-IsFree url getaddrinfo limit s = vet_url-Free getaddrinfo limit (url s)

  vet_url-parsed :
      (getaddrinfo : String → Option ℕ → Lookup) (limit : Option Limit) (o : Option Url)
      (l : List String)
      → vet_url space ip_address setting getaddrinfo limit o ≡ vetted l
      → (u : Url) × (o ≡ some u)
  unfolding vet_url
  vet_url-parsed getaddrinfo limit none l h = absurd (ground arith)
  vet_url-parsed getaddrinfo limit (some u) l h = (u, refl)

  -- Only a URL that can be parsed is vetted.
  pub validate_webhook_url-parsed :
      (url : String → Option Url) (getaddrinfo : String → Option ℕ → Lookup) (limit : Option Limit)
      (s : String) (l : List String)
      → validate_webhook_url space ip_address setting url getaddrinfo limit s ≡ vetted l
      → (u : Url) × (url s ≡ some u)
  unfolding validate_webhook_url
  validate_webhook_url-parsed url getaddrinfo limit s l h =
      vet_url-parsed getaddrinfo limit (url s) l h
