-- ===== src/Api/Routes.antt =====
-- The paths of the endpoints: src/notify_relay/urls.py, the routers of src/apps/*/urls.py and the
-- docs of the viewsets; and the bucket that src/apps/core/middleware.py takes a request to them to.
use Prim.Native.String.{[], ◌∷◌}
use text.Mathlib.TextLemmas.{cons-append}
use notify_relay.Prelude.{
  ℕ, ◌≡◌, refl, ap, String, code, Bool, true, false, not, ◌&&◌, ◌||◌, Option-cases, inl, inr, none,
  some, ◌==◌, str_append, arith,
}
use notify_relay.Security.{after_prefix}
use notify_relay.RateLimit.{Settings, Incoming, starts_with, auth_path, by_client, derive}
use notify_relay.Api.{
  Endpoint, post_message, get_message, post_template, list_of_templates, list_of_keys, get_template,
  delete_template, get_versions, get_version, post_key, get_key, post_revoke,
}

abbrev api_v1 : String
api_v1 = "/api/v1/"

-- `id/`, and `id/action/`.
abbrev detail : String → String
detail id = str_append id "/"

abbrev action : String → String → String
action id name = str_append id (str_append "/" name)

module _ (spell : ℕ → String) where
  -- The viewset of an endpoint and what follows in its path.
  pub route : Endpoint → String × String
  route (post_message header r) = ("/api/v1/messages/", "")
  route (get_message k) = ("/api/v1/messages/", detail (spell k))
  route (post_template d) = ("/api/v1/templates/", "")
  route list_of_templates = ("/api/v1/templates/", "")
  route (get_template name) = ("/api/v1/templates/", detail name)
  route (delete_template name) = ("/api/v1/templates/", detail name)
  route (get_versions name) = ("/api/v1/templates/", action name "versions/")
  route (get_version name n) =
      ("/api/v1/templates/", action name (str_append "versions/" (detail (spell n))))
  route (post_key d) = ("/api/v1/api-keys/", "")
  route list_of_keys = ("/api/v1/api-keys/", "")
  route (get_key pk) = ("/api/v1/api-keys/", detail (spell pk))
  route (post_revoke pk) = ("/api/v1/api-keys/", action (spell pk) "revoke/")

  pub path_of : Endpoint → String
  path_of e = str_append (route e).0 (route e).1

-- Whether two texts differ within the shorter one.
differ : String → String → Bool
differ [] q = false
differ (c ∷ p) [] = false
differ (c ∷ p) (d ∷ q) = let rest = differ p q in not (code c == code d) || rest

after_prefix-differ : (p q s : String) → differ p q ≡ true → after_prefix p (str_append q s) ≡ none
unfolding after_prefix differ
after_prefix-differ [] q s h = cc
after_prefix-differ (c ∷ p) [] s h = cc
after_prefix-differ (c ∷ p) (d ∷ q) s h = rw cons-append (ground (arith, after_prefix-differ p q s))

after_prefix-longer :
    (p q s t : String)
    → after_prefix p q ≡ some t
    → after_prefix p (str_append q s) ≡ some (str_append t s)
unfolding after_prefix
after_prefix-longer [] q s t h = ground (arith, h)
after_prefix-longer (c ∷ p) [] s t h = cc
after_prefix-longer (c ∷ p) (d ∷ q) s t h =
    rw cons-append (ground (arith, after_prefix-longer p q s t))

-- The paths of the viewsets are under /api/v1/ and none of them is a path of `_AUTH_PATHS`.
abbrev fits : String → Bool
fits q = starts_with api_v1 q && differ "/api/v1/auth/" q && differ "/admin/login/" q

route-fits : (spell : ℕ → String) (e : Endpoint) → fits (route spell e).0 ≡ true
unfolding route differ after_prefix
route-fits spell (post_message header r) = refl
route-fits spell e = refl

fits-limited :
    (q s : String)
    → fits q ≡ true
    → (auth_path (str_append q s) ≡ false) × (starts_with api_v1 (str_append q s) ≡ true)
fits-limited q s h = elim (Option-cases (after_prefix api_v1 q)) [
  | inl out ↦ absurd (ground (arith, out))
  | inr (t, e) ↦ ground (
    arith,
    after_prefix-differ "/api/v1/auth/" q s (ground (arith, h)),
    after_prefix-differ "/admin/login/" q s (ground (arith, h)),
    after_prefix-longer api_v1 q s t e,
  )
]

-- Every endpoint of the API has a bucket: that of the request's key, else that of its address.
pub path_of-limited :
    (spell str : ℕ → String) (settings : Settings) (r : Incoming) (e : Endpoint)
    → r.path ≡ path_of spell e
    → derive str settings r ≡ some (by_client str settings r r.api_key)
unfolding derive path_of
path_of-limited spell str settings r e at =
    let (own, limited) = fits-limited (route spell e).0 (route spell e).1 (route-fits spell e) in
    ground (arith, ap auth_path at, ap (starts_with api_v1) at, own, limited)
