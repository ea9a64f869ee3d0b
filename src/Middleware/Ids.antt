-- ===== src/Middleware/Ids.antt =====
-- Request ids of src/apps/core/middleware.py: what is let in, and that they do not leak.
use Prim.Native.String.{count}
use notify_relay.Prelude.{
  ◌≤◌, ◌≡◌, String, Char, Bool, true, false, Option, none, some, str_eq, arith,
}
use notify_relay.Middleware.{
  all_chars, id_char, strip, coerce_incoming, max_id_length, Response, Context, with_request_id,
}

-- A request id that is taken from the client is the header without surrounding white space: 1 to 64
-- letters, digits, "-" or "_", so it can forge no line of the log.
pub coerce_incoming-IsSafe :
    (space alnum : Char → Bool) (value id : String)
    → coerce_incoming space alnum value ≡ some id
    → (id ≡ strip space value)
      × (str_eq id "" ≡ false)
      × (count id ≤ max_id_length)
      × (all_chars (id_char alnum) id ≡ true)
unfolding coerce_incoming
coerce_incoming-IsSafe space alnum value id h = ground arith

abbrev pub request_id_of : (Char → Bool) → (Char → Bool) → String → String → String
request_id_of space alnum ulid incoming = elim (coerce_incoming space alnum incoming) [
  | none ↦ ulid
  | some id ↦ id
]

abbrev answered : String → Option Response → Option Response
answered id none = none
answered id (some r) = some (record r { request_id = some id })

-- While the view runs the context has the id of its request; afterwards, also when the view raises,
-- it has what it had before, and the response, if there is one, carries the id.
pub with_request_id-restores :
    (space alnum : Char → Bool) (ulid incoming : String)
    (view : String → Context → Option Response × Context) (c : Context)
    → let id = request_id_of space alnum ulid incoming in
      let inner = view id (record c { request_id = some id }) in
      let outer = with_request_id space alnum ulid incoming view c in
      (outer.1.request_id ≡ c.request_id)
      × (outer.0 ≡ elim inner.0 [ none ↦ none | some r ↦ some (record r { request_id = some id }) ])
unfolding with_request_id
with_request_id-restores space alnum ulid incoming view c = ground arith
