-- ===== src/Renderer.antt =====
-- src/apps/templating/renderer.py. Jinja2 and the JSON parser are parameters: `jinja escaped source
-- context` is `from_string(source).render(context)` in the environment with that autoescape
-- setting, and `json_error body` is the error of `json.loads(body)`, if it raises ValueError.
mod Tests
use Prim.Native.String.{count}
use notify_relay.Prelude.{
  ℕ, ◌+◌, ◌*◌, ◌≤◌, ◌≡◌, String, Bool, false, ◌&&◌, Option, none, some, is_some, ltb, str_eq,
  if◌then◌else◌, arith,
}
use notify_relay.Models.{Channel, Dict, TemplateVersion, email, webhook, channel_eq}

pub record RenderedMessage : Type 0 where
  pub subject : String
  pub body : String

pub data Rendered (A : Type 0) : Type 0 where
  text : A → Rendered A
  render_error : String → Rendered A

abbrev pub max_rendered_chars : ℕ
max_rendered_chars = 256 * 1024

infixl 5 ◌>>=◌
abbrev ◌>>=◌ : {A B : Type 0} → Rendered A → (A → Rendered B) → Rendered B
text a >>= f = f a
render_error e >>= f = render_error e

module _ (jinja : Bool → String → Dict → Rendered String)
    (json_error : String → Option String) where
  -- `subject` stays empty without a subject template, and is never escaped.
  render_subject : TemplateVersion → Dict → Rendered String
  render_subject v context =
      if str_eq v.subject_template "" then text "" else jinja false v.subject_template context

  check_json : Channel → RenderedMessage → Option String → Rendered RenderedMessage
  check_json email r e = text r
  check_json webhook r none = text r
  check_json webhook r (some e) = render_error e

  finish : Channel → String → String → Rendered RenderedMessage
  unfolding check_json
  finish channel body subject =
      if ltb max_rendered_chars (count body + count subject)
      then render_error "rendered message exceeds 262144 characters"
      else check_json channel (record { subject = subject; body = body }) (json_error body)

  unfoldable pub render : TemplateVersion → Dict → Channel → Rendered RenderedMessage
  unfolding render_subject finish
  render v context channel = do
    body ← jinja (channel_eq channel email) v.body_template context
    subject ← render_subject v context
    finish channel body subject

  -- A rendered message fits the limit; its body is the template's, escaped exactly for email; its
  -- subject is empty or the subject template's, not escaped; and a webhook's body is valid JSON.
  pub render-IsSound :
      (v : TemplateVersion) (context : Dict) (channel : Channel) (r : RenderedMessage)
      → render v context channel ≡ text r
      → (count r.body + count r.subject ≤ max_rendered_chars)
        × (jinja (channel_eq channel email) v.body_template context ≡ text r.body)
        × ((if str_eq v.subject_template ""
              then text ""
              else jinja false v.subject_template context)
            ≡ text r.subject)
        × ((channel_eq channel webhook && is_some (json_error r.body)) ≡ false)
  unfolding render
  render-IsSound v context channel r h = ground arith
