-- ===== src/Templating/Read.antt =====
-- `TemplateViewSet.list` of src/apps/templating/views.py, and what `TemplateReadSerializer` of
-- src/apps/templating/serializers.py shows of a template.
use notify_relay.Prelude.{
  ℕ, ◌≡◌, refl, ◌∙◌, String, Bool, ◌&&◌, Option, none, some, List, [], ◌∷◌, map, select, any,
  order_by, any-order_by, ◌==◌, arith,
}
use notify_relay.Models.{Template, TemplateVersion, Channel, alive}
use notify_relay.State.{World}
use notify_relay.Templating.{latest_version}

pub record VersionRead : Type 0 where
  pub id : ℕ
  pub version : ℕ
  pub subject_template : String
  pub body_template : String
  pub created_at : ℕ

abbrev pub version_read : TemplateVersion → VersionRead
version_read v = record {
  id = v.id;
  version = v.version;
  subject_template = v.subject_template;
  body_template = v.body_template;
  created_at = v.created_at;
}

pub record TemplateRead : Type 0 where
  pub id : ℕ
  pub name : String
  pub channel : Channel
  pub is_active : Bool
  pub created_at : ℕ
  pub latest_version : Option VersionRead

-- `get_latest_version`.
abbrev pub get_latest_version : Option TemplateVersion → Option VersionRead
get_latest_version none = none
get_latest_version (some v) = some (version_read v)

abbrev pub template_read : World → Template → TemplateRead
template_read w t = record {
  id = t.id;
  name = t.name;
  channel = t.channel;
  is_active = t.is_active;
  created_at = t.created_at;
  latest_version = get_latest_version (latest_version t.id w.versions);
}

-- `list`; `before` is the collation of the names.
unfoldable pub list_templates : (String → String → Bool) → World → List TemplateRead
list_templates before w =
    map (template_read w) (order_by (λ a b. before a.name b.name) (select alive w.templates))

any-read :
    (w : World) (k : ℕ) (l : List Template)
    → any (λ (r : TemplateRead). r.id == k) (map (template_read w) l)
      ≡ any (λ (t : Template). t.id == k) l
any-read w k [] = refl
any-read w k (t ∷ l) = ground (arith, any-read w k l)

any-alive :
    (k : ℕ) (l : List Template)
    → any (λ (t : Template). t.id == k) (select alive l)
      ≡ any (λ (t : Template). alive t && (t.id == k)) l
any-alive k [] = refl
any-alive k (t ∷ l) = ground (arith, any-alive k l)

-- A template is listed exactly if it is not deleted.
pub list_templates-alive :
    (before : String → String → Bool) (w : World) (k : ℕ)
    → any (λ (r : TemplateRead). r.id == k) (list_templates before w)
      ≡ any (λ (t : Template). alive t && (t.id == k)) w.templates
unfolding list_templates
list_templates-alive before w k =
    any-read w k (order_by (λ a b. before a.name b.name) (select alive w.templates))
    ∙ any-order_by (λ a b. before a.name b.name) (λ t. t.id == k) (select alive w.templates)
    ∙ any-alive k w.templates
