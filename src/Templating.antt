-- ===== src/Templating.antt =====
-- Templates and their versions: the queries of src/apps/templating/models.py and the views of
-- src/apps/templating/views.py. Rows stand in the order of their primary keys. The view's caller
-- is staff (`IsAdminUser`) and has the id `user`; `valid` data are those that the serializer
-- `TemplateUpsertSerializer` lets through.
pub mod Numbers
pub mod Read
pub mod Sources
mod Tests
use Prim.Native.String.{count}
use notify_relay.Prelude.{
  ℕ, ◌+◌, ◌*◌, String, Bool, true, false, not, ◌&&◌, ◌||◌, Option, none, some, List, [], ◌∷◌, ◌++◌,
  leb, ltb, ◌==◌, map, str_eq, if◌then◌else◌, find_first, update_where, by_key, select, order_by,
}
use notify_relay.Models.{Channel, Template, TemplateVersion, alive, channel_eq}
use notify_relay.State.{World}

abbrev pub first {ℓ} : {A : Type ℓ} → List A → Option A
first [] = none
first (x ∷ xs) = some x

-- `Template.objects.alive().filter(name=name).first()`.
abbrev pub alive_named : String → Template → Bool
alive_named name t = alive t && str_eq t.name name

abbrev pub template_named : String → List Template → Option Template
template_named name l = find_first (alive_named name) l

-- `template.versions`, and `.order_by("-version")` on it.
abbrev pub versions_of : ℕ → List TemplateVersion → List TemplateVersion
versions_of t = select (by_key (λ v. v.template) t)

abbrev pub newer_first : TemplateVersion → TemplateVersion → Bool
newer_first a b = leb b.version a.version

abbrev pub ordered_versions : ℕ → List TemplateVersion → List TemplateVersion
ordered_versions t l = order_by newer_first (versions_of t l)

-- `Template.latest_version`.
unfoldable pub latest_version : ℕ → List TemplateVersion → Option TemplateVersion
latest_version t l = first (ordered_versions t l)

-- `versions.get(version=n)`.
abbrev pub version_numbered : ℕ → ℕ → List TemplateVersion → Option TemplateVersion
version_numbered t n l = find_first (λ v. v.version == n) (versions_of t l)

-- `TemplateUpsertSerializer`: the fields that it checks beyond their types.
pub record TemplateData : Type 0 where
  pub name : String
  pub channel : Channel
  pub subject_template : String
  pub body_template : String

abbrev pub within : ℕ → String → Bool
within n s = leb (count s) n

pub valid_template : TemplateData → Bool
valid_template d =
    not (str_eq d.name "")
    && within 128 d.name
    && within 998 d.subject_template
    && not (str_eq d.body_template "")
    && within (64 * 1024) d.body_template

pub data Response : Type 0 where
  bad_request conflict not_found no_content : Response
  created : Template → TemplateVersion → Response
  one : Template → Option TemplateVersion → Response
  listed_versions : List TemplateVersion → Response
  one_version : TemplateVersion → Response

-- The primary keys that the database gives to new rows.
pub record NewIds : Type 0 where
  pub template : ℕ
  pub version : ℕ

abbrev pub new_template : NewIds → ℕ → TemplateData → Template
new_template ids now d = record {
  id = ids.template;
  name = d.name;
  channel = d.channel;
  is_active = true;
  created_at = now;
  deleted_at = none;
}

abbrev pub new_version : NewIds → Option ℕ → ℕ → ℕ → ℕ → TemplateData → TemplateVersion
new_version ids user now t n d = record {
  id = ids.version;
  template = t;
  version = n;
  subject_template = d.subject_template;
  body_template = d.body_template;
  created_at = now;
  created_by = user;
}

-- `(latest.version if latest else 0) + 1`.
abbrev pub next_number : Option TemplateVersion → ℕ
next_number none = 1
next_number (some v) = v.version + 1

add_version : NewIds → Option ℕ → ℕ → TemplateData → Option Template → World → Response × World
add_version ids user now d none w =
    let t = new_template ids now d in
    let v = new_version ids user now t.id 1 d in
    (created t v, record w { templates = w.templates ++ t ∷ []; versions = w.versions ++ v ∷ [] })
add_version ids user now d (some t) w =
    let v = new_version ids user now t.id (next_number (latest_version t.id w.versions)) d in
    if not (channel_eq t.channel d.channel)
    then (conflict, w)
    else (created t v, record w { versions = w.versions ++ v ∷ [] })

-- `TemplateViewSet.create`.
unfoldable pub create : NewIds → Option ℕ → ℕ → TemplateData → World → Response × World
unfolding add_version valid_template
create ids user now d w =
    if valid_template d
    then add_version ids user now d (template_named d.name w.templates) w
    else (bad_request, w)

deleted_row : ℕ → Template → Template
deleted_row now t = record t { deleted_at = some now }

soft_delete : ℕ → Option Template → World → Response × World
unfolding deleted_row
soft_delete now none w = (not_found, w)
soft_delete now (some t) w = (
  no_content,
  record w { templates = update_where (by_key (λ x. x.id) t.id) (deleted_row now) w.templates },
)

-- `TemplateViewSet.destroy`.
unfoldable pub destroy : ℕ → String → World → Response × World
unfolding soft_delete
destroy now name w = soft_delete now (template_named name w.templates) w

-- `TemplateViewSet.retrieve`, `.versions` and `.version_detail`.
on_template : (Template → Response) → Option Template → Response
on_template f none = not_found
on_template f (some t) = f t

abbrev version_response : Option TemplateVersion → Response
version_response none = not_found
version_response (some v) = one_version v

unfoldable pub retrieve : String → World → Response
unfolding on_template
retrieve name w =
    on_template (λ t. one t (latest_version t.id w.versions)) (template_named name w.templates)

unfoldable pub versions : String → World → Response
unfolding on_template
versions name w =
    on_template (λ t. listed_versions (ordered_versions t.id w.versions))
      (template_named name w.templates)

unfoldable pub version_detail : String → ℕ → World → Response
unfolding on_template
version_detail name n w =
    on_template (λ t. version_response (version_numbered t.id n w.versions))
      (template_named name w.templates)
