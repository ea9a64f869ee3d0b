-- ===== src/Templating/Sources.antt =====
-- The version and the template behind a message: the foreign keys of
-- src/apps/messages_api/models.py and src/apps/templating/models.py, whose rows nothing deletes.
use notify_relay.Prelude.{
  ℕ, String, ◌≡◌, refl, Bool, true, ◌&&◌, Option, none, some, List, [], ◌∷◌, ◌++◌, any,
  update_where, by_key, ◌==◌, Bool-cases, inl, inr, arith,
}
use notify_relay.Models.{Channel, Template, TemplateVersion, channel_eq}
use notify_relay.State.{World}
use notify_relay.Templating.{
  NewIds, TemplateData, valid_template, template_named, new_template, add_version, create,
  soft_delete, deleted_row, destroy,
}

-- There is a template of this primary key for the channel.
abbrev pub has_template : List Template → Channel → ℕ → Bool
has_template ts c k = any (λ t. (t.id == k) && channel_eq t.channel c) ts

-- There is a version of this primary key, of a template for the channel.
abbrev pub has_source : List Template → List TemplateVersion → Channel → ℕ → Bool
has_source ts vs c k = any (λ v. (v.id == k) && has_template ts c v.template) vs

-- The versions and templates of a database are still there later: DELETE leaves the rows of a
-- template.
pub record Keeps (w v : World) : Type 0 where
  pub source :
      (c : Channel) (k : ℕ)
      → has_source w.templates w.versions c k ≡ true
      → has_source v.templates v.versions c k ≡ true

pub any_mono {ℓ} :
    {A : Type ℓ} (p q : A → Bool) (l : List A)
    → ((x : A) → p x ≡ true → q x ≡ true)
    → any p l ≡ true
    → any q l ≡ true
any_mono p q [] h a = a
any_mono p q (x ∷ l) h a = elim (Bool-cases (p x)) [
  | inl here ↦ rw (h x here) refl
  | inr other ↦ ground (arith, any_mono p q l h (ground (arith, a, other)))
]

pub any-more {ℓ} :
    {A : Type ℓ} (p : A → Bool) (l r : List A) → any p l ≡ true → any p (l ++ r) ≡ true
any-more p [] r a = absurd (ground (arith, a))
any-more p (x ∷ l) r a = ground (arith, any-more p l r)

pub any-rewritten {ℓ} :
    {A : Type ℓ} (p q : A → Bool) (f : A → A) (l : List A)
    → ((x : A) → p (f x) ≡ p x)
    → any p (update_where q f l) ≡ any p l
any-rewritten p q f [] keep = refl
any-rewritten p q f (x ∷ l) keep = ground (arith, keep x, any-rewritten p q f l keep)

-- More templates and versions keep what there is,
pub has_source-more :
    (ts more_ts : List Template) (vs more_vs : List TemplateVersion) (c : Channel) (k : ℕ)
    → has_source ts vs c k ≡ true
    → has_source (ts ++ more_ts) (vs ++ more_vs) c k ≡ true
has_source-more ts more_ts vs more_vs c k h = any-more _ vs more_vs (
    any_mono (λ v. (v.id == k) && has_template ts c v.template)
      (λ v. (v.id == k) && has_template (ts ++ more_ts) c v.template) vs
      (λ v here.
        ground
          (arith, here, any-more (λ t. (t.id == v.template) && channel_eq t.channel c) ts more_ts))
      h)

-- and so does an UPDATE of templates that leaves their keys and channels.
pub has_source-update :
    (ts : List Template) (q : Template → Bool) (f : Template → Template) (vs : List TemplateVersion)
    (c : Channel) (k : ℕ)
    → ((t : Template) → (f t).id ≡ t.id)
    → ((t : Template) → (f t).channel ≡ t.channel)
    → has_source ts vs c k ≡ true
    → has_source (update_where q f ts) vs c k ≡ true
has_source-update ts q f vs c k ids channels h =
    any_mono (λ v. (v.id == k) && has_template ts c v.template)
      (λ v. (v.id == k) && has_template (update_where q f ts) c v.template) vs
      (λ v here. ground (
        arith,
        here,
        any-rewritten (λ t. (t.id == v.template) && channel_eq t.channel c) q f ts
            (λ t. rw (ids t, channels t) refl),
      ))
      h

module _ (ids : NewIds) (user : Option ℕ) (now : ℕ) (d : TemplateData) (w : World) (c : Channel)
    (k : ℕ) (here : has_source w.templates w.versions c k ≡ true) where
  abbrev Still : World → Type 0
  Still v = has_source v.templates v.versions c k ≡ true

  add_version-source : (o : Option Template) → Still (add_version ids user now d o w).1
  unfolding add_version
  add_version-source none =
      has_source-more w.templates (new_template ids now d ∷ []) w.versions _ c k here
  add_version-source (some t) = elim (Bool-cases (channel_eq t.channel d.channel)) [
    | inr other ↦ rw other here
    | inl same ↦
        rw same
          (any-more (λ v. (v.id == k) && has_template w.templates c v.template) w.versions _ here)
  ]

  -- Neither a POST of a template takes a version or its template away,
  pub create-source : Still (create ids user now d w).1
  unfolding create
  create-source = elim (Bool-cases (valid_template d)) [
    | inl good ↦ rw good (add_version-source (template_named d.name w.templates))
    | inr bad ↦ rw bad here
  ]

module _ (now : ℕ) (w : World) (c : Channel) (k : ℕ)
    (here : has_source w.templates w.versions c k ≡ true) where
  abbrev Remains : World → Type 0
  Remains v = has_source v.templates v.versions c k ≡ true

  soft_delete-source : (o : Option Template) → Remains (soft_delete now o w).1
  unfolding soft_delete deleted_row
  soft_delete-source none = here
  soft_delete-source (some t) =
      has_source-update w.templates (by_key (λ x. x.id) t.id) (deleted_row now) w.versions c k
        (λ x. refl) (λ x. refl) here

  -- nor does a DELETE.
  pub destroy-source : (name : String) → Remains (destroy now name w).1
  unfolding destroy
  destroy-source name = soft_delete-source (template_named name w.templates)
