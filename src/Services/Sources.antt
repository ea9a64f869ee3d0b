-- ===== src/Services/Sources.antt =====
-- What `_resolve_template` of src/apps/messages_api/services.py finds.
use notify_relay.Prelude.{
  ℕ, ◌≡◌, refl, sym, subst, ◌∙◌, String, Bool, true, ◌&&◌, Option, none, some, List, [], ◌∷◌, any,
  any-order_by, select, find_first, by_key, ◌==◌, ==_iff, ==_refl, Bool-cases, inl, inr, arith,
}
use notify_relay.Models.{Template, TemplateVersion, channel_eq}
use notify_relay.State.{World}
use notify_relay.Templating.{
  first, template_named, alive_named, versions_of, newer_first, ordered_versions, latest_version,
}
use notify_relay.Templating.Sources.{has_template, has_source, any_mono}
use notify_relay.Services.{
  ValidatedData, resolve_version, resolve_named, resolve_name, resolve_template,
}

find_first-any {ℓ} :
    {A : Type ℓ} (q p : A → Bool) (l : List A) (x : A)
    → find_first q l ≡ some x
    → p x ≡ true
    → any p l ≡ true
find_first-any q p [] x h e = absurd (ground (arith, h))
find_first-any q p (y ∷ l) x h e = elim (Bool-cases (q y)) [
  | inl here ↦
      let same : y ≡ x = ground (arith, h, here) in
      let passes : p y ≡ true = subst (λ z. p z ≡ true) (sym same) e in rw passes refl
  | inr other ↦ ground (arith, find_first-any q p l x (ground (arith, h, other)) e)
]

first-any {ℓ} :
    {A : Type ℓ} (p : A → Bool) (l : List A) (x : A)
    → first l ≡ some x
    → p x ≡ true
    → any p l ≡ true
first-any p [] x h e = absurd (ground (arith, h))
first-any p (y ∷ l) x h e =
    let same : y ≡ x = ground (arith, h) in
    let passes : p y ≡ true = subst (λ z. p z ≡ true) (sym same) e in rw passes refl

any-select-both {ℓ} :
    {A : Type ℓ} (p q : A → Bool) (l : List A) → any p (select q l) ≡ any (λ x. q x && p x) l
any-select-both p q [] = refl
any-select-both p q (x ∷ l) = ground (arith, any-select-both p q l)

-- The version is one of the template's.
resolve_version-any :
    (t : Template) (n : Option ℕ) (l : List TemplateVersion) (v : TemplateVersion)
    → resolve_version t n l ≡ some v
    → any (λ x. (x.id == v.id)) (versions_of t.id l) ≡ true
unfolding resolve_version latest_version
resolve_version-any t none l v h =
    sym (any-order_by newer_first (λ x. x.id == v.id) (versions_of t.id l))
    ∙ first-any (λ x. x.id == v.id) (ordered_versions t.id l) v h (==_refl v.id)
resolve_version-any t (some n) l v h = elim (Bool-cases (n == 0)) [
  | inl latest ↦
      sym (any-order_by newer_first (λ x. x.id == v.id) (versions_of t.id l))
      ∙ first-any (λ x. x.id == v.id) (ordered_versions t.id l) v (ground (arith, h, latest))
          (==_refl v.id)
  | inr numbered ↦
      find_first-any (λ x. x.version == n) (λ x. x.id == v.id) (versions_of t.id l) v
        (ground (arith, h, numbered)) (==_refl v.id)
]

resolve_named-source :
    (d : ValidatedData) (o : Option Template) (name : String) (w : World) (v : TemplateVersion)
    → template_named name w.templates ≡ o
    → resolve_named d o w.versions ≡ some v
    → has_source w.templates w.versions d.channel v.id ≡ true
unfolding resolve_named
resolve_named-source d none name w v e h = absurd (ground (arith, h))
resolve_named-source d (some t) name w v e h =
    let fits : channel_eq t.channel d.channel ≡ true = ground (arith, h) in
    let found : resolve_version t d.template_version w.versions ≡ some v = ground (arith, h) in
    let template : has_template w.templates d.channel t.id ≡ true =
      find_first-any (alive_named name) (λ x. (x.id == t.id) && channel_eq x.channel d.channel)
        w.templates t e (ground (arith, fits, ==_refl t.id)) in
    any_mono (λ x. (x.template == t.id) && (x.id == v.id))
      (λ x. (x.id == v.id) && has_template w.templates d.channel x.template) w.versions
      (λ x here.
        let same : t.id ≡ x.template = sym ((==_iff x.template t.id).0 (ground (arith, here))) in
        let other = subst (λ k. has_template w.templates d.channel k ≡ true) same template in
        ground (arith, here, other))
      (sym (any-select-both (λ x. x.id == v.id) (by_key (λ x. x.template) t.id) w.versions)
        ∙ resolve_version-any t d.template_version w.versions v found)

resolve_name-source :
    (d : ValidatedData) (o : Option String) (w : World) (v : TemplateVersion)
    → resolve_name d o w ≡ some v
    → has_source w.templates w.versions d.channel v.id ≡ true
unfolding resolve_name
resolve_name-source d none w v h = absurd (ground (arith, h))
resolve_name-source d (some name) w v h =
    resolve_named-source d (template_named name w.templates) name w v refl (ground (arith, h))

-- A version that is resolved is there, and its template is one for the channel.
pub resolve_template-source :
    (d : ValidatedData) (w : World) (v : TemplateVersion)
    → resolve_template d w ≡ some v
    → has_source w.templates w.versions d.channel v.id ≡ true
unfolding resolve_template
resolve_template-source d w v h = resolve_name-source d d.template w v h
