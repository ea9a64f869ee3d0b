-- ===== src/Templating/Numbers.antt =====
-- Version numbers of src/apps/templating/views.py: each template's versions are 1, 2, 3, ...
use mathlib.Core.List.{append-nil}
use notify_relay.Prelude.{
  ℕ, ◌+◌, ◌<◌, ◌≡◌, refl, ◌∙◌, ap, true, Option, none, some, List, [], ◌∷◌, ◌++◌, arith, length,
  select-append, ◌==◌, ==_refl, ==_iff, order_by, insert_by, if◌then◌else◌, Bool-cases, inl, inr,
}
use notify_relay.Models.{Template, TemplateVersion, channel_eq}
use notify_relay.State.{World}
use notify_relay.Templating.{
  versions_of, newer_first, latest_version, next_number, first, create, add_version, TemplateData,
  NewIds, created, new_version, template_named, valid_template, retrieve, one,
}

abbrev pub Numbered : ℕ → List TemplateVersion → Type 0
Numbered n [] = Unit
Numbered n (v ∷ l) = (v.version ≡ n + 1) × Numbered (n + 1) l

-- The first row in the order "-version" has the highest number.
first-Numbered :
    (n : ℕ) (x : TemplateVersion) (l : List TemplateVersion)
    → Numbered n (x ∷ l)
    → (v : TemplateVersion) × (r : List TemplateVersion) × (order_by newer_first (x ∷ l) ≡ v ∷ r)
      × (v.version ≡ n + length (x ∷ l))
unfolding order_by
first-Numbered n x [] h = (x, [], refl, omega (arith, h.0))
first-Numbered n x (y ∷ l) h =
    let (v, r, e, at) = first-Numbered (n + 1) y l h.1 in
    (v, insert_by newer_first x r, rw e (ground (arith, at, h.0)), omega (arith, at))

next_number-latest :
    (t : ℕ) (l : List TemplateVersion)
    → Numbered 0 (versions_of t l)
    → next_number (latest_version t l) ≡ length (versions_of t l) + 1
unfolding latest_version order_by
next_number-latest t l h = at (versions_of t l) h
  where
    at :
        (vs : List TemplateVersion)
        → Numbered 0 vs
        → next_number (first (order_by newer_first vs)) ≡ length vs + 1
    at [] g = refl
    at (x ∷ vs) g = let (v, r, e, n) = first-Numbered 0 x vs g in rw e (omega (arith, n))

Numbered-append :
    (n : ℕ) (l : List TemplateVersion) (v : TemplateVersion)
    → Numbered n l
    → v.version ≡ n + length l + 1
    → Numbered n (l ++ v ∷ [])
Numbered-append n [] v h e = (omega arith, tt)
Numbered-append n (x ∷ l) v h e = (h.0, Numbered-append (n + 1) l v h.1 (omega arith))

versions_of-append :
    (t : ℕ) (l : List TemplateVersion) (v : TemplateVersion)
    → versions_of t (l ++ v ∷ [])
      ≡ (if v.template == t then versions_of t l ++ v ∷ [] else versions_of t l ++ [])
versions_of-append t l v = select-append (λ x. x.template == t) l (v ∷ []) ∙ ground arith

-- The last of a numbered list comes first in the order "-version".
last-first :
    (n : ℕ) (l : List TemplateVersion) (v : TemplateVersion)
    → Numbered n (l ++ v ∷ [])
    → (r : List TemplateVersion) × (order_by newer_first (l ++ v ∷ []) ≡ v ∷ r) × (n < v.version)
unfolding order_by
last-first n [] v h = ([], refl, omega (arith, h.0))
last-first n (x ∷ l) v h =
    let (r, e, later) = last-first (n + 1) l v h.1 in
    (insert_by newer_first x r, rw e (ground (arith, later, h.0)), omega (arith, later))

-- Every template's versions are numbered 1, 2, 3, ... in the order of their creation.
pub record IsNumbered (w : World) : Type 0 where
  pub at : (t : ℕ) → Numbered 0 (versions_of t w.versions)

channel_same :
    (t : Template) (d : TemplateData)
    → t.channel ≡ d.channel
    → channel_eq t.channel d.channel ≡ true
channel_same t d e = ground arith

module _ (ids : NewIds) (user : Option ℕ) (now : ℕ) (d : TemplateData) (w : World) where
  added-Numbered :
      (t : ℕ) (v : TemplateVersion) (k : ℕ)
      → v.template ≡ t
      → v.version ≡ length (versions_of t w.versions) + 1
      → ((j : ℕ) → Numbered 0 (versions_of j w.versions))
      → Numbered 0 (versions_of k (w.versions ++ v ∷ []))
  added-Numbered t v k own next h = elim (Bool-cases (v.template == k)) [
    | inl same ↦
        let at : t ≡ k = ground (arith, (==_iff v.template k).0 same) in
        rw (versions_of-append k w.versions v, same)
          (Numbered-append 0 (versions_of k w.versions) v (h k)
            (ground (arith, next, ap (λ j. length (versions_of j w.versions)) at)))
    | inr other ↦ rw (versions_of-append k w.versions v, other, append-nil) (h k)
  ]

  add_version-IsNumbered :
      (o : Option Template) (k : ℕ)
      → ((j : ℕ) → Numbered 0 (versions_of j w.versions))
      → versions_of ids.template w.versions ≡ []
      → Numbered 0 (versions_of k (add_version ids user now d o w).1.versions)
  unfolding add_version
  add_version-IsNumbered none k h fresh =
      added-Numbered ids.template (new_version ids user now ids.template 1 d) k refl
        (omega (arith, ap length fresh)) h
  add_version-IsNumbered (some t) k h fresh =
      let n = next_number (latest_version t.id w.versions) in
      elim (Bool-cases (channel_eq t.channel d.channel)) [
        | inl same ↦ rw same (
            added-Numbered t.id (new_version ids user now t.id n d) k refl
              (next_number-latest t.id w.versions (h t.id)) h)
        | inr other ↦ rw other (h k)
      ]

  -- Whatever `create` answers, every template's versions stay numbered without gaps, if the
  -- database gives a new template a key that no version refers to.
  pub create-IsNumbered :
      IsNumbered w
      → versions_of ids.template w.versions ≡ []
      → IsNumbered (create ids user now d w).1
  unfolding create
  create-IsNumbered h fresh = record {
    at = λ k. elim (Bool-cases (valid_template d)) [
      | inl good ↦
          rw (good, create)
            (add_version-IsNumbered (template_named d.name w.templates) k h.at fresh)
      | inr bad ↦ rw (bad, create) (h.at k)
    ];
  }

  -- A template that is posted again for its channel gets the next version, which is from then on
  -- its latest one: number n + 1 after n versions. The versions of other templates stay as they are.
  pub create-next :
      (t : Template) (j : ℕ)
      → IsNumbered w
      → valid_template d ≡ true
      → template_named d.name w.templates ≡ some t
      → t.channel ≡ d.channel
      → let n = length (versions_of t.id w.versions) in
        let v = new_version ids user now t.id (n + 1) d in
        let run = create ids user now d w in
        (run.0 ≡ created t v)
        × (retrieve d.name run.1 ≡ one t (some v))
        × (run.1.templates ≡ w.templates)
        × (versions_of j run.1.versions
            ≡ (if t.id == j then versions_of j w.versions ++ v ∷ [] else versions_of j w.versions))
  unfolding create add_version retrieve latest_version
  create-next t j h good found channel =
      let n = length (versions_of t.id w.versions) in
      let v = new_version ids user now t.id (n + 1) d in
      let last =
        last-first 0 (versions_of t.id w.versions) v
          (Numbered-append 0 (versions_of t.id w.versions) v (h.at t.id) (omega arith)) in
      rw (good, found, channel_same t d channel, next_number-latest t.id w.versions (h.at t.id))
        (
          refl,
          rw (found, versions_of-append t.id w.versions v, ==_refl t.id, last.1) refl,
          refl,
          ground (arith, versions_of-append j w.versions v, append-nil (versions_of j w.versions)),
        )
