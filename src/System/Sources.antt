-- ===== src/System/Sources.antt =====
-- The templates behind the messages of a System.
use notify_relay.Prelude.{
  ℕ, ◌≡◌, refl, sym, subst, Bool, true, Option, none, some, List, [], ◌∷◌, arith, All, update_where,
}
use notify_relay.Models.{Message}
use notify_relay.State.{World}
use notify_relay.Templating.Sources.{has_source, Keeps}

-- A message's version is there, and the template of the version is one for the message's channel.
abbrev pub is_sourced : World → Message → Bool
is_sourced w m = elim m.template_version [
  | none ↦ true
  | some v ↦ has_source w.templates w.versions m.channel v
]

abbrev pub Sourced : World → List Message → Type 0
Sourced w l = All (λ m. is_sourced w m ≡ true) l

pub same-Keeps : (w v : World) → v.templates ≡ w.templates → v.versions ≡ w.versions → Keeps w v
same-Keeps w v ts vs = record { source = λ c k h. rw (ts, vs) h }

pub kept : (w v : World) → Keeps w v → (l : List Message) → Sourced w l → Sourced v l
kept w v keeps [] h = tt
kept w v keeps (m ∷ l) h = (kept_row m.template_version h.0, kept w v keeps l h.1)
  where
    kept_row :
        (o : Option ℕ)
        → elim o [ none ↦ true | some k ↦ has_source w.templates w.versions m.channel k ] ≡ true
        → elim o [ none ↦ true | some k ↦ has_source v.templates v.versions m.channel k ] ≡ true
    kept_row none e = refl
    kept_row (some k) e = keeps.source m.channel k e

rewritten :
    (w : World) (q : Message → Bool) (f : Message → Message)
    → ((m : Message) → is_sourced w (f m) ≡ is_sourced w m)
    → (l : List Message) → Sourced w l
    → Sourced w (update_where q f l)
rewritten w q f same [] h = tt
rewritten w q f same (m ∷ l) h = (ground (arith, same m, h.0), rewritten w q f same l h.1)

abbrev pub AllSourced : World → Type 0
AllSourced w = Sourced w w.messages

module _ (w v : World) (keeps : Keeps w v) where
  pub updated :
      (q : Message → Bool) (f : Message → Message)
      → ((m : Message) → is_sourced w (f m) ≡ is_sourced w m)
      → v.messages ≡ update_where q f w.messages
      → AllSourced w
      → AllSourced v
  updated q f same messages h =
      subst (Sourced v) (sym messages) (kept w v keeps _ (rewritten w q f same w.messages h))

  pub unchanged : v.messages ≡ w.messages → AllSourced w → AllSourced v
  unchanged messages h = subst (Sourced v) (sym messages) (kept w v keeps w.messages h)
