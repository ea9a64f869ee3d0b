-- ===== src/Metrics/Depth.antt =====
-- The queue depths that src/apps/core/metrics.py reports.
use notify_relay.Prelude.{
  ℕ, ◌+◌, ◌≡◌, refl, sym, ap, ◌∙◌, subst, Bool, true, false, ◌&&◌, Option, none, some, List, [],
  ◌∷◌, length, select, if◌then◌else◌, arith, All, Bool-cases, inl, inr,
}
use notify_relay.Models.{Message, Channel, email, webhook, channel_eq, channel_eq_iff, is_queued}
use notify_relay.State.{World}
use notify_relay.Metrics.{
  Counts, count_in, group_queued, no_depth, set_depth, update_depth, collect,
}

abbrev pub depth_of : Channel → Counts → Option ℕ
depth_of c [] = none
depth_of c (row ∷ rows) =
    let rest = depth_of c rows in if channel_eq c row.0 then some row.1 else rest

abbrev or_else : Option ℕ → Option ℕ → Option ℕ
or_else none d = d
or_else (some n) d = some n

abbrev or_0 : Option ℕ → ℕ
or_0 none = 0
or_0 (some n) = n

abbrev Absent : Channel → Counts → Type 0
Absent c rows = All (λ (row : Channel × ℕ). channel_eq c row.0 ≡ false) rows

Unique : Counts → Type 0
Unique [] = Unit
Unique (row ∷ rows) = Absent row.0 rows × Unique rows

channel_eq_trans : (c k d : Channel) → channel_eq c k ≡ true → channel_eq c d ≡ channel_eq k d
channel_eq_trans c k d h = ground arith

channel_eq_sym : (c d : Channel) → channel_eq c d ≡ channel_eq d c
channel_eq_sym c d = ground arith

channel_eq_right : (c k d : Channel) → channel_eq k d ≡ true → channel_eq c k ≡ channel_eq c d
channel_eq_right c k d h = ground arith

depth_of-set :
    (c : Channel) (row : Channel × ℕ) (d : Counts)
    → depth_of c (set_depth row d) ≡ (if channel_eq c row.0 then some row.1 else depth_of c d)
unfolding set_depth
depth_of-set c row [] = refl
depth_of-set c row (r ∷ d) =
    let rest = depth_of-set c row d in
    let left = channel_eq_trans c row.0 r.0 in
    let right = channel_eq_right c row.0 r.0 in ground (arith, rest, left, right)

depth_of-Absent : (c : Channel) (rows : Counts) → Absent c rows → depth_of c rows ≡ none
depth_of-Absent c [] h = refl
depth_of-Absent c (r ∷ rows) h = ground (arith, h.0, depth_of-Absent c rows h.1)

depth_of-update :
    (c : Channel) (d rows : Counts)
    → Unique rows
    → depth_of c (update_depth d rows) ≡ or_else (depth_of c rows) (depth_of c d)
unfolding update_depth Unique
depth_of-update c d [] u = refl
depth_of-update c d (r ∷ rows) u =
    let rest = depth_of-update c (set_depth r d) rows u.1 in
    let set = depth_of-set c r d in
    elim (Bool-cases (channel_eq c r.0)) [
      | inl same ↦
          let absent =
            depth_of-Absent c rows
              (subst (λ k. Absent k rows) (sym ((channel_eq_iff c r.0).0 same)) u.0) in
          ground (arith, same, absent)
      | inr other ↦ ground (arith, other)
    ]

Absent-count_in :
    (c k : Channel) (rows : Counts)
    → channel_eq c k ≡ false
    → Absent c rows
    → Absent c (count_in k rows)
unfolding count_in
Absent-count_in c k [] n h = (n, tt)
Absent-count_in c k (r ∷ rows) n h = ground (arith, Absent-count_in c k rows n h.1)

count_in-Unique : (k : Channel) (rows : Counts) → Unique rows → Unique (count_in k rows)
unfolding count_in Unique
count_in-Unique k [] u = (tt, tt)
count_in-Unique k (r ∷ rows) u = elim (Bool-cases (channel_eq k r.0)) [
  | inl same ↦ rw same u
  | inr other ↦
      rw other
        (Absent-count_in r.0 k rows (channel_eq_sym r.0 k ∙ other) u.0, count_in-Unique k rows u.1)
]

depth_of-count_in :
    (c k : Channel) (rows : Counts)
    → or_0 (depth_of c (count_in k rows))
      ≡ (if channel_eq c k then 1 else 0) + or_0 (depth_of c rows)
unfolding count_in
depth_of-count_in c k [] = ground arith
depth_of-count_in c k (r ∷ rows) =
    let rest = depth_of-count_in c k rows in
    let left = channel_eq_trans c k r.0 in
    let right = channel_eq_right c k r.0 in ground (arith, rest, left, right)

group_queued-Unique : (messages : List Message) → Unique (group_queued messages)
unfolding group_queued Unique
group_queued-Unique [] = tt
group_queued-Unique (m ∷ messages) = elim (Bool-cases (is_queued m.status)) [
  | inl waits ↦ rw waits (count_in-Unique m.channel _ (group_queued-Unique messages))
  | inr other ↦ rw other (group_queued-Unique messages)
]

abbrev pub waits_in : Channel → Message → Bool
waits_in c m = is_queued m.status && channel_eq c m.channel

depth_of-group :
    (c : Channel) (messages : List Message)
    → or_0 (depth_of c (group_queued messages)) ≡ length (select (waits_in c) messages)
unfolding group_queued
depth_of-group c [] = refl
depth_of-group c (m ∷ messages) =
    ground (arith, depth_of-group c messages, depth_of-count_in c m.channel (group_queued messages))

-- A channel that the query has no row for has the depth 0.
or_else_0 :
    (found : Option ℕ) (c : Channel) → or_else found (depth_of c no_depth) ≡ some (or_0 found)
or_else_0 none email = refl
or_else_0 none webhook = refl
or_else_0 (some n) c = refl

-- The depth reported for a channel, also where it is 0, is the number of its queued messages, and
-- the other gauge is the number of dead letters.
pub collect-counts :
    (w : World) (c : Channel)
    → (depth_of c (collect w).queue_depth ≡ some (length (select (waits_in c) w.messages)))
      × ((collect w).dlq_size ≡ length w.dead_letters)
collect-counts w c =
    let rows = group_queued w.messages in
    let updated = depth_of-update c no_depth rows (group_queued-Unique w.messages) in
    let counted = depth_of-group c w.messages in
    (updated ∙ or_else_0 (depth_of c rows) c ∙ ap some counted, refl)
