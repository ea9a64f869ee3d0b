-- ===== src/Scheduler/Cleanup.antt =====
-- `cleanup_old_messages` of src/tasks/scheduler.py: the rounds end, and what they leave.
use notify_relay.Prelude.{
  ℕ, zero, suc, ◌+◌, ◌≤◌, ◌<◌, ◌≡◌, refl, ◌∙◌, sym, ap, Bool, true, false, not, ◌&&◌, ◌||◌, List,
  [], ◌∷◌, map, some, none, arith, select, take, length, length-take, length-order_by, length-map,
  length-select, length-select-not, order_by, if◌then◌else◌, any, any-take, any-order_by, take_all,
  ◌==◌, has_key, has_key-select, any_of_has_key, has_key-delete, find_first-delete, select-delete,
  inl, inr, Bool-cases, Option, min, ltb, ==_refl,
}
use notify_relay.Models.{Message, DeadLetter}
use notify_relay.State.{World}
use notify_relay.Delivery.{message_of, attempts_of}
use notify_relay.Scheduler.{
  expired, newest_first, cleanup_ids, id_in, delete_messages, row_count, deleted, cleanup_loop,
  cleanup_old_messages, cleanup_batch_size,
}

-- Some message with key `k` is finished and older than the retention window.
abbrev pub is_expired : ℕ → ℕ → World → Bool
is_expired now k w = has_key (λ m. m.id) k (select (expired now) w.messages)

abbrev pub dead_letters_of : ℕ → List DeadLetter → List DeadLetter
dead_letters_of k = select (λ d. d.message == k)

any-pos {ℓ} : {A : Type ℓ} (p : A → Bool) (l : List A) → any p l ≡ true → 1 ≤ length (select p l)
any-pos p [] h = cc
any-pos p (x ∷ l) h = ground (arith, any-pos p l)

any-map : (k : ℕ) (l : List Message) → id_in (map (λ m. m.id) l) k ≡ has_key (λ m. m.id) k l
any-map k [] = refl
any-map k (m ∷ l) = ap (λ b. (m.id == k) || b) (any-map k l)

module _ (now : ℕ) (l : List Message) where
  abbrev old : List Message
  old = select (expired now) l

  length-cleanup_ids : length (cleanup_ids now l) ≡ min cleanup_batch_size (length old)
  unfolding cleanup_ids
  length-cleanup_ids =
      length-map (take cleanup_batch_size (order_by newest_first old)) (λ m. m.id)
      ∙ length-take cleanup_batch_size (order_by newest_first old)
      ∙ ap (min cleanup_batch_size) (length-order_by newest_first old)

  -- A round names expired messages only,
  pub ids-expired : (k : ℕ) → id_in (cleanup_ids now l) k ≡ true → has_key (λ m. m.id) k old ≡ true
  unfolding cleanup_ids
  ids-expired k h =
      sym (any-order_by newest_first (λ m. m.id == k) old)
      ∙ any-take (λ m. m.id == k) cleanup_batch_size (order_by newest_first old)
          (sym (any-map k (take cleanup_batch_size (order_by newest_first old))) ∙ h)

  -- and a short round names all of them.
  ids_all :
      (k : ℕ)
      → length (cleanup_ids now l) < cleanup_batch_size
      → id_in (cleanup_ids now l) k ≡ has_key (λ m. m.id) k old
  unfolding cleanup_ids
  ids_all k short =
      any-map k (take cleanup_batch_size (order_by newest_first old))
      ∙ ap (has_key (λ m. m.id) k) (
          take_all cleanup_batch_size (order_by newest_first old)
            (omega (arith, short, length-cleanup_ids, length-order_by newest_first old)))
      ∙ any-order_by newest_first (λ m. m.id == k) old

  -- A round that names a message deletes a message.
  round_shrinks :
      0 < length (cleanup_ids now l)
      → length (select (λ m. not (id_in (cleanup_ids now l) m.id)) l) < length l
  round_shrinks h = grind (
    arith,
    length-select-not (λ m. id_in (cleanup_ids now l) m.id) l,
    any-pos (λ m. id_in (cleanup_ids now l) m.id) l
        (first_named (cleanup_ids now l) h
          (λ k e. has_key-select (λ m. m.id) k (expired now) l (ids-expired k e))),
  )
    where
      first_named :
          (ids : List ℕ)
          → 0 < length ids
          → ((k : ℕ) → id_in ids k ≡ true → has_key (λ m. m.id) k l ≡ true)
          → any (λ m. id_in ids m.id) l ≡ true
      first_named [] z there = absurd (omega arith)
      first_named (i ∷ ids) z there =
          let here : id_in (i ∷ ids) i ≡ true = ground (arith, ==_refl i) in
          any_of_has_key (λ m. m.id) i (id_in (i ∷ ids)) l (there i here) here

-- What the clean-up leaves, from a world `w` with `total` rows deleted before.
pub record Swept (now total : ℕ) (w : World) (result : Option (ℕ × World)) : Type 0 where
  pub count : ℕ
  pub after : World
  pub ends : result ≡ some (count, after)
  pub counted : count + row_count after ≡ total + row_count w
  pub messages :
      (k : ℕ) → message_of k after ≡ (if is_expired now k w then none else message_of k w)
  pub attempts :
      (k : ℕ)
      → attempts_of k after.attempts ≡ (if is_expired now k w then [] else attempts_of k w.attempts)
  pub dead_letters :
      (k : ℕ)
      → dead_letters_of k after.dead_letters
        ≡ (if is_expired now k w then [] else dead_letters_of k w.dead_letters)

module _ (now : ℕ) (w : World) where
  abbrev ids : List ℕ
  ids = cleanup_ids now w.messages

  abbrev next : World
  next = delete_messages ids w

  next-message : (k : ℕ) → message_of k next ≡ (if id_in ids k then none else message_of k w)
  unfolding delete_messages
  next-message k = find_first-delete (λ m. m.id) k (id_in ids) w.messages

  next-attempts :
      (k : ℕ) → attempts_of k next.attempts ≡ (if id_in ids k then [] else attempts_of k w.attempts)
  unfolding delete_messages
  next-attempts k = select-delete (λ a. a.message) k (id_in ids) w.attempts

  next-dead_letters :
      (k : ℕ)
      → dead_letters_of k next.dead_letters
        ≡ (if id_in ids k then [] else dead_letters_of k w.dead_letters)
  unfolding delete_messages
  next-dead_letters k = select-delete (λ d. d.message) k (id_in ids) w.dead_letters

  next-is_expired : (k : ℕ) → is_expired now k next ≡ (is_expired now k w && not (id_in ids k))
  unfolding delete_messages
  next-is_expired k = has_key-delete (λ m. m.id) k (id_in ids) (expired now) w.messages

  next-shrinks : 0 < length ids → length next.messages < length w.messages
  unfolding delete_messages
  next-shrinks h = round_shrinks now w.messages h

  next-row_count : row_count next ≤ row_count w
  unfolding delete_messages
  next-row_count = omega (
    arith,
    length-select (λ m. not (id_in ids m.id)) w.messages,
    length-select (λ a. not (id_in ids a.message)) w.attempts,
    length-select (λ d. not (id_in ids d.message)) w.dead_letters,
  )

  -- A round, seen from one message: what the rest of the rounds leaves of `next` is what they
  -- leave of `w`.
  through {ℓ} :
      {A : Type ℓ} (k : ℕ) (none' x y z : A)
      → y ≡ (if id_in ids k then none' else x)
      → z ≡ (if is_expired now k next then none' else y)
      → z ≡ (if is_expired now k w then none' else x)
  through k none' x y z e f = ground (arith, next-is_expired k, ids-expired now w.messages k)

none_named : (ids : List ℕ) (k : ℕ) → length ids ≡ 0 → id_in ids k ≡ false
none_named [] k e = refl
none_named (i ∷ l) k e = absurd (omega arith)

module _ (now total : ℕ) (w : World) where
  nothing_left : length (cleanup_ids now w.messages) ≡ 0 → Swept now total w (some (total, w))
  nothing_left e = record {
    count = total;
    after = w;
    ends = refl;
    counted = refl;
    messages = λ k. rw (spared k);
    attempts = λ k. rw (spared k);
    dead_letters = λ k. rw (spared k);
  }
    where
      spared : (k : ℕ) → is_expired now k w ≡ false
      spared k =
          sym (ids_all now w.messages k (omega (arith, e)))
          ∙ none_named (cleanup_ids now w.messages) k e

  last_round :
      length (cleanup_ids now w.messages) < cleanup_batch_size
      → Swept now total w (some (total + deleted w (next now w), next now w))
  last_round short = record {
    count = total + deleted w (next now w);
    after = next now w;
    ends = refl;
    counted = omega (arith, next-row_count now w);
    messages = λ k. rw (← ids_all now w.messages k short) (next-message now w k);
    attempts = λ k. rw (← ids_all now w.messages k short) (next-attempts now w k);
    dead_letters = λ k. rw (← ids_all now w.messages k short) (next-dead_letters now w k);
  }

  another_round :
      (result : Option (ℕ × World))
      → Swept now (total + deleted w (next now w)) (next now w) result
      → Swept now total w result
  another_round result s = record {
    count = s.count;
    after = s.after;
    ends = s.ends;
    counted = omega (arith, s.counted, next-row_count now w);
    messages = λ k. through now w k none _ _ _ (next-message now w k) (s.messages k);
    attempts = λ k. through now w k [] _ _ _ (next-attempts now w k) (s.attempts k);
    dead_letters = λ k. through now w k [] _ _ _ (next-dead_letters now w k) (s.dead_letters k);
  }

cleanup_loop-Swept :
    (fuel now total : ℕ) (w : World)
    → length w.messages < fuel
    → Swept now total w (cleanup_loop fuel now total w)
unfolding cleanup_loop
cleanup_loop-Swept zero now total w h = absurd (omega arith)
cleanup_loop-Swept (suc fuel) now total w h =
    let ids = cleanup_ids now w.messages in
    elim (Bool-cases (length ids == 0)) [
      | inl e ↦ rw e (nothing_left now total w (ground arith))
      | inr more ↦ elim (Bool-cases (ltb (length ids) cleanup_batch_size)) [
        | inl short ↦ rw (more, short) (last_round now total w (ground arith))
        | inr full ↦
            rw (more, full)
              (another_round now total w _ (
                cleanup_loop-Swept fuel now (total + deleted w (next now w)) (next now w)
                  (omega (arith, next-shrinks now w (ground arith)))))
      ]
    ]

-- The clean-up ends: its rounds are fewer than the messages. It deletes each message that is
-- finished and older than 90 days with its attempts and its dead letter, leaves every other
-- message and its attempts and dead letter as they were, and returns the number of deleted rows.
pub cleanup_old_messages-Swept : (now : ℕ) (w : World) → Swept now 0 w (cleanup_old_messages now w)
unfolding cleanup_old_messages
cleanup_old_messages-Swept now w = cleanup_loop-Swept (length w.messages + 1) now 0 w (omega arith)
