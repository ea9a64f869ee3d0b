-- ===== src/Prelude/Tables.antt =====
-- Tables: lists of rows, read and written through a key or a test, as SQL statements do.
use mathlib.Core.Path.{◌≡◌, refl, ap}
use Prim.Native.Nat.{ℕ}
use mathlib.Core.Bool.{Bool, true}
use mathlib.Core.List.{List, [], ◌∷◌, ◌++◌}
use mathlib.Core.Option
use mathlib.Core.Option.{Option, none, some}
use native.Mathlib.Omega.{arith}
use mathlib.Core.Option.{some-injective}
use mathlib.Core.Path.{subst}
use mathlib.Core.Logic.{inl, inr}
use notify_relay.Prelude.Lists.{All, any, select}
use mathlib.Core.Bool.{not, false, ◌&&◌}
use notify_relay.Prelude.Tests.{==_iff, Bool-cases, ◌==◌, if◌then◌else◌}

module _ {ℓ} {A : Type ℓ} where
  -- `.filter(test).first()` on rows in their order.
  abbrev pub find_first : (A → Bool) → List A → Option A
  find_first p [] = none
  find_first p (x ∷ xs) = let rest = find_first p xs in if p x then some x else rest

  -- `.filter(test).update(...)`.
  abbrev pub update_where : (A → Bool) → (A → A) → List A → List A
  update_where p f [] = []
  update_where p f (x ∷ xs) = (if p x then f x else x) ∷ update_where p f xs

  -- What `find_first` returns passes the test.
  pub find_first-passes :
      (p : A → Bool) (xs : List A) (x : A) → find_first p xs ≡ some x → p x ≡ true
  find_first-passes p [] x h = cc
  find_first-passes p (y ∷ xs) x h = ground (arith, find_first-passes p xs x)

-- Rows with a numeric key that a write leaves alone.
module _ {ℓ} {A : Type ℓ} (key : A → ℕ) where
  abbrev pub by_key : ℕ → A → Bool
  by_key k x = key x == k

  pub find_first-update_where :
      (f : A → A)
      → ((x : A) → key (f x) ≡ key x)
      → (k j : ℕ) (xs : List A)
      → find_first (by_key j) (update_where (by_key k) f xs)
        ≡ (if j == k then Option.map f (find_first (by_key j) xs) else find_first (by_key j) xs)
  find_first-update_where f keep k j [] = ground arith
  find_first-update_where f keep k j (x ∷ xs) =
      ground (arith, keep x, find_first-update_where f keep k j xs)

  -- A write through any test reaches the row that is found if the row passes it.
  pub find_first-update_rows :
      (p : A → Bool) (f : A → A)
      → ((x : A) → key (f x) ≡ key x)
      → (k : ℕ) (xs : List A)
      → find_first (by_key k) (update_where p f xs)
        ≡ Option.map (λ x. if p x then f x else x) (find_first (by_key k) xs)
  find_first-update_rows p f keep k [] = refl
  find_first-update_rows p f keep k (x ∷ xs) =
      ground (arith, keep x, find_first-update_rows p f keep k xs)

  -- A new row is found by its key if no older one has that key.
  pub find_first-append :
      (j : ℕ) (xs : List A) (y : A)
      → find_first (by_key j) (xs ++ y ∷ []) ≡ elim (find_first (by_key j) xs) [
        | none ↦ if key y == j then some y else none
        | some x ↦ some x
      ]
  find_first-append j [] y = refl
  find_first-append j (x ∷ xs) y = ground (arith, find_first-append j xs y)

module _ {ℓ} {A : Type ℓ} where
  -- What holds of all rows holds of the one that is found.
  pub find_first-All {κ} :
      (P : A → Type κ) (p : A → Bool) (xs : List A) (x : A)
      → All P xs
      → find_first p xs ≡ some x
      → P x
  find_first-All P p [] x h e = cc
  find_first-All P p (y ∷ ys) x h e = elim (Bool-cases (p y)) [
    | inl hit ↦ subst P (ground arith) h.0
    | inr miss ↦ find_first-All P p ys x h.1 (rw miss at e)
  ]

module _ {ℓ} {A : Type ℓ} (p : A → Bool) (x : A) (xs : List A) where
  pub select_hit : p x ≡ true → x ∷ select p xs ≡ select p (x ∷ xs)
  select_hit h = rw h

  pub select_miss : p x ≡ false → select p xs ≡ select p (x ∷ xs)
  select_miss h = rw h

module _ {ℓ} {A : Type ℓ} (key : A → ℕ) where
  -- No two rows have one key: the primary key's constraint.
  abbrev pub Distinct : List A → Type 0
  Distinct [] = Unit
  Distinct (x ∷ xs) = All (λ y. (key y == key x) ≡ false) xs × Distinct xs

  -- Some row has the key `k`.
  abbrev pub has_key : ℕ → List A → Bool
  has_key k = any (λ y. key y == k)

  others_apart :
      (k : ℕ) (p : A → Bool) (xs : List A)
      → All (λ y. (key y == k) ≡ false) xs
      → has_key k (select p xs) ≡ false
  others_apart k p [] h = refl
  others_apart k p (x ∷ xs) h = ground (arith, others_apart k p xs h.1)

  keys_apart :
      (x : A) (p : A → Bool) (xs ys : List A)
      → All (λ y. (key y == key x) ≡ false) ys
      → All (λ y. (not (p y) && has_key (key y) xs) ≡ false) ys
      → All (λ y. (not (p y) && has_key (key y) (x ∷ xs)) ≡ false) ys
  keys_apart x p xs [] h hs = tt
  keys_apart x p xs (y ∷ ys) h hs = (ground arith, keys_apart x p xs ys h.1 hs.1)

  -- A row that fails the test shares its key with no row that passes.
  pub select-apart :
      (p : A → Bool) (xs : List A)
      → Distinct xs
      → All (λ y. (not (p y) && has_key (key y) (select p xs)) ≡ false) xs
  select-apart p [] h = tt
  select-apart p (x ∷ xs) h = elim (Bool-cases (p x)) [
    | inl hit ↦ (
      ground arith,
      subst (apart_from xs) (select_hit p x xs hit)
          (keys_apart x p (select p xs) xs h.0 (select-apart p xs h.1)),
    )
    | inr miss ↦ (
      ground (arith, others_apart (key x) p xs h.0),
      subst (apart_from xs) (select_miss p x xs miss) (select-apart p xs h.1),
    )
  ]
    where
      apart_from : List A → List A → Type 0
      apart_from ys l = All (λ y. (not (p y) && has_key (key y) l) ≡ false) ys

  -- Keys and selections.
  pub has_key-select :
      (k : ℕ) (p : A → Bool) (xs : List A) → has_key k (select p xs) ≡ true → has_key k xs ≡ true
  has_key-select k p [] h = cc
  has_key-select k p (x ∷ xs) h = ground (arith, has_key-select k p xs)

  pub has_key-found :
      (k : ℕ) (p : A → Bool) (xs : List A) (x : A)
      → find_first (by_key key k) xs ≡ some x
      → p x ≡ true
      → has_key k (select p xs) ≡ true
  has_key-found k p [] x e h = cc
  has_key-found k p (y ∷ ys) x e h = ground (arith, has_key-found k p ys x)

  pub any_of_has_key :
      (k : ℕ) (q : ℕ → Bool) (xs : List A)
      → has_key k xs ≡ true
      → q k ≡ true
      → any (λ x. q (key x)) xs ≡ true
  any_of_has_key k q [] h e = cc
  any_of_has_key k q (x ∷ xs) h e = elim (Bool-cases (key x == k)) [
    | inl same ↦ ground (arith, ap q ((==_iff (key x) k).0 same))
    | inr other ↦ ground (arith, any_of_has_key k q xs)
  ]

  -- A DELETE by key, seen from one key.
  pub has_key-delete :
      (k : ℕ) (q : ℕ → Bool) (p : A → Bool) (xs : List A)
      → has_key k (select p (select (λ x. not (q (key x))) xs))
        ≡ (has_key k (select p xs) && not (q k))
  has_key-delete k q p [] = refl
  has_key-delete k q p (x ∷ xs) = elim (Bool-cases (key x == k)) [
    | inl same ↦ ground (arith, ap q ((==_iff (key x) k).0 same), has_key-delete k q p xs)
    | inr other ↦ ground (arith, has_key-delete k q p xs)
  ]

  pub find_first-delete :
      (k : ℕ) (q : ℕ → Bool) (xs : List A)
      → find_first (by_key key k) (select (λ x. not (q (key x))) xs)
        ≡ (if q k then none else find_first (by_key key k) xs)
  find_first-delete k q [] = ground arith
  find_first-delete k q (x ∷ xs) = elim (Bool-cases (key x == k)) [
    | inl same ↦ ground (arith, ap q ((==_iff (key x) k).0 same), find_first-delete k q xs)
    | inr other ↦ ground (arith, find_first-delete k q xs)
  ]

  pub select-delete :
      (k : ℕ) (q : ℕ → Bool) (xs : List A)
      → select (by_key key k) (select (λ x. not (q (key x))) xs)
        ≡ (if q k then [] else select (by_key key k) xs)
  select-delete k q [] = ground arith
  select-delete k q (x ∷ xs) = elim (Bool-cases (key x == k)) [
    | inl same ↦ ground (arith, ap q ((==_iff (key x) k).0 same), select-delete k q xs)
    | inr other ↦ ground (arith, select-delete k q xs)
  ]
