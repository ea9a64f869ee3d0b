-- ===== src/Prelude/Keys.antt =====
-- Primary keys of a table under the writes of the program.
use mathlib.Core.Path.{◌≡◌, refl, ap, sym, subst}
use Prim.Native.Nat.{ℕ}
use mathlib.Core.Bool.{Bool, false, not, ◌&&◌}
use mathlib.Core.List.{List, [], ◌∷◌, ◌++◌}
use mathlib.Core.Logic.{inl, inr}
use native.Mathlib.Omega.{arith}
use notify_relay.Prelude.Lists.{All, select, All-select}
use notify_relay.Prelude.Tests.{◌==◌, ==_iff, Bool-cases, if◌then◌else◌}
use notify_relay.Prelude.Tables.{Distinct, has_key, update_where}

module _ {ℓ} {A : Type ℓ} (key : A → ℕ) where
  key_kept :
      (p : A → Bool) (f : A → A)
      → ((x : A) → key (f x) ≡ key x)
      → (x : A) → key (if p x then f x else x) ≡ key x
  key_kept p f keep x = ground (arith, keep x)

  apart-update_where :
      (p : A → Bool) (f : A → A)
      → ((x : A) → key (f x) ≡ key x)
      → (k : ℕ) (xs : List A) → All (λ y. (key y == k) ≡ false) xs
      → All (λ y. (key y == k) ≡ false) (update_where p f xs)
  apart-update_where p f keep k [] h = tt
  apart-update_where p f keep k (x ∷ xs) h =
      (ground (arith, keep x, h.0), apart-update_where p f keep k xs h.1)

  -- An UPDATE that does not write the key keeps the keys apart,
  pub Distinct-update_where :
      (p : A → Bool) (f : A → A)
      → ((x : A) → key (f x) ≡ key x)
      → (xs : List A) → Distinct key xs
      → Distinct key (update_where p f xs)
  Distinct-update_where p f keep [] h = tt
  Distinct-update_where p f keep (x ∷ xs) h = (
    subst (λ k. All (λ y. (key y == k) ≡ false) (update_where p f xs)) (sym (key_kept p f keep x))
        (apart-update_where p f keep (key x) xs h.0),
    Distinct-update_where p f keep xs h.1,
  )

  -- so does a DELETE,
  pub Distinct-select : (p : A → Bool) (xs : List A) → Distinct key xs → Distinct key (select p xs)
  Distinct-select p [] h = tt
  Distinct-select p (x ∷ xs) h =
      ground (arith, All-select (λ y. (key y == key x) ≡ false) p xs h.0, Distinct-select p xs h.1)

  apart-append :
      (k : ℕ) (xs : List A) (y : A)
      → All (λ x. (key x == k) ≡ false) xs
      → (key y == k) ≡ false
      → All (λ x. (key x == k) ≡ false) (xs ++ y ∷ [])
  apart-append k [] y h e = (e, tt)
  apart-append k (x ∷ xs) y h e = (h.0, apart-append k xs y h.1 e)

  -- and an INSERT under a new key.
  pub Distinct-append :
      (xs : List A) (y : A)
      → Distinct key xs
      → has_key key (key y) xs ≡ false
      → Distinct key (xs ++ y ∷ [])
  Distinct-append [] y h e = (tt, tt)
  Distinct-append (x ∷ xs) y h e =
      (apart-append (key x) xs y h.0 (ground arith), Distinct-append xs y h.1 (ground arith))

  pub any-delete :
      (k : ℕ) (q : ℕ → Bool) (xs : List A)
      → has_key key k (select (λ x. not (q (key x))) xs) ≡ (has_key key k xs && not (q k))
  any-delete k q [] = refl
  any-delete k q (x ∷ xs) = elim (Bool-cases (key x == k)) [
    | inl same ↦ ground (arith, ap q ((==_iff (key x) k).0 same), any-delete k q xs)
    | inr other ↦ ground (arith, any-delete k q xs)
  ]
