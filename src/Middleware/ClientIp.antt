-- ===== src/Middleware/ClientIp.antt =====
-- `_client_ip` of src/apps/core/middleware.py: what a client writes into X-Forwarded-For itself
-- does not choose its bucket.
use mathlib.Core.List.{reverse, reverse-append, reverse-cons}
use text.Mathlib.TextLemmas.{nil-append, cons-append}
use notify_relay.Prelude.{
  ℕ, zero, suc, ◌≤◌, ◌<◌, ◌≡◌, refl, ◌∙◌, ap, String, Char, code, Bool, not, Option, str_eq,
  str_append, List, [], ◌∷◌, ◌++◌, length, length-append, select-append, arith, ◌==◌, Bool-cases,
  inl, inr,
}
use notify_relay.Middleware.{
  IpAddress, split_commas, strip_all, strip, forwarded_chain, from_right, nth, client_ip,
}

abbrev comma : Char
comma = ","

comma-append : (t : String) → str_append "," t ≡ String.◌∷◌ comma t
comma-append t =
    cons-append comma String.[] t ∙ ap (λ (s : String). String.◌∷◌ comma s) (nil-append t)

split_commas-cons : (s : String) → (x : String) × (l : List String) × (split_commas s ≡ x ∷ l)
unfolding split_commas
split_commas-cons String.[] = ("", [], refl)
split_commas-cons (String.◌∷◌ c s) =
    let (x, l, e) = split_commas-cons s in
    elim (Bool-cases (code c == b',')) [
      | inl here ↦ ("", split_commas s, rw here refl)
      | inr other ↦ (String.◌∷◌ c x, l, rw (other, e) refl)
    ]

split_commas-append :
    (s t : String)
    → split_commas (str_append s (str_append "," t)) ≡ split_commas s ++ split_commas t
unfolding split_commas
split_commas-append String.[] t = rw (nil-append (str_append "," t), comma-append t) refl
split_commas-append (String.◌∷◌ c s) t =
    let (x, l, e) = split_commas-cons s in
    rw (cons-append c s (str_append "," t), split_commas-append s t)
      (elim (Bool-cases (code c == b',')) [
        | inl here ↦ rw here refl
        | inr other ↦ rw (other, e) refl
      ])

strip_all-append :
    (space : Char → Bool) (l m : List String)
    → strip_all space (l ++ m) ≡ strip_all space l ++ strip_all space m
strip_all-append space [] m = refl
strip_all-append space (s ∷ l) m = ap (λ r. strip space s ∷ r) (strip_all-append space l m)

nth-append {ℓ} : {A : Type ℓ} (n : ℕ) (l m : List A) → n < length l → nth n (l ++ m) ≡ nth n l
nth-append n [] m h = absurd (omega arith)
nth-append zero (x ∷ l) m h = refl
nth-append (suc n) (x ∷ l) m h = nth-append n l m (omega arith)

length-reverse {ℓ} : {A : Type ℓ} (l : List A) → length (reverse l) ≡ length l
length-reverse [] = refl
length-reverse (x ∷ l) =
    omega
      (arith, ap length (reverse-cons x l), length-append (reverse l) (x ∷ []), length-reverse l)

forwarded_chain-append :
    (space : Char → Bool) (s t : String)
    → forwarded_chain space (str_append s (str_append "," t))
      ≡ forwarded_chain space s ++ forwarded_chain space t
unfolding forwarded_chain
forwarded_chain-append space s t =
    rw (split_commas-append s t, strip_all-append space (split_commas s) (split_commas t))
      (select-append (λ p. not (str_eq p "")) (strip_all space (split_commas s))
        (strip_all space (split_commas t)))

from_right-append :
    (n : ℕ) (l m : List String) → n ≤ length m → 0 < n → from_right n (l ++ m) ≡ from_right n m
unfolding from_right
from_right-append zero l m h pos = absurd (omega arith)
from_right-append (suc n) l m h pos =
    rw (reverse-append l m) (nth-append n (reverse m) (reverse l) (omega (arith, length-reverse m)))

-- Behind `hops` trusted proxies, of which the header has at least as many entries, the address is
-- read from those entries: whatever stands to the left of them, written by the client, changes
-- nothing.
pub client_ip-spoof :
    (space : Char → Bool) (parse : String → Option IpAddress) (hops : ℕ)
    (forged trusted remote : String)
    → 0 < hops
    → hops ≤ length (forwarded_chain space trusted)
    → client_ip space parse hops (str_append forged (str_append "," trusted)) remote
      ≡ client_ip space parse hops trusted remote
unfolding client_ip
client_ip-spoof space parse hops forged trusted remote pos enough =
    rw
      (
        forwarded_chain-append space forged trusted,
        from_right-append hops (forwarded_chain space forged) (forwarded_chain space trusted) enough
            pos,
      )
      refl
