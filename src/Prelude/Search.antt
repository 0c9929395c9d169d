-- ===== src/Prelude/Search.antt =====
-- What the iterator functions find, by way of predicates on all elements of a list.
use Prim.Native.Nat.{ℕ, zero, suc, ◌+◌, ◌≤◌}
use mathlib.Core.Path.{◌≡◌, refl, subst}
use mathlib.Core.Logic.{inl, inr}
use mathlib.Core.Bool.{Bool, true, false}
use mathlib.Core.List.{List, [], ◌∷◌}
use mathlib.Core.Option.{none, some}
use native.Mathlib.Omega.{arith}
use aivyx_broker.Prelude.Tests.{Bool-cases, ltb, if◌then◌else◌}
use aivyx_broker.Prelude.Lists.{get_elem?, filter, enumerate_from, find, least_from, min_by_key}

abbrev pub All {ℓ κ} : {A : Type ℓ} → (A → Type κ) → List A → Type κ
All P [] = Unit
All P (x ∷ xs) = P x × All P xs

module _ {ℓ} {A : Type ℓ} where
  pub All-map {κ μ} :
      {P : A → Type κ} {Q : A → Type μ} (f : (a : A) → P a → Q a) (xs : List A)
      → All P xs
      → All Q xs
  All-map f [] h = tt
  All-map f (x ∷ xs) h = (f x h.0, All-map f xs h.1)

  pub find-some {κ} :
      (P : A → Type κ) (p : A → Bool) (xs : List A) {a : A}
      → All P xs
      → find p xs ≡ some a
      → P a × (p a ≡ true)
  unfolding find
  find-some P p [] h e = cc
  find-some P p (x ∷ xs) {a} h e = elim (Bool-cases (p x)) [
    | inl hit ↦ let q : x ≡ a = ground arith in rw (← q) (h.0, hit)
    | inr miss ↦ find-some P p xs h.1 (ground arith)
  ]

  pub find-none : (p : A → Bool) (xs : List A) → find p xs ≡ none → All (λ a. p a ≡ false) xs
  unfolding find
  find-none p [] e = tt
  find-none p (x ∷ xs) e = elim (Bool-cases (p x)) [
    | inl hit ↦ absurd (ground arith)
    | inr miss ↦ (miss, find-none p xs (ground arith))
  ]

  pub All-filter {κ} :
      (P : A → Type κ) (p : A → Bool) (xs : List A)
      → All P xs
      → All (λ a. P a × (p a ≡ true)) (filter p xs)
  unfolding filter
  All-filter P p [] h = tt
  All-filter P p (x ∷ xs) h = elim (Bool-cases (p x)) [
    | inl hit ↦ rw (hit, filter) ((h.0, hit), All-filter P p xs h.1)
    | inr miss ↦ rw (miss, filter) (All-filter P p xs h.1)
  ]

  -- What holds of all that a filter keeps holds of every element that passes its test.
  pub All-of-filter {κ} :
      (P : A → Type κ) (p : A → Bool) (xs : List A)
      → All P (filter p xs)
      → All (λ a. p a ≡ true → P a) xs
  unfolding filter
  All-of-filter P p [] h = tt
  All-of-filter P p (x ∷ xs) h = elim (Bool-cases (p x)) [
    | inl hit ↦
        let h' : P x × All P (filter p xs) = rw (hit, filter) at h in
        ((λ _. h'.0), All-of-filter P p xs h'.1)
    | inr miss ↦
        let h' : All P (filter p xs) = rw (miss, filter) at h in
        ((λ e. cc), All-of-filter P p xs h')
  ]

  pub least_from-All {κ} :
      (P : A → Type κ) (key : A → ℕ) (best : A) (xs : List A)
      → P best
      → All P xs
      → P (least_from key best xs)
  unfolding least_from
  least_from-All P key best [] b h = b
  least_from-All P key best (x ∷ xs) b h = elim (Bool-cases (ltb (key x) (key best))) [
    | inl less ↦ rw (less, least_from) (least_from-All P key x xs h.0 h.1)
    | inr more ↦ rw (more, least_from) (least_from-All P key best xs b h.1)
  ]

  least_from-le :
      (key : A → ℕ) (best : A) (xs : List A)
      → All (λ a. key (least_from key best xs) ≤ key a) (best ∷ xs)
  unfolding least_from
  least_from-le key best [] = (omega arith, tt)
  least_from-le key best (x ∷ xs) =
      let (head, rest) = least_from-le key (if ltb (key x) (key best) then x else best) xs in
      (ground (arith, head), (ground (arith, head), rest))

  -- The element found satisfies what all do, and no key is smaller.
  pub min_by_key-some {κ} :
      (P : A → Type κ) (key : A → ℕ) (xs : List A) {a : A}
      → All P xs
      → min_by_key key xs ≡ some a
      → P a × All (λ b. key a ≤ key b) xs
  unfolding min_by_key
  min_by_key-some P key [] h e = cc
  min_by_key-some P key (x ∷ xs) {a} h e =
      let q : least_from key x xs ≡ a = ground arith in
      subst (λ b. P b × All (λ c. key b ≤ key c) (x ∷ xs)) q
        (least_from-All P key x xs h.0 h.1, least_from-le key x xs)

  pub min_by_key-none : (key : A → ℕ) (xs : List A) → min_by_key key xs ≡ none → xs ≡ []
  unfolding min_by_key
  min_by_key-none key [] e = refl
  min_by_key-none key (x ∷ xs) e = cc

  -- Every numbered element stands in the list at its number.
  pub All-enumerate {κ} :
      (P : ℕ × A → Type κ) (k : ℕ) (xs : List A)
      → ((j : ℕ) (a : A) → get_elem? xs j ≡ some a → P (k + j, a))
      → All P (enumerate_from k xs)
  unfolding enumerate_from
  All-enumerate P k [] h = tt
  All-enumerate P k (x ∷ xs) h =
      let e : k + 0 ≡ k = omega arith in
      (
        rw e at (h 0 x refl),
        All-enumerate P (suc k) xs
            (λ j a q. let e' : k + suc j ≡ suc k + j = omega arith in rw e' at (h (suc j) a q)),
      )

  pub All-of-enumerate {κ} :
      (P : ℕ × A → Type κ) (k : ℕ) (xs : List A) (j : ℕ) (a : A)
      → All P (enumerate_from k xs)
      → get_elem? xs j ≡ some a
      → P (k + j, a)
  unfolding enumerate_from
  All-of-enumerate P k [] j a h e = cc
  All-of-enumerate P k (x ∷ xs) zero a h e =
      let q : x ≡ a = ground arith in let e' : k ≡ k + 0 = omega arith in rw (← q, ← e') h.0
  All-of-enumerate P k (x ∷ xs) (suc j) a h e =
      let e' : suc k + j ≡ k + suc j = omega arith in
      rw e' at (All-of-enumerate P (suc k) xs j a h.1 e)

  pub enumerate_lem : (xs : List A) → All (λ e. get_elem? xs e.0 ≡ some e.1) (enumerate_from 0 xs)
  enumerate_lem xs = All-enumerate _ 0 xs (λ j a e. let q : 0 + j ≡ j = omega arith in rw q e)

  pub of_enumerate {κ} :
      (P : ℕ × A → Type κ) (xs : List A) (j : ℕ) (a : A)
      → All P (enumerate_from 0 xs)
      → get_elem? xs j ≡ some a
      → P (j, a)
  of_enumerate P xs j a h e =
      let q : 0 + j ≡ j = omega arith in subst (λ k. P (k, a)) q (All-of-enumerate P 0 xs j a h e)
