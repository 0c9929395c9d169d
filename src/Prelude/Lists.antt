-- ===== src/Prelude/Lists.antt =====
-- Lists measured and indexed by native numbers, under the library's names, with the slice and
-- iterator functions of the standard library that the broker uses.
use Prim.Native.Nat.{ℕ, zero, suc, ◌+◌, ◌<◌}
use mathlib.Core.Path.{◌≡◌, refl, sym, ap, subst}
use mathlib.Core.Logic.{◌⊎◌, inl, inr}
use mathlib.Core.Bool.{Bool, true, false}
use mathlib.Core.List.{List, [], ◌∷◌, ◌++◌}
use mathlib.Core.Option.{Option, none, some}
use native.Mathlib.Omega.{arith}
use aivyx_broker.Prelude.Tests.{ltb, ◌==◌, if◌then◌else◌}

module _ {ℓ} {A : Type ℓ} where
  abbrev pub length : List A → ℕ
  length [] = 0
  length (x ∷ xs) = suc (length xs)

  abbrev pub get_elem? : List A → ℕ → Option A
  get_elem? [] i = none
  get_elem? (x ∷ xs) zero = some x
  get_elem? (x ∷ xs) (suc i) = get_elem? xs i

  abbrev pub replicate : ℕ → A → List A
  replicate zero a = []
  replicate (suc n) a = a ∷ replicate n a

  -- `if let Some(x) = xs.get_mut(i) { *x = f(x) }`
  unfoldable pub modify : List A → ℕ → (A → A) → List A
  modify [] i f = []
  modify (x ∷ xs) zero f = f x ∷ xs
  modify (x ∷ xs) (suc i) f = x ∷ modify xs i f

  -- `iter().filter(p)`
  unfoldable pub filter : (A → Bool) → List A → List A
  filter p [] = []
  filter p (x ∷ xs) = if p x then x ∷ filter p xs else filter p xs

  -- `iter().enumerate()`, counting from `i`
  unfoldable pub enumerate_from : ℕ → List A → List (ℕ × A)
  enumerate_from i [] = []
  enumerate_from i (x ∷ xs) = (i, x) ∷ enumerate_from (suc i) xs

  -- `iter().find(p)`: the first element that passes
  unfoldable pub find : (A → Bool) → List A → Option A
  find p [] = none
  find p (x ∷ xs) = if p x then some x else find p xs

  -- `iter().any(p)`
  unfoldable pub any : (A → Bool) → List A → Bool
  any p [] = false
  any p (x ∷ xs) = if p x then true else any p xs

  -- `iter().min_by_key(key)`: of several smallest, the first
  unfoldable pub least_from : (A → ℕ) → A → List A → A
  least_from key best [] = best
  least_from key best (x ∷ xs) = least_from key (if ltb (key x) (key best) then x else best) xs

  unfoldable pub min_by_key : (A → ℕ) → List A → Option A
  unfolding least_from
  min_by_key key [] = none
  min_by_key key (x ∷ xs) = some (least_from key x xs)

  abbrev pub is_some : Option A → Bool
  is_some none = false
  is_some (some a) = true

  abbrev pub get_or : Option A → A → A
  get_or none d = d
  get_or (some a) d = a

abbrev pub map_option {ℓ κ} : {A : Type ℓ} {B : Type κ} → (A → B) → Option A → Option B
map_option f none = none
map_option f (some a) = some (f a)

-- `?` on an option, and `and_then`.
infixl 5 ◌>>=◌
abbrev pub ◌>>=◌ {ℓ κ} : {A : Type ℓ} {B : Type κ} → Option A → (A → Option B) → Option B
none >>= f = none
some a >>= f = f a

abbrev pub filter_option {ℓ} : {A : Type ℓ} → (A → Bool) → Option A → Option A
filter_option p none = none
filter_option p (some a) = if p a then some a else none

-- `iter().map(f).collect::<Option<Vec<_>>>()`
unfoldable pub collect_map {ℓ κ} :
    {A : Type ℓ} {B : Type κ} → (A → Option B) → List A → Option (List B)
collect_map f [] = some []
collect_map f (x ∷ xs) = f x >>= λ y. collect_map f xs >>= λ ys. some (y ∷ ys)

module _ {ℓ} {A : Type ℓ} where
  pub length-append : (xs ys : List A) → length (xs ++ ys) ≡ length xs + length ys
  length-append [] ys = omega arith
  length-append (x ∷ xs) ys = omega (arith, length-append xs ys)

  pub length-replicate : (n : ℕ) (a : A) → length (replicate n a) ≡ n
  length-replicate zero a = refl
  length-replicate (suc n) a = ap suc (length-replicate n a)

  pub length-modify : (xs : List A) (i : ℕ) (f : A → A) → length (modify xs i f) ≡ length xs
  unfolding modify
  length-modify [] i f = refl
  length-modify (x ∷ xs) zero f = refl
  length-modify (x ∷ xs) (suc i) f = ap suc (length-modify xs i f)

  pub get_elem?-modify :
      (xs : List A) (i j : ℕ) (f : A → A)
      → get_elem? (modify xs i f) j
        ≡ (if i == j then map_option f (get_elem? xs j) else get_elem? xs j)
  unfolding modify
  get_elem?-modify [] i j f = ground arith
  get_elem?-modify (x ∷ xs) zero zero f = refl
  get_elem?-modify (x ∷ xs) zero (suc j) f = ground arith
  get_elem?-modify (x ∷ xs) (suc i) zero f = ground arith
  get_elem?-modify (x ∷ xs) (suc i) (suc j) f = ground (arith, get_elem?-modify xs i j f)

  pub modify-none : (xs : List A) (i : ℕ) (f : A → A) → get_elem? xs i ≡ none → modify xs i f ≡ xs
  unfolding modify
  modify-none [] i f e = refl
  modify-none (x ∷ xs) zero f e = cc
  modify-none (x ∷ xs) (suc i) f e = ap (◌∷◌ x) (modify-none xs i f e)

  pub modify-same :
      (xs : List A) (i : ℕ) (f g : A → A) {a : A}
      → get_elem? xs i ≡ some a
      → f a ≡ g a
      → modify xs i f ≡ modify xs i g
  unfolding modify
  modify-same [] i f g e q = refl
  modify-same (x ∷ xs) zero f g {a} e q =
      let x_is : x ≡ a = ground arith in ap (λ y. y ∷ xs) (subst (λ y. f y ≡ g y) (sym x_is) q)
  modify-same (x ∷ xs) (suc i) f g e q = ap (◌∷◌ x) (modify-same xs i f g e q)

  pub modify-id : (xs : List A) (i : ℕ) → modify xs i (λ a. a) ≡ xs
  unfolding modify
  modify-id [] i = refl
  modify-id (x ∷ xs) zero = refl
  modify-id (x ∷ xs) (suc i) = ap (◌∷◌ x) (modify-id xs i)

  pub lt-length_of_get : (xs : List A) (i : ℕ) (a : A) → get_elem? xs i ≡ some a → i < length xs
  lt-length_of_get [] i a h = cc
  lt-length_of_get (x ∷ xs) zero a h = omega arith
  lt-length_of_get (x ∷ xs) (suc i) a h = omega (arith, lt-length_of_get xs i a h)

  pub get_of_lt-length : (xs : List A) (i : ℕ) → i < length xs → (a : A) × (get_elem? xs i ≡ some a)
  get_of_lt-length [] i h = absurd (omega arith)
  get_of_lt-length (x ∷ xs) zero h = (x, refl)
  get_of_lt-length (x ∷ xs) (suc i) h = get_of_lt-length xs i (omega arith)

pub filter_nil_of_any {ℓ} :
    {A : Type ℓ} (p : A → Bool) (xs : List A) → any p xs ≡ false → filter p xs ≡ []
unfolding any filter
filter_nil_of_any p [] h = refl
filter_nil_of_any p (x ∷ xs) h = ground (arith, filter_nil_of_any p xs)

-- Membership of a number, as a test.
unfoldable pub elem : ℕ → List ℕ → Bool
elem c [] = false
elem c (x ∷ xs) = if x == c then true else elem c xs

pub elem-append :
    (c : ℕ) (xs ys : List ℕ) → elem c (xs ++ ys) ≡ (if elem c xs then true else elem c ys)
unfolding elem
elem-append c [] ys = refl
elem-append c (x ∷ xs) ys = ground (arith, elem-append c xs ys)

pub elem-filter :
    (p : ℕ → Bool) (c : ℕ) (xs : List ℕ) → elem c (filter p xs) ≡ (if p c then elem c xs else false)
unfolding elem filter
elem-filter p c [] = ground arith
elem-filter p c (x ∷ xs) = ground (arith, elem-filter p c xs)

pub any_of_elem :
    (p : ℕ → Bool) (c : ℕ) (xs : List ℕ) → elem c xs ≡ true → p c ≡ true → any p xs ≡ true
unfolding elem any
any_of_elem p c [] h e = cc
any_of_elem p c (x ∷ xs) h e = ground (arith, any_of_elem p c xs)

pub elem_last : (c : ℕ) (xs : List ℕ) → elem c (xs ++ c ∷ []) ≡ true
unfolding elem
elem_last c xs = rw elem-append (ground arith)

-- `Result<A, E>`
pub data Result {ℓ κ} (A : Type ℓ) (E : Type κ) : Type (ℓ ⊔ κ) where
  ok : A → Result A E
  err : E → Result A E

pub Result-cases {ℓ κ} :
    {A : Type ℓ} {E : Type κ} (r : Result A E) → ((a : A) × (r ≡ ok a)) ⊎ ((e : E) × (r ≡ err e))
Result-cases (ok a) = inl (a, refl)
Result-cases (err e) = inr (e, refl)
