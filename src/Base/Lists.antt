-- ===== src/Base/Lists.antt =====
-- Lists measured and indexed by native numbers, and predicates on lists by recursion.
use Prim.Native.Nat.{ℕ, zero, suc, ◌+◌, ◌≤◌}
use mathlib.Core.Path.{◌≡◌, refl}
use mathlib.Core.Logic.{◌⊎◌, inl, inr}
use mathlib.Core.Bool.{Bool, true}
use mathlib.Core.List.{List, [], ◌∷◌, ◌++◌, map}
use mathlib.Core.Option.{Option, none, some}
use native.Mathlib.Omega.{arith}
use infra.Base.Tests.{if◌then◌else◌, Bool-cases}

module _ {ℓ} {A : Type ℓ} where
  abbrev pub length : List A → ℕ
  length [] = 0
  length (x ∷ xs) = suc (length xs)

  abbrev pub get_elem? : List A → ℕ → Option A
  get_elem? [] i = none
  get_elem? (x ∷ xs) zero = some x
  get_elem? (x ∷ xs) (suc i) = get_elem? xs i

  -- A write out of bounds changes nothing.
  abbrev pub set : List A → ℕ → A → List A
  set [] i v = []
  set (x ∷ xs) zero v = v ∷ xs
  set (x ∷ xs) (suc i) v = x ∷ set xs i v

  abbrev pub take : ℕ → List A → List A
  take zero xs = []
  take (suc n) [] = []
  take (suc n) (x ∷ xs) = x ∷ take n xs

  abbrev pub drop : ℕ → List A → List A
  drop zero xs = xs
  drop (suc n) [] = []
  drop (suc n) (x ∷ xs) = drop n xs

  -- The items that pass a Boolean test, in order.
  abbrev pub select : (A → Bool) → List A → List A
  select p [] = []
  select p (x ∷ xs) = let rest = select p xs in if p x then x ∷ rest else rest

  pub length-append : (xs ys : List A) → length (xs ++ ys) ≡ length xs + length ys
  length-append [] ys = omega arith
  length-append (x ∷ xs) ys = omega (arith, length-append xs ys)

  pub length-select : (p : A → Bool) (xs : List A) → length (select p xs) ≤ length xs
  length-select p [] = omega arith
  length-select p (x ∷ xs) = ground (arith, length-select p xs)

-- Every item satisfies `P`.
abbrev pub All {ℓ κ} : {A : Type ℓ} → (A → Type κ) → List A → Type κ
All P [] = Unit
All P (x ∷ xs) = P x × All P xs

-- Membership as data, so that it can be taken apart into anything.
pub data In {ℓ} {A : Type ℓ} (a : A) : List A → Type ℓ where
  here : (xs : List A) → In a (a ∷ xs)
  there : (x : A) (xs : List A) → In a xs → In a (x ∷ xs)

pub All-In {ℓ κ} : {A : Type ℓ} (P : A → Type κ) {a : A} {xs : List A} → In a xs → All P xs → P a
All-In P (here xs) h = h.0
All-In P (there x xs m) h = All-In P m h.1

pub All-intro {ℓ κ} :
    {A : Type ℓ} (P : A → Type κ) (xs : List A) → ((a : A) → In a xs → P a) → All P xs
All-intro P [] h = tt
All-intro P (x ∷ xs) h = (h x (here xs), All-intro P xs (λ a m. h a (there x xs m)))

pub All-map {ℓ κ μ} :
    {A : Type ℓ} (P : A → Type κ) (Q : A → Type μ) (xs : List A)
    → ((a : A) → P a → Q a)
    → All P xs
    → All Q xs
All-map P Q [] f h = tt
All-map P Q (x ∷ xs) f h = (f x h.0, All-map P Q xs f h.1)

pub All-both {ℓ κ μ ν} :
    {A : Type ℓ} (P : A → Type κ) (Q : A → Type μ) (R : A → Type ν) (xs : List A)
    → ((a : A) → P a → Q a → R a)
    → All P xs
    → All Q xs
    → All R xs
All-both P Q R [] f p q = tt
All-both P Q R (x ∷ xs) f p q = (f x p.0 q.0, All-both P Q R xs f p.1 q.1)

pub All-select {ℓ κ} :
    {A : Type ℓ} (P : A → Type κ) (p : A → Bool) (xs : List A) → All P xs → All P (select p xs)
All-select P p [] h = tt
All-select P p (x ∷ xs) h = ground (arith, All-select P p xs h.1)

-- What a selection holds passes the test.
pub select-passes {ℓ} :
    {A : Type ℓ} (p : A → Bool) (xs : List A) → All (λ x. p x ≡ true) (select p xs)
select-passes p [] = tt
select-passes p (x ∷ xs) = ground (arith, select-passes p xs)

-- Where all items pass nothing is left out.
pub select-eq_self {ℓ} :
    {A : Type ℓ} (p : A → Bool) (xs : List A) → All (λ x. p x ≡ true) xs → select p xs ≡ xs
select-eq_self p [] h = refl
select-eq_self p (x ∷ xs) h = rw (h.0, select-eq_self p xs h.1) refl

-- A selection holds just the items that pass.
pub In-select {ℓ} :
    {A : Type ℓ} (p : A → Bool) {a : A} {xs : List A} → In a xs → p a ≡ true → In a (select p xs)
In-select p (here xs) h = rw h (here _)
In-select p (there x xs m) h = elim (Bool-cases (p x)) [
  | inl e ↦ rw e (there _ _ (In-select p m h))
  | inr e ↦ rw e (In-select p m h)
]

In-tail {ℓ} :
    {A : Type ℓ} {a x : A} {xs ys : List A} → (In a ys → In a xs) → In a (x ∷ ys) → In a (x ∷ xs)
In-tail f (here ys) = here _
In-tail f (there x ys m) = there _ _ (f m)

-- A selection comes from its list.
pub select-In {ℓ} : {A : Type ℓ} (p : A → Bool) {a : A} (xs : List A) → In a (select p xs) → In a xs
select-In p [] m = m
select-In p (x ∷ xs) m = elim (Bool-cases (p x)) [
  | inl e ↦ In-tail (select-In p xs) (rw e at m)
  | inr e ↦ there x xs (select-In p xs (rw e at m))
]

pub In-map {ℓ κ} :
    {A : Type ℓ} {B : Type κ} (f : A → B) {a : A} {xs : List A} → In a xs → In (f a) (map f xs)
In-map f (here xs) = here (map f xs)
In-map f (there x xs m) = there (f x) (map f xs) (In-map f m)

pub In-of-map {ℓ κ} :
    {A : Type ℓ} {B : Type κ} (f : A → B) {b : B} (xs : List A)
    → In b (map f xs)
    → (a : A) × In a xs × (b ≡ f a)
In-of-map f [] i = elim i [ ]
In-of-map f (x ∷ xs) (here ys) = (x, here xs, refl)
In-of-map f (x ∷ xs) (there y ys i) = let (a, j, e) = In-of-map f xs i in (a, there x xs j, e)

pub get_elem?-set-some {ℓ} :
    {A : Type ℓ} (xs : List A) (i : ℕ) {a : A} (v : A)
    → get_elem? xs i ≡ some a
    → get_elem? (set xs i v) i ≡ some v
get_elem?-set-some [] i v h = cc
get_elem?-set-some (x ∷ xs) zero v h = refl
get_elem?-set-some (x ∷ xs) (suc i) v h = get_elem?-set-some xs i v h

-- A longer list has the items of its front.
pub get_elem?-append_left {ℓ} :
    {A : Type ℓ} (xs ys : List A) (i : ℕ) {a : A}
    → get_elem? xs i ≡ some a
    → get_elem? (xs ++ ys) i ≡ some a
get_elem?-append_left [] ys i h = cc
get_elem?-append_left (x ∷ xs) ys zero h = h
get_elem?-append_left (x ∷ xs) ys (suc i) h = get_elem?-append_left xs ys i h

pub In-pair {ℓ} : {A : Type ℓ} {x a b : A} → In x (a ∷ b ∷ []) → (x ≡ a) ⊎ (x ≡ b)
In-pair (here xs) = inl refl
In-pair (there y xs (here ys)) = inr refl
In-pair (there y xs (there z ys i)) = elim i [ ]
