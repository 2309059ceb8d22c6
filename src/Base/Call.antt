-- ===== src/Base/Call.antt =====
-- The result of a Go call that may return an error or panic.
use infra.Base.{◌≢◌}
use mathlib.Core.Path.{◌≡◌, refl}
use mathlib.Core.Logic.{◌≢◌, ◌⊎◌, inl, inr}

pub data Call {ℓ κ} (E : Type ℓ) (A : Type κ) : Type (ℓ ⊔ κ) where
  done : A → Call E A
  failed : E → Call E A
  panicked : Call E A

infixl 5 ◌>>=◌ ◌>>◌
abbrev pub ◌>>=◌ {ℓ κ μ} :
    {E : Type ℓ} {A : Type κ} {B : Type μ} → Call E A → (A → Call E B) → Call E B
done a >>= f = f a
failed e >>= f = failed e
panicked >>= f = panicked

abbrev pub ◌>>◌ {ℓ κ} : {E : Type ℓ} {B : Type κ} → Call E (Unit {0}) → Call E B → Call E B
m >> k = m >>= λ _. k

-- What a chain that ends well has gone through.
pub >>=-eq-done {ℓ κ μ} :
    {E : Type ℓ} {A : Type κ} {B : Type μ} (m : Call E A) (f : A → Call E B) {b : B}
    → (m >>= f) ≡ done b
    → (a : A) × (m ≡ done a) × (f a ≡ done b)
>>=-eq-done (done a) f h = (a, refl, h)
>>=-eq-done (failed e) f h = cc
>>=-eq-done panicked f h = cc

pub Call-cases {ℓ κ} :
    {E : Type ℓ} {A : Type κ} (c : Call E A)
    → ((a : A) × (c ≡ done a)) ⊎ ((e : E) × (c ≡ failed e)) ⊎ (c ≡ panicked)
Call-cases (done a) = inl (a, refl)
Call-cases (failed e) = inr (inl (e, refl))
Call-cases panicked = inr (inr refl)

-- A chain panics only where one of its parts does.
pub >>=-ne-panicked {ℓ κ μ} :
    {E : Type ℓ} {A : Type κ} {B : Type μ} (m : Call E A) (f : A → Call E B)
    → m ≢ panicked
    → ((a : A) → f a ≢ panicked)
    → (m >>= f) ≢ panicked
>>=-ne-panicked (done a) f h k = k a
>>=-ne-panicked (failed e) f h k = λ q. cc
>>=-ne-panicked panicked f h k = absurd (h refl)

pub done-ne-panicked {ℓ κ} :
    {E : Type ℓ} {A : Type κ} (a : A) → ◌≢◌ {A = Call E A} (done a) panicked
done-ne-panicked a e = cc

pub done-injective {ℓ κ} :
    {E : Type ℓ} {A : Type κ} {a b : A} → ◌≡◌ {A = Call E A} (done a) (done b) → a ≡ b
done-injective e = cc
