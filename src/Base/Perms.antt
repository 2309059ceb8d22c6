-- ===== src/Base/Perms.antt =====
-- Rearrangements of a list, as the library's `Perm`, beside the predicates on lists by recursion.
use mathlib.Core.Path.{◌≡◌, refl, sym, subst}
use mathlib.Core.Logic.Or
use mathlib.Core.Bool.{Bool, not, ◌&&◌}
use mathlib.Core.List.{List, [], ◌∷◌, ◌++◌, Mem, Perm, mem-cons, not-mem-nil, perm_middle}
use mathlib.Core.List.Perm
use mathlib.Core.Logic.{inl, inr}
use infra.Base.Tests.{Bool-cases}
use infra.Base.Lists.{All, select}

module _ {ℓ κ} {A : Type ℓ} (P : A → Type κ) (prop : (a : A) → IsProp (P a)) where
  pub All-Mem : (xs : List A) {a : A} → All P xs → Mem a xs → P a
  All-Mem [] h m = absurd (not-mem-nil m)
  All-Mem (x ∷ xs) {a} h m =
      Or.elim (prop a) (mem-cons.0 m) (λ e. subst P (sym e) h.0) (All-Mem xs h.1)

  of_mem : (xs : List A) → ((a : A) → Mem a xs → P a) → All P xs
  of_mem [] h = tt
  of_mem (x ∷ xs) h =
      (h x (mem-cons.1 (Or.inl refl)), of_mem xs (λ a m. h a (mem-cons.1 (Or.inr m))))

  -- What holds of every item holds of every item of a rearrangement.
  pub All-perm : (xs ys : List A) → Perm ys xs → All P xs → All P ys
  All-perm xs ys p h = of_mem ys (λ a m. All-Mem xs h ((Perm.mem_iff p).0 m))

pub bool_prop : (a b : Bool) → IsProp (a ≡ b)
bool_prop = hlevel

-- A second test parts the items that pass the first.
pub select-parts {ℓ} :
    {A : Type ℓ} (p q r s : A → Bool) (xs : List A)
    → ((x : A) → r x ≡ (p x && q x))
    → ((x : A) → s x ≡ (p x && not (q x)))
    → Perm (select r xs ++ select s xs) (select p xs)
select-parts p q r s [] hr hs = Perm.refl []
select-parts p q r s (x ∷ xs) hr hs =
    let rest = select-parts p q r s xs hr hs in
    elim (Bool-cases (p x)) [
      | inr n ↦ rw (hr x, hs x, n) rest
      | inl y ↦ elim (Bool-cases (q x)) [
        | inl z ↦ rw (hr x, hs x, y, z) (Perm.cons x rest)
        | inr z ↦
            rw (hr x, hs x, y, z)
              (Perm.trans (perm_middle (select r xs) (select s xs)) (Perm.cons x rest))
      ]
    ]
