-- ===== src/Forward/Balance.antt =====
-- proxyd/backend.go: the order in which the backends of a group are tried
-- (`orderedBackendsForRequest`, `loadBalancedConsensusGroup`).
--
-- What a backend's health is read as (`IsHealthy`, `IsDegraded`), and the shuffles (of `math/rand`
-- and of the package weightedshuffle), are arguments; a shuffle rearranges its list.
use mathlib.Core.List.{Perm}
use mathlib.Core.List.Perm
use infra.Base.Perms.{All-perm, bool_prop, select-parts}
use infra.Base.{
  ◌≡◌, refl, sym, ap, inl, inr, Bool, true, false, not, ◌&&◌, List, [], ◌∷◌, ◌++◌, All, select,
  select-passes, if◌then◌else◌, Bool-cases,
}

-- A shuffle of the standard library or of weightedshuffle.
pub record Shuffle {ℓ} (A : Type ℓ) : Type ℓ where
  pub run : List A → List A
  pub rearranges : (xs : List A) → Perm (run xs) xs

not-not : (b : Bool) → not (not b) ≡ b
not-not true = refl
not-not false = refl

select_all {ℓ} : {A : Type ℓ} (xs : List A) → select (λ x. true) xs ≡ xs
select_all [] = refl
select_all (x ∷ xs) = rw (select_all xs) refl

module _ {ℓ} {A : Type ℓ} (is_healthy is_degraded : A → Bool) (weighted_routing : Bool) where
  -- `orderedBackendsForRequest` without a consensus.
  unfoldable pub ordered_backends : Shuffle A → List A → List A
  ordered_backends weighted_shuffle backends =
      let healthy = select is_healthy backends in
      let unhealthy = select (λ b. not (is_healthy b)) backends in
      if weighted_routing
      then weighted_shuffle.run healthy ++ weighted_shuffle.run unhealthy
      else healthy ++ unhealthy

  -- `loadBalancedConsensusGroup`, on the consensus group.
  unfoldable pub load_balanced : Shuffle A → Shuffle A → List A → List A
  load_balanced shuffle weighted_shuffle cg =
      let healthy = shuffle.run (select (λ b. is_healthy b && not (is_degraded b)) cg) in
      let degraded = shuffle.run (select (λ b. is_healthy b && is_degraded b) cg) in
      if weighted_routing then weighted_shuffle.run healthy ++ degraded else healthy ++ degraded

  -- A list of two parts: the first of backends that pass `p`, the second of those that pass `q`.
  abbrev pub InTwo : (A → Bool) → (A → Bool) → List A → Type ℓ
  InTwo p q xs =
      (first : List A) × (second : List A) × (xs ≡ first ++ second)
      × All (λ b. p b ≡ true) first
      × All (λ b. q b ≡ true) second

  shuffled :
      (s : Shuffle A) (p : A → Bool) (xs : List A) → All (λ b. p b ≡ true) (s.run (select p xs))
  shuffled s p xs =
      All-perm (λ b. p b ≡ true) (λ b. bool_prop (p b) true) (select p xs) (s.run (select p xs))
        (s.rearranges (select p xs)) (select-passes p xs)

  -- Without a consensus every backend of the group is tried, as often as it stands in the group,
  -- and the healthy ones before the others.
  ordered_backends-tries :
      (weighted_shuffle : Shuffle A) (backends : List A)
      → Perm (ordered_backends weighted_shuffle backends) backends
        × InTwo is_healthy (λ b. not (is_healthy b)) (ordered_backends weighted_shuffle backends)
  unfolding ordered_backends
  ordered_backends-tries s bs =
      let all =
        select-parts (λ b. true) is_healthy is_healthy (λ b. not (is_healthy b)) bs (λ x. refl)
          (λ x. refl) in
      elim (Bool-cases weighted_routing) [
        | inl y ↦ rw y (
          Perm.trans (Perm.append (s.rearranges _) (s.rearranges _)) (rw (select_all bs) at all),
          (
            s.run (select is_healthy bs),
            s.run (select (λ b. not (is_healthy b)) bs),
            refl,
            shuffled s is_healthy bs,
            shuffled s (λ b. not (is_healthy b)) bs,
          ),
        )
        | inr n ↦ rw n (
          rw (select_all bs) at all,
          (
            select is_healthy bs,
            select (λ b. not (is_healthy b)) bs,
            refl,
            select-passes is_healthy bs,
            select-passes (λ b. not (is_healthy b)) bs,
          ),
        )
      ]

  -- Of a consensus group just the healthy backends are tried, the degraded ones last.
  load_balanced-tries :
      (shuffle weighted_shuffle : Shuffle A) (cg : List A)
      → Perm (load_balanced shuffle weighted_shuffle cg) (select is_healthy cg)
        × InTwo
            (λ b. is_healthy b && not (is_degraded b))
            (λ b. is_healthy b && is_degraded b)
            (load_balanced shuffle weighted_shuffle cg)
  unfolding load_balanced
  load_balanced-tries s w cg =
      let fit = λ (b : A). is_healthy b && not (is_degraded b) in
      let spare = λ (b : A). is_healthy b && is_degraded b in
      let all : Perm (select fit cg ++ select spare cg) (select is_healthy cg) =
        select-parts is_healthy (λ b. not (is_degraded b)) fit spare cg (λ x. refl)
          (λ x. ap (λ b. is_healthy x && b) (sym (not-not (is_degraded x)))) in
      let fits = shuffled s fit cg in
      let spares = shuffled s spare cg in
      elim (Bool-cases weighted_routing) [
        | inl y ↦ rw y (
          Perm.trans (Perm.append (Perm.trans (w.rearranges _) (s.rearranges _)) (s.rearranges _))
              all,
          (
            w.run (s.run (select fit cg)),
            s.run (select spare cg),
            refl,
            All-perm (λ b. fit b ≡ true) (λ b. bool_prop (fit b) true) (s.run (select fit cg))
                (w.run (s.run (select fit cg))) (w.rearranges (s.run (select fit cg))) fits,
            spares,
          ),
        )
        | inr n ↦ rw n (
          Perm.trans (Perm.append (s.rearranges _) (s.rearranges _)) all,
          (s.run (select fit cg), s.run (select spare cg), refl, fits, spares),
        )
      ]

  -- Without a consensus every backend of the group is tried, as often as it stands in the group, and
  -- the healthy ones before the others. Of a consensus group just the healthy backends are tried, the
  -- degraded ones last.
  pub ordered_backends-load_balanced :
      (shuffle weighted_shuffle : Shuffle A) (backends cg : List A)
      → Perm (ordered_backends weighted_shuffle backends) backends
        × InTwo is_healthy (λ b. not (is_healthy b)) (ordered_backends weighted_shuffle backends)
        × Perm (load_balanced shuffle weighted_shuffle cg) (select is_healthy cg)
        × InTwo
            (λ b. is_healthy b && not (is_degraded b))
            (λ b. is_healthy b && is_degraded b)
            (load_balanced shuffle weighted_shuffle cg)
  ordered_backends-load_balanced s w bs cg =
      let (all, parts) = ordered_backends-tries w bs in
      let (fit, order) = load_balanced-tries s w cg in (all, parts, fit, order)
