-- ===== src/Consensus/Agreement.antt =====
-- proxyd/consensus_poller.go: the walk of `UpdateBackendGroupConsensus` ends, on the highest
-- block that the candidates agree on.
use native.Mathlib.Decide.{dec_lt}
use mathlib.Core.Path.{subst₂, subst}
use infra.Base.{
  In-map, All-In, In, ◌∙◌, sub64, sub64_exact, Bool-cases, Option-cases, map, ◌<◌, ◌≢◌, str_eq,
  if◌then◌else◌, eq_iff, sym, inr, inl, ◌⊎◌, ℕ, zero, suc, ◌+◌, ◌≤◌, ◌≡◌, u64, Bool, true, false,
  none, some, String, List, [], ◌∷◌, All, arith, refl,
}
use infra.Base.Call.{Call, done, failed, panicked}
use infra.Hex.{Hex}
use infra.Consensus.{Member}
use infra.Consensus.Reply.{Reply}
use infra.Consensus.Walk.{answer, Answer, Pass, found, pass, walk}

-- An answer that does not stand against block `b` with hash `h`: an error, or block `b` with that
-- hash or with an empty one.
abbrev pub Accepts : ℕ → String → Call (Unit {0}) (ℕ × String) → Type 0
Accepts b h (done (n, h')) = (n ≡ b) × ((h' ≡ h) ⊎ (h' ≡ ""))
Accepts b h (failed _) = Unit
Accepts b h panicked = ⊥

-- An answer that confirms block `b` with hash `h`, or an error.
abbrev pub Confirms : ℕ → String → Call (Unit {0}) (ℕ × String) → Type 0
Confirms b h (done (n, h')) = (n ≡ b) × (h' ≡ h)
Confirms b h (failed _) = Unit
Confirms b h panicked = ⊥

-- A pass that finds agreement has been contradicted by no candidate, and keeps a hash proposed
-- to it.
pass-Accepts :
    (current b : ℕ) (answers : List Answer) (hash : String) (broken : Bool) (p : Pass)
    → pass current b answers hash broken ≡ some p
    → p.all_agreed ≡ true
    → ((hash ≡ p.hash) ⊎ (hash ≡ "")) × All (Accepts b p.hash) answers
unfolding pass
pass-Accepts current b [] hash broken p e a = ground arith
pass-Accepts current b (failed _ ∷ answers) hash broken p e a =
    let (kept, rest) = pass-Accepts current b answers hash broken p e a in (kept, (tt, rest))
pass-Accepts current b (panicked ∷ answers) hash broken p e a = cc
pass-Accepts current b (done (n, h) ∷ answers) hash broken p e a =
    let hash' = if str_eq hash "" then h else hash in
    ground (arith, eq_iff hash "", eq_iff h hash', pass-Accepts current b answers hash' broken p)

-- A pass at a block that every answer confirms finds agreement on it.
pass_confirmed :
    (current b : ℕ) (answers : List Answer) (h hash : String) (broken : Bool)
    → All (Confirms b h) answers
    → (hash ≡ h) ⊎ (hash ≡ "")
    → (p : Pass) × (pass current b answers hash broken ≡ some p)
      × (p.all_agreed ≡ true)
      × (p.broken ≡ broken)
unfolding pass
pass_confirmed current b [] h hash broken c k =
    (record { hash = hash; broken = broken; all_agreed = true }, refl, refl, refl)
pass_confirmed current b (failed _ ∷ answers) h hash broken c k =
    pass_confirmed current b answers h hash broken c.1 k
pass_confirmed current b (panicked ∷ answers) h hash broken c k = absurd c.0
pass_confirmed current b (done (n, h') ∷ answers) h hash broken c k =
    let (p, e, a, s) = pass_confirmed current b answers h h broken c.1 (inl refl) in
    (p, ground (arith, eq_iff hash "", eq_iff h' h), a, s)

pass_no_panic :
    (current b : ℕ) (answers : List Answer) (hash : String) (broken : Bool)
    → All (λ c. c ≢ panicked) answers
    → pass current b answers hash broken ≢ none
unfolding pass
pass_no_panic current b [] hash broken c e = cc
pass_no_panic current b (failed _ ∷ answers) hash broken c e =
    pass_no_panic current b answers hash broken c.1 e
pass_no_panic current b (panicked ∷ answers) hash broken c e = c.0 refl
pass_no_panic current b (done (n, h) ∷ answers) hash broken c e =
    let hash' = if str_eq hash "" then h else hash in
    ground (arith, pass_no_panic current b answers hash' broken c.1)

-- Go ranges over every candidate in every round.
abbrev pub Reorders : (ℕ → List Member → List Member) → List Member → Type 0
Reorders order candidates = (k : ℕ) (m : Member) → In m candidates → In m (order k candidates)

module _ (hex : Hex) (ask : ℕ → ℕ → String → Reply) (order : ℕ → List Member → List Member)
    (candidates : List Member) where
  -- The candidates have block `a` with hash `h` in common, whenever they are asked.
  abbrev pub Common : ℕ → String → Type 0
  Common a h = (k : ℕ) → All (Confirms a h) (map (answer hex ask k a) (order k candidates))

  -- No answer of a candidate makes `fetchBlock` panic.
  abbrev pub Decodes : Type 0
  Decodes =
      (k b : ℕ) → b < u64 → All (λ c. c ≢ panicked) (map (answer hex ask k b) (order k candidates))

module _ (hex : Hex) (ask : ℕ → ℕ → String → Reply) (current : ℕ)
    (order : ℕ → List Member → List Member) (candidates : List Member) where
  -- The block on which the walk ends was contradicted by no candidate: in some round each of them
  -- answered with an error, or with that block and that hash (or none).
  pub walk-Accepts :
      (fuel round proposed : ℕ) (hash : String) (broken : Bool) {b : ℕ} {h : String} {broke : Bool}
      → walk hex ask current order candidates fuel round proposed hash broken ≡ found b h broke
      → (k : ℕ) × All (Accepts b h) (map (answer hex ask k b) (order k candidates))
  unfolding walk
  walk-Accepts zero round proposed hash broken e = cc
  walk-Accepts (suc fuel) round proposed hash broken {b} {h} {broke} e =
      let now = map (answer hex ask round proposed) (order round candidates) in
      elim (Option-cases (pass current proposed now hash broken)) [
        | inl q ↦ cc (rw (q, walk) at e)
        | inr (p, q) ↦ elim (Bool-cases p.all_agreed) [
          | inl agreed ↦
              let e' : found proposed p.hash p.broken ≡ found b h broke =
                rw (q, agreed, walk) at e in
              (
                round,
                subst₂
                    (λ b h.
                      All (Accepts b h) (map (answer hex ask round b) (order round candidates)))
                    (cc e') (cc e') (pass-Accepts current proposed now hash broken p q agreed).1,
              )
          | inr more ↦
              walk-Accepts fuel (round + 1) (sub64 proposed 1) "" p.broken (rw (q, more, walk) at e)
        ]
      ]

  -- A round that disagrees was not at a block that the candidates have in common.
  disagreement_below :
      (round proposed a : ℕ) (h hash : String) (broken : Bool) (p : Pass)
      → pass current proposed
          (map (answer hex ask round proposed) (order round candidates))
          hash
          broken
        ≡ some p
      → p.all_agreed ≡ false
      → Common hex ask order candidates a h
      → a ≡ proposed
      → (hash ≡ h) ⊎ (hash ≡ "")
      → ⊥
  disagreement_below round proposed a h hash broken p q more c same k =
      let confirmed =
        subst (λ b. All (Confirms b h) (map (answer hex ask round b) (order round candidates))) same
          (c round) in
      let (p', e, agreed, _) = pass_confirmed current proposed _ h hash broken confirmed k in
      let eq : some p ≡ some p' = sym q ∙ e in cc eq

  -- The walk ends, no lower than any block that the candidates have in common.
  pub walk-ge-Common :
      (fuel round proposed a : ℕ) (h hash : String) (broken : Bool)
      → proposed < u64
      → a ≤ proposed
      → proposed < a + fuel
      → Common hex ask order candidates a h
      → Decodes hex ask order candidates
      → (a ≡ proposed → (hash ≡ h) ⊎ (hash ≡ ""))
      → (b : ℕ) × (hb : String) × (broke : Bool) × (a ≤ b)
        × (b ≤ proposed)
        × (walk hex ask current order candidates fuel round proposed hash broken ≡ found b hb broke)
  unfolding walk
  walk-ge-Common zero round proposed a h hash broken bound below fuel c d k = absurd (omega arith)
  walk-ge-Common (suc f) round proposed a h hash broken bound below fuel c d k =
      let now = map (answer hex ask round proposed) (order round candidates) in
      elim (Option-cases (pass current proposed now hash broken)) [
        | inl q ↦ absurd (pass_no_panic current proposed now hash broken (d round proposed bound) q)
        | inr (p, q) ↦ elim (Bool-cases p.all_agreed) [
          | inl agreed ↦ (proposed, p.hash, p.broken, below, omega arith, rw (q, agreed, walk))
          | inr more ↦
              let above : a < proposed = elim (dec_lt a proposed) [
                | yes lt ↦ lt
                | no ge ↦
                    let same : a ≡ proposed = omega arith in
                    absurd
                      (disagreement_below round proposed a h hash broken p q more c same (k same))
              ] in
              let less = sub64_exact proposed 1 (omega arith) bound in
              let (b, hb, broke, lo, hi, e) =
                walk-ge-Common f (round + 1) (sub64 proposed 1) a h "" p.broken
                  (omega (arith, less)) (omega (arith, less)) (omega (arith, less)) c d
                  (λ _. inr refl) in
              (b, hb, broke, lo, omega (arith, less), rw (q, more, walk) e)
        ]
      ]

  -- If the candidates have a block in common, not above the proposed one, and no answer makes
  -- the decoding panic, then the walk ends on a block between the two, with fuel for each block
  -- between them; and in some round no candidate contradicted the block on which it ended.
  pub walk-agrees :
      (fuel round proposed a : ℕ) (h hash : String) (broken : Bool)
      → proposed < u64
      → a ≤ proposed
      → proposed < a + fuel
      → Common hex ask order candidates a h
      → Decodes hex ask order candidates
      → (a ≡ proposed → (hash ≡ h) ⊎ (hash ≡ ""))
      → Reorders order candidates
      → (b : ℕ) × (hb : String) × (broke : Bool) × (k : ℕ) × (walk hex ask current order candidates
            fuel round proposed hash broken
          ≡ found b hb broke)
        × (a ≤ b)
        × (b ≤ proposed)
        × ((m : Member) → In m candidates → Accepts b hb (answer hex ask k b m))
  walk-agrees fuel round proposed a h hash broken bound below enough c d first r =
      let (b, hb, broke, lo, hi, e) =
        walk-ge-Common fuel round proposed a h hash broken bound below enough c d first in
      let (k, all) = walk-Accepts fuel round proposed hash broken e in
      (b, hb, broke, k, e, lo, hi, λ m i. All-In _ (In-map (answer hex ask k b) (r k m i)) all)
