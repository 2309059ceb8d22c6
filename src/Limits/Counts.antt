-- ===== src/Limits/Counts.antt =====
-- proxyd/frontend_rate_limiter.go: in one interval a key gets just as many requests through as the
-- limit allows; and when the second limiter of a pair is asked.
use Prim.Native.Nat.{min}
use infra.Base.{
  ==_iff, ltb→lt, Option-cases, ℕ, ◌+◌, ◌≤◌, ◌≡◌, ◌↔◌, refl, ap, ◌∙◌, inl, inr, Bool, true, false,
  ◌&&◌, Option, none, some, String, str_eq, eq_iff, List, [], ◌∷◌, All, ltb, ◌==◌, if◌then◌else◌,
  Bool-cases, arith,
}
use infra.Limits.{
  lookup, store, LimitedKeys, or_zero, truncate_now, MemoryFrontendRateLimiter, generation,
  memory_take, Limiter, fallback_limiter,
}

lookup-store :
    (k j : String) (n : ℕ) (keys : List (String × ℕ))
    → lookup j (store k n keys) ≡ (if str_eq k j then some n else lookup j keys)
unfolding lookup store
lookup-store k j n [] = refl
lookup-store k j n ((i, m) ∷ keys) =
    ground (arith, eq_iff k j, eq_iff i k, eq_iff i j, lookup-store k j n keys)

-- How many requests of a key have been counted in an interval.
abbrev pub used : ℕ → MemoryFrontendRateLimiter → String → ℕ
used ts m k = or_zero (lookup k (generation ts m.curr_generation).keys)

-- How many of a list of requests have a key, and how many of those are let through.
pub occurrences : String → List (ℕ × String) → ℕ
occurrences k [] = 0
occurrences k ((now, j) ∷ reqs) = (if str_eq j k then 1 else 0) + occurrences k reqs

pub granted : String → List (ℕ × String) → MemoryFrontendRateLimiter → ℕ
granted k [] m = 0
granted k ((now, j) ∷ reqs) m =
    let (ok, m') = memory_take now j m in (if ok && str_eq j k then 1 else 0) + granted k reqs m'

generation_ts : (ts : ℕ) (g : Option LimitedKeys) → (generation ts g).trunc_ts ≡ ts
unfolding generation
generation_ts ts none = refl
generation_ts ts (some l) = elim (Bool-cases (l.trunc_ts == ts)) [
  | inl y ↦ rw y ((==_iff l.trunc_ts ts).0 y)
  | inr n ↦ rw n refl
]

generation_id : (ts : ℕ) (l : LimitedKeys) → l.trunc_ts ≡ ts → generation ts (some l) ≡ l
unfolding generation
generation_id ts l e = rw ((==_iff l.trunc_ts ts).1 e) refl

-- A request in an interval is let through if fewer than `max` of its key have been counted there,
-- and is counted; the counts of other keys stay.
memory_take_lem :
    (ts now : ℕ) (j k : String) (m : MemoryFrontendRateLimiter)
    → truncate_now m.dur now ≡ ts
    → ((memory_take now j m).0 ≡ ltb (used ts m j) m.max)
      × (used ts (memory_take now j m).1 k ≡ (if str_eq j k then used ts m j + 1 else used ts m k))
      × ((memory_take now j m).1.max ≡ m.max)
      × ((memory_take now j m).1.dur ≡ m.dur)
unfolding memory_take
memory_take_lem ts now j k m e =
    let g = generation ts m.curr_generation in
    let next : LimitedKeys = record g { keys = store j (or_zero (lookup j g.keys) + 1) g.keys } in
    let same : generation ts (some next) ≡ next =
      generation_id ts next (generation_ts ts m.curr_generation) in
    let stored = lookup-store j k (or_zero (lookup j g.keys) + 1) g.keys in
    rw e (
      refl,
      ap (λ (l : LimitedKeys). or_zero (lookup k l.keys)) same
          ∙ ap or_zero stored
          ∙ or_zero_if (str_eq j k) (or_zero (lookup j g.keys) + 1) (lookup k g.keys),
      refl,
      refl,
    )
  where
    or_zero_if :
        (b : Bool) (n : ℕ) (o : Option ℕ)
        → or_zero (if b then some n else o) ≡ (if b then n else or_zero o)
    or_zero_if true n o = refl
    or_zero_if false n o = refl

ltb-false : (a b : ℕ) → ltb a b ≡ false → b ≤ a
ltb-false a b h = ground arith

-- Of the requests of one interval, those of a key are let through as long as fewer than `max` of
-- them have come, those counted before included: with those, `max` at most, and all up to it.
pub granted-eq-min :
    (ts : ℕ) (k : String) (reqs : List (ℕ × String)) (m : MemoryFrontendRateLimiter)
    → All (λ r. truncate_now m.dur r.0 ≡ ts) reqs
    → granted k reqs m + min m.max (used ts m k) ≡ min m.max (used ts m k + occurrences k reqs)
unfolding granted occurrences
granted-eq-min ts k [] m h = omega arith
granted-eq-min ts k ((now, j) ∷ reqs) m h =
    let m' = (memory_take now j m).1 in
    let (ok, counted, max, dur) = memory_take_lem ts now j k m h.0 in
    let rest = granted-eq-min ts k reqs m' (rw dur h.1) in
    elim (Bool-cases (str_eq j k)) [
      | inr n ↦
          let same : used ts m' k ≡ used ts m k = rw n at counted in
          elim (Bool-cases (memory_take now j m).0) [
            | inl z ↦ rw (z, n) (omega arith)
            | inr z ↦ rw (z, n) (omega arith)
          ]
      | inl y ↦
          let key : used ts m j ≡ used ts m k = ap (used ts m) ((eq_iff j k).0 y) in
          let more : used ts m' k ≡ used ts m j + 1 = rw y at counted in
          elim (Bool-cases (ltb (used ts m j) m.max)) [
            | inl z ↦ rw (ok ∙ z, y) (omega (arith, ltb→lt _ _ z))
            | inr z ↦ rw (ok ∙ z, y) (omega (arith, ltb-false _ _ z))
          ]
    ]

-- A pair of limiters fails only where both do. The second is asked, and changed, only if the first
-- fails; else the answer is the first one's.
pub fallback-take :
    {S T : Type 0} (primary : Limiter S) (secondary : Limiter T) (now : ℕ) (key : String) (s : S)
    (t : T)
    → (((fallback_limiter primary secondary).take now key (s, t)).0 ≡ none)
      ↔ (((primary.take now key s).0 ≡ none) × ((secondary.take now key t).0 ≡ none))
unfolding fallback_limiter
fallback-take primary secondary now key s t = elim (Option-cases (primary.take now key s).0) [
  | inl n ↦ rw n ((λ e. (refl, e)), (λ h. h.1))
  | inr (ok, q) ↦ rw q ((λ e. cc), (λ h. cc (h.0)))
]
