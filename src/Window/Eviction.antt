-- ===== src/Window/Eviction.antt =====
-- proxyd/pkg/avg-sliding-window/sliding.go: `advance` drops the buckets at the front that are not
-- after the start of the window, and keeps the totals those of the buckets.
use mathlib.Core.Path.{subst}
use infra.Base.{
  ℕ, ◌+◌, ◌<◌, ◌≡◌, refl, sym, ap, ◌∙◌, inl, inr, Bool, true, some, List, [], ◌∷◌, length, ltb, u64,
  sub64, sub64_exact, if◌then◌else◌, Bool-cases, arith,
}
use infra.Base.Int.{ℤ, pos, ◌+ℤ◌, ◌-ℤ◌, int_laws}
use infra.Window.{Bucket, Window, evict, advance_over, advance, round}
use infra.Window.Buckets.{LinkedMap, lookup, erase, keys_of}

-- What the buckets hold together.
abbrev pub total_qty : List (ℕ × Bucket) → ℕ
total_qty [] = 0
total_qty ((k, b) ∷ es) = b.qty + total_qty es

abbrev pub total_sum : List (ℕ × Bucket) → ℤ
total_sum [] = pos 0
total_sum ((k, b) ∷ es) = b.sum +ℤ total_sum es

-- The front is dropped up to the first key that passes.
abbrev pub drop_until : (ℕ → Bool) → List (ℕ × Bucket) → List (ℕ × Bucket)
drop_until p [] = []
drop_until p ((k, b) ∷ es) = let rest = drop_until p es in if p k then (k, b) ∷ es else rest

module _ (lm : LinkedMap Bucket) where
  -- The totals of a window are those of its buckets, and the count fits a `uint`.
  pub record IsSound (w : Window lm) : Type 0 where
    pub qty_total : w.qty ≡ total_qty (lm.entries w.buckets)
    pub sum_total : w.sum ≡ total_sum (lm.entries w.buckets)
    pub fits : total_qty (lm.entries w.buckets) < u64

  lookup_head : (k : ℕ) (b : Bucket) (es : List (ℕ × Bucket)) → lookup k ((k, b) ∷ es) ≡ some b
  lookup_head k b es = ground arith

  erase_head : (k : ℕ) (b : Bucket) (es : List (ℕ × Bucket)) → erase k ((k, b) ∷ es) ≡ es
  erase_head k b es = ground arith

  -- The window without its first bucket, whose other buckets are given.
  abbrev pub evicted : Window lm → ℕ → Bucket → List (ℕ × Bucket) → Window lm
  evicted w k b [] = record w { buckets = lm.remove w.buckets k; qty = 0; sum = pos 0 }
  evicted w k b (e ∷ es) = record w {
    buckets = lm.remove w.buckets k;
    qty = sub64 w.qty b.qty;
    sum = w.sum -ℤ b.sum;
  }

  some_left : (x : ℕ × Bucket) (es : List (ℕ × Bucket)) → ltb 0 (length (x ∷ es)) ≡ true
  some_left x es = ground arith

  -- The first bucket is evicted.
  pub evict_head :
      (w : Window lm) (k : ℕ) (b : Bucket) (es : List (ℕ × Bucket))
      → lm.entries w.buckets ≡ (k, b) ∷ es
      → (evict lm w k ≡ evicted w k b es) × (lm.entries (lm.remove w.buckets k) ≡ es)
  unfolding evict
  evict_head w k b es e =
      let found : lm.get w.buckets k ≡ some b =
        lm.get_entries w.buckets k ∙ ap (lookup k) e ∙ lookup_head k b es in
      let rest : lm.entries (lm.remove w.buckets k) ≡ es =
        lm.entries_remove w.buckets k ∙ ap (erase k) e ∙ erase_head k b es in
      let size : lm.size (lm.remove w.buckets k) ≡ length es =
        lm.size_entries (lm.remove w.buckets k) ∙ ap length rest in
      (rw (found, size, evict) (by_rest es), rest)
    where
      by_rest :
          (es : List (ℕ × Bucket))
          → (if ltb 0 (length es)
              then record w {
                buckets = lm.remove w.buckets k;
                qty = sub64 w.qty b.qty;
                sum = w.sum -ℤ b.sum;
              }
              else record w { buckets = lm.remove w.buckets k; qty = 0; sum = pos 0 })
            ≡ evicted w k b es
      by_rest [] = refl
      by_rest (x ∷ es) = rw (some_left x es) refl

  evict-IsSound :
      (w : Window lm) (k : ℕ) (b : Bucket) (es : List (ℕ × Bucket))
      → lm.entries w.buckets ≡ (k, b) ∷ es
      → IsSound w
      → IsSound (evict lm w k)
  evict-IsSound w k b [] e sound =
      let (q, rest) = evict_head w k b [] e in
      rw q (record {
        qty_total = sym (ap total_qty rest);
        sum_total = sym (ap total_sum rest);
        fits = omega (arith, ap total_qty rest);
      })
  evict-IsSound w k b ((j, c) ∷ es) e sound =
      let (q, rest) = evict_head w k b ((j, c) ∷ es) e in
      let qty : w.qty ≡ b.qty + total_qty ((j, c) ∷ es) = sound.qty_total ∙ ap total_qty e in
      let fits : b.qty + total_qty ((j, c) ∷ es) < u64 =
        omega (arith, ap total_qty e, sound.fits) in
      let sum : w.sum ≡ b.sum +ℤ total_sum ((j, c) ∷ es) = sound.sum_total ∙ ap total_sum e in
      let minus : sub64 w.qty b.qty ≡ total_qty ((j, c) ∷ es) =
        omega (arith, sub64_exact w.qty b.qty) in
      let minus_sum : w.sum -ℤ b.sum ≡ total_sum ((j, c) ∷ es) = rw sum (omega int_laws) in
      rw q (record {
        qty_total = minus ∙ sym (ap total_qty rest);
        sum_total = minus_sum ∙ sym (ap total_sum rest);
        fits = omega (arith, ap total_qty rest);
      })

  evict-entries :
      (w : Window lm) (k : ℕ) (b : Bucket) (es : List (ℕ × Bucket))
      → lm.entries w.buckets ≡ (k, b) ∷ es
      → (lm.entries (evict lm w k).buckets ≡ es)
        × ((evict lm w k).window_length ≡ w.window_length)
        × ((evict lm w k).bucket_size ≡ w.bucket_size)
  evict-entries w k b [] e = let (q, rest) = evict_head w k b [] e in rw q (rest, refl, refl)
  evict-entries w k b ((j, c) ∷ es) e =
      let (q, rest) = evict_head w k b ((j, c) ∷ es) e in rw q (rest, refl, refl)

  -- What the loop does on all keys of a window.
  advance_over_lem :
      (now : ℕ) (w : Window lm) (es : List (ℕ × Bucket))
      → lm.entries w.buckets ≡ es
      → IsSound w
      → IsSound (advance_over lm now w (keys_of es))
        × (lm.entries (advance_over lm now w (keys_of es)).buckets
            ≡ drop_until (λ k. ltb now (k + w.window_length)) es)
        × ((advance_over lm now w (keys_of es)).window_length ≡ w.window_length)
        × ((advance_over lm now w (keys_of es)).bucket_size ≡ w.bucket_size)
  unfolding advance_over
  advance_over_lem now w [] e sound = (sound, e, refl, refl)
  advance_over_lem now w ((k, b) ∷ es) e sound = elim (Bool-cases (ltb now (k + w.window_length))) [
    | inl y ↦ rw y (sound, e, refl, refl)
    | inr n ↦
        let (rest, same, size) = evict-entries w k b es e in
        let (later, dropped, length', size') =
          advance_over_lem now (evict lm w k) es rest (evict-IsSound w k b es e sound) in
        rw n (
          later,
          subst
              (λ l.
                lm.entries (advance_over lm now (evict lm w k) (keys_of es)).buckets
                ≡ drop_until (λ j. ltb now (j + l)) es)
              same dropped,
          length' ∙ same,
          size' ∙ size,
        )
  ]

  -- From a sound window `advance` leaves a sound one: it drops the buckets at the front up to the
  -- first whose key is after the start of the window, and keeps the settings.
  pub advance_lem :
      (clock : ℕ) (w : Window lm)
      → IsSound w
      → IsSound (advance lm clock w)
        × (lm.entries (advance lm clock w).buckets
            ≡ drop_until
                (λ k. ltb (round w.bucket_size clock) (k + w.window_length))
                (lm.entries w.buckets))
        × ((advance lm clock w).window_length ≡ w.window_length)
        × ((advance lm clock w).bucket_size ≡ w.bucket_size)
  unfolding advance
  advance_lem clock w sound =
      rw (lm.keys_entries w.buckets)
        (advance_over_lem (round w.bucket_size clock) w (lm.entries w.buckets) refl sound)
