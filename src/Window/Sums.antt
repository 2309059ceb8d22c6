-- ===== src/Window/Sums.antt =====
-- proxyd/pkg/avg-sliding-window/sliding.go: a window keeps its totals while points are added, and
-- `Sum` and `Count` are those of the buckets in the window; `Clear` breaks that.
use infra.Base.{
  ℕ, ◌+◌, ◌≤◌, ◌<◌, ◌≡◌, ◌≢◌, refl, sym, ap, ◌∙◌, inl, inr, true, false, List, [], ◌∷◌, select,
  select-eq_self, All, All-map, ltb, ◌==◌, ==_iff, u64, add64, Bool-cases, arith,
}
use infra.Base.Int.{ℤ, pos_part, neg_part, ◌+ℤ◌, ◌-ℤ◌, int_laws}
use infra.Window.{Bucket, bucket_of, Window, record_point}
use infra.Window.Buckets.{LinkedMap, lookup, insert}
use infra.Window.Eviction.{total_qty, total_sum, drop_until, IsSound}

total_qty-insert :
    (k : ℕ) (b : Bucket) (es : List (ℕ × Bucket))
    → total_qty (insert k b es) + (bucket_of (lookup k es)).qty ≡ total_qty es + b.qty
total_qty-insert k b [] = omega arith
total_qty-insert k b ((j, c) ∷ es) = elim (Bool-cases (j == k)) [
  | inl y ↦ rw y (omega arith)
  | inr n ↦ rw n (omega (arith, total_qty-insert k b es))
]

total_sum-insert :
    (k : ℕ) (b : Bucket) (es : List (ℕ × Bucket))
    → total_sum (insert k b es) +ℤ (bucket_of (lookup k es)).sum ≡ total_sum es +ℤ b.sum
total_sum-insert k b [] = omega int_laws
total_sum-insert k b ((j, c) ∷ es) = elim (Bool-cases (j == k)) [
  | inl y ↦ rw y (omega int_laws)
  | inr n ↦ rw n (
      let rest = total_sum-insert k b es in
      let parts = ap pos_part rest in let parts' = ap neg_part rest in omega int_laws)
]

bucket_of-le : (k : ℕ) (es : List (ℕ × Bucket)) → (bucket_of (lookup k es)).qty ≤ total_qty es
bucket_of-le k [] = omega arith
bucket_of-le k ((j, c) ∷ es) = elim (Bool-cases (j == k)) [
  | inl y ↦ rw y (omega arith)
  | inr n ↦ rw n (omega (arith, bucket_of-le k es))
]

-- The keys grow along the buckets.
abbrev pub Rising : List (ℕ × Bucket) → Type 0
Rising [] = Unit
Rising ((k, b) ∷ es) = All (λ e. k < e.0) es × Rising es

ltb_above : (now k j l : ℕ) → ltb now (k + l) ≡ true → k < j → ltb now (j + l) ≡ true
ltb_above now k j l h above = ground arith

not_same : (j k : ℕ) → (j == k) ≡ false → j ≢ k
not_same j k n e = ground arith

above_insert :
    (j k : ℕ) (b : Bucket) (es : List (ℕ × Bucket))
    → j < k
    → All (λ e. j < e.0) es
    → All (λ e. j < e.0) (insert k b es)
above_insert j k b [] h a = (h, tt)
above_insert j k b ((i, c) ∷ es) h a = elim (Bool-cases (i == k)) [
  | inl y ↦ rw y (h, a.1)
  | inr n ↦ rw n (a.0, above_insert j k b es h a.1)
]

-- Behind the first key that passes all keys pass, so dropping the front is selecting.
pub drop_until-select :
    (now length : ℕ) (es : List (ℕ × Bucket))
    → Rising es
    → drop_until (λ k. ltb now (k + length)) es ≡ select (λ e. ltb now (e.0 + length)) es
drop_until-select now l [] h = refl
drop_until-select now l ((k, b) ∷ es) h = elim (Bool-cases (ltb now (k + l))) [
  | inr n ↦ rw n (drop_until-select now l es h.1)
  | inl y ↦ rw y (
      ap (λ xs. (k, b) ∷ xs)
        (sym (
          select-eq_self (λ e. ltb now (e.0 + l)) es
            (All-map _ (λ e. ltb now (e.0 + l) ≡ true) es (λ e above. ltb_above now k e.0 l y above)
              h.0))))
]

-- A key put behind all others.
pub Rising-insert :
    (k : ℕ) (b : Bucket) (es : List (ℕ × Bucket))
    → Rising es
    → All (λ e. e.0 ≤ k) es
    → Rising (insert k b es)
Rising-insert k b [] h a = (tt, tt)
Rising-insert k b ((j, c) ∷ es) h a = elim (Bool-cases (j == k)) [
  | inl y ↦
      let same : j ≡ k = (==_iff j k).0 y in
      rw y (All-map _ (λ e. k < e.0) es (λ e lt. omega arith) h.0, h.1)
  | inr n ↦
      let other : j < k = omega (arith, a.0, λ (e : j ≡ k). not_same j k n e) in
      rw n (above_insert j k b es other h.0, Rising-insert k b es h.1 a.1)
]

add64_one : (a : ℕ) → a + 1 < u64 → add64 a 1 ≡ a + 1
unfolding add64
add64_one a h = omega arith

module _ (lm : LinkedMap Bucket) where
  -- A point of value `val` in the bucket `b`.
  abbrev pub with_point : Bucket → ℤ → Bucket
  with_point b val = record { sum = b.sum +ℤ val; qty = add64 b.qty 1 }

  pub record_point-entries :
      (key : ℕ) (val : ℤ) (w : Window lm)
      → (lm.entries (record_point lm key val w).buckets
          ≡ insert key
              (with_point (bucket_of (lookup key (lm.entries w.buckets))) val)
              (lm.entries w.buckets))
        × ((record_point lm key val w).qty ≡ add64 w.qty 1)
        × ((record_point lm key val w).sum
            ≡ (w.sum -ℤ (bucket_of (lookup key (lm.entries w.buckets))).sum)
              +ℤ ((bucket_of (lookup key (lm.entries w.buckets))).sum +ℤ val))
  unfolding record_point
  record_point-entries key val w =
      let found : bucket_of (lm.get w.buckets key) ≡ bucket_of (lookup key (lm.entries w.buckets)) =
        ap bucket_of (lm.get_entries w.buckets key) in
      (
        lm.entries_put w.buckets key _
            ∙ ap (λ (b : Bucket). insert key (with_point b val) (lm.entries w.buckets)) found,
        refl,
        ap (λ (b : Bucket). (w.sum -ℤ b.sum) +ℤ (b.sum +ℤ val)) found,
      )

  -- A point in the window adds its value to the sum and 1 to the count, and keeps the totals.
  pub record_point-IsSound :
      (key : ℕ) (val : ℤ) (w : Window lm)
      → IsSound lm w
      → total_qty (lm.entries w.buckets) + 1 < u64
      → IsSound lm (record_point lm key val w)
        × ((record_point lm key val w).qty ≡ w.qty + 1)
        × ((record_point lm key val w).sum ≡ w.sum +ℤ val)
  record_point-IsSound key val w sound room =
      let es = lm.entries w.buckets in
      let old = bucket_of (lookup key es) in
      let new = with_point old val in
      let (entries, qty, sum) = record_point-entries key val w in
      let one : add64 old.qty 1 ≡ old.qty + 1 =
        add64_one old.qty (omega (arith, bucket_of-le key es)) in
      let more : add64 w.qty 1 ≡ w.qty + 1 = add64_one w.qty (omega (arith, sound.qty_total)) in
      let total : total_qty (insert key new es) ≡ w.qty + 1 =
        omega (arith, total_qty-insert key new es, sound.qty_total) in
      let same_sum : (w.sum -ℤ old.sum) +ℤ (old.sum +ℤ val) ≡ w.sum +ℤ val = omega int_laws in
      let inserted = total_sum-insert key new es in
      let parts = ap pos_part inserted in
      let parts' = ap neg_part inserted in
      let whole : total_sum (insert key new es) ≡ total_sum es +ℤ val = omega int_laws in
      (
        record {
          qty_total = qty ∙ more ∙ sym total ∙ sym (ap total_qty entries);
          sum_total =
              sum
              ∙ same_sum
              ∙ ap (λ x. x +ℤ val) sound.sum_total
              ∙ sym whole
              ∙ sym (ap total_sum entries);
          fits = omega (arith, ap total_qty entries, sound.qty_total);
        },
        qty ∙ more,
        sum ∙ same_sum,
      )
