-- ===== src/Window/Points.antt =====
-- proxyd/pkg/avg-sliding-window/sliding.go: what the operations of a window promise: they keep its
-- totals, and `Sum` and `Count` speak of the buckets in the window; but not after `Clear`.
use infra.Base.{
  ℕ, ◌+◌, ◌-◌, ◌≤◌, ◌<◌, ◌≡◌, ap, ◌∙◌, inl, inr, Bool, true, false, not, List, [], ◌∷◌, select, All,
  ltb, u64, sub64_wraps, Bool-cases, arith,
}
use infra.Base.Int.{ℤ}
use infra.Window.{Bucket, Window, in_window, advance, add_with_time, sum_of, count_of, clear, round}
use infra.Window.Buckets.{LinkedMap, keys_of}
use infra.Window.Eviction.{total_qty, total_sum, drop_until, IsSound, evict_head, advance_lem}
use infra.Window.Sums.{
  Rising, Rising-insert, drop_until-select, record_point-IsSound, record_point-entries,
}

All-drop_until :
    (P : ℕ × Bucket → Type 0) (p : ℕ → Bool) (es : List (ℕ × Bucket))
    → All P es
    → All P (drop_until p es)
All-drop_until P p [] h = tt
All-drop_until P p ((k, b) ∷ es) h = elim (Bool-cases (p k)) [
  | inl y ↦ rw y h
  | inr n ↦ rw n (All-drop_until P p es h.1)
]

Rising-drop_until : (p : ℕ → Bool) (es : List (ℕ × Bucket)) → Rising es → Rising (drop_until p es)
Rising-drop_until p [] h = tt
Rising-drop_until p ((k, b) ∷ es) h = elim (Bool-cases (p k)) [
  | inl y ↦ rw y h
  | inr n ↦ rw n (Rising-drop_until p es h.1)
]

total_qty-drop_until :
    (p : ℕ → Bool) (es : List (ℕ × Bucket)) → total_qty (drop_until p es) ≤ total_qty es
total_qty-drop_until p [] = omega arith
total_qty-drop_until p ((k, b) ∷ es) = elim (Bool-cases (p k)) [
  | inl y ↦ rw y (omega arith)
  | inr n ↦ rw n (omega (arith, total_qty-drop_until p es))
]

module _ (lm : LinkedMap Bucket) where
  -- The buckets that are in the window at an instant.
  abbrev pub kept : ℕ → Window lm → List (ℕ × Bucket)
  kept clock w =
      select (λ e. ltb (round w.bucket_size clock) (e.0 + w.window_length)) (lm.entries w.buckets)

  -- `AddWithTime`, at an instant whose bucket is not before another one, keeps the totals of a
  -- window those of its buckets, and the order of the buckets, as long as there is room to count
  -- the point.
  pub add_with_time-IsSound :
      (clock clock' t : ℕ) (val : ℤ) (w : Window lm)
      → IsSound lm w
      → Rising (lm.entries w.buckets)
      → All (λ e. e.0 ≤ round w.bucket_size t) (lm.entries w.buckets)
      → total_qty (lm.entries w.buckets) + 1 < u64
      → IsSound lm (add_with_time lm clock clock' t val w)
        × Rising (lm.entries (add_with_time lm clock clock' t val w).buckets)
  unfolding add_with_time
  add_with_time-IsSound clock clock' t val w sound rising last room =
      let (sound', entries, length', size) = advance_lem lm clock w sound in
      let p = λ (k : ℕ). ltb (round w.bucket_size clock) (k + w.window_length) in
      let es = lm.entries w.buckets in
      let key = round w.bucket_size t in
      let w' = advance lm clock w in
      let rising' : Rising (lm.entries w'.buckets) = rw entries (Rising-drop_until p es rising) in
      let last' : All (λ e. e.0 ≤ key) (lm.entries w'.buckets) =
        rw entries (All-drop_until (λ e. e.0 ≤ key) p es last) in
      let room' : total_qty (lm.entries w'.buckets) + 1 < u64 =
        omega (arith, ap total_qty entries, total_qty-drop_until p es) in
      elim (Bool-cases (not (in_window lm clock' w' key))) [
        | inl out ↦ rw out (sound', rising')
        | inr into ↦ rw into (
          (record_point-IsSound lm key val w' sound' room').0,
          rw ((record_point-entries lm key val w').0)
              (Rising-insert key _ (lm.entries w'.buckets) rising' last'),
        )
      ]

  -- Of a sound window with its buckets in order, `Sum` is the sum and `Count` the number of the
  -- points in just those buckets that are in the window, and just those buckets are kept.
  pub sum_of-kept :
      (clock : ℕ) (w : Window lm)
      → IsSound lm w
      → Rising (lm.entries w.buckets)
      → ((sum_of lm clock w).1 ≡ total_sum (kept clock w))
        × ((count_of lm clock w).1 ≡ total_qty (kept clock w))
        × (lm.entries (sum_of lm clock w).0.buckets ≡ kept clock w)
        × IsSound lm (sum_of lm clock w).0
  unfolding sum_of count_of
  sum_of-kept clock w sound rising =
      let (sound', entries, length', size) = advance_lem lm clock w sound in
      let same =
        entries
        ∙ drop_until-select (round w.bucket_size clock) w.window_length (lm.entries w.buckets)
            rising in
      (sound'.sum_total ∙ ap total_sum same, sound'.qty_total ∙ ap total_qty same, same, sound')

  -- `Clear` leaves the buckets. Where the first of them, with some points, has left the window
  -- since and the second has not, the count of a cleared window wraps around below 0.
  pub count_of-clear :
      (clock : ℕ) (w : Window lm) (k k' : ℕ) (b b' : Bucket) (es : List (ℕ × Bucket))
      → lm.entries w.buckets ≡ (k, b) ∷ (k', b') ∷ es
      → ltb (round w.bucket_size clock) (k + w.window_length) ≡ false
      → ltb (round w.bucket_size clock) (k' + w.window_length) ≡ true
      → 0 < b.qty
      → b.qty < u64
      → (count_of lm clock (clear lm w)).1 ≡ u64 - b.qty
  unfolding count_of clear
  count_of-clear clock w k k' b b' es e old young some fits =
      let (gone, rest) = evict_head lm (clear lm w) k b ((k', b') ∷ es) e in
      let keys : lm.keys w.buckets ≡ k ∷ k' ∷ keys_of es =
        lm.keys_entries w.buckets ∙ ap keys_of e in
      rw (keys, old) (rw gone (rw young (sub64_wraps 0 b.qty some fits)))
