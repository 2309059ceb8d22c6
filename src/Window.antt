-- ===== src/Window.antt =====
-- proxyd/pkg/avg-sliding-window/sliding.go: moving sums over buckets of time.
--
-- Instants and durations are numbers of nanoseconds, an instant since Go's zero time. A `float64`
-- is an integer: all that the repository adds to a window is 1 or a duration, and such sums are
-- exact up to 2^53. The map of the buckets is the imported one, as an interface. Each reading of
-- the clock is an argument. The mutex makes each operation one step.
pub mod Buckets
pub mod Eviction
pub mod Sums
pub mod Points
mod Tests
use infra.Base.{
  ℕ, ◌+◌, ◌-◌, ◌*◌, ◌%◌, Bool, not, ◌&&◌, Option, none, some, List, [], ◌∷◌, ltb, leb, ◌==◌, add64,
  sub64, if◌then◌else◌,
}
use infra.Base.Int.{ℤ, pos, ◌+ℤ◌, ◌-ℤ◌}
use Buckets.{LinkedMap}

pub record Bucket : Type 0 where
  pub sum : ℤ
  pub qty : ℕ

-- `b` of `AddWithTime`: the bucket found, or an empty one.
abbrev pub bucket_of : Option Bucket → Bucket
bucket_of none = record { sum = pos 0; qty = 0 }
bucket_of (some current) = current

-- `t.Round(d)`: to the nearest multiple of `d`, half way up.
unfoldable pub round : ℕ → ℕ → ℕ
round d t = if ltb (2 * (t % d)) d then t - t % d else t + (d - t % d)

module _ (lm : LinkedMap Bucket) where
  -- An `AvgSlidingWindow`
  pub record Window : Type 0 where
    pub bucket_size : ℕ
    pub window_length : ℕ
    pub buckets : lm.Map
    pub qty : ℕ
    pub sum : ℤ

  -- `NewSlidingWindow`, with the options for the two durations; 0 stands for the default.
  unfoldable pub new_sliding_window : ℕ → ℕ → Window
  new_sliding_window bucket_size window_length = record {
    bucket_size = if bucket_size == 0 then 1_000_000_000 else bucket_size;
    window_length = if window_length == 0 then 300_000_000_000 else window_length;
    buckets = lm.new;
    qty = 0;
    sum = pos 0;
  }

  -- `k.After(windowStart)`, where `now` is rounded.
  abbrev pub is_after_start : Window → ℕ → ℕ → Bool
  is_after_start w now k = ltb now (k + w.window_length)

  -- `inWindow`
  unfoldable pub in_window : ℕ → Window → ℕ → Bool
  unfolding round
  in_window clock w t = let now = round w.bucket_size clock in is_after_start w now t && leb t now

  -- One pass of the loop of `advance`, on a key that is not after the start. The type assertion of
  -- the source panics on a key that the map does not have; the loop meets only keys of the map.
  unfoldable pub evict : Window → ℕ → Window
  evict w k = elim (lm.get w.buckets k) [
    | none ↦ w
    | some b ↦
        let rest = lm.remove w.buckets k in
        if ltb 0 (lm.size rest)
        then record w { buckets = rest; qty = sub64 w.qty b.qty; sum = w.sum -ℤ b.sum }
        else record w { buckets = rest; qty = 0; sum = pos 0 }
  ]

  -- The loop of `advance` over a copy of the keys.
  unfoldable pub advance_over : ℕ → Window → List ℕ → Window
  unfolding evict
  advance_over now w [] = w
  advance_over now w (k ∷ ks) =
      let rest = advance_over now (evict w k) ks in if is_after_start w now k then w else rest

  -- `advance`
  unfoldable pub advance : ℕ → Window → Window
  unfolding advance_over round
  advance clock w = advance_over (round w.bucket_size clock) w (lm.keys w.buckets)

  -- The end of `AddWithTime`, for a key in the window.
  unfoldable pub record_point : ℕ → ℤ → Window → Window
  record_point key val w =
      let b = bucket_of (lm.get w.buckets key) in
      let b_sum = b.sum +ℤ val in
      record w {
        buckets = lm.put w.buckets key (record { sum = b_sum; qty = add64 b.qty 1 });
        qty = add64 w.qty 1;
        sum = (w.sum -ℤ b.sum) +ℤ b_sum;
      }

  -- `AddWithTime`, with the clock as `advance` and `inWindow` read it.
  unfoldable pub add_with_time : ℕ → ℕ → ℕ → ℤ → Window → Window
  unfolding advance in_window record_point
  add_with_time clock clock' t val w =
      let w' = advance clock w in
      let key = round w.bucket_size t in
      if not (in_window clock' w' key) then w' else record_point key val w'

  -- `Add` and `Incr`, which read the clock first.
  unfoldable pub add : ℕ → ℕ → ℕ → ℤ → Window → Window
  unfolding add_with_time
  add t clock clock' val w = add_with_time clock clock' t val w

  unfoldable pub incr : ℕ → ℕ → ℕ → Window → Window
  unfolding add
  incr t clock clock' w = add t clock clock' (pos 1) w

  -- `Sum` and `Count`, with the window that they leave.
  unfoldable pub sum_of : ℕ → Window → Window × ℤ
  unfolding advance
  sum_of clock w = let w' = advance clock w in (w', w'.sum)

  unfoldable pub count_of : ℕ → Window → Window × ℕ
  unfolding advance
  count_of clock w = let w' = advance clock w in (w', w'.qty)

  -- `Avg`, as a fraction.
  unfoldable pub avg_of : ℕ → Window → Window × ℤ × ℕ
  unfolding advance
  avg_of clock w =
      let w' = advance clock w in if w'.qty == 0 then (w', pos 0, 1) else (w', w'.sum, w'.qty)

  -- `Clear`
  unfoldable pub clear : Window → Window
  clear w = record w { qty = 0; sum = pos 0 }
