-- ===== src/Window/Tests.antt =====
-- Windows over lists of entries, with buckets of ten and a length of a hundred nanoseconds.
use infra.Base.{ℕ, ◌+◌, ◌-◌, ◌≤◌, ◌<◌, ◌≡◌, refl, List, [], ◌∷◌, u64, arith}
use infra.Base.Int.{ℤ, pos, ◌+ℤ◌}
use infra.Window.{Bucket, Window, add_with_time, sum_of, count_of, clear, round}
use infra.Window.Buckets.{entry_list}
use infra.Window.Eviction.{total_sum, total_qty, IsSound}
use infra.Window.Sums.{Rising}
use infra.Window.Points.{kept, add_with_time-IsSound, sum_of-kept, count_of-clear}

abbrev buckets : List (ℕ × Bucket)
buckets = (100, record { sum = pos 7; qty = 2 }) ∷ (150, record { sum = pos 5; qty = 1 }) ∷ []

abbrev two_buckets : Window entry_list
two_buckets = record {
  bucket_size = 10;
  window_length = 100;
  buckets = buckets;
  qty = 3;
  sum = pos 12;
}

two_buckets-IsSound : IsSound entry_list two_buckets
unfolding ◌+ℤ◌
two_buckets-IsSound = record { qty_total = refl; sum_total = refl; fits = omega arith }

two_buckets-Rising : Rising buckets
two_buckets-Rising = omega arith

-- The first bucket has left the window at 204.
sum_at : (sum_of entry_list 204 two_buckets).1 ≡ pos 5
unfolding sum_of infra.Base.Int.◌-ℤ◌
sum_at = refl

add_with_time-IsSound_example :
    IsSound entry_list (add_with_time entry_list 204 204 203 (pos 4) two_buckets)
    × Rising (add_with_time entry_list 204 204 203 (pos 4) two_buckets).buckets
add_with_time-IsSound_example =
    add_with_time-IsSound entry_list 204 204 203 (pos 4) two_buckets two_buckets-IsSound
      two_buckets-Rising (unfold round in omega arith) (omega arith)

sum_of-kept_example :
    ((sum_of entry_list 204 two_buckets).1 ≡ total_sum (kept entry_list 204 two_buckets))
    × ((count_of entry_list 204 two_buckets).1 ≡ total_qty (kept entry_list 204 two_buckets))
    × ((sum_of entry_list 204 two_buckets).0.buckets ≡ kept entry_list 204 two_buckets)
    × IsSound entry_list (sum_of entry_list 204 two_buckets).0
sum_of-kept_example = sum_of-kept entry_list 204 two_buckets two_buckets-IsSound two_buckets-Rising

count_of-clear_example : (count_of entry_list 204 (clear entry_list two_buckets)).1 ≡ u64 - 2
count_of-clear_example =
    count_of-clear entry_list 204 two_buckets 100 150 (record { sum = pos 7; qty = 2 })
      (record { sum = pos 5; qty = 1 }) [] refl (unfold round in refl) (unfold round in refl)
      (omega arith) (omega arith)
