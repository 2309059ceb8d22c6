-- ===== src/Limits/Tests.antt =====
-- proxyd/frontend_rate_limiter.go: four requests of two clients in one second, of which two each may
-- pass.
use infra.Base.{ℕ, ◌+◌, ◌≡◌, refl, String, List, [], ◌∷◌, All}
use infra.Limits.{MemoryFrontendRateLimiter, new_memory, truncate_now}
use infra.Limits.Counts.{used, occurrences, granted, granted-eq-min}
use Prim.Native.Nat.{min}

abbrev limiter : MemoryFrontendRateLimiter
limiter = new_memory 1_000_000_000 2

abbrev requests : List (ℕ × String)
requests =
    (63_900_000_000_000_000_000, "alice")
    ∷ (63_900_000_000_100_000_000, "bob")
    ∷ (63_900_000_000_200_000_000, "alice")
    ∷ (63_900_000_000_900_000_000, "alice")
    ∷ []

one_second : All (λ (r : ℕ × String). truncate_now 1_000_000_000 r.0 ≡ 1_764_403_200) requests
unfolding truncate_now
one_second = (refl, (refl, (refl, (refl, tt))))

granted-eq-min_example :
    granted "alice" requests limiter + min 2 (used 1_764_403_200 limiter "alice")
    ≡ min 2 (used 1_764_403_200 limiter "alice" + occurrences "alice" requests)
granted-eq-min_example = granted-eq-min 1_764_403_200 "alice" requests limiter one_second
