-- ===== src/Limits.antt =====
-- proxyd/frontend_rate_limiter.go: how many requests of a key pass in an interval of time.
--
-- Instants are nanoseconds since Go's zero time. A counter of the source is an `int`, which does
-- not come near its bound. The mutexes make each `Take` one step. Redis is an argument: the value
-- that its pipeline of `INCR` and `PEXPIRE` returns.
pub mod Counts
mod Tests
use infra.Base.{
  ℕ, ◌+◌, ◌-◌, ◌/◌, ◌%◌, Bool, true, false, Option, none, some, String, str_eq, List, [], ◌∷◌, ltb,
  ◌==◌, if◌then◌else◌,
}

-- `l.keys[key]`, with its second result, and `l.keys[key] = n`.
unfoldable pub lookup : String → List (String × ℕ) → Option ℕ
lookup k [] = none
lookup k ((j, n) ∷ keys) = if str_eq j k then some n else lookup k keys

unfoldable pub store : String → ℕ → List (String × ℕ) → List (String × ℕ)
store k n [] = (k, n) ∷ []
store k n ((j, m) ∷ keys) = if str_eq j k then (k, n) ∷ keys else (j, m) ∷ store k n keys

-- `limitedKeys`
pub record LimitedKeys : Type 0 where
  pub trunc_ts : ℕ
  pub keys : List (String × ℕ)

-- `newLimitedKeys`
abbrev pub new_limited_keys : ℕ → LimitedKeys
new_limited_keys t = record { trunc_ts = t; keys = [] }

-- The value that `limitedKeys.Take` finds.
abbrev pub or_zero : Option ℕ → ℕ
or_zero none = 0
or_zero (some n) = n

-- `limitedKeys.Take`
unfoldable pub take_key : String → ℕ → LimitedKeys → Bool × LimitedKeys
unfolding lookup store
take_key key max l =
    let val = or_zero (lookup key l.keys) in
    (ltb val max, record l { keys = store key (val + 1) l.keys })

-- `truncateNow`: the interval's start, in seconds since 1970.
unfoldable pub truncate_now : ℕ → ℕ → ℕ
truncate_now dur now =
    let start = if dur == 0 then now else now - now % dur in start / 1_000_000_000 - 62_135_596_800

pub record MemoryFrontendRateLimiter : Type 0 where
  pub curr_generation : Option LimitedKeys
  pub dur : ℕ
  pub max : ℕ

-- `NewMemoryFrontendRateLimit`
abbrev pub new_memory : ℕ → ℕ → MemoryFrontendRateLimiter
new_memory dur max = record { curr_generation = none; dur = dur; max = max }

-- The generation that `Take` uses.
unfoldable pub generation : ℕ → Option LimitedKeys → LimitedKeys
generation ts none = new_limited_keys ts
generation ts (some l) = if l.trunc_ts == ts then l else new_limited_keys ts

-- `MemoryFrontendRateLimiter.Take`, which never returns an error.
unfoldable pub memory_take :
    ℕ → String → MemoryFrontendRateLimiter → Bool × MemoryFrontendRateLimiter
unfolding truncate_now generation take_key
memory_take now key m =
    let (ok, l) = take_key key m.max (generation (truncate_now m.dur now) m.curr_generation) in
    (ok, record m { curr_generation = some l })

-- A `FrontendRateLimiter` as its users see it: `none` is an error.
pub record Limiter (State : Type 0) : Type 0 where
  pub take : ℕ → String → State → Option Bool × State

abbrev pub memory_limiter : Limiter MemoryFrontendRateLimiter
memory_limiter = record {
  take = λ now key m. let (ok, m') = memory_take now key m in (some ok, m');
}

-- `RedisFrontendRateLimiter.Take`. The state is that of Redis, which `incr` steps.
unfoldable pub redis_limiter : {R : Type 0} → (ℕ → String → R → Option ℕ × R) → ℕ → Limiter R
redis_limiter incr max = record {
  take = λ now key r.
      let (val, r') = incr now key r in
      elim val [ none ↦ (none, r') | some n ↦ (some (ltb n (max + 1)), r') ];
}

-- `NoopFrontendRateLimiter`
abbrev pub noop_limiter : Limiter (Unit {0})
noop_limiter = record { take = λ now key s. (some true, s) }

-- `FallbackRateLimiter.Take`
unfoldable pub fallback_limiter : {S T : Type 0} → Limiter S → Limiter T → Limiter (S × T)
fallback_limiter primary secondary = record {
  take = λ now key st.
      let (answer, s) = primary.take now key st.0 in
      elim answer [
        | some ok ↦ (some ok, (s, st.1))
        | none ↦ let (answer', t) = secondary.take now key st.1 in (answer', (s, t))
      ];
}
