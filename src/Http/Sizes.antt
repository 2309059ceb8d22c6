-- ===== src/Http/Sizes.antt =====
-- proxyd/server.go: the sizes of batches that `NewServer` makes a server with.
use infra.Base.{ℕ, ◌<◌, ◌≤◌, ◌≡◌, subst, Option, none, some, String, Option-cases, arith, inl, inr}
use infra.Http.Settings.{Pattern, ServerConfig, Server, or_default, capped, base_limits, new_server}

abbrev HasSizes : {L : Type 0} → Option (Server L) → Type 0
HasSizes none = Unit
HasSizes (some s) = (0 < s.max_upstream_batch_size) × (s.max_batch_size ≤ 1000)

or_default_pos : (n d : ℕ) → 0 < d → 0 < or_default n d
unfolding or_default
or_default_pos n d h = ground arith

capped_le : (n : ℕ) → capped n ≤ 1000
unfolding capped
capped_le n = ground arith

-- The sizes of batches that a server is made with.
pub new_server-sizes :
    {L : Type 0} (factory : ℕ → ℕ → String → L) (compile : String → Option Pattern)
    (c : ServerConfig) (s : Server L)
    → new_server factory compile c ≡ some s
    → (0 < s.max_upstream_batch_size) × (s.max_batch_size ≤ 1000)
unfolding new_server
new_server-sizes factory compile c s h =
    subst HasSizes h (elim (Option-cases (base_limits factory compile c.rate_limit)) [
      | inl e ↦ rw (new_server, e) tt
      | inr (r, e) ↦
          rw (new_server, e)
            (
              or_default_pos c.max_upstream_batch_size 10 (omega arith),
              capped_le (or_default c.max_batch_size 100),
            )
    ])
