-- ===== src/Http/Settings.antt =====
-- proxyd/server.go: `NewServer`, which puts defaults for what is not configured and makes the limiters.
--
-- `regexp.Compile` is an argument: a pattern as a test of a text, or an error. Durations are
-- nanoseconds.
use infra.Base.{
  ℕ, Bool, Option, none, some, String, str_eq, List, [], ◌∷◌, ltb, ◌==◌, ◌>>=◌, if◌then◌else◌,
}
use infra.Base.Dict.{Dict}

abbrev pub Pattern : Type 0
Pattern = String → Bool

-- An entry of `MethodOverrides`
pub record Override : Type 0 where
  pub limit : ℕ
  pub interval : ℕ
  pub global : Bool

-- `RateLimitConfig`
pub record RateLimitConfig : Type 0 where
  pub base_rate : ℕ
  pub base_interval : ℕ
  pub exempt_origins : List String
  pub exempt_user_agents : List String
  pub method_overrides : Dict Override
  pub ip_header_override : String

-- `SenderRateLimitConfig`
pub record SenderRateLimitConfig : Type 0 where
  pub enabled : Bool
  pub interval : ℕ
  pub limit : ℕ
  pub allowed_chain_ids : List ℕ

-- The arguments of `NewServer` that it does not only store.
pub record ServerConfig : Type 0 where
  pub max_body_size : ℕ
  pub authenticated_paths : Dict String
  pub timeout : ℕ
  pub max_upstream_batch_size : ℕ
  pub max_batch_size : ℕ
  pub enable_served_by_header : Bool
  pub rate_limit : RateLimitConfig
  pub sender_rate_limit : SenderRateLimitConfig

-- `Server`, with limiters in `L`. `main_lim` is `none` for `NoopFrontendRateLimiter`, `sender_lim` for
-- nil.
pub record Server (L : Type 0) : Type 0 where
  pub max_body_size : ℕ
  pub authenticated_paths : Dict String
  pub timeout : ℕ
  pub max_upstream_batch_size : ℕ
  pub max_batch_size : ℕ
  pub enable_served_by_header : Bool
  pub main_lim : Option L
  pub override_lims : Dict L
  pub sender_lim : Option L
  pub allowed_chain_ids : List ℕ
  pub lim_exempt_origins : List Pattern
  pub lim_exempt_user_agents : List Pattern
  pub globally_limited_methods : List String
  pub rate_limit_header : String

abbrev pub max_batch_rpc_calls_hard_limit : ℕ
max_batch_rpc_calls_hard_limit = 1000

unfoldable pub or_default : ℕ → ℕ → ℕ
or_default n d = if n == 0 then d else n

unfoldable pub capped : ℕ → ℕ
capped n = if ltb max_batch_rpc_calls_hard_limit n then max_batch_rpc_calls_hard_limit else n

-- The loops that compile patterns.
unfoldable pub compile_all : (String → Option Pattern) → List String → Option (List Pattern)
compile_all compile [] = some []
compile_all compile (s ∷ ss) = do p ← compile s; ps ← compile_all compile ss; some (p ∷ ps)

module _ {L : Type 0} (limiter_factory : ℕ → ℕ → String → L) where
  -- The loop over the overrides, for their limiters.
  unfoldable pub override_limiters : Dict Override → Dict L
  override_limiters [] = []
  override_limiters ((method, o) ∷ os) =
      (method, limiter_factory o.interval o.limit method) ∷ override_limiters os

  -- The same, for the methods that are limited for everyone.
  unfoldable pub global_methods : Dict Override → List String
  global_methods [] = []
  global_methods ((method, o) ∷ os) =
      let rest = global_methods os in if o.global then method ∷ rest else rest

  -- The base limiter with the patterns that are exempt from it.
  unfoldable pub base_limits :
      (String → Option Pattern) → RateLimitConfig → Option (Option L × List Pattern × List Pattern)
  unfolding compile_all
  base_limits compile c =
      if ltb 0 c.base_rate
      then (do
        origins ← compile_all compile c.exempt_origins
        agents ← compile_all compile c.exempt_user_agents
        some (some (limiter_factory c.base_interval c.base_rate "main"), origins, agents))
      else some (none, [], [])

  -- `NewServer`: `none` is the error of a pattern.
  unfoldable pub new_server : (String → Option Pattern) → ServerConfig → Option (Server L)
  unfolding or_default capped override_limiters global_methods base_limits
  new_server compile c = do
    (main, origins, agents) ← base_limits compile c.rate_limit
    some (record {
      max_body_size = or_default c.max_body_size 262_144;
      authenticated_paths = c.authenticated_paths;
      timeout = or_default c.timeout 10_000_000_000;
      max_upstream_batch_size = or_default c.max_upstream_batch_size 10;
      max_batch_size = capped (or_default c.max_batch_size 100);
      enable_served_by_header = c.enable_served_by_header;
      main_lim = main;
      override_lims = override_limiters c.rate_limit.method_overrides;
      sender_lim =
          (if c.sender_rate_limit.enabled
            then some
                (limiter_factory c.sender_rate_limit.interval c.sender_rate_limit.limit "senders")
            else none);
      allowed_chain_ids = c.sender_rate_limit.allowed_chain_ids;
      lim_exempt_origins = origins;
      lim_exempt_user_agents = agents;
      globally_limited_methods = global_methods c.rate_limit.method_overrides;
      rate_limit_header =
          (if str_eq c.rate_limit.ip_header_override ""
            then "X-Forwarded-For"
            else c.rate_limit.ip_header_override);
    })
