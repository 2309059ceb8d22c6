-- ===== src/Cache.antt =====
-- proxyd/cache.go: the caches of texts, and how they are put together. The LRU cache of
-- github.com/hashicorp/golang-lru, Redis and the compression of github.com/golang/snappy are
-- arguments. Times and metrics are left out; so is the time to live, which Redis keeps.
pub mod Methods
pub mod Stores
pub mod Hits
pub mod ReadBack
mod Tests
use Prim.Native.String.{◌++◌ as str_append}
use infra.Base.{Bool, true, false, Option, none, some, String, str_eq, if◌then◌else◌}

-- A `Cache`: of `Get`, `none` is an error and "" a key that is missing; of `Put`, `false` is an
-- error.
pub record Store (S : Type 0) : Type 0 where
  pub get : String → S → Option String × S
  pub put : String → String → S → Bool × S

-- `lru.Get` and `lru.Add`
pub record Lru (L : Type 0) : Type 0 where
  pub lookup : String → L → Option String × L
  pub add : String → String → L → L

abbrev pub or_empty : Option String → String
or_empty none = ""
or_empty (some v) = v

-- `cache`
unfoldable pub memory_cache : {L : Type 0} → Lru L → Store L
memory_cache lru = record {
  get = λ key s. let (val, s') = lru.lookup key s in (some (or_empty val), s');
  put = λ key value s. (true, lru.add key value s);
}

-- `fallbackCache`
unfoldable pub fallback_cache : {S T : Type 0} → Store S → Store T → Store (S × T)
fallback_cache primary secondary = record {
  get = λ key st.
      let (val, s) = primary.get key st.0 in
      elim val [
        | some v ↦ (some v, (s, st.1))
        | none ↦ let (val', t) = secondary.get key st.1 in (val', (s, t))
      ];
  put = λ key value st.
      let (ok, s) = primary.put key value st.0 in
      let (ok', t) = secondary.put key value st.1 in
      if ok then (true, (s, st.1)) else (ok', (s, t));
}

-- What Redis answers to `GET`.
pub data RedisReply : Type 0 where
  found : String → RedisReply
  missing : RedisReply
  redis_error : RedisReply

-- `redisCache.namespaced`
unfoldable pub namespaced : String → String → String
namespaced prefix key = if str_eq prefix "" then key else str_append prefix (str_append ":" key)

-- The result of `redisCache.Get` from the reply.
abbrev pub of_reply : RedisReply → Option String
of_reply (found v) = some v
of_reply missing = some ""
of_reply redis_error = none

-- `redisCache`, where a reply may come from a replica.
unfoldable pub redis_cache :
    {R : Type 0}
    → (String → R → RedisReply × R)
    → (String → String → R → Bool × R)
    → String
    → Store R
unfolding namespaced
redis_cache get set_ex prefix = record {
  get = λ key s. let (reply, s') = get (namespaced prefix key) s in (of_reply reply, s');
  put = λ key value s. set_ex (namespaced prefix key) value s;
}

-- The result of `cacheWithCompression.Get` from that of the cache below.
unfoldable pub decoded : (String → Option String) → Option String → Option String
decoded decode none = none
decoded decode (some e) = if str_eq e "" then some "" else decode e

-- `cacheWithCompression`
unfoldable pub compressed :
    {S : Type 0} → (String → String) → (String → Option String) → Store S → Store S
unfolding decoded
compressed encode decode c = record {
  get = λ key s. let (val, s') = c.get key s in (decoded decode val, s');
  put = λ key value s. c.put key (encode value) s;
}
