-- ===== src/Cache/ReadBack.antt =====
-- proxyd/cache.go and proxyd/methods.go: a response that is stored in a memory cache with compression
-- is found again.
use infra.Base.{
  ◌≡◌, ◌≢◌, inl, inr, refl, ap, ◌∙◌, true, Option, none, some, String, str_eq, eq_iff, List, [],
  ◌∷◌, map, Bool-cases, Option-cases,
}
use infra.Json.{Json}
use infra.Rpc.{RpcReq, RpcRes}
use infra.Cache.{Store, Lru, memory_cache, compressed, decoded}
use infra.Cache.Methods.{
  Handler, static_handler, debug_get_raw_receipts_handler, handler_of, Codecs, filter_get, key,
  respond, get_rpc_method, put_rpc_method, get_rpc, put_rpc,
}
use infra.Cache.Hits.{ask, run, Stores}

module _ (codecs : Codecs) where
  respond_text :
      (q : RpcReq) (result : Json)
      → codecs.marshal result ≢ ""
      → codecs.unmarshal (codecs.marshal result) ≡ some result
      → respond codecs q (some (codecs.marshal result))
        ≡ some (some (record { jsonrpc = q.jsonrpc; result = result; error = none; id = q.id }))
  unfolding respond
  respond_text q result text inverse = elim (Bool-cases (str_eq (codecs.marshal result) "")) [
    | inl y ↦ absurd (text ((eq_iff _ _).0 y))
    | inr n ↦ rw (respond, n, inverse) refl
  ]

  same_filter :
      (h : Handler) (q req : RpcReq)
      → q.params ≡ req.params
      → filter_get codecs h q ≡ filter_get codecs h req
  unfolding filter_get
  same_filter static_handler q req params = refl
  same_filter debug_get_raw_receipts_handler q req params = rw params refl

  module _ {S : Type 0} (c : Store S) where
    -- Where the response is stored, the cache below is put its result.
    put_rpc_stored :
        (req : RpcReq) (res : RpcRes) (s : S)
        → Stores codecs c req res
        → (put_rpc codecs c req res s).1 ≡ (c.put (key codecs req) (codecs.marshal res.result) s).1
    unfolding put_rpc put_rpc_method Stores
    put_rpc_stored req res s (h, y, p, f) = rw (put_rpc, y, put_rpc_method, p, f) refl

    -- The text of the result in the cache below answers a request with the same key.
    get_rpc_stored :
        (req q : RpcReq) (res : RpcRes) (s : S)
        → Stores codecs c req res
        → q.method ≡ req.method
        → q.params ≡ req.params
        → codecs.marshal res.result ≢ ""
        → codecs.unmarshal (codecs.marshal res.result) ≡ some res.result
        → (c.get (key codecs req) s).0 ≡ some (codecs.marshal res.result)
        → (get_rpc codecs c q s).0
          ≡ some
              (some (record { jsonrpc = q.jsonrpc; result = res.result; error = none; id = q.id }))
    unfolding get_rpc get_rpc_method Stores key
    get_rpc_stored req q res s (h, y, p, f) method params text inverse got =
        let y' : handler_of q.method ≡ some h = ap handler_of method ∙ y in
        let p' : filter_get codecs h q ≡ true = same_filter h q req params ∙ p in
        let k : key codecs q ≡ key codecs req = rw (method, params) refl in
        rw (get_rpc, y', get_rpc_method, p', k)
          (ap (respond codecs q) got ∙ respond_text q res.result text inverse)

module _ {L : Type 0} (lru : Lru L) (encode : String → String) (decode : String → Option String)
    (codecs : Codecs)
    (kept_by_get : (j k : String) (s : L)
      → (lru.lookup k (lru.lookup j s).1).0 ≡ (lru.lookup k s).0)
    (undone : (v : String) → decode (encode v) ≡ some v)
    (some_text : (v : String) → encode v ≢ "") where
  -- A memory cache with compression.
  abbrev pub in_memory : Store L
  in_memory = compressed encode decode (memory_cache lru)

  -- A request that is looked up takes nothing out of the cache.
  ask_keeps :
      (q : RpcReq) (s : L) (k : String) {w : String}
      → (lru.lookup k s).0 ≡ some w
      → (lru.lookup k (get_rpc codecs in_memory q s).1).0 ≡ some w
  unfolding get_rpc get_rpc_method compressed memory_cache
  ask_keeps q s k h = elim (Option-cases (handler_of q.method)) [
    | inl n ↦ rw (get_rpc, n) h
    | inr (handler, y) ↦ elim (Bool-cases (filter_get codecs handler q)) [
      | inl p ↦ rw (get_rpc, y, get_rpc_method, p) (kept_by_get (key codecs q) k s ∙ h)
      | inr p ↦ rw (get_rpc, y, get_rpc_method, p) h
    ]
  ]

  asks_keep :
      (qs : List RpcReq) (s : L) (k : String) {w : String}
      → (lru.lookup k s).0 ≡ some w
      → (lru.lookup k (run codecs in_memory (map ask qs) s)).0 ≡ some w
  unfolding run
  asks_keep [] s k h = h
  asks_keep (q ∷ qs) s k h = asks_keep qs (get_rpc codecs in_memory q s).1 k (ask_keeps q s k h)

  in_memory-got :
      (k v : String) (s : L) → (lru.lookup k s).0 ≡ some (encode v) → (in_memory.get k s).0 ≡ some v
  unfolding compressed memory_cache decoded
  in_memory-got k v s h = rw h (elim (Bool-cases (str_eq (encode v) "")) [
    | inl y ↦ absurd (some_text v ((eq_iff _ _).0 y))
    | inr n ↦ rw n (undone v)
  ])

  -- In a memory cache with compression, where the LRU cache returns what was added last and a lookup
  -- takes nothing out of it, the compression can be undone and leaves no text empty, and the result
  -- has a text that can be read back: after a response was stored and until the next one is stored, so
  -- after any lookups, a request for the same method and parameters is answered with its result and
  -- with the ID and the version of that request.
  pub get_rpc-put_rpc :
      (req q : RpcReq) (res : RpcRes) (asked : List RpcReq) (s : L)
      → ((k v : String) (t : L) → (lru.lookup k (lru.add k v t)).0 ≡ some v)
      → Stores codecs in_memory req res
      → q.method ≡ req.method
      → q.params ≡ req.params
      → codecs.marshal res.result ≢ ""
      → codecs.unmarshal (codecs.marshal res.result) ≡ some res.result
      → (get_rpc codecs in_memory q
          (run codecs in_memory (map ask asked) (put_rpc codecs in_memory req res s).1)).0
        ≡ some (some (record { jsonrpc = q.jsonrpc; result = res.result; error = none; id = q.id }))
  get_rpc-put_rpc req q res asked s added stored method params text inverse =
      get_rpc_stored codecs in_memory req q res _ stored method params text inverse (
        in_memory-got (key codecs req) (codecs.marshal res.result) _
          (asks_keep asked _ (key codecs req) put_there))
    where
      put_there :
          (lru.lookup (key codecs req) (put_rpc codecs in_memory req res s).1).0
          ≡ some (encode (codecs.marshal res.result))
      put_there =
          ap (λ t. (lru.lookup (key codecs req) t).0)
            (put_rpc_stored codecs in_memory req res s stored)
          ∙ unfold compressed memory_cache in added (key codecs req) _ s
