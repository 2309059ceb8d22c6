-- ===== src/Cache/Hits.antt =====
-- proxyd/cache.go and proxyd/methods.go: what a hit of the cache of responses comes from.
use infra.Base.{
  ◌≡◌, ◌≢◌, ◌⊎◌, inl, inr, refl, sym, ap, ◌∙◌, true, Option, none, some, String, str_eq, eq_iff,
  List, [], ◌∷◌, In, here, there, Bool-cases, Option-cases,
}
use infra.Rpc.{RpcReq, RpcRes}
use infra.Cache.{Store}
use infra.Cache.Stores.{Keeps}
use infra.Cache.Methods.{
  Handler, handler_of, Codecs, filter_get, filter_put, key, respond, get_rpc_method, put_rpc_method,
  get_rpc, put_rpc,
}

-- A call of the cache.
pub data Op : Type 0 where
  ask : RpcReq → Op
  keep : RpcReq → RpcRes → Op

module _ (codecs : Codecs) {S : Type 0} (c : Store S) where
  -- The calls, from the first on.
  unfoldable pub run : List Op → S → S
  run [] s = s
  run (ask req ∷ ops) s = run ops (get_rpc codecs c req s).1
  run (keep req res ∷ ops) s = run ops (put_rpc codecs c req res s).1

  -- The response is one that the cache stores for the request.
  unfoldable pub Stores : RpcReq → RpcRes → Type 0
  Stores req res =
      (h : Handler) × (handler_of req.method ≡ some h)
      × (filter_get codecs h req ≡ true)
      × (filter_put codecs h res ≡ true)

  -- A value was put under a key by one of the calls.
  unfoldable pub Put : List Op → String → String → Type 0
  Put ops k v =
      (req : RpcReq) × (res : RpcRes) × In (keep req res) ops
      × Stores req res
      × (key codecs req ≡ k)
      × (codecs.marshal res.result ≡ v)

  Put-there : (op : Op) (ops : List Op) (k v : String) → Put ops k v → Put (op ∷ ops) k v
  unfolding Put
  Put-there op ops k v (req, res, m, st, e, w) = (req, res, there _ _ m, st, e, w)

  module _ (keeps : Keeps c) where
    ask_may :
        (req : RpcReq) (s : S) (k v : String)
        → keeps.may (get_rpc codecs c req s).1 k v
        → keeps.may s k v
    unfolding get_rpc get_rpc_method
    ask_may req s k v m = elim (Option-cases (handler_of req.method)) [
      | inl n ↦ (rw (get_rpc, n) at m)
      | inr (h, y) ↦ elim (Bool-cases (filter_get codecs h req)) [
        | inl p ↦ keeps.on_get (key codecs req) k v s (rw (get_rpc, y, get_rpc_method, p) at m)
        | inr p ↦ (rw (get_rpc, y, get_rpc_method, p) at m)
      ]
    ]

    keep_may :
        (req : RpcReq) (res : RpcRes) (ops : List Op) (s : S) (k v : String)
        → keeps.may (put_rpc codecs c req res s).1 k v
        → keeps.may s k v ⊎ Put (keep req res ∷ ops) k v
    unfolding put_rpc put_rpc_method Put Stores
    keep_may req res ops s k v m = elim (Option-cases (handler_of req.method)) [
      | inl n ↦ inl (rw (put_rpc, n) at m)
      | inr (h, y) ↦ elim (Bool-cases (filter_get codecs h req)) [
        | inr p ↦ inl (rw (put_rpc, y, put_rpc_method, p) at m)
        | inl p ↦ elim (Bool-cases (filter_put codecs h res)) [
          | inr q ↦ inl (rw (put_rpc, y, put_rpc_method, p, q) at m)
          | inl q ↦
              elim (keeps.on_put (key codecs req) (codecs.marshal res.result) k v s
                (rw (put_rpc, y, put_rpc_method, p, q) at m)) [
                  | inl old ↦ inl old
                  | inr (e, w) ↦ inr (req, res, here _, (h, y, p, q), sym e, sym w)
                ]
        ]
      ]
    ]

    -- What the cache may return after the calls was there before or was put by one of them.
    run_may :
        (ops : List Op) (s : S) (k v : String)
        → keeps.may (run ops s) k v
        → keeps.may s k v ⊎ Put ops k v
    unfolding run
    run_may [] s k v m = inl m
    run_may (ask req ∷ ops) s k v m = elim (run_may ops (get_rpc codecs c req s).1 k v m) [
      | inl h ↦ inl (ask_may req s k v h)
      | inr p ↦ inr (Put-there (ask req) ops k v p)
    ]
    run_may (keep req res ∷ ops) s k v m = elim (run_may ops (put_rpc codecs c req res s).1 k v m) [
      | inl h ↦ keep_may req res ops s k v h
      | inr p ↦ inr (Put-there (keep req res) ops k v p)
    ]

    -- A value that gives a hit.
    respond_hit :
        (req : RpcReq) (o : Option String) (r : RpcRes)
        → respond codecs req o ≡ some (some r)
        → (v : String) × (o ≡ some v)
          × (v ≢ "")
          × (codecs.unmarshal v ≡ some r.result)
          × (r.id ≡ req.id)
    unfolding respond
    respond_hit req none r e = cc
    respond_hit req (some v) r e = elim (Bool-cases (str_eq v "")) [
      | inl y ↦ cc (rw y at e)
      | inr n ↦ elim (Option-cases (codecs.unmarshal v)) [
        | inl u ↦ cc (rw (n, u) at e)
        | inr (j, u) ↦
            let r' : RpcRes = record {
              jsonrpc = req.jsonrpc;
              result = j;
              error = none;
              id = req.id;
            } in
            let e' : some (some r') ≡ some (some r) = rw (n, u) at e in
            let same : r' ≡ r = cc e' in
            (
              v,
              refl,
              (λ z. cc ((eq_iff v "").1 z, n)),
              u ∙ ap (λ (x : RpcRes). some x.result) same,
              ap (λ (x : RpcRes). x.id) (sym same),
            )
      ]
    ]

    -- Over a cache that returns nothing but what was put, after any calls from an empty one, where
    -- the results that were put can be read back: a hit has the request's ID, and the result of a
    -- response that was put before for a request with the same key, and that the cache stores.
    pub get_rpc-Put :
        (ops : List Op) (s : S) (req : RpcReq) (r : RpcRes)
        → ((k v : String) → ¬ keeps.may s k v)
        → ((q : RpcReq) (res : RpcRes)
            → In (keep q res) ops
            → codecs.unmarshal (codecs.marshal res.result) ≡ some res.result)
        → (get_rpc codecs c req (run ops s)).0 ≡ some (some r)
        → (r.id ≡ req.id)
          × ((q : RpcReq) × (res : RpcRes) × In (keep q res) ops
              × Stores q res
              × (key codecs q ≡ key codecs req)
              × (r.result ≡ res.result))
    unfolding get_rpc get_rpc_method Put
    get_rpc-Put ops s req r empty inverse e = elim (Option-cases (handler_of req.method)) [
      | inl n ↦ cc (rw (get_rpc, n) at e)
      | inr (h, y) ↦ elim (Bool-cases (filter_get codecs h req)) [
        | inr p ↦ cc (rw (get_rpc, y, get_rpc_method, p) at e)
        | inl p ↦
            let (v, got, some_text, read, id) =
              respond_hit req _ r (rw (get_rpc, y, get_rpc_method, p) at e) in
            elim (keeps.got (key codecs req) v (run ops s) got) [
              | inl z ↦ absurd (some_text z)
              | inr m ↦ elim (run_may ops s (key codecs req) v m) [
                | inl old ↦ absurd (empty _ _ old)
                | inr (q, res, k, st, same, w) ↦
                    (id, (q, res, k, st, same, cc (read, w, inverse q res k)))
              ]
            ]
      ]
    ]
