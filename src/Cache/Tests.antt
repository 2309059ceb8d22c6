-- ===== src/Cache/Tests.antt =====
-- proxyd/cache.go and proxyd/methods.go: a cache that compresses, over one that never evicts.
use infra.Base.{
  ◌≡◌, ◌≢◌, ◌⊎◌, inl, inr, refl, subst, Option, none, some, String, str_eq, eq_iff, List, [], ◌∷◌,
  In, here, there, if◌then◌else◌, Bool-cases,
}
use infra.Json.{Json}
use infra.Rpc.{RpcReq, RpcRes, Bytes, new_rpc_res, json_rpc_version}
use infra.Cache.{Store, Lru, or_empty, memory_cache, compressed}
use infra.Cache.Stores.{Keeps, compressed-Keeps, compressed_empty}
use infra.Cache.Methods.{Codecs, static_handler, key, get_rpc, put_rpc}
use infra.Cache.Hits.{Op, ask, keep, run, Stores, get_rpc-Put}
use infra.Cache.ReadBack.{get_rpc-put_rpc}

abbrev Pairs : Type 0
Pairs = List (String × String)

abbrev find : String → Pairs → Option String
find k [] = none
find k ((j, v) ∷ s) = let rest = find k s in if str_eq j k then some v else rest

abbrev pairs : Lru Pairs
pairs = record { lookup = λ k s. (find k s, s); add = λ k v s. (k, v) ∷ s }

find-In : (k v : String) (s : Pairs) → find k s ≡ some v → In (k, v) s
find-In k v [] e = cc
find-In k v ((j, w) ∷ s) e = elim (Bool-cases (str_eq j k)) [
  | inl y ↦
      let h : some w ≡ some v = rw y at e in
      subst (λ (p : String × String). In p ((j, w) ∷ s)) (cc (h, (eq_iff j k).0 y)) (here s)
  | inr n ↦ there _ _ (find-In k v s (rw n at e))
]

got_pairs :
    (k v : String) (s : Pairs) → some (or_empty (find k s)) ≡ some v → (v ≡ "") ⊎ In (k, v) s
got_pairs k v s e = go (find k s) refl e
  where
    go : (o : Option String) → find k s ≡ o → some (or_empty o) ≡ some v → (v ≡ "") ⊎ In (k, v) s
    go none f h = inl (cc h)
    go (some w) f h = inr (find-In k v s (cc (f, h)))

put_pairs :
    (k v j w : String) (s : Pairs) → In (j, w) ((k, v) ∷ s) → In (j, w) s ⊎ ((j ≡ k) × (w ≡ v))
put_pairs k v j w s (here _) = inr (refl, refl)
put_pairs k v j w s (there _ _ m) = inl m

memory-Keeps : Keeps (memory_cache pairs)
unfolding memory_cache
memory-Keeps = record {
  may = λ s k v. In (k, v) s;
  got = got_pairs;
  on_get = λ k j w s h. h;
  on_put = put_pairs;
}

-- A text is marked, in place of compressed.
abbrev mark : String → String
mark v = String.◌∷◌ "z" v

abbrev unmark : String → Option String
unmark String.[] = none
unmark (String.◌∷◌ c s) = some s

abbrev texts : Codecs
texts = record {
  signature = λ p. elim p [ none ↦ "0" | some _ ↦ "1" ];
  marshal = λ j. elim j [ Json.text s ↦ s | _ ↦ "" ];
  unmarshal = λ s. some (Json.text s);
  parse = λ p. none;
}

abbrev store : Store Pairs
store = compressed mark unmark (memory_cache pairs)

abbrev kept : Keeps store
kept = compressed-Keeps mark unmark (λ v. refl) (memory_cache pairs) memory-Keeps

abbrev chain_id : Bytes → RpcReq
chain_id id = record { jsonrpc = json_rpc_version; method = "eth_chainId"; params = none; id = id }

abbrev answer : RpcRes
answer = new_rpc_res (b'1' ∷ []) (Json.text "0xa")

abbrev ops : List Op
ops = ask (chain_id (b'0' ∷ [])) ∷ keep (chain_id (b'1' ∷ [])) answer ∷ []

abbrev asked : RpcReq
asked = chain_id (b'2' ∷ [])

abbrev hit : RpcRes
hit = new_rpc_res (b'2' ∷ []) (Json.text "0xa")

no_pairs : (k v : String) → ¬ memory-Keeps.may [] k v
unfolding memory-Keeps
no_pairs k v m = elim m [ ]

readable :
    (q : RpcReq) (res : RpcRes)
    → In (keep q res) ops
    → texts.unmarshal (texts.marshal res.result) ≡ some res.result
readable q res (there _ _ (here _)) = refl
readable q res (there _ _ (there _ _ m)) = elim m [ ]

chain_id-Stores : Stores texts store (chain_id (b'1' ∷ [])) answer
unfolding Stores get_rpc put_rpc
chain_id-Stores = (static_handler, refl, refl, refl)

is_hit : (get_rpc texts store asked (run texts store ops [])).0 ≡ some (some hit)
unfolding run get_rpc put_rpc compressed memory_cache
is_hit = refl

get_rpc-Put_example :
    (hit.id ≡ asked.id)
    × ((q : RpcReq) × (res : RpcRes) × In (keep q res) ops
        × Stores texts store q res
        × (key texts q ≡ key texts asked)
        × (hit.result ≡ res.result))
get_rpc-Put_example =
    get_rpc-Put texts store kept ops [] asked hit
      (compressed_empty mark unmark (λ v. refl) (memory_cache pairs) memory-Keeps [] no_pairs)
      readable is_hit

marked : (v : String) → mark v ≢ ""
marked v e = cc e

added : (k v : String) (s : Pairs) → find k ((k, v) ∷ s) ≡ some v
added k v s = rw ((eq_iff k k).1 refl) refl

get_rpc-put_rpc_example :
    (get_rpc texts store asked
      (run texts store (ask asked ∷ []) (put_rpc texts store (chain_id (b'1' ∷ [])) answer []).1)).0
    ≡ some (some hit)
get_rpc-put_rpc_example =
    get_rpc-put_rpc pairs mark unmark texts (λ j k s. refl) (λ v. refl) marked
      (chain_id (b'1' ∷ [])) asked answer (asked ∷ []) [] added chain_id-Stores refl refl
      (λ e. cc e) refl
