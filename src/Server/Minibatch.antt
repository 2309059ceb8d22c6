-- ===== src/Server/Minibatch.antt =====
-- proxyd/server.go: the requests of a batch that the cache misses, and those of a minibatch, have
-- distinct IDs as the batch has.
use infra.Base.{
  ℕ, zero, suc, ◌≡◌, ◌≢◌, get_elem?, In, there, Bool, Option, none, some, List, [], ◌∷◌, take, drop,
  All, sym,
}
use infra.Rpc.{RpcRes, Bytes, req_ids}
use infra.Forward.SortOrder
use infra.Server.{Outside, Elem}
use infra.Server.Batch.{Progress, reqs_of, with_miss, ask_cache}
use infra.Server.Slots.{All-take}
use infra.Server.Taken.{Placed, In-head}
use infra.Server.Distinct.{Distinct}

module _ {S : Type 0} (o : Outside S) (size : ℕ) (is_batch : Bool) where
  with_miss-All :
      (P : Elem → Type 0) (e : Elem) (hit : Option RpcRes) (out : List Elem × Progress S)
      → P e
      → All P out.0
      → All P (with_miss o size is_batch e hit out).0
  with_miss-All P e none out p h = (p, h)
  with_miss-All P e (some r) out p h = h

  ask_cache-All :
      (P : Elem → Type 0) (es : List Elem) (p : Progress S)
      → All P es
      → All P (ask_cache o size is_batch es p).0
  unfolding ask_cache
  ask_cache-All P [] p h = tt
  ask_cache-All P (e ∷ es) p h = with_miss-All P e _ _ h.0 (ask_cache-All P es _ h.1)

  with_miss-Distinct :
      (e : Elem) (hit : Option RpcRes) (out : List Elem × Progress S)
      → All (λ (f : Elem). f.req.id ≢ e.req.id) out.0
      → Distinct out.0
      → Distinct (with_miss o size is_batch e hit out).0
  with_miss-Distinct e none out other d = (other, d)
  with_miss-Distinct e (some r) out other d = d

  pub ask_cache-Distinct :
      (es : List Elem) (p : Progress S) → Distinct es → Distinct (ask_cache o size is_batch es p).0
  unfolding ask_cache
  ask_cache-Distinct [] p d = tt
  ask_cache-Distinct (e ∷ es) p d =
      with_miss-Distinct e _ _ (ask_cache-All (λ (f : Elem). f.req.id ≢ e.req.id) es _ d.0)
        (ask_cache-Distinct es _ d.1)

pub Distinct-take : (n : ℕ) (es : List Elem) → Distinct es → Distinct (take n es)
Distinct-take zero es d = tt
Distinct-take (suc n) [] d = tt
Distinct-take (suc n) (e ∷ es) d =
    (All-take (λ (f : Elem). f.req.id ≢ e.req.id) n es d.0, Distinct-take n es d.1)

pub Distinct-drop : (n : ℕ) (es : List Elem) → Distinct es → Distinct (drop n es)
Distinct-drop zero es d = d
Distinct-drop (suc n) [] d = tt
Distinct-drop (suc n) (e ∷ es) d = Distinct-drop n es d.1

get_elem-In : (ks : List Bytes) (i : ℕ) {k : Bytes} → get_elem? ks i ≡ some k → In k ks
get_elem-In [] i e = cc
get_elem-In (j ∷ ks) zero e = In-head (cc e) ks
get_elem-In (j ∷ ks) (suc i) e = there _ _ (get_elem-In ks i e)

-- Elements that stand for requests have IDs that are wanted.
pub Placed-wanted :
    (want : List Bytes) (es : List Elem)
    → All (Placed want) es
    → All (λ k. In k want) (req_ids (reqs_of es))
Placed-wanted want [] h = tt
Placed-wanted want (e ∷ es) h = (get_elem-In want e.index h.0, Placed-wanted want es h.1)

All-ids :
    (k : Bytes) (es : List Elem)
    → All (λ (f : Elem). f.req.id ≢ k) es
    → All (λ j. k ≢ j) (req_ids (reqs_of es))
All-ids k [] h = tt
All-ids k (e ∷ es) h = ((λ z. h.0 (sym z)), All-ids k es h.1)

-- Elements with distinct IDs are requests with distinct IDs, as `sortBatchRPCResponse` needs them.
pub reqs_of-Distinct : (es : List Elem) → Distinct es → SortOrder.Distinct (req_ids (reqs_of es))
reqs_of-Distinct [] d = tt
reqs_of-Distinct (e ∷ es) d = (All-ids e.req.id es d.0, reqs_of-Distinct es d.1)
