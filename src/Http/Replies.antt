-- ===== src/Http/Replies.antt =====
-- proxyd/server.go: `HandleRPC` writes one response, that fits the call.
use infra.Base.{
  ℕ, ◌<◌, ◌≤◌, ◌≡◌, ◌⊎◌, ◌↔◌, inl, inr, refl, ap, ◌∙◌, Bool, true, false, Option, none, some,
  String, str_eq, List, [], ◌∷◌, length, map, All, In, ltb, ◌==◌, Bool-cases, Option-cases, arith,
}
use infra.Rpc.{
  is_batch, Bytes, RpcReq, RpcRes, RpcErr, is_error, req_ids, res_ids, err_parse_err, err_internal,
  err_invalid_request, err_request_body_too_large, err_too_many_batch_requests,
}
use infra.Limits.{Limiter}
use infra.Forward.SortOrder.{Distinct}
use infra.Server.{Elem, BatchGroup, Batches}
use infra.Server.Batch.{Outcome, responded, late, refused, crashed}
use infra.Server.Taken.{wanted_id, IsProper}
use infra.Server.Answers.{Answered, Answered-crash, handle_batch_rpc-Answered}
use infra.Http.{
  BodyRead, over_limit, unreadable, whole, HttpRequest, Content, empty, single, batch, Written,
}
use infra.Http.Settings.{Pattern, ServerConfig, Server, new_server}
use infra.Http.Sizes.{new_server-sizes}
use infra.Http.Context.{Context, strip_xff, populate_context}
use infra.Http.Limit.{Lims, Txs}
use infra.Http.Handle.{
  status_of, write_rpc_res, write_rpc_error, write_batch_rpc_res, with_headers, Backends,
  outside_of, write_batch, write_first, handle_parts, handle_batch, handle_body, handle_in,
  handle_rpc,
}

-- The IDs wanted of the parts of a body.
abbrev pub wanted : (Bytes → Option RpcReq) → List Bytes → List Bytes
wanted unmarshal_req parts =
    let reqs = map unmarshal_req parts in map (wanted_id (length reqs)) reqs

module _ {L : Type 0} (unmarshal_batch : Bytes → Option (List Bytes))
    (unmarshal_req : Bytes → Option RpcReq) (s : Server L) where
  -- One response is for the call as a whole, and an error without an ID, or for its only request.
  abbrev pub IsSingle : BodyRead → RpcRes → Type 0
  IsSingle body r =
      ((is_error r ≡ true) × (r.id ≡ []))
      ⊎ ((bytes : Bytes) × (body ≡ whole bytes)
          × (is_batch bytes ≡ false)
          × (r.id ∷ [] ≡ wanted unmarshal_req (bytes ∷ [])))

  -- Those of a batch are for its parts, of which there are some and not too many.
  abbrev pub IsWhole : BodyRead → List (Option RpcRes) → Type 0
  IsWhole body slots =
      (bytes : Bytes) × (parts : List Bytes) × (rs : List RpcRes) × (body ≡ whole bytes)
      × (is_batch bytes ≡ true)
      × (unmarshal_batch bytes ≡ some parts)
      × (0 < length parts)
      × (length parts ≤ s.max_batch_size)
      × (slots ≡ map some rs)
      × (res_ids rs ≡ wanted unmarshal_req parts)

  abbrev pub Fits : HttpRequest → ℕ → Content → Type 0
  Fits r status empty = (status ≡ 401) × (populate_context s.authenticated_paths r ≡ none)
  Fits r status (single res) = (status ≡ status_of res) × IsSingle r.body res
  Fits r status (batch slots) = (status ≡ 200) × IsWhole r.body slots

  -- The requests of a body: those of a batch, or the body itself.
  abbrev pub IsBody : BodyRead → List Bytes → Type 0
  IsBody body parts =
      (bytes : Bytes) × (body ≡ whole bytes)
      × ((unmarshal_batch bytes ≡ some parts) ⊎ (parts ≡ bytes ∷ []))

  -- What `HandleRPC` writes fits the call; it panics only if `P` on the IDs wanted of its
  -- requests.
  pub Replies : (List Bytes → Type 0) → HttpRequest → Option Written → Type 0
  Replies P r none = (parts : List Bytes) × IsBody r.body parts × P (wanted unmarshal_req parts)
  Replies P r (some w) = Fits r w.status w.content

  error-Replies :
      (P : List Bytes → Type 0) (r : HttpRequest) (e : RpcErr)
      → Replies P r (some (write_rpc_error e))
  unfolding Replies write_rpc_error write_rpc_res
  error-Replies P r e = (refl, inl (refl, refl))

  write_first-Replies :
      (P : List Bytes → Type 0) (r : HttpRequest) (bytes : Bytes) (o : Outcome)
      → r.body ≡ whole bytes
      → is_batch bytes ≡ false
      → Answered (P (wanted unmarshal_req (bytes ∷ []))) (wanted unmarshal_req (bytes ∷ [])) o
      → Replies P r (write_first s o)
  unfolding Replies write_first Answered with_headers write_rpc_res write_rpc_error
  write_first-Replies P r bytes (responded [] c b) h k ([], e, w) = cc w
  write_first-Replies P r bytes (responded [] c b) h k (x ∷ rs, e, w) = cc e
  write_first-Replies P r bytes (responded (none ∷ slots) c b) h k ([], e, w) = cc e
  write_first-Replies P r bytes (responded (none ∷ slots) c b) h k (x ∷ rs, e, w) = cc e
  write_first-Replies P r bytes (responded (some y ∷ slots) c b) h k ([], e, w) = cc e
  write_first-Replies P r bytes (responded (some y ∷ slots) c b) h k (x ∷ rs, e, w) =
      let same : y ≡ x = cc e in
      let one : x.id ≡ wanted_id 1 (unmarshal_req bytes) = cc w in
      (refl, inr (bytes, h, k, ap (λ i. i ∷ []) (ap (λ (z : RpcRes). z.id) same ∙ one)))
  write_first-Replies P r bytes late h k a = (refl, inl (refl, refl))
  write_first-Replies P r bytes (refused f) h k a = (refl, inl (refl, refl))
  write_first-Replies P r bytes crashed h k a = (bytes ∷ [], (bytes, h, inr refl), a)

  write_batch-Replies :
      (P : List Bytes → Type 0) (r : HttpRequest) (bytes : Bytes) (parts : List Bytes) (o : Outcome)
      → r.body ≡ whole bytes
      → is_batch bytes ≡ true
      → unmarshal_batch bytes ≡ some parts
      → 0 < length parts
      → length parts ≤ s.max_batch_size
      → Answered (P (wanted unmarshal_req parts)) (wanted unmarshal_req parts) o
      → Replies P r (write_batch s o)
  unfolding Replies write_batch Answered with_headers write_batch_rpc_res write_rpc_error
      write_rpc_res
  write_batch-Replies P r bytes parts (responded slots c b) h k u p m (rs, e, w) =
      (refl, (bytes, parts, rs, h, k, u, p, m, e, w))
  write_batch-Replies P r bytes parts late h k u p m a = (refl, inl (refl, refl))
  write_batch-Replies P r bytes parts (refused f) h k u p m a = (refl, inl (refl, refl))
  write_batch-Replies P r bytes parts crashed h k u p m a = (parts, (bytes, h, inl u), a)

-- What the server relies on: the cache answers with the ID of the request, and each group that a
-- method is mapped to leaves the IDs of requests with distinct IDs and, when it answers them without an
-- error, gives the responses in their order.
unfoldable pub IsReliable : {S : Type 0} → Backends S → Type 0
IsReliable {S} b =
    ((req : RpcReq) (st : S) (r : RpcRes) → (b.get_rpc req st).0 ≡ some r → r.id ≡ req.id)
    × ((m : String) (batched : Bool) (reqs : List RpcReq) (st : S)
        → str_eq (b.group_of_method m) "" ≡ false
        → Distinct (req_ids reqs)
        → IsProper reqs (b.forward (b.group_of_method m) batched reqs st).0)

-- A group panics on requests with distinct IDs, all of them wanted.
abbrev pub Panics : {S : Type 0} → Backends S → List Bytes → Type 0
Panics {S} b want =
    (group : String) × (batched : Bool) × (reqs : List RpcReq) × (st : S) × Distinct (req_ids reqs)
    × All (λ k. In k want) (req_ids reqs)
    × ((b.forward group batched reqs st).0 ≡ none)

-- The batches are ranged over in some order that has them all.
abbrev pub HasAll : (Batches → Batches) → Type 0
HasAll order = (bs : Batches) (b : BatchGroup × List Elem) → In b (order bs) ↔ In b bs

module _ {L S T : Type 0} (lim : Limiter L) (instant : ℕ → ℕ) (txs : Txs T) (b : Backends S)
    (unmarshal_batch : Bytes → Option (List Bytes)) (unmarshal_req : Bytes → Option RpcReq)
    (order : Batches → Batches) (s : Server L) (reliable : IsReliable b) (ranged : HasAll order)
    (positive : 0 < s.max_upstream_batch_size) where
  handle_parts-Answered :
      (exempt batched : Bool) (xff : String) (parts : List Bytes) (st : Lims L × S)
      → Answered (Panics b (wanted unmarshal_req parts)) (wanted unmarshal_req parts) (
          handle_parts lim instant txs b unmarshal_batch unmarshal_req order s exempt batched xff
            parts st)
  unfolding IsReliable handle_parts outside_of
  handle_parts-Answered exempt batched xff parts st =
      Answered-crash _ (Panics b (wanted unmarshal_req parts)) (wanted unmarshal_req parts) _
        (λ p. let (g, is_batch, reqs, st', d, w, e) = p in (g, is_batch, reqs, st'.1, d, w, e))
        (handle_batch_rpc-Answered (outside_of lim instant txs b s exempt xff)
          s.max_upstream_batch_size batched order (map unmarshal_req parts) st positive
          (λ req st r e. reliable.0 req st.1 r e)
          (λ m known batched reqs st. reliable.1 m batched reqs st.1 known) ranged)

  handle_batch-Replies :
      (r : HttpRequest) (bytes : Bytes) (exempt : Bool) (xff : String) (st : Lims L × S)
      → r.body ≡ whole bytes
      → is_batch bytes ≡ true
      → Replies unmarshal_batch unmarshal_req s (Panics b) r (
          handle_batch lim instant txs b unmarshal_batch unmarshal_req order s exempt xff
            (unmarshal_batch bytes)
            st)
  unfolding handle_batch
  handle_batch-Replies r bytes exempt xff st h k = elim (Option-cases (unmarshal_batch bytes)) [
    | inl e ↦ rw e (error-Replies unmarshal_batch unmarshal_req s (Panics b) r err_parse_err)
    | inr (parts, e) ↦ elim (Bool-cases (ltb s.max_batch_size (length parts))) [
      | inl y ↦
          rw (handle_batch, e, y)
            (error-Replies unmarshal_batch unmarshal_req s (Panics b) r err_too_many_batch_requests)
      | inr n ↦ elim (Bool-cases (length parts == 0)) [
        | inl z ↦
            rw (handle_batch, e, n, z)
              (error-Replies unmarshal_batch unmarshal_req s (Panics b) r
                (err_invalid_request "must specify at least one batch call"))
        | inr z ↦
            rw (handle_batch, e, n, z)
              (write_batch-Replies unmarshal_batch unmarshal_req s (Panics b) r bytes parts
                (handle_parts lim instant txs b unmarshal_batch unmarshal_req order s exempt true
                  xff parts st)
                h k e (ground arith) (ground arith)
                (handle_parts-Answered exempt true xff parts st))
      ]
    ]
  ]

  handle_body-Replies :
      (r : HttpRequest) (exempt : Bool) (xff : String) (body : BodyRead) (st : Lims L × S)
      → r.body ≡ body
      → Replies unmarshal_batch unmarshal_req s
          (Panics b)
          r
          (handle_body lim instant txs b unmarshal_batch unmarshal_req order s exempt xff body st)
  unfolding handle_body
  handle_body-Replies r exempt xff over_limit st h =
      error-Replies unmarshal_batch unmarshal_req s (Panics b) r err_request_body_too_large
  handle_body-Replies r exempt xff unreadable st h =
      error-Replies unmarshal_batch unmarshal_req s (Panics b) r err_internal
  handle_body-Replies r exempt xff (whole bytes) st h = elim (Bool-cases (is_batch bytes)) [
    | inl y ↦ rw (handle_body, y) (handle_batch-Replies r bytes exempt xff st h y)
    | inr n ↦
        rw (handle_body, n)
          (write_first-Replies unmarshal_batch unmarshal_req s (Panics b) r bytes
            (handle_parts lim instant txs b unmarshal_batch unmarshal_req order s exempt false xff
              (bytes ∷ []) st)
            h n (handle_parts-Answered exempt false xff (bytes ∷ []) st))
  ]

  handle_in-Replies :
      (r : HttpRequest) (ctx : Context) (st : Lims L × S)
      → Replies unmarshal_batch unmarshal_req s
          (Panics b)
          r
          (handle_in lim instant txs b unmarshal_batch unmarshal_req order s r ctx st)
  unfolding handle_in
  handle_in-Replies r ctx st = elim (Bool-cases (str_eq (strip_xff ctx.x_forwarded_for) "")) [
    | inl y ↦
        rw (handle_in, y)
          (error-Replies unmarshal_batch unmarshal_req s (Panics b) r
            (err_invalid_request "request does not include a remote IP"))
    | inr n ↦
        rw (handle_in, n) (handle_body-Replies r _ (strip_xff ctx.x_forwarded_for) r.body st refl)
  ]

  handle_call-Replies :
      (r : HttpRequest) (st : Lims L × S)
      → Replies unmarshal_batch unmarshal_req s
          (Panics b)
          r
          (handle_rpc lim instant txs b unmarshal_batch unmarshal_req order s r st)
  unfolding handle_rpc Replies
  handle_call-Replies r st = elim (Option-cases (populate_context s.authenticated_paths r)) [
    | inl e ↦ rw (handle_rpc, e) (refl, e)
    | inr (ctx, e) ↦ rw (handle_rpc, e) (handle_in-Replies r ctx st)
  ]

-- For a server that `NewServer` has made, whose cache answers with the IDs of requests and whose
-- groups leave the IDs of requests with distinct IDs and, when they answer those without an error, give
-- the responses in their order, with the batches ranged over in any order that has them all, and
-- whatever IDs a call repeats: `HandleRPC` panics only if a group panics on requests with distinct IDs
-- that are wanted of the call's, and else writes one response. It is a bare 401 only if the path is not
-- authenticated. Or it is one JSON-RPC response with the status of its error, or else 200: an error
-- without an ID, or the answer to the only request, with the ID that is wanted of it. Or it has status
-- 200 and is for a batch of at least one and at most `maxBatchSize` requests, itself at most 1000, with
-- one response for each request, in their order, with the ID that is wanted.
pub handle_rpc-Replies :
    {L S T : Type 0} (lim : Limiter L) (instant : ℕ → ℕ) (txs : Txs T) (b : Backends S)
    (unmarshal_batch : Bytes → Option (List Bytes)) (unmarshal_req : Bytes → Option RpcReq)
    (order : Batches → Batches) (factory : ℕ → ℕ → String → L) (compile : String → Option Pattern)
    (c : ServerConfig) (s : Server L) (r : HttpRequest) (st : Lims L × S)
    → new_server factory compile c ≡ some s
    → IsReliable b
    → HasAll order
    → Replies unmarshal_batch unmarshal_req s
        (Panics b)
        r
        (handle_rpc lim instant txs b unmarshal_batch unmarshal_req order s r st)
      × (s.max_batch_size ≤ 1000)
handle_rpc-Replies lim instant txs b unmarshal_batch unmarshal_req order factory compile c s r st
      made reliable ranged =
    let (positive, at_most) = new_server-sizes factory compile c s made in
    (
      handle_call-Replies lim instant txs b unmarshal_batch unmarshal_req order s reliable ranged
          positive r st,
      at_most,
    )
