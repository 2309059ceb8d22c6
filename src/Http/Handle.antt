-- ===== src/Http/Handle.antt =====
-- proxyd/server.go: `HandleRPC` and the functions that write a response.
--
-- `json.Unmarshal` of the body is an argument: of a batch into its parts, and of a part into a
-- request. The backends are those of Server.antt. `none` is a panic.
use infra.Base.{
  ℕ, Bool, true, false, ◌||◌, Option, none, some, String, str_eq, List, [], ◌∷◌, length, map, ltb,
  ◌==◌, if◌then◌else◌,
}
use infra.Base.Dict.{lookup}
use infra.Rpc.{
  is_batch, Bytes, RpcReq, RpcRes, RpcErr, new_rpc_error_res, err_parse_err, err_internal,
  err_invalid_request, err_request_body_too_large, err_too_many_batch_requests, err_gateway_timeout,
}
use infra.Limits.{Limiter}
use infra.Server.{Outside, Reply, Batches}
use infra.Server.Batch.{Outcome, responded, late, refused, crashed, handle_batch_rpc}
use infra.Http.{BodyRead, over_limit, unreadable, whole, HttpRequest, empty, single, batch, Written}
use infra.Http.Settings.{Server}
use infra.Http.Context.{Context, strip_xff, populate_context}
use infra.Http.Limit.{Lims, Txs, is_unlimited, is_limited, rate_limit_sender}

-- `writeRPCRes`: the status is that of the error, unless it has none.
unfoldable pub status_of : RpcRes → ℕ
status_of res = elim res.error [
  | none ↦ 200
  | some e ↦ if e.http_error_code == 0 then 200 else e.http_error_code
]

unfoldable pub write_rpc_res : RpcRes → Written
unfolding status_of
write_rpc_res res = record {
  status = status_of res;
  served_by = none;
  cache_status = none;
  content = single res;
}

-- `writeRPCError`, of an error with its own code and without an ID.
unfoldable pub write_rpc_error : RpcErr → Written
unfolding write_rpc_res
write_rpc_error e = write_rpc_res (new_rpc_error_res [] e)

-- `writeBatchRPCRes`
unfoldable pub write_batch_rpc_res : List (Option RpcRes) → Written
write_batch_rpc_res res = record {
  status = 200;
  served_by = none;
  cache_status = none;
  content = batch res;
}

-- `setCacheHeader`
unfoldable pub cache_header : Bool → String
cache_header true = "HIT"
cache_header false = "MISS"

-- The headers that are set before a response is written.
unfoldable pub with_headers : {L : Type 0} → Server L → Bool → List String → Written → Written
unfolding cache_header
with_headers s cached served_by w = record w {
  served_by = (if s.enable_served_by_header then some served_by else none);
  cache_status = some (cache_header cached);
}

-- The backends as the server reaches them, over a state of their own.
pub record Backends (S : Type 0) : Type 0 where
  pub group_of_method : String → String
  pub get_rpc : RpcReq → S → Option RpcRes × S
  pub put_rpc : RpcReq → RpcRes → S → S
  pub forward : String → Bool → List RpcReq → S → Option Reply × S
  pub expired : S → Bool

-- A step of the limiters, and one of the backends.
abbrev pub of_lims : {A L S : Type 0} → A × L → L × S → A × (L × S)
of_lims (a, l) (_, s) = (a, (l, s))

abbrev pub of_backends : {A L S : Type 0} → A × S → L × S → A × (L × S)
of_backends (a, s) (l, _) = (a, (l, s))

abbrev pub is_there : {A : Type 0} → Option A → Bool
is_there none = false
is_there (some _) = true

module _ {L : Type 0} (s : Server L) where
  -- The end of `HandleRPC`, for a batch.
  unfoldable pub write_batch : Outcome → Option Written
  unfolding write_rpc_error write_batch_rpc_res with_headers
  write_batch (responded slots cached served_by) =
      some (with_headers s cached served_by (write_batch_rpc_res slots))
  write_batch late = some (write_rpc_error err_gateway_timeout)
  write_batch (refused f) =
      some (
        write_rpc_error (if f.ends_call then err_invalid_request f.shown.message else err_internal))
  write_batch crashed = none

  -- The same, for one request: a call that is late fails like any other, and nil is written as
  -- it is.
  unfoldable pub write_first : Outcome → Option Written
  unfolding write_rpc_res write_rpc_error with_headers
  write_first (responded (some r ∷ slots) cached served_by) =
      some (with_headers s cached served_by (write_rpc_res r))
  write_first (responded _ cached served_by) = none
  write_first late = some (write_rpc_error err_internal)
  write_first (refused f) =
      some (
        write_rpc_error (if f.ends_call then err_invalid_request f.shown.message else err_internal))
  write_first crashed = none

module _ {L S T : Type 0} (lim : Limiter L) (instant : ℕ → ℕ) (txs : Txs T) (b : Backends S) where
  -- What `handleBatchRPC` reaches in a call: whether it is exempt, and its address.
  unfoldable pub outside_of : Server L → Bool → String → Outside (Lims L × S)
  unfolding is_limited rate_limit_sender lookup
  outside_of s exempt xff = record {
    is_limited = λ method st. of_lims (is_limited lim instant s exempt xff method st.0) st;
    has_override = λ method. is_there (lookup method s.override_lims);
    rate_limit_sender = λ req st. of_lims (rate_limit_sender lim instant txs s req st.0) st;
    group_of_method = b.group_of_method;
    get_rpc = λ req st. of_backends (b.get_rpc req st.1) st;
    put_rpc = λ req res st. (st.0, b.put_rpc req res st.1);
    forward = λ group is_batch reqs st. of_backends (b.forward group is_batch reqs st.1) st;
    expired = λ st. b.expired st.1;
  }

  module _ (unmarshal_batch : Bytes → Option (List Bytes)) (unmarshal_req : Bytes → Option RpcReq)
      (order : Batches → Batches) (s : Server L) where
    -- `handleBatchRPC` on the texts of requests.
    unfoldable pub handle_parts : Bool → Bool → String → List Bytes → Lims L × S → Outcome
    unfolding handle_batch_rpc outside_of
    handle_parts exempt is_batch xff parts st =
        handle_batch_rpc (outside_of s exempt xff) s.max_upstream_batch_size is_batch order
          (map unmarshal_req parts) st

    -- From the parsed batch on.
    unfoldable pub handle_batch : Bool → String → Option (List Bytes) → Lims L × S → Option Written
    unfolding handle_parts write_batch
    handle_batch exempt xff none st = some (write_rpc_error err_parse_err)
    handle_batch exempt xff (some parts) st =
        if ltb s.max_batch_size (length parts)
        then some (write_rpc_error err_too_many_batch_requests)
        else if length parts == 0
        then some (write_rpc_error (err_invalid_request "must specify at least one batch call"))
        else write_batch s (handle_parts exempt true xff parts st)

    -- From the body on.
    unfoldable pub handle_body : Bool → String → BodyRead → Lims L × S → Option Written
    unfolding is_batch handle_batch write_first
    handle_body exempt xff over_limit st = some (write_rpc_error err_request_body_too_large)
    handle_body exempt xff unreadable st = some (write_rpc_error err_internal)
    handle_body exempt xff (whole body) st =
        if is_batch body
        then handle_batch exempt xff (unmarshal_batch body) st
        else write_first s (handle_parts exempt false xff (body ∷ []) st)

    -- `HandleRPC` from the context on.
    unfoldable pub handle_in : HttpRequest → Context → Lims L × S → Option Written
    unfolding is_unlimited strip_xff handle_body
    handle_in r ctx st =
        let xff = strip_xff ctx.x_forwarded_for in
        if str_eq xff ""
        then some (write_rpc_error (err_invalid_request "request does not include a remote IP"))
        else handle_body
            (is_unlimited s.lim_exempt_origins r.origin
              || is_unlimited s.lim_exempt_user_agents r.user_agent)
            xff r.body st

    -- `HandleRPC`
    unfoldable pub handle_rpc : HttpRequest → Lims L × S → Option Written
    unfolding populate_context handle_in
    handle_rpc r st = elim (populate_context s.authenticated_paths r) [
      | none ↦
          some (record { status = 401; served_by = none; cache_status = none; content = empty })
      | some ctx ↦ handle_in r ctx st
    ]
