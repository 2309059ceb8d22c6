-- ===== src/Server/Backends.antt =====
-- proxyd/server.go and proxyd/backend.go: the groups that `handleBatchRPC` forwards to, filled with the
-- loop of `ForwardRequestToBackendGroup` over their backends, as `BackendGroup.Forward` runs it in a
-- group without a consensus when there is no multicall.
use infra.Base.{
  ◌≡◌, inl, inr, refl, Bool, true, false, Option, none, some, String, List, All, Option-cases,
}
use infra.Hex.{Hex}
use infra.EthRpc.{EthRpc, BlockText}
use infra.Rpc.{RpcReq, RpcErr, req_ids}
use infra.Forward.SortOrder.{Distinct}
use infra.Forward.Send.{ForwardErr, cant_be_batched, invalid_target, permanent}
use infra.Forward.Attempts.{Target, GroupResponse, forward_request_to_backend_group}
use infra.Forward.InOrder.{IsHonest}
use infra.Forward.GroupOrder.{InOrder, group-InOrder}
use infra.Server.{Failure, Reply}
use infra.Server.Taken.{IsProper}

-- `errors.Is` with the errors that end a call.
abbrev pub is_terminal : ForwardErr → Bool
is_terminal cant_be_batched = true
is_terminal invalid_target = true
is_terminal (permanent e) = is_terminal e
is_terminal _ = false

module _ (hex : Hex) (rpc : EthRpc hex) (texts : BlockText) (shown : ForwardErr → RpcErr) where
  abbrev failure_of : Option ForwardErr → Option Failure
  failure_of none = none
  failure_of (some e) = some (record { ends_call = is_terminal e; shown = shown e })

  abbrev pub reply_of : Option (List RpcReq × GroupResponse) → Option Reply
  reply_of none = none
  reply_of (some (out, r)) =
      some (record { reqs = out; res = r.res; served_by = r.served_by; error = failure_of r.error })

  -- The answer of a group with these backends.
  abbrev pub group_reply : String → List Target → Bool → List RpcReq → Option Reply
  group_reply group backends is_batch reqs =
      reply_of (forward_request_to_backend_group hex rpc texts is_batch group reqs backends)

  no_failure : (e : Option ForwardErr) → failure_of e ≡ none → e ≡ none
  no_failure none h = refl
  no_failure (some e) h = cc

  reply_of-IsProper :
      (is_batch : Bool) (reqs : List RpcReq) (out : List RpcReq × GroupResponse)
      → InOrder hex rpc texts is_batch reqs out
      → IsProper reqs (reply_of (some out))
  reply_of-IsProper is_batch reqs (out, r) (ids, order) = (ids, (λ e. order (no_failure r.error e)))

  -- Where the backends of a group answer with the IDs of the requests that they get, in any order, the
  -- group serves requests with distinct IDs as `handleBatchRPC` relies on.
  pub group_reply-IsProper :
      (group : String) (backends : List Target) (is_batch : Bool) (reqs : List RpcReq)
      → All IsHonest backends
      → Distinct (req_ids reqs)
      → IsProper reqs (group_reply group backends is_batch reqs)
  group_reply-IsProper group backends is_batch reqs honest d =
      elim (Option-cases
        (forward_request_to_backend_group hex rpc texts is_batch group reqs backends)) [
          | inl n ↦ rw n tt
          | inr (out, e) ↦ rw e (
              reply_of-IsProper is_batch reqs out
                (group-InOrder hex rpc texts is_batch group reqs backends out honest d e))
        ]
