-- ===== src/Forward/Group.antt =====
-- proxyd/backend.go: `BackendGroup.Forward`, and that a client of a consensus group gets one
-- response for each request, in their order.
--
-- The backends in the order in which they are tried, and the order in which the answers of a
-- multicall come, are arguments. The goroutines of a multicall share the requests, but only a
-- `eth_sendRawTransaction` is sent so, which none of them changes.
use infra.Base.{
  ◌≡◌, refl, ap, ◌∙◌, Bool, false, not, ◌&&◌, Option, none, some, String, str_eq, List, [], ◌∷◌,
  map, if◌then◌else◌,
}
use infra.Hex.{Hex}
use infra.EthRpc.{EthRpc, BlockText}
use infra.Rewrite.{RewriteContext}
use infra.Rpc.{RpcReq, RpcRes, req_ids, res_ids}
use infra.Forward.Attempts.{
  Target, GroupResponse, forward_request_to_backend_group, process_multicall_responses,
}
use infra.Forward.Overrides.{Fate, IndexedRes, override_responses, overwrite_consensus_responses}
use infra.Forward.Order.{fates, weave, override_responses-restores}

-- The settings of a `BackendGroup`; the context is that of its consensus, if it has one.
pub record Group : Type 0 where
  pub name : String
  pub multicall : Bool
  pub multicall_rpc_error_check : Bool
  pub consensus : Option RewriteContext

-- `isValidMulticallTx`
unfoldable pub is_valid_multicall_tx : List RpcReq → Bool
is_valid_multicall_tx [] = false
is_valid_multicall_tx (req ∷ []) = str_eq req.method "eth_sendRawTransaction"
is_valid_multicall_tx (req ∷ other ∷ reqs) = false

-- The answers of all backends; a panic in one goroutine ends the process.
unfoldable pub all_answers :
    List (Option (List RpcReq × GroupResponse)) → Option (List GroupResponse)
all_answers [] = some []
all_answers (none ∷ answers) = none
all_answers (some (reqs, answer) ∷ answers) = elim (all_answers answers) [
  | none ↦ none
  | some rest ↦ some (answer ∷ rest)
]

-- The response of the chosen way to the backends, with the overridden responses put back.
abbrev reapply : List IndexedRes → Option (List RpcReq × GroupResponse) → Option GroupResponse
reapply ovs none = none
reapply ovs (some (reqs, r)) = elim r.error [
  | some e ↦ some r
  | none ↦ elim (override_responses r.res ovs) [
    | none ↦ none
    | some res ↦ some (record r { res = res })
  ]
]

module _ (hex : Hex) (rpc : EthRpc hex) (texts : BlockText) (group : Group) where
  -- From the choice of the strategy on.
  unfoldable pub dispatch :
      List Target
      → List Target
      → (List GroupResponse → List GroupResponse)
      → Bool
      → List RpcReq
      → List IndexedRes
      → Option GroupResponse
  unfolding is_valid_multicall_tx all_answers
  dispatch backends ordered arrival is_batch reqs ovs =
      if group.multicall && is_valid_multicall_tx reqs && not is_batch
      then elim (all_answers (
          map (λ b. forward_request_to_backend_group hex rpc texts false group.name reqs (b ∷ []))
            backends)) [
              | none ↦ none
              | some answers ↦
                  process_multicall_responses group.multicall_rpc_error_check none (arrival answers)
            ]
      else reapply ovs
          (forward_request_to_backend_group hex rpc texts is_batch group.name reqs ordered)

  -- The requests that are sent to the backends, and the responses to those that are not.
  unfoldable pub prepare :
      Option RewriteContext → List RpcReq → Option (List RpcReq × List IndexedRes)
  prepare none reqs = some (reqs, [])
  prepare (some rctx) reqs = overwrite_consensus_responses hex rpc rctx 0 reqs

  -- `BackendGroup.Forward`; `none` is a panic. A multicall goes to all backends of the group.
  unfoldable pub group_forward :
      List Target
      → List Target
      → (List GroupResponse → List GroupResponse)
      → Bool
      → List RpcReq
      → Option GroupResponse
  unfolding dispatch prepare
  group_forward backends ordered arrival is_batch [] =
      some (record { res = []; served_by = ""; error = none })
  group_forward backends ordered arrival is_batch (req ∷ reqs) =
      elim (prepare group.consensus (req ∷ reqs)) [
        | none ↦ none
        | some (rewritten, ovs) ↦ dispatch backends ordered arrival is_batch rewritten ovs
      ]

  reapply-answers :
      (out : List RpcReq) (r : GroupResponse) (ovs : List IndexedRes) {res : List RpcRes}
      → r.error ≡ none
      → override_responses r.res ovs ≡ some res
      → reapply ovs (some (out, r)) ≡ some (record r { res = res })
  reapply-answers out r ovs n e = simp (n, e)

  dispatch-sequential :
      (backends ordered : List Target) (arrival : List GroupResponse → List GroupResponse)
      (is_batch : Bool) (reqs : List RpcReq) (ovs : List IndexedRes)
      → (group.multicall && is_valid_multicall_tx reqs && not is_batch) ≡ false
      → dispatch backends ordered arrival is_batch reqs ovs
        ≡ reapply ovs
            (forward_request_to_backend_group hex rpc texts is_batch group.name reqs ordered)
  unfolding dispatch
  dispatch-sequential backends ordered arrival is_batch reqs ovs m = simp m

  prepared-forward :
      (backends ordered : List Target) (arrival : List GroupResponse → List GroupResponse)
      (is_batch : Bool) (req : RpcReq) (reqs : List RpcReq) {rewritten : List RpcReq}
      {ovs : List IndexedRes}
      → prepare group.consensus (req ∷ reqs) ≡ some (rewritten, ovs)
      → group_forward backends ordered arrival is_batch (req ∷ reqs)
        ≡ dispatch backends ordered arrival is_batch rewritten ovs
  unfolding group_forward
  prepared-forward backends ordered arrival is_batch req reqs e = rw (e, group_forward) refl

  -- In a group with a consensus: when the requests that `OverwriteConsensusResponses` leaves do not
  -- go out as a multicall, and a backend answers them in their order, the client gets one response
  -- for each of its requests, in their order: each request that was overridden has its own, and
  -- each other one the backend's next.
  pub group_forward-restores :
      (backends ordered : List Target) (arrival : List GroupResponse → List GroupResponse)
      (is_batch : Bool) (rctx : RewriteContext) (req : RpcReq) (reqs rewritten out : List RpcReq)
      (ovs : List IndexedRes) (r : GroupResponse)
      → group.consensus ≡ some rctx
      → overwrite_consensus_responses hex rpc rctx 0 (req ∷ reqs) ≡ some (rewritten, ovs)
      → (group.multicall && is_valid_multicall_tx rewritten && not is_batch) ≡ false
      → forward_request_to_backend_group hex rpc texts is_batch group.name rewritten ordered
        ≡ some (out, r)
      → r.error ≡ none
      → res_ids r.res ≡ req_ids rewritten
      → (fs : List Fate) × (fates hex rpc rctx (req ∷ reqs) ≡ some fs)
        × (group_forward backends ordered arrival is_batch (req ∷ reqs)
            ≡ some (record r { res = weave fs r.res }))
        × (res_ids (weave fs r.res) ≡ req_ids (req ∷ reqs))
  unfolding prepare
  group_forward-restores backends ordered arrival is_batch rctx req reqs rewritten out ovs r c o m f
        n ids =
      let (fs, fp, restored, order) =
        override_responses-restores hex rpc rctx (req ∷ reqs) rewritten ovs r.res o ids in
      let prepared : prepare group.consensus (req ∷ reqs) ≡ some (rewritten, ovs) =
        ap (λ con. prepare con (req ∷ reqs)) c ∙ o in
      (
        fs,
        fp,
        prepared-forward backends ordered arrival is_batch req reqs prepared
            ∙ dispatch-sequential backends ordered arrival is_batch rewritten ovs m
            ∙ ap (reapply ovs) f
            ∙ reapply-answers out r ovs n restored,
        order,
      )
