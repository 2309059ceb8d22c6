-- ===== src/Forward/Overrides.antt =====
-- proxyd/backend.go: in a consensus-aware group some requests are answered or refused without a
-- backend (`OverwriteConsensusResponses`), and their responses are put back in place afterwards
-- (`OverrideResponses`).
use infra.Base.{
  ◌/◌, ◌%◌, get_elem?, ℕ, zero, suc, ◌+◌, Option, none, some, String, List, [], ◌∷◌, ◌++◌, length,
  take, drop, leb, ltb, if◌then◌else◌,
}
use Prim.Native.String.{◌++◌ as concat}
use infra.Hex.{Hex}
use infra.Json.{Json}
use infra.EthRpc.{EthRpc}
use infra.Rewrite.{
  RewriteContext, RewriteErr, block_out_of_range, range_too_large, other, RewriteResult,
  rewrite_none, override_error, override_request, override_response, rewrite_tags,
}
use infra.Rpc.{
  RpcReq, RpcRes, RpcErr, json_rpc_version, err_block_out_of_range, err_parse_err,
  err_invalid_params,
}

-- `indexedReqRes`, without the request, which nothing reads.
pub record IndexedRes : Type 0 where
  pub index : ℕ
  pub res : RpcRes

-- `%d` of a uint64, which has at most 20 digits.
digit : ℕ → String
digit d =
    elim (get_elem? {A = String} ("0" ∷ "1" ∷ "2" ∷ "3" ∷ "4" ∷ "5" ∷ "6" ∷ "7" ∷ "8" ∷ "9" ∷ [])
      d) [ none ↦ "" | some c ↦ c ]

unfoldable digits_of : ℕ → ℕ → String → String
unfolding digit
digits_of zero n tail = tail
digits_of (suc fuel) n tail =
    let tail' = concat (digit (n % 10)) tail in
    let rest = digits_of fuel (n / 10) tail' in if ltb n 10 then tail' else rest

unfoldable decimal : ℕ → String
unfolding digits_of
decimal n = digits_of 20 n ""

-- What becomes of one request: it is forwarded, maybe with new parameters, or it has a response.
pub data Fate : Type 0 where
  forwarded : RpcReq → Fate
  overridden : RpcRes → Fate

-- `append(res[:i], append([]*RPCRes{r}, res[i:]...)...)`; an index beyond the end panics.
unfoldable pub insert_at : ℕ → RpcRes → List RpcRes → Option (List RpcRes)
insert_at i r res = if leb i (length res) then some (take i res ++ r ∷ drop i res) else none

-- `OverrideResponses`; `none` is a panic.
unfoldable pub override_responses : List RpcRes → List IndexedRes → Option (List RpcRes)
unfolding insert_at
override_responses res [] = some res
override_responses res (ov ∷ ovs) =
    if ltb 0 (length res)
    then elim (insert_at ov.index ov.res res) [
      | none ↦ none
      | some res' ↦ override_responses res' ovs
    ]
    else override_responses (res ++ ov.res ∷ []) ovs

-- The `append`s at the end of an iteration.
abbrev pub collect :
    ℕ → Fate → List RpcReq → List IndexedRes → Option (List RpcReq × List IndexedRes)
collect i (forwarded req) rewritten ovs = some (req ∷ rewritten, ovs)
collect i (overridden res) rewritten ovs = some (rewritten, record { index = i; res = res } ∷ ovs)

module _ (hex : Hex) (rpc : EthRpc hex) (rctx : RewriteContext) where
  -- The error that a client gets for one of the rewriter.
  unfoldable pub shown : RewriteErr → RpcErr
  unfolding decimal
  shown block_out_of_range = err_block_out_of_range
  shown range_too_large =
      err_invalid_params
        (concat "block range greater than " (concat (decimal rctx.max_block_range) " max"))
  shown other = err_parse_err

  -- One iteration of the loop in `OverwriteConsensusResponses`.
  unfoldable pub overwrite : RpcReq → RewriteResult → Fate
  unfolding shown
  overwrite req (override_error e) = overridden (record {
    jsonrpc = json_rpc_version;
    result = Json.null;
    error = some (shown e);
    id = req.id;
  })
  overwrite req (override_response v) =
      overridden (record { jsonrpc = json_rpc_version; result = v; error = none; id = req.id })
  overwrite req (override_request p) = forwarded (record req { params = some p })
  overwrite req rewrite_none = forwarded req

  -- The loop: the requests that are forwarded, and the responses that are not.
  unfoldable pub overwrite_consensus_responses :
      ℕ → List RpcReq → Option (List RpcReq × List IndexedRes)
  unfolding overwrite
  overwrite_consensus_responses i [] = some ([], [])
  overwrite_consensus_responses i (req ∷ reqs) =
      elim (rewrite_tags hex rpc rctx req.method req.params) [
        | none ↦ none
        | some r ↦ elim (overwrite_consensus_responses (i + 1) reqs) [
          | none ↦ none
          | some (rewritten, ovs) ↦ collect i (overwrite req r) rewritten ovs
        ]
      ]
