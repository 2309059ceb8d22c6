-- ===== src/Forward/Send.antt =====
-- proxyd/backend.go: one HTTP exchange with a backend (`Backend.doForward`).
--
-- A request is a pointer that the callers share, so the requests as the call leaves them are part
-- of its result. The exchange itself (the HTTP client, and what `encoding/json` makes of the body)
-- is an argument. The call's `Incr` and `Add` on the backend's sliding windows are counted.
-- Headers, authentication and metrics are left out.
use infra.Base.{
  ℕ, Bool, true, false, not, ◌&&◌, ◌||◌, Option, none, some, String, str_eq, List, [], ◌∷◌, length,
  ◌==◌, if◌then◌else◌,
}
use infra.Base.Call.{Call, done, failed, panicked, ◌>>=◌}
use infra.Json.{Json, nil, cons, end, field}
use infra.Hex.{Hex}
use infra.EthRpc.{EthRpc, BlockText, BlockNumberOrHash, number, hash, neither}
use infra.Rewrite.{unmarshal_items}
use infra.Rpc.{RpcReq, RpcRes, Bytes}
use infra.Forward.Sorting.{bytes_eq, sort_batch_rpc_response}

-- The errors that the code tells from each other: the package's variables, and all others.
pub data ForwardErr : Type 0 where
  response_too_large : ForwardErr
  cant_be_batched : ForwardErr
  invalid_target : ForwardErr
  unexpected_json_rpc : ForwardErr
  bad_response : ForwardErr
  method_not_whitelisted : ForwardErr
  backend_offline : ForwardErr
  over_capacity : ForwardErr
  no_backends : ForwardErr
  no_multicall_response : ForwardErr
  other : ForwardErr
  -- `wrapErr(lastError, "permanent error forwarding request")`
  permanent : ForwardErr → ForwardErr

-- The body of a response: longer than `maxResponseSize`, not readable to its end, or read; with
-- what `json.Unmarshal` makes of it as an `RPCRes` and as a `[]*RPCRes`, which may hold nils.
pub data Body : Type 0 where
  over_limit : Body
  unreadable : Body
  read : Option RpcRes → Option (List (Option RpcRes)) → Body

-- What the HTTP client makes of a request: an error, or a status code and a body.
pub data Exchange : Type 0 where
  no_response : Exchange
  response : ℕ → Body → Exchange

-- A call of `doForward`: the requests as it leaves them, its result, and how often it increments
-- the windows of requests and of intermittent errors, and adds to that of latencies.
pub record Sent : Type 0 where
  pub reqs : List RpcReq
  pub result : Call ForwardErr (List RpcRes)
  pub requests : ℕ
  pub errors : ℕ
  pub latencies : ℕ

abbrev pub consensus_get_receipts : String
consensus_get_receipts = "consensus_getReceipts"

-- `res.Error.HTTPErrorCode = code` for each response; a response with no error panics.
unfoldable pub set_http_code : ℕ → List RpcRes → Call ForwardErr (List RpcRes)
set_http_code code [] = done []
set_http_code code (res ∷ rs) = elim res.error [
  | none ↦ panicked
  | some e ↦ set_http_code code rs >>= λ rs'.
      done (record res { error = some (record e { http_error_code = code }) } ∷ rs')
]

-- Both loops over the responses read fields through each pointer.
unfoldable pub dereference : List (Option RpcRes) → Call ForwardErr (List RpcRes)
dereference [] = done []
dereference (none ∷ rs) = panicked
dereference (some res ∷ rs) = dereference rs >>= λ rs'. done (res ∷ rs')

unfoldable pub holds : List Bytes → Bytes → Bool
unfolding bytes_eq
holds [] id = false
holds (k ∷ ks) id = bytes_eq k id || holds ks id

-- The responses to translated requests are wrapped in a `ConsensusGetReceiptsResult`.
unfoldable pub enrich : String → List Bytes → List RpcRes → List RpcRes
unfolding holds
enrich target ids [] = []
enrich target ids (res ∷ rs) =
    (if holds ids res.id
      then record res {
        result = Json.obj (field "method" (Json.text target) (field "result" res.result end));
      }
      else res)
    ∷ enrich target ids rs

-- What the decoder of the body leaves: the responses, or an error and whether it is counted.
unfoldable pub decode_body :
    Bool
    → Option RpcRes
    → Option (List (Option RpcRes))
    → Call (ForwardErr × Bool) (List (Option RpcRes))
decode_body true (some res) batch = done (some res ∷ [])
decode_body true none batch = failed (bad_response, false)
decode_body false single (some rs) = done rs
decode_body false (some res) none = failed (unexpected_json_rpc, true)
decode_body false none none = failed (bad_response, true)

abbrev pub sent : List RpcReq → Call ForwardErr (List RpcRes) → ℕ → ℕ → Sent
sent reqs result errors latencies = record {
  reqs = reqs;
  result = result;
  requests = 1;
  errors = errors;
  latencies = latencies;
}

-- From the decoded responses on.
unfoldable pub settle_responses :
    String → List Bytes → List RpcReq → ℕ → List (Option RpcRes) → Sent
unfolding set_http_code dereference enrich
settle_responses target ids reqs status rs =
    if not (length reqs == length rs)
    then sent reqs (failed unexpected_json_rpc) 1 0
    else sent reqs
        (do
          all ← dereference rs
          coded ← (if status == 200 then done all else set_http_code status all)
          sort_batch_rpc_response reqs (enrich target ids coded))
        0 1

unfoldable pub receive_body : String → List Bytes → List RpcReq → ℕ → Body → Sent
unfolding decode_body settle_responses
receive_body target ids reqs status over_limit = sent reqs (failed response_too_large) 0 0
receive_body target ids reqs status unreadable = sent reqs (failed other) 1 0
receive_body target ids reqs status (read single batch) =
    elim (decode_body (length reqs == 1) single batch) [
      | done rs ↦ settle_responses target ids reqs status rs
      | failed (e, counted) ↦ sent reqs (failed e) (if counted then 1 else 0) 0
      | panicked ↦ sent reqs panicked 0 0
    ]

-- From the HTTP response on. With no request `rpcReqs[0]` panics here.
unfoldable pub receive : String → List Bytes → List RpcReq → Exchange → Sent
unfolding receive_body
receive target ids reqs no_response = sent reqs (failed other) 1 0
receive target ids [] (response status body) = sent [] panicked 0 0
receive target ids (req ∷ reqs) (response status body) =
    if not (status == 200) && not (status == 400)
    then sent (req ∷ reqs) (failed other) 1 0
    else receive_body target ids (req ∷ reqs) status body

module _ (hex : Hex) (rpc : EthRpc hex) (texts : BlockText) where
  -- `json.Unmarshal` into a `[]rpc.BlockNumberOrHash`
  unfoldable parse_each : List Json → Option (List BlockNumberOrHash)
  parse_each [] = some []
  parse_each (v ∷ vs) = elim (rpc.parse v) [
    | none ↦ none
    | some b ↦ elim (parse_each vs) [ none ↦ none | some bs ↦ some (b ∷ bs) ]
  ]

  unfoldable unmarshal_blocks : Option Json → Option (List BlockNumberOrHash)
  unfolding unmarshal_items parse_each
  unmarshal_blocks params = elim (unmarshal_items params) [ none ↦ none | some vs ↦ parse_each vs ]

  -- `BlockHash.Hex()` panics on a nil pointer.
  unfoldable conventional : BlockNumberOrHash → Call ForwardErr Json
  conventional (number n) = done (Json.arr (cons (Json.text (texts.string n)) nil))
  conventional (hash h) = done (Json.arr (cons (Json.text (texts.hex h)) nil))
  conventional neither = panicked

  -- A `BlockHashOrNumberParameter`
  unfoldable alchemy : BlockNumberOrHash → Json
  alchemy (number n) = Json.arr (
      cons (Json.obj (field "blockHash" Json.null (field "blockNumber" (texts.number_json n) end)))
        nil)
  alchemy (hash h) = Json.arr (
      cons (Json.obj (field "blockHash" (texts.hash_json h) (field "blockNumber" Json.null end)))
        nil)
  alchemy neither =
      Json.arr
        (cons (Json.obj (field "blockHash" Json.null (field "blockNumber" Json.null end))) nil)

  -- `reqParams[0]`
  abbrev first_block : List BlockNumberOrHash → Call ForwardErr BlockNumberOrHash
  first_block [] = panicked
  first_block (b ∷ bs) = done b

  -- The parameters for the receipts target.
  unfoldable pub translate_params : String → Option Json → Call ForwardErr Json
  unfolding unmarshal_blocks conventional alchemy
  translate_params target params = elim (unmarshal_blocks params) [
    | none ↦ failed other
    | some blocks ↦
        if str_eq target "debug_getRawReceipts"
          || str_eq target "eth_getBlockReceipts"
          || str_eq target "parity_getBlockReceipts"
        then first_block blocks >>= conventional
        else if str_eq target "alchemy_getTransactionReceipts"
        then first_block blocks >>= (λ b. done (alchemy b))
        else failed invalid_target
  ]

  -- The loop over the requests: as they are left, and the IDs of those that were translated.
  unfoldable pub translate : String → List RpcReq → List RpcReq × Call ForwardErr (List Bytes)
  unfolding translate_params
  translate target [] = ([], done [])
  translate target (req ∷ reqs) =
      let (reqs', ids) = translate target reqs in
      if str_eq req.method consensus_get_receipts
      then elim (translate_params target req.params) [
        | done p ↦ (
          record req { method = target; params = some p } ∷ reqs',
          ids >>= (λ ks. done (req.id ∷ ks)),
        )
        | failed e ↦ (record req { method = target } ∷ reqs, failed e)
        | panicked ↦ (record req { method = target } ∷ reqs, panicked)
      ]
      else (req ∷ reqs', ids)

  unfoldable pub has_receipts : List RpcReq → Bool
  has_receipts [] = false
  has_receipts (req ∷ reqs) = str_eq req.method consensus_get_receipts || has_receipts reqs

  -- `doForward`, with the backend's `receiptsTarget`.
  unfoldable pub do_forward : String → Bool → (List RpcReq → Exchange) → List RpcReq → Sent
  unfolding translate has_receipts receive
  do_forward target true exchange reqs =
      if has_receipts reqs
      then sent reqs (failed cant_be_batched) 0 0
      else receive target [] reqs (exchange reqs)
  do_forward target false exchange reqs =
      let (reqs', translated) = translate target reqs in
      elim translated [
        | done ids ↦ receive target ids reqs' (exchange reqs')
        | failed e ↦ sent reqs' (failed e) 0 0
        | panicked ↦ sent reqs' panicked 0 0
      ]
