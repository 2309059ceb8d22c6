-- ===== src/Cache/Methods.antt =====
-- proxyd/cache.go and proxyd/methods.go: the cache of responses by method (`rpcCache`,
-- `StaticMethodHandler`). The digest of the parameters, the JSON codec and the reader of block
-- parameters are arguments. The cache of a handler is never nil: `newRPCCache` sets it.
use Prim.Native.String.{◌++◌ as str_append}
use infra.Base.{Bool, true, false, not, ◌||◌, Option, none, some, String, str_eq, if◌then◌else◌}
use infra.Json.{Json, nil, cons}
use infra.Rpc.{RpcReq, RpcRes}
use infra.EthRpc.{BlockNumberOrHash, number, hash, neither}
use infra.Cache.{Store}

-- The handlers of `newRPCCache`.
pub data Handler : Type 0 where
  static_handler : Handler
  debug_get_raw_receipts_handler : Handler

-- `handlers[method]`
unfoldable pub handler_of : String → Option Handler
handler_of method =
    if str_eq method "eth_chainId"
      || str_eq method "net_version"
      || str_eq method "eth_getBlockTransactionCountByHash"
      || str_eq method "eth_getUncleCountByBlockHash"
      || str_eq method "eth_getBlockByHash"
      || str_eq method "eth_getTransactionByBlockHashAndIndex"
      || str_eq method "eth_getUncleByBlockHashAndIndex"
    then some static_handler
    else if str_eq method "debug_getRawReceipts"
    then some debug_get_raw_receipts_handler
    else none

abbrev pub is_hash : Option BlockNumberOrHash → Bool
is_hash (some (hash _)) = true
is_hash (some (number _)) = false
is_hash (some neither) = false
is_hash none = false

-- The one item of a list of parameters, if it is a list with one.
abbrev pub only_item : Option Json → Option Json
only_item (some (Json.arr (cons x nil))) = some x
only_item _ = none

-- `filterPut` of the receipts: a list that is not empty.
abbrev pub has_items : Json → Bool
has_items (Json.arr (cons _ _)) = true
has_items _ = false

-- What `rpcCache` imports: `sha256` of the parameters, in hexadecimal, the JSON codec, and the
-- reader of block parameters.
pub record Codecs : Type 0 where
  pub signature : Option Json → String
  pub marshal : Json → String
  pub unmarshal : String → Option Json
  pub parse : Json → Option BlockNumberOrHash

module _ (codecs : Codecs) where
  -- `filterGet`
  unfoldable pub filter_get : Handler → RpcReq → Bool
  filter_get static_handler req = true
  filter_get debug_get_raw_receipts_handler req = elim (only_item req.params) [
    | none ↦ false
    | some p ↦ is_hash (codecs.parse p)
  ]

  -- `filterPut`
  unfoldable pub filter_put : Handler → RpcRes → Bool
  filter_put static_handler res = true
  filter_put debug_get_raw_receipts_handler res = has_items res.result

  -- `StaticMethodHandler.key`
  unfoldable pub key : RpcReq → String
  key req =
      str_append "cache:" (str_append req.method (str_append ":" (codecs.signature req.params)))

  -- A response from the text that the cache has: `none` is an error, then a miss.
  unfoldable pub respond : RpcReq → Option String → Option (Option RpcRes)
  respond req none = none
  respond req (some val) = if str_eq val "" then some none else elim (codecs.unmarshal val) [
    | none ↦ none
    | some result ↦
        some (some (record { jsonrpc = req.jsonrpc; result = result; error = none; id = req.id }))
  ]

  module _ {S : Type 0} (c : Store S) where
    -- `GetRPCMethod`
    unfoldable pub get_rpc_method : Handler → RpcReq → S → Option (Option RpcRes) × S
    unfolding filter_get key respond
    get_rpc_method h req s =
        if not (filter_get h req)
        then (some none, s)
        else let (val, s') = c.get (key req) s in (respond req val, s')

    -- `PutRPCMethod`; `false` is an error.
    unfoldable pub put_rpc_method : Handler → RpcReq → RpcRes → S → Bool × S
    unfolding filter_get filter_put key
    put_rpc_method h req res s =
        if not (filter_get h req)
        then (true, s)
        else if not (filter_put h res)
        then (true, s)
        else c.put (key req) (codecs.marshal res.result) s

    -- `rpcCache.GetRPC`
    unfoldable pub get_rpc : RpcReq → S → Option (Option RpcRes) × S
    unfolding handler_of get_rpc_method
    get_rpc req s = elim (handler_of req.method) [
      | none ↦ (some none, s)
      | some h ↦ get_rpc_method h req s
    ]

    -- `rpcCache.PutRPC`
    unfoldable pub put_rpc : RpcReq → RpcRes → S → Bool × S
    unfolding handler_of put_rpc_method
    put_rpc req res s = elim (handler_of req.method) [
      | none ↦ (true, s)
      | some h ↦ put_rpc_method h req res s
    ]
