-- ===== src/Rpc.antt =====
-- proxyd/rpc.go: JSON-RPC requests and responses, and the checks of a request before it is served.
-- An ID is the bytes of its JSON text. `Result` is `null` where Go has nil.
mod Errors
pub use Errors.*
use infra.Base.{
  ℕ, Bool, true, false, not, ◌&&◌, ◌||◌, Option, none, some, String, str_eq, List, [], ◌∷◌, length,
  map, ltb, ◌==◌, if◌then◌else◌,
}
use infra.Json.{Json}

abbrev pub Bytes : Type 0
Bytes = List ℕ

pub record RpcReq : Type 0 where
  pub jsonrpc : String
  pub method : String
  pub params : Option Json
  pub id : Bytes

pub record RpcRes : Type 0 where
  pub jsonrpc : String
  pub result : Json
  pub error : Option RpcErr
  pub id : Bytes

-- The IDs of requests and of responses, in order.
abbrev pub req_ids : List RpcReq → List Bytes
req_ids reqs = map (λ (r : RpcReq). r.id) reqs

abbrev pub res_ids : List RpcRes → List Bytes
res_ids rs = map (λ (r : RpcRes). r.id) rs

-- `IsError`
abbrev pub is_error : RpcRes → Bool
is_error r = elim r.error [ none ↦ false | some _ ↦ true ]

unfoldable pub last_byte : Bytes → ℕ → ℕ
last_byte [] d = d
last_byte (b ∷ bs) d = last_byte bs b

-- `IsValidID`
unfoldable pub is_valid_id : Bytes → Bool
unfolding last_byte
is_valid_id [] = false
is_valid_id (b ∷ bs) =
    if b == b'"' && last_byte bs b == b'"'
    then ltb 2 (length (b ∷ bs))
    else not (b == b'{') && not (b == b'[')

-- `ValidateRPCReq`: the error, if there is one.
unfoldable pub validate_rpc_req : RpcReq → Option RpcErr
unfolding is_valid_id
validate_rpc_req req =
    if not (str_eq req.jsonrpc json_rpc_version)
    then some (err_invalid_request "invalid JSON-RPC version")
    else if str_eq req.method ""
    then some (err_invalid_request "no method specified")
    else if not (is_valid_id req.id)
    then some (err_invalid_request "invalid ID")
    else none

-- `NewRPCErrorRes` of an error that is an `*RPCErr`, and `NewRPCRes`.
abbrev pub new_rpc_error_res : Bytes → RpcErr → RpcRes
new_rpc_error_res id err = record {
  jsonrpc = json_rpc_version;
  result = Json.null;
  error = some err;
  id = id;
}

abbrev pub new_rpc_res : Bytes → Json → RpcRes
new_rpc_res id result = record {
  jsonrpc = json_rpc_version;
  result = result;
  error = none;
  id = id;
}

-- `IsBatch`: the first byte that is no insignificant whitespace is a bracket.
unfoldable pub is_batch : Bytes → Bool
is_batch [] = false
is_batch (c ∷ raw) =
    let rest = is_batch raw in
    if c == 0x20 || c == 0x09 || c == 0x0a || c == 0x0d then rest else c == b'['
