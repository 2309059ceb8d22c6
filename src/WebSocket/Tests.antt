-- ===== src/WebSocket/Tests.antt =====
-- A client asks for the number of a block and for its accounts, and the backend answers.
use infra.Base.{refl, true, Option, none, some, String, List, [], ◌∷◌}
use infra.Json.{Json}
use infra.Rpc.{Bytes, RpcReq, json_rpc_version, new_rpc_res}
use infra.WebSocket.{text, Read, Codec, Proxy, opened}
use infra.WebSocket.Pumps.{client_pass, backend_pass, Reach, start, of_client, of_backend}
use infra.WebSocket.Screened.{IsSound, Reach-IsSound}

abbrev asks : String → RpcReq
asks method = record { jsonrpc = json_rpc_version; method = method; params = none; id = b'1' ∷ [] }

-- The requests are one byte each.
abbrev parse : Bytes → Option RpcReq
parse [] = none
parse (b ∷ []) = some (asks "eth_blockNumber")
parse (b ∷ c ∷ bs) = some (asks "eth_accounts")

abbrev codec : Codec
codec = record {
  parse_req = parse;
  parse_res = λ b. some (new_rpc_res b Json.null);
  marshal = λ r. r.id;
  format_close = λ code reason. [];
}

abbrev whitelist : List String
whitelist = "eth_blockNumber" ∷ "eth_accounts" ∷ []

abbrev message : Bytes → Read
message body = record { kind = text; body = body; error = none }

abbrev afterwards : Proxy
afterwards = record {
  to_client = record { kind = text; body = 7 ∷ [] } ∷ record { kind = text; body = b'1' ∷ [] } ∷ [];
  to_backend = record { kind = text; body = 5 ∷ [] } ∷ [];
  client_runs = true;
  backend_runs = true;
}

afterwards_way : Reach codec whitelist afterwards
unfolding client_pass backend_pass
afterwards_way = of_backend (message (7 ∷ [])) true true _ refl (
    of_client (message (5 ∷ 5 ∷ [])) true true _ refl
      (of_client (message (5 ∷ [])) true true opened refl start))

Reach-IsSound_example : IsSound codec whitelist afterwards
Reach-IsSound_example = Reach-IsSound codec whitelist afterwards afterwards_way
