-- ===== src/Rpc/Errors.antt =====
-- proxyd/backend.go: the errors that clients see. Codes are negative: `negsuc n` is -(n + 1). `data_text`
-- is the field `Data`.
use infra.Base.{ℕ, String}
use infra.Base.Int.{ℤ, negsuc}

pub record RpcErr : Type 0 where
  pub code : ℤ
  pub message : String
  pub data_text : String
  pub http_error_code : ℕ

abbrev pub json_rpc_version : String
json_rpc_version = "2.0"

abbrev rpc_err : ℕ → String → ℕ → RpcErr
rpc_err n message http = record {
  code = negsuc n;
  message = message;
  data_text = "";
  http_error_code = http;
}

abbrev pub err_parse_err : RpcErr
err_parse_err = rpc_err 32699 "parse error" 400

abbrev pub err_internal : RpcErr
err_internal = rpc_err 31999 "internal error" 500

abbrev pub err_method_not_whitelisted : RpcErr
err_method_not_whitelisted = rpc_err 32600 "rpc method is not whitelisted" 403

abbrev pub err_no_backends : RpcErr
err_no_backends = rpc_err 32010 "no backend is currently healthy to serve traffic" 503

abbrev pub err_over_rate_limit : RpcErr
err_over_rate_limit = rpc_err 32015 "over rate limit" 429

abbrev pub err_over_sender_rate_limit : RpcErr
err_over_sender_rate_limit = rpc_err 32016 "sender is over rate limit" 429

abbrev pub err_block_out_of_range : RpcErr
err_block_out_of_range = rpc_err 32018 "block is out of range" 400

-- `ErrInvalidRequest` and `ErrInvalidParams`
abbrev pub err_invalid_request : String → RpcErr
err_invalid_request msg = rpc_err 32599 msg 400

abbrev pub err_invalid_params : String → RpcErr
err_invalid_params msg = rpc_err 32601 msg 400

abbrev pub err_too_many_batch_requests : RpcErr
err_too_many_batch_requests = rpc_err 32013 "too many RPC calls in batch request" 0

abbrev pub err_gateway_timeout : RpcErr
err_gateway_timeout = rpc_err 32014 "gateway timeout" 504

abbrev pub err_request_body_too_large : RpcErr
err_request_body_too_large = rpc_err 32020 "request body too large" 413

abbrev pub err_backend_bad_response : RpcErr
err_backend_bad_response = rpc_err 32012 "backend returned an invalid response" 500
