-- ===== src/Http/Tests.antt =====
-- Calls of a server with a limit for senders, on chain 10.
use infra.Base.Int.{negsuc}
use infra.Base.{
  ℕ, ◌+◌, ◌≤◌, ◌≡◌, ◌⊎◌, ◌↔◌, refl, inr, true, false, Option, none, some, String, str_eq, List, [],
  ◌∷◌, if◌then◌else◌, here,
}
use infra.Json.{Json, nil, cons}
use infra.Rpc.{Bytes, RpcReq, json_rpc_version}
use infra.Limits.{MemoryFrontendRateLimiter, memory_limiter, new_memory}
use infra.Server.Echo.{echo_group, echo_group-IsProper}
use infra.Http.{HttpRequest, whole}
use infra.Http.Settings.{
  ServerConfig, Server, new_server, or_default, capped, override_limiters, global_methods,
  base_limits, compile_all,
}
use infra.Http.Context.{strip_xff}
use infra.Http.Limit.{Txs, decoded, failed, fresh, sender_key, texts_of, rate_limit_sender}
use infra.Http.Handle.{Backends, handle_rpc}
use infra.Http.Senders.{IsKeyOf, LetsPass, rate_limit_sender_iff}
use infra.Http.Replies.{IsReliable, Panics, Replies, handle_rpc-Replies}

abbrev config : ServerConfig
config = record {
  max_body_size = 0;
  authenticated_paths = [];
  timeout = 0;
  max_upstream_batch_size = 0;
  max_batch_size = 0;
  enable_served_by_header = true;
  rate_limit = record {
    base_rate = 2;
    base_interval = 1_000_000_000;
    exempt_origins = [];
    exempt_user_agents = [];
    method_overrides = [];
    ip_header_override = "";
  };
  sender_rate_limit = record {
    enabled = true;
    interval = 1_000_000_000;
    limit = 1;
    allowed_chain_ids = 10 ∷ [];
  };
}

abbrev factory : ℕ → ℕ → String → MemoryFrontendRateLimiter
factory dur max prefix = new_memory dur max

abbrev server : Server MemoryFrontendRateLimiter
server = record {
  max_body_size = 262_144;
  authenticated_paths = [];
  timeout = 10_000_000_000;
  max_upstream_batch_size = 10;
  max_batch_size = 100;
  enable_served_by_header = true;
  main_lim = some (new_memory 1_000_000_000 2);
  override_lims = [];
  sender_lim = some (new_memory 1_000_000_000 1);
  allowed_chain_ids = 10 ∷ [];
  lim_exempt_origins = [];
  lim_exempt_user_agents = [];
  globally_limited_methods = [];
  rate_limit_header = "X-Forwarded-For";
}

server_lem : new_server factory (λ p. some (str_eq p)) config ≡ some server
unfolding new_server or_default capped override_limiters global_methods base_limits compile_all
server_lem = refl

strip_xff_lem : strip_xff " 10.0.0.1 , 10.0.0.2" ≡ "10.0.0.1"
unfolding strip_xff
strip_xff_lem = refl

abbrev txs : Txs ℕ
txs = record {
  unmarshal_text = λ t. if str_eq t "0x1" then decoded (1 ∷ []) else failed "invalid hex string";
  unmarshal_binary = λ b. decoded 10;
  chain_id = λ tx. tx;
  sender = λ tx. decoded "0xabc";
  nonce = λ tx. 7;
  decimal = λ n. "7";
  err_invalid_sender = record {
    code = negsuc 31999;
    message = "invalid sender";
    data_text = "";
    http_error_code = 0;
  };
}

abbrev raw_tx : RpcReq
raw_tx = record {
  jsonrpc = json_rpc_version;
  method = "eth_sendRawTransaction";
  params = some (Json.arr (cons (Json.text "0x1") nil));
  id = b'1' ∷ [];
}

abbrev instant : ℕ → ℕ
instant n = 63_900_000_000_000_000_000 + n

rate_limit_sender_iff_example :
    ((rate_limit_sender memory_limiter instant txs server raw_tx (fresh server)
        ≡ (none, fresh server))
      ↔ ((((fresh server).sender_lim ≡ none) × (fresh server ≡ fresh server))
          ⊎ LetsPass memory_limiter instant txs server
              (fresh server).sender_lim
              raw_tx
              (fresh server)
              (fresh server)))
    × (((key : String) × IsKeyOf txs (10 ∷ []) raw_tx key)
        ⊎ ((rate_limit_sender memory_limiter instant txs server raw_tx (fresh server)).1
            ≡ fresh server))
rate_limit_sender_iff_example =
    rate_limit_sender_iff memory_limiter instant txs server raw_tx (fresh server) (fresh server)

-- The sender and the nonce of the transaction.
raw_tx-IsKeyOf : IsKeyOf txs (10 ∷ []) raw_tx "0xabc:7"
unfolding IsKeyOf texts_of sender_key
raw_tx-IsKeyOf = ("0x1", 1 ∷ [], 10, "0xabc", refl, refl, refl, inr (here []), refl, refl)

abbrev backends : Backends ℕ
backends = record {
  group_of_method = λ method. "main";
  get_rpc = λ req n. (none, n);
  put_rpc = λ req res n. n;
  forward = λ group is_batch reqs n. (echo_group group is_batch reqs, n + 1);
  expired = λ n. false;
}

backends-IsReliable : IsReliable backends
unfolding IsReliable
backends-IsReliable =
    ((λ req st r e. cc e), (λ m batched reqs st known d. echo_group-IsProper _ batched reqs d))

abbrev call : HttpRequest
call = record {
  origin = "";
  user_agent = "";
  forwarded_for = "";
  op_tx_proxy_auth = "";
  remote_addr = "10.0.0.1:9";
  authorization = "";
  body = whole (b'[' ∷ b']' ∷ []);
}

-- A batch of two requests.
abbrev parts : Bytes → Option (List Bytes)
parts bytes = some ((1 ∷ []) ∷ (2 ∷ []) ∷ [])

abbrev parsed : Bytes → Option RpcReq
parsed bytes =
    some (record { jsonrpc = json_rpc_version; method = "eth_call"; params = none; id = bytes })

handle_rpc-Replies_example :
    Replies parts parsed server (Panics backends) call (
      handle_rpc memory_limiter instant txs backends parts parsed
        (λ bs. bs)
        server
        call
        (fresh server, 0))
    × (100 ≤ 1000)
handle_rpc-Replies_example =
    handle_rpc-Replies memory_limiter instant txs backends parts parsed (λ bs. bs) factory
      (λ p. some (str_eq p)) config server call (fresh server, 0) server_lem backends-IsReliable
      (λ bs b. ((λ m. m), (λ m. m)))
