-- ===== src/Server/Tests.antt =====
-- proxyd/server.go: a call with a request that cannot be parsed, one that the cache answers, two with
-- the same ID, and one for the accounts.
use infra.Base.{
  ℕ, ◌≡◌, refl, Bool, true, false, Option, none, some, String, str_eq, List, [], ◌∷◌, length, map,
  All, if◌then◌else◌, arith,
}
use infra.Json.{Json, nil}
use infra.Rpc.{
  RpcReq, RpcRes, new_rpc_res, new_rpc_error_res, err_parse_err, validate_rpc_req, json_rpc_version,
}
use infra.Forward.Sorting.{bytes_eq}
use infra.Server.{Outside, Elem, BatchGroup, Batches}
use infra.Server.Intake.{taken, intake}
use infra.Server.Echo.{echo, echo_group, echo_group-IsProper}
use infra.Server.Batch.{handle_batch_rpc}
use infra.Server.Taken.{wanted_id, Panics, Serves}
use infra.Server.Distinct.{Distinct, intake-Distinct}
use infra.Server.Answers.{Answered, handle_batch_rpc-Answered}

abbrev ask : String → ℕ → RpcReq
ask method c = record { jsonrpc = json_rpc_version; method = method; params = none; id = c ∷ [] }

abbrev request : String → ℕ → Option RpcReq
request method c = some (ask method c)

abbrev requests : List (Option RpcReq)
requests =
    none
    ∷ request "eth_chainId" b'1'
    ∷ request "eth_call" b'2'
    ∷ request "eth_call" b'2'
    ∷ request "eth_accounts" b'3'
    ∷ []

-- The state counts the requests that were forwarded.
abbrev node : Outside ℕ
node = record {
  is_limited = λ method s. (false, s);
  has_override = λ method. false;
  rate_limit_sender = λ req s. (none, s);
  group_of_method = λ method. "main";
  get_rpc = λ req s. ((if str_eq req.method "eth_chainId" then some (echo req) else none), s);
  put_rpc = λ req res s. s;
  forward = λ group is_batch reqs s. (echo_group group is_batch reqs, length reqs);
  expired = λ s. false;
}

node-Serves : (group : String) → Serves node group
node-Serves group is_batch reqs s d = echo_group-IsProper group is_batch reqs d

node_hits : (req : RpcReq) (s : ℕ) (r : RpcRes) → (node.get_rpc req s).0 ≡ some r → r.id ≡ req.id
node_hits req s r e = hit (str_eq req.method "eth_chainId") e
  where
    hit : (b : Bool) → (if b then some (echo req) else none) ≡ some r → r.id ≡ req.id
    hit true h = cc h
    hit false h = cc h

handle_batch_rpc-Answered_example :
    Answered
      (Panics node (map (wanted_id 5) requests))
      (map (wanted_id 5) requests)
      (handle_batch_rpc node 1 true (λ bs. bs) requests 0)
handle_batch_rpc-Answered_example =
    handle_batch_rpc-Answered node 1 true (λ bs. bs) requests 0 (omega arith) node_hits
      (λ m known. node-Serves "main") (λ bs b. ((λ m. m), (λ m. m)))

-- The second request with an ID goes into a batch of its own.
abbrev batches : Batches
batches =
    (
      record { group_id = 1; backend_group = "main" },
      record { req = ask "eth_chainId" b'1'; index = 1 }
          ∷ record { req = ask "eth_call" b'2'; index = 2 }
          ∷ [],
    )
    ∷ (
      record { group_id = 2; backend_group = "main" },
      record { req = ask "eth_call" b'2'; index = 3 } ∷ [],
    )
    ∷ []

abbrev slots : List (Option RpcRes)
slots =
    some (new_rpc_error_res [] err_parse_err)
    ∷ none
    ∷ none
    ∷ none
    ∷ some (new_rpc_res (b'3' ∷ []) (Json.arr nil))
    ∷ []

taken_batches : intake node (length requests) 0 requests [] [] 0 ≡ taken slots batches 0
unfolding intake validate_rpc_req bytes_eq
taken_batches = refl

intake-Distinct_example : All (λ (b : BatchGroup × List Elem). Distinct b.1) batches
intake-Distinct_example = intake-Distinct node requests 0 0 slots batches taken_batches
