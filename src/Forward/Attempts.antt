-- ===== src/Forward/Attempts.antt =====
-- proxyd/backend.go: how a request is sent to a backend with retries (`Backend.Forward`), to the
-- backends of a group one after the other (`ForwardRequestToBackendGroup`), and what is made of the
-- answers of all at once (`ProcessMulticallResponses`).
--
-- The calls share the requests, which `doForward` may change, so each loop passes them on. The wait
-- between two attempts is left out.
use mathlib.Core.Option
use Prim.Native.String.{◌++◌ as concat}
use infra.Base.{
  ℕ, zero, suc, ◌+◌, Bool, true, false, not, Option, none, some, String, List, [], ◌∷◌,
  if◌then◌else◌,
}
use infra.Base.Call.{done, failed, panicked}
use infra.Hex.{Hex}
use infra.EthRpc.{EthRpc, BlockText}
use infra.Rpc.{RpcReq, RpcRes, is_error}
use infra.Forward.Send.{
  ForwardErr, response_too_large, cant_be_batched, invalid_target, unexpected_json_rpc,
  method_not_whitelisted, no_backends, no_multicall_response, permanent, Sent, Exchange, do_forward,
}

-- The `switch` of `Backend.Forward`: after these errors there is no retry.
unfoldable pub is_final : ForwardErr → Bool
is_final response_too_large = true
is_final cant_be_batched = true
is_final invalid_target = true
is_final unexpected_json_rpc = true
is_final _ = false

-- A later call, with what an earlier one counted.
abbrev pub after : Sent → Sent → Sent
after earlier later = record later {
  requests = earlier.requests + later.requests;
  errors = earlier.errors + later.errors;
  latencies = earlier.latencies + later.latencies;
}

-- A backend to this code: its settings, and what each attempt to reach it makes of the requests.
pub record Target : Type 0 where
  pub name : String
  pub max_retries : ℕ
  pub receipts_target : String
  pub exchange : ℕ → List RpcReq → Exchange

-- The loop of `Backend.Forward` from attempt `i` on, with the retries that are left.
unfoldable pub attempts : (ℕ → List RpcReq → Sent) → ℕ → ℕ → List RpcReq → Sent
unfolding is_final
attempts do_forward zero i reqs =
    let now = do_forward i reqs in
    elim now.result [
      | done rs ↦ now
      | failed e ↦ if is_final e then now else record now { result = failed (permanent e) }
      | panicked ↦ now
    ]
attempts do_forward (suc retries) i reqs =
    let now = do_forward i reqs in
    let rest = after now (attempts do_forward retries (i + 1) now.reqs) in
    elim now.result [ done rs ↦ now | failed e ↦ if is_final e then now else rest | panicked ↦ now ]

abbrev nothing_sent : Sent
nothing_sent = record { reqs = []; result = panicked; requests = 0; errors = 0; latencies = 0 }

-- `BackendGroupRPCResponse`
pub record GroupResponse : Type 0 where
  pub res : List RpcRes
  pub served_by : String
  pub error : Option ForwardErr

-- `errors.Is` with the errors that end the loop over the backends; it looks through `wrapErr`.
unfoldable pub ends : ForwardErr → Bool
ends cant_be_batched = true
ends invalid_target = true
ends method_not_whitelisted = true
ends response_too_large = true
ends (permanent e) = ends e
ends _ = false

abbrev pub answer_of : String → Target → List RpcRes → GroupResponse
answer_of group b rs = record {
  res = rs;
  served_by = concat group (concat "/" b.name);
  error = none;
}

abbrev pub refusal : ForwardErr → GroupResponse
refusal e = record { res = []; served_by = ""; error = some e }

module _ (hex : Hex) (rpc : EthRpc hex) (texts : BlockText) (is_batch : Bool) where
  -- One call of `doForward`.
  abbrev pub send : Target → ℕ → List RpcReq → Sent
  send b i = do_forward hex rpc texts b.receipts_target is_batch (b.exchange i)

  -- `Backend.Forward`, which reads the first request.
  unfoldable pub backend_forward : Target → List RpcReq → Sent
  unfolding attempts
  backend_forward b [] = nothing_sent
  backend_forward b (req ∷ reqs) = attempts (send b) b.max_retries 0 (req ∷ reqs)

  -- `ForwardRequestToBackendGroup`: the requests as it leaves them, and its response; `none` is a
  -- panic.
  unfoldable pub forward_request_to_backend_group :
      String → List RpcReq → List Target → Option (List RpcReq × GroupResponse)
  unfolding ends backend_forward
  forward_request_to_backend_group group reqs [] = some (reqs, refusal no_backends)
  forward_request_to_backend_group group [] (b ∷ bs) = some ([], answer_of group b [])
  forward_request_to_backend_group group (req ∷ reqs) (b ∷ bs) =
      let now = backend_forward b (req ∷ reqs) in
      let rest = forward_request_to_backend_group group now.reqs bs in
      elim now.result [
        | done rs ↦ some (now.reqs, answer_of group b rs)
        | failed e ↦ if ends e then some (now.reqs, refusal e) else rest
        | panicked ↦ none
      ]

-- `IsError` of the first response; there is none to read where the list is empty.
abbrev first_is_error : List RpcRes → Option Bool
first_is_error [] = none
first_is_error (r ∷ rs) = some (is_error r)

-- Does a response of a multicall end the wait? `none` is a panic.
unfoldable pub settles : Bool → GroupResponse → Option Bool
settles error_check resp = elim resp.error [
  | some e ↦ some false
  | none ↦ if error_check then Option.map not (first_is_error resp.res) else some true
]

-- The result once the channel is closed: `finalResp`, if any response has come.
abbrev when_closed : Option GroupResponse → GroupResponse
when_closed (some final_resp) = final_resp
when_closed none = refusal no_multicall_response

-- `ProcessMulticallResponses` on the responses in the order in which they come, with `finalResp`
-- so far; `none` is a panic.
unfoldable pub process_multicall_responses :
    Bool → Option GroupResponse → List GroupResponse → Option GroupResponse
unfolding settles
process_multicall_responses error_check final_resp [] = some (when_closed final_resp)
process_multicall_responses error_check final_resp (resp ∷ resps) =
    let rest = process_multicall_responses error_check (some resp) resps in
    elim (settles error_check resp) [ none ↦ none | some true ↦ some resp | some false ↦ rest ]
