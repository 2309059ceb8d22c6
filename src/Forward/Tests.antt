-- ===== src/Forward/Tests.antt =====
-- Requests that a group of two backends serves, and the theorems at them.
use Prim.Native.String.{◌++◌ as concat}
use mathlib.Core.List.{Perm}
use mathlib.Core.List.Perm
use infra.Base.{
  ℕ, zero, suc, ◌≤◌, ◌≡◌, ◌↔◌, refl, true, false, not, ◌&&◌, none, some, String, List, [], ◌∷◌,
  ◌++◌, length, here, there, In, ltb, select, arith,
}
use infra.Base.Call.{done, panicked}
use infra.Hex.{tally}
use infra.EthRpc.Strokes.{geth, plain_texts}
use infra.Json.{Json, nil, cons}
use infra.Rewrite.{RewriteContext, rewrite_tags}
use infra.Rpc.{RpcReq, RpcRes, req_ids, res_ids}
use infra.Forward.Sorting.{sort_batch_rpc_response}
use infra.Forward.SortOrder.{Distinct, sort_batch-panics_iff, sort_batch-restores}
use infra.Forward.Send.{ForwardErr, Exchange, no_response, response, read, do_forward, other}
use infra.Forward.Counts.{Succeeded, do_forward-Succeeded}
use infra.Forward.Attempts.{
  Target, GroupResponse, send, backend_forward, refusal, answer_of, settles,
  forward_request_to_backend_group, process_multicall_responses,
}
use infra.Forward.Failover.{
  AnswersAfter, Passes, backend_forward-AnswersAfter, group-served, multicall-settles,
}
use infra.Forward.Balance.{
  Shuffle, InTwo, ordered_backends, load_balanced, ordered_backends-load_balanced,
}
use infra.Forward.Overrides.{Fate, IndexedRes, overwrite_consensus_responses}
use infra.Forward.Order.{fates, weave}
use infra.Forward.Group.{Group, group_forward, group_forward-restores}

abbrev call : ℕ → String → RpcReq
call n method = record {
  jsonrpc = "2.0";
  method = method;
  params = some (Json.arr nil);
  id = n ∷ [];
}

abbrev answer : ℕ → RpcRes
answer n = record { jsonrpc = "2.0"; result = Json.num n; error = none; id = n ∷ [] }

abbrev batch : List RpcReq
batch = call 1 "eth_chainId" ∷ call 2 "net_version" ∷ []

-- The backend answers a batch in the other order.
abbrev swapped : Exchange
swapped = response 200 (read none (some (some (answer 2) ∷ some (answer 1) ∷ [])))

abbrev good : Target
good = record { name = "good"; max_retries = 0; receipts_target = ""; exchange = λ i reqs. swapped }

-- A backend that answers from its second attempt on.
abbrev late_exchange : ℕ → Exchange
late_exchange zero = no_response
late_exchange (suc i) = swapped

abbrev late : Target
late = record {
  name = "late";
  max_retries = 2;
  receipts_target = "";
  exchange = λ i reqs. late_exchange i;
}

abbrev bad : Target
bad = record {
  name = "bad";
  max_retries = 1;
  receipts_target = "";
  exchange = λ i reqs. no_response;
}

ids-Distinct : Distinct (req_ids batch)
ids-Distinct = ((λ e. cc, tt), (tt, tt))

sort_batch-restores_example :
    (sorted : List RpcRes) × (sort_batch_rpc_response {E = ForwardErr} batch
        (answer 2 ∷ answer 1 ∷ [])
      ≡ done sorted)
    × Perm sorted (answer 2 ∷ answer 1 ∷ [])
    × (res_ids sorted ≡ req_ids batch)
sort_batch-restores_example =
    sort_batch-restores batch (answer 2 ∷ answer 1 ∷ []) ids-Distinct
      (Perm.swap (1 ∷ []) (2 ∷ []) [])

sort_batch-panics_iff_example :
    (sort_batch_rpc_response {E = ForwardErr} batch (answer 1 ∷ []) ≡ panicked)
    ↔ (¬ Distinct (req_ids batch))
sort_batch-panics_iff_example = sort_batch-panics_iff batch (answer 1 ∷ [])

do_forward-Succeeded_example :
    (length (answer 1 ∷ answer 2 ∷ []) ≡ length batch)
    × Succeeded
        (do_forward tally geth plain_texts "" true (λ reqs. swapped) batch)
        (answer 1 ∷ answer 2 ∷ [])
do_forward-Succeeded_example =
    do_forward-Succeeded tally geth plain_texts "" true (λ reqs. swapped) batch
      (unfold do_forward sort_batch_rpc_response in refl)

abbrev receipts : List RpcReq
receipts =
    record (call 7 "consensus_getReceipts") {
      params = some (Json.arr (cons (Json.text "|||") nil));
    }
    ∷ []

-- The answer to the one request, under either method.
abbrev plain_receipts : Exchange
plain_receipts = response 200 (read (some (answer 7)) none)

backend_forward-AnswersAfter_example :
    ((backend_forward tally geth plain_texts true late batch).result
      ≡ done (answer 1 ∷ answer 2 ∷ []))
    ↔ ((k : ℕ) × (k ≤ 2)
        × AnswersAfter (send tally geth plain_texts true late) k 0 batch (answer 1 ∷ answer 2 ∷ []))
backend_forward-AnswersAfter_example =
    backend_forward-AnswersAfter tally geth plain_texts true late (call 1 "eth_chainId")
      (call 2 "net_version" ∷ []) (answer 1 ∷ answer 2 ∷ [])

abbrev served : GroupResponse
served = answer_of "main" late (answer 1 ∷ answer 2 ∷ [])

group-served_example :
    (before : List Target) × (b : Target) × (rest : List Target) × (last : List RpcReq) × (bad
        ∷ late ∷ good ∷ []
      ≡ before ++ b ∷ rest)
    × Passes tally geth plain_texts true batch before last
    × ((backend_forward tally geth plain_texts true b last).result ≡ done served.res)
    × (served.served_by ≡ concat "main" (concat "/" b.name))
group-served_example =
    group-served tally geth plain_texts true "main" batch (bad ∷ late ∷ good ∷ []) {out = batch}
      {r = served} (omega arith)
      (unfold forward_request_to_backend_group do_forward sort_batch_rpc_response in refl) refl

multicall-settles_example :
    (out : GroupResponse) × (process_multicall_responses true none (refusal other ∷ served ∷ [])
      ≡ some out)
    × (settles true out ≡ some true)
    × In out (refusal other ∷ served ∷ [])
multicall-settles_example =
    multicall-settles true none (refusal other ∷ served ∷ []) {r = served}
      (unfold settles in (λ e. cc, (λ e. cc, tt))) (there _ _ (here _)) (unfold settles in refl)

abbrev keep : Shuffle ℕ
keep = record { run = λ xs. xs; rearranges = λ xs. Perm.refl xs }

ordered_backends-load_balanced_example :
    Perm
      (ordered_backends (λ b. ltb b 3) (λ b. ltb 1 b) true keep (4 ∷ 1 ∷ 2 ∷ []))
      (4 ∷ 1 ∷ 2 ∷ [])
    × InTwo
        (λ b. ltb b 3)
        (λ b. ltb 1 b)
        true
        (λ b. ltb b 3)
        (λ b. not (ltb b 3))
        (ordered_backends (λ b. ltb b 3) (λ b. ltb 1 b) true keep (4 ∷ 1 ∷ 2 ∷ []))
    × Perm
        (load_balanced (λ b. ltb b 3) (λ b. ltb 1 b) true keep keep (4 ∷ 1 ∷ 2 ∷ []))
        (select (λ b. ltb b 3) (4 ∷ 1 ∷ 2 ∷ []))
    × InTwo
        (λ b. ltb b 3)
        (λ b. ltb 1 b)
        true
        (λ b. ltb b 3 && not (ltb 1 b))
        (λ b. ltb b 3 && ltb 1 b)
        (load_balanced (λ b. ltb b 3) (λ b. ltb 1 b) true keep keep (4 ∷ 1 ∷ 2 ∷ []))
ordered_backends-load_balanced_example =
    ordered_backends-load_balanced (λ b. ltb b 3) (λ b. ltb 1 b) true keep keep (4 ∷ 1 ∷ 2 ∷ [])
      (4 ∷ 1 ∷ 2 ∷ [])

abbrev context : RewriteContext
context = record { latest = 5; safe = 3; finalized = 2; max_block_range = 2 }

abbrev aware : Group
aware = record {
  name = "main";
  multicall = false;
  multicall_rpc_error_check = false;
  consensus = some context;
}

-- The second of three requests is answered by the proxy itself.
abbrev three : List RpcReq
three = call 1 "eth_chainId" ∷ call 3 "eth_blockNumber" ∷ call 2 "net_version" ∷ []

abbrev overridden_number : List IndexedRes
overridden_number =
    record {
      index = 1;
      res = record { jsonrpc = "2.0"; result = Json.text "|||||"; error = none; id = 3 ∷ [] };
    }
    ∷ []

group_forward-restores_example :
    (fs : List Fate) × (fates tally geth context three ≡ some fs)
    × (group_forward tally geth plain_texts aware (late ∷ []) (late ∷ []) (λ rs. rs) true three
        ≡ some (record served { res = weave fs served.res }))
    × (res_ids (weave fs served.res) ≡ req_ids three)
group_forward-restores_example =
    group_forward-restores tally geth plain_texts aware (late ∷ []) (late ∷ []) (λ rs. rs) true
      context (call 1 "eth_chainId") (call 3 "eth_blockNumber" ∷ call 2 "net_version" ∷ []) batch
      batch overridden_number served refl
      (unfold overwrite_consensus_responses rewrite_tags in refl) refl
      (unfold forward_request_to_backend_group do_forward sort_batch_rpc_response in refl) refl refl
