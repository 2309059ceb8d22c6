-- ===== src/Rewrite/Tests.antt =====
-- The rewriter over a codec and a reader of block parameters that have the laws.
use infra.Rewrite.Ranges.{rewrite_filter_bounds, rewrite_range_panics_iff}
use infra.Rewrite.Params.{rewrite_param-Forwards, Forwards}
use infra.Rewrite.Bounds.{IsSane}
use infra.Base.{
  sub64, ◌+◌, ◌≤◌, ℕ, ◌<◌, ◌≡◌, ◌↔◌, refl, true, false, Option, some, [], ◌∷◌, arith, u64,
}
use infra.Base.Call.{done, panicked}
use infra.Hex.{tally}
use infra.Json.{lookup, Json, nil, cons, Fields, field, end}
use infra.EthRpc.Strokes.{geth}
use infra.Rewrite.{
  rewrite_tag, rewrite_tag_block_number_or_hash, block_out_of_range, rewrite_filter, check_range,
  block_number, override_error, RewriteContext, rewrite_none, override_request, rewrite_tags,
  rewrite_param, rewrite_range, unmarshal_items, unmarshal_maps,
}

abbrev context : RewriteContext
context = record { latest = 5; safe = 3; finalized = 2; max_block_range = 2 }

context-IsSane : IsSane context
context-IsSane = omega arith

-- `eth_getBalance` at the latest block, and at a block beyond it.
run-balance :
    rewrite_tags tally geth context "eth_getBalance" (some (Json.arr (cons (Json.text "0xa") nil)))
    ≡ some (override_request (Json.arr (cons (Json.text "0xa") (cons (Json.text "|||||") nil))))
unfolding rewrite_tags rewrite_tag_block_number_or_hash
run-balance = refl

run-beyond :
    rewrite_tags tally geth context "eth_getBlockByNumber"
      (some (Json.arr (cons (Json.text "||||||") nil)))
    ≡ some (override_error block_out_of_range)
unfolding rewrite_tags rewrite_tag
run-beyond = refl

-- A parameter that is `null` is passed on.
run_null :
    rewrite_tags tally geth context "eth_getBalance"
      (some (Json.arr (cons (Json.text "0xa") (cons Json.null nil))))
    ≡ some rewrite_none
unfolding rewrite_tags rewrite_tag_block_number_or_hash
run_null = refl

abbrev balance : Option Json
balance = some (Json.arr (cons (Json.text "0xa") (cons (Json.text "safe") nil)))

rewrite_param-Forwards_example :
    Forwards tally geth context
      (Json.text "0xa" ∷ Json.text "safe" ∷ [])
      1
      (rewrite_param tally geth context balance 1 false true)
rewrite_param-Forwards_example =
    rewrite_param-Forwards tally geth context balance (Json.text "0xa" ∷ Json.text "safe" ∷ []) 1
      false true context-IsSane (unfold unmarshal_items in refl)

rewrite_range_panics_iff_example :
    (rewrite_range tally geth context (some (Json.arr nil)) 0 ≡ panicked)
    ↔ (unmarshal_maps (some (Json.arr nil)) ≡ some [])
rewrite_range_panics_iff_example = rewrite_range_panics_iff tally geth context (some (Json.arr nil))

abbrev filter : Fields
filter = field "fromBlock" (Json.text "|||") (field "toBlock" (Json.text "|||||") end)

filter_passes : rewrite_filter tally geth context filter ≡ done (filter, false)
unfolding rewrite_filter rewrite_tag check_range sub64
filter_passes = refl

rewrite_filter_bounds_example :
    (from : ℕ) × (to : ℕ) × (block_number tally geth context filter "fromBlock" ≡ done from)
    × (block_number tally geth context filter "toBlock" ≡ done to)
    × (from ≤ to → to ≤ from + 2)
    × (to < from → to + u64 ≤ from + 2)
rewrite_filter_bounds_example =
    rewrite_filter_bounds tally geth context filter filter false (omega arith)
      (unfold lookup in refl) filter_passes
