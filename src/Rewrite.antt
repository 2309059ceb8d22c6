-- ===== src/Rewrite.antt =====
-- proxyd/rewriter.go: block tags in requests are replaced by the blocks of the consensus.
-- The comments name the functions of the source. `req.Params` is the value that it parses to,
-- `none` where it is no JSON; what a rewrite changes of a request is its parameters.
pub mod Bounds
pub mod Params
pub mod Ranges
mod Tests
use infra.Base.{
  ℕ, ◌+◌, ◌^◌, Bool, true, false, not, ◌&&◌, ◌||◌, Option, none, some, String, str_eq, List, [],
  ◌∷◌, ◌++◌, length, get_elem?, set, ltb, leb, ◌==◌, add64, sub64, if◌then◌else◌,
}
use infra.Base.Call.{Call, done, failed, panicked, ◌>>=◌, ◌>>◌}
use infra.Hex.{Hex}
use infra.Json.{Json, Fields, end, Items, lookup, insert, as_text, to_list, of_list}
use infra.EthRpc.{
  EthRpc, BlockNumber, BlockNumberOrHash, number, hash, neither, at, pending, earliest, finalized,
  safe, latest,
}

pub record RewriteContext : Type 0 where
  pub latest : ℕ
  pub safe : ℕ
  pub finalized : ℕ
  pub max_block_range : ℕ

-- The errors that the caller tells apart.
pub data RewriteErr : Type 0 where
  block_out_of_range range_too_large other : RewriteErr

-- `RewriteResult` with what comes with it: the error, the new parameters, or the result served.
pub data RewriteResult : Type 0 where
  rewrite_none : RewriteResult
  override_error : RewriteErr → RewriteResult
  override_request : Json → RewriteResult
  override_response : Json → RewriteResult

-- `json.Unmarshal` into a `[]interface{}`
unfoldable pub unmarshal_items : Option Json → Option (List Json)
unfolding to_list
unmarshal_items (some (Json.arr xs)) = some (to_list xs)
unmarshal_items (some Json.null) = some []
unmarshal_items _ = none

-- `json.Unmarshal` into a `[]map[string]interface{}`; `none` is a nil map.
unfoldable pub unmarshal_map_items : Items → Option (List (Option Fields))
unmarshal_map_items Items.nil = some []
unmarshal_map_items (Items.cons x xs) = elim x [
  | Json.obj m ↦ elim (unmarshal_map_items xs) [ none ↦ none | some ms ↦ some (some m ∷ ms) ]
  | Json.null ↦ elim (unmarshal_map_items xs) [ none ↦ none | some ms ↦ some (none ∷ ms) ]
  | _ ↦ none
]

unfoldable pub unmarshal_maps : Option Json → Option (List (Option Fields))
unfolding unmarshal_map_items
unmarshal_maps (some (Json.arr xs)) = unmarshal_map_items xs
unmarshal_maps (some Json.null) = some []
unmarshal_maps _ = none

-- `json.Marshal` of such a slice.
unfoldable pub map_items : List (Option Fields) → List Json
map_items [] = []
map_items (none ∷ ms) = Json.null ∷ map_items ms
map_items (some m ∷ ms) = Json.obj m ∷ map_items ms

unfoldable pub marshal_maps : List (Option Fields) → Json
unfolding of_list map_items
marshal_maps ms = Json.arr (of_list (map_items ms))

-- `n > int64(top)`: from 2^63 on the conversion gives a negative number.
unfoldable pub exceeds : ℕ → ℕ → Bool
exceeds n top = not (ltb top (2 ^ 63)) || ltb top n

-- A case of the `switch` on a method.
unfoldable pub one_of : String → List String → Bool
one_of method [] = false
one_of method (name ∷ names) = str_eq method name || one_of method names

abbrev pub is_some : Option Json → Bool
is_some none = false
is_some (some _) = true

-- Reading a nil map.
abbrev pub fields_of : Option Fields → Fields
fields_of none = end
fields_of (some m) = m

-- The end of `rewriteRange`.
abbrev pub rewritten : List (Option Fields) → ℕ → Fields × Bool → Call RewriteErr RewriteResult
rewritten p pos (m, modified) =
    done (if modified then override_request (marshal_maps (set p pos (some m))) else rewrite_none)

module _ (hex : Hex) (rpc : EthRpc hex) (rctx : RewriteContext) where
  -- The `switch` of `rewriteTag`, on what the text was read as.
  unfoldable pub resolve_tag : String → BlockNumberOrHash → Call RewriteErr (String × Bool)
  unfolding exceeds
  resolve_tag current (hash h) = done (current, false)
  resolve_tag current neither = done (current, false)
  resolve_tag current (number pending) = done (current, false)
  resolve_tag current (number earliest) = done (current, false)
  resolve_tag current (number finalized) = done (hex.encode rctx.finalized, true)
  resolve_tag current (number safe) = done (hex.encode rctx.safe, true)
  resolve_tag current (number latest) = done (hex.encode rctx.latest, true)
  resolve_tag current (number (at n)) =
      if exceeds n rctx.latest then failed block_out_of_range else done (current, false)

  -- `rewriteTag`
  unfoldable pub rewrite_tag : String → Call RewriteErr (String × Bool)
  unfolding resolve_tag
  rewrite_tag current = elim (rpc.parse (Json.text current)) [
    | none ↦ failed other
    | some bnh ↦ resolve_tag current bnh
  ]

  -- `rewriteTagBlockNumberOrHash`
  unfoldable pub rewrite_tag_block_number_or_hash :
      BlockNumberOrHash → Call RewriteErr (BlockNumberOrHash × Bool)
  unfolding exceeds
  rewrite_tag_block_number_or_hash (hash h) = done (hash h, false)
  rewrite_tag_block_number_or_hash neither = done (neither, false)
  rewrite_tag_block_number_or_hash (number pending) = done (number pending, false)
  rewrite_tag_block_number_or_hash (number earliest) = done (number earliest, false)
  rewrite_tag_block_number_or_hash (number finalized) = done (number (at rctx.finalized), true)
  rewrite_tag_block_number_or_hash (number safe) = done (number (at rctx.safe), true)
  rewrite_tag_block_number_or_hash (number latest) = done (number (at rctx.latest), true)
  rewrite_tag_block_number_or_hash (number (at n)) =
      if exceeds n rctx.latest then failed block_out_of_range else done (number (at n), false)

  -- The value at `p[pos]` in `rewriteParam`: what replaces it, and whether it does.
  unfoldable pub rewrite_value : Bool → Json → Call RewriteErr (Json × Bool)
  unfolding as_text
  rewrite_value true v = elim (rpc.parse v) [
    | some bnh ↦ do (val, rw_) ← rewrite_tag_block_number_or_hash bnh; done (rpc.marshal val, rw_)
    | none ↦ elim (as_text (some v)) [
      | none ↦ failed other
      | some s ↦ do (val, rw_) ← rewrite_tag s; done (Json.text val, rw_)
    ]
  ]
  rewrite_value false v = elim (as_text (some v)) [
    | none ↦ failed other
    | some s ↦ do (val, rw_) ← rewrite_tag s; done (Json.text val, rw_)
  ]

  -- `rewriteParam` from the test for a missing parameter on.
  unfoldable pub rewrite_at : List Json → ℕ → Bool → Call RewriteErr RewriteResult
  unfolding rewrite_value of_list
  rewrite_at p pos block_nr_or_hash = elim (get_elem? p pos) [
    | none ↦ done rewrite_none
    | some v ↦ do
      (val, rw_) ← rewrite_value block_nr_or_hash v
      done (if rw_ then override_request (Json.arr (of_list (set p pos val))) else rewrite_none)
  ]

  -- `rewriteParam`
  unfoldable pub rewrite_param : Option Json → ℕ → Bool → Bool → Call RewriteErr RewriteResult
  unfolding unmarshal_items rewrite_at
  rewrite_param params pos required block_nr_or_hash = elim (unmarshal_items params) [
    | none ↦ failed other
    | some p ↦
        rewrite_at (if length p == pos && not required then p ++ Json.text "latest" ∷ [] else p) pos
          block_nr_or_hash
  ]

  -- `rewriteTagMap` on the value at the key.
  unfoldable pub rewrite_tag_entry : Fields → String → Json → Call RewriteErr (Fields × Bool)
  unfolding insert
  rewrite_tag_entry m key Json.null = done (m, false)
  rewrite_tag_entry m key (Json.text current) = if str_eq current "" then done (m, false) else (do
    (val, rw_) ← rewrite_tag current
    done (if rw_ then (insert key (Json.text val) m, true) else (m, false)))
  rewrite_tag_entry m key _ = failed other

  -- `rewriteTagMap`: the map after it, and whether it changed.
  unfoldable pub rewrite_tag_map : Fields → String → Call RewriteErr (Fields × Bool)
  unfolding lookup rewrite_tag_entry
  rewrite_tag_map m key = elim (lookup key m) [
    | none ↦ done (m, false)
    | some v ↦ rewrite_tag_entry m key v
  ]

  -- `blockNumber`
  unfoldable pub block_number : Fields → String → Call RewriteErr ℕ
  unfolding lookup as_text
  block_number m key = elim (as_text (lookup key m)) [
    | none ↦ failed other
    | some current ↦
        if str_eq current "earliest"
        then done 0
        else if str_eq current "pending"
        then done (add64 rctx.latest 1)
        else elim (hex.decode current) [ none ↦ failed other | some n ↦ done n ]
  ]

  -- The test of the size of a range in `rewriteRange`.
  unfoldable pub check_range : Bool → Fields → Call RewriteErr (Unit {0})
  unfolding block_number
  check_range has_one m =
      if ltb 0 rctx.max_block_range && has_one
      then (do
        from ← block_number m "fromBlock"
        to ← block_number m "toBlock"
        if ltb rctx.max_block_range (sub64 to from) then failed range_too_large else done tt)
      else done tt

  -- The defaulting at the head of `rewriteRange`.
  unfoldable pub default_range : Bool → Bool → Fields → Fields
  unfolding insert
  default_range true false m = insert "toBlock" (Json.text "latest") m
  default_range false true m = insert "fromBlock" (Json.text "latest") m
  default_range _ _ m = m

  -- `rewriteRange` on the map at `p[pos]`: the map after it, and whether a tag was replaced.
  unfoldable pub rewrite_filter : Fields → Call RewriteErr (Fields × Bool)
  unfolding lookup default_range rewrite_tag_map check_range
  rewrite_filter m = do
    let has_from = is_some (lookup "fromBlock" m)
    let has_to = is_some (lookup "toBlock" m)
    (m₁, modified_from) ← rewrite_tag_map (default_range has_from has_to m) "fromBlock"
    (m₂, modified_to) ← rewrite_tag_map m₁ "toBlock"
    check_range (has_from || has_to) m₂
    done (m₂, modified_from || modified_to)

  -- `rewriteRange`. An index out of range panics; a nil map reads as an empty one, and is not
  -- written.
  unfoldable pub rewrite_range : Option Json → ℕ → Call RewriteErr RewriteResult
  unfolding unmarshal_maps rewrite_filter marshal_maps
  rewrite_range params pos = elim (unmarshal_maps params) [
    | none ↦ failed other
    | some p ↦ elim (get_elem? p pos) [
      | none ↦ panicked
      | some m ↦ rewrite_filter (fields_of m) >>= rewritten p pos
    ]
  ]

  -- `RewriteRequest`
  unfoldable pub rewrite_request : String → Option Json → Call RewriteErr RewriteResult
  unfolding rewrite_range rewrite_param one_of
  rewrite_request method params =
      if one_of method ("eth_getLogs" ∷ "eth_newFilter" ∷ [])
      then rewrite_range params 0
      else if one_of method ("debug_getRawReceipts" ∷ "consensus_getReceipts" ∷ [])
      then rewrite_param params 0 true false
      else if one_of method
          ("eth_getBalance" ∷ "eth_getCode" ∷ "eth_getTransactionCount" ∷ "eth_call" ∷ [])
      then rewrite_param params 1 false true
      else if one_of method ("eth_getStorageAt" ∷ "eth_getProof" ∷ [])
      then rewrite_param params 2 false true
      else if one_of method (
          "eth_getBlockTransactionCountByNumber" ∷ "eth_getUncleCountByBlockNumber"
          ∷ "eth_getBlockByNumber" ∷ "eth_getTransactionByBlockNumberAndIndex"
          ∷ "eth_getUncleByBlockNumberAndIndex" ∷ [])
      then rewrite_param params 0 false false
      else done rewrite_none

  -- An error of Go beside `RewriteOverrideError`.
  abbrev to_result : Call RewriteErr RewriteResult → Option RewriteResult
  to_result (done r) = some r
  to_result (failed e) = some (override_error e)
  to_result panicked = none

  -- `RewriteTags`, with `RewriteResponse`; `none` is a panic. The result served for
  -- `eth_blockNumber` is the latest block.
  unfoldable pub rewrite_tags : String → Option Json → Option RewriteResult
  unfolding rewrite_request
  rewrite_tags method params =
      if str_eq method "eth_blockNumber"
      then some (override_response (Json.text (hex.encode rctx.latest)))
      else to_result (rewrite_request method params)
