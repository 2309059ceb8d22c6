-- ===== src/Http/Limit.antt =====
-- proxyd/server.go: the rate limits of a call (`isLimited`) and of a sender (`rateLimitSender`).
--
-- The limiters are those of Limits.antt, over one state each. `instant` gives the instant of each
-- call of a limiter, by its number. What a raw transaction decodes to is an argument.
use Prim.Native.String.{◌++◌ as str_append}
use infra.Base.{
  ℕ, ◌+◌, Bool, true, false, not, ◌&&◌, ◌||◌, Option, none, some, String, str_eq, List, [], ◌∷◌,
  ◌==◌, ◌>>=◌, if◌then◌else◌,
}
use infra.Base.Dict.{Dict, lookup, insert}
use infra.Json.{Json, Items, nil, cons}
use infra.Rpc.{
  Bytes, RpcReq, RpcErr, err_parse_err, err_internal, err_invalid_params,
  err_over_sender_rate_limit,
}
use infra.Limits.{Limiter}
use infra.Http.Settings.{Pattern, Server}

-- The limiters as they are, and how many times one was called.
pub record Lims (L : Type 0) : Type 0 where
  pub main_lim : Option L
  pub override_lims : Dict L
  pub sender_lim : Option L
  pub calls : ℕ

-- The limiters of a new server.
unfoldable pub fresh : {L : Type 0} → Server L → Lims L
fresh s = record {
  main_lim = s.main_lim;
  override_lims = s.override_lims;
  sender_lim = s.sender_lim;
  calls = 0;
}

-- `isUnlimitedOrigin` and `isUnlimitedUserAgent`
unfoldable pub is_unlimited : List Pattern → String → Bool
is_unlimited [] text = false
is_unlimited (p ∷ ps) text = p text || is_unlimited ps text

-- `isGlobalLimit`
unfoldable pub is_global_limit : List String → String → Bool
is_global_limit [] method = false
is_global_limit (m ∷ ms) method = str_eq m method || is_global_limit ms method

-- `isAllowedChainId`
unfoldable pub is_listed : List ℕ → ℕ → Bool
is_listed [] id = false
is_listed (c ∷ cs) id = (id == c) || is_listed cs id

unfoldable pub is_allowed_chain_id : List ℕ → ℕ → Bool
unfolding is_listed
is_allowed_chain_id [] id = true
is_allowed_chain_id (c ∷ cs) id = is_listed (c ∷ cs) id

-- What `UnmarshalText`, `UnmarshalBinary` and `Sender` of go-ethereum return: an error has a text.
pub data Decoded (A : Type 0) : Type 0 where
  failed : String → Decoded A
  decoded : A → Decoded A

-- go-ethereum's transactions, of the type `T`; the text of a number; and the error
-- `txpool.ErrInvalidSender` as it is shown.
pub record Txs (T : Type 0) : Type 0 where
  pub unmarshal_text : String → Decoded Bytes
  pub unmarshal_binary : Bytes → Decoded T
  pub chain_id : T → ℕ
  pub sender : T → Decoded String
  pub nonce : T → ℕ
  pub decimal : ℕ → String
  pub err_invalid_sender : RpcErr

-- An item of `[]string` after `json.Unmarshal`, which leaves "" for null.
unfoldable pub text_item : Json → Option String
text_item Json.null = some ""
text_item (Json.text s) = some s
text_item _ = none

unfoldable pub text_items : Items → Option (List String)
unfolding text_item
text_items nil = some []
text_items (cons j js) = do t ← text_item j; ts ← text_items js; some (t ∷ ts)

-- `json.Unmarshal(req.Params, &params)`, with `params` a `[]string`: `none` is an error.
unfoldable pub texts_of : Option Json → Option (List String)
unfolding text_items
texts_of (some Json.null) = some []
texts_of (some (Json.arr js)) = text_items js
texts_of _ = none

-- The only parameter.
unfoldable pub only_param : List String → Decoded String
only_param (p ∷ []) = decoded p
only_param _ = failed "missing value for required argument 0"

-- The checks before the limiter is called: an error, or the key to call it with.
pub data Checked : Type 0 where
  rejected : RpcErr → Checked
  keyed : String → Checked

-- An error of these is of `ErrInvalidParams`.
abbrev pub or_invalid : {A : Type 0} → Decoded A → (A → Checked) → Checked
or_invalid (failed e) k = rejected (err_invalid_params e)
or_invalid (decoded a) k = k a

module _ {T : Type 0} (txs : Txs T) (allowed_chain_ids : List ℕ) where
  unfoldable pub sender_key : String → T → String
  sender_key from tx = str_append from (str_append ":" (txs.decimal (txs.nonce tx)))

  unfoldable pub check_tx : T → Checked
  unfolding is_allowed_chain_id sender_key
  check_tx tx =
      if not (is_allowed_chain_id allowed_chain_ids (txs.chain_id tx))
      then rejected txs.err_invalid_sender
      else or_invalid (txs.sender tx) (λ from. keyed (sender_key from tx))

  unfoldable pub check_sender : RpcReq → Checked
  unfolding texts_of only_param check_tx
  check_sender req = elim (texts_of req.params) [
    | none ↦ rejected err_parse_err
    | some params ↦ or_invalid (only_param params) (λ text.
        or_invalid (txs.unmarshal_text text)
          (λ bytes. or_invalid (txs.unmarshal_binary bytes) check_tx))
  ]

module _ {L : Type 0} (lim : Limiter L) (instant : ℕ → ℕ) where
  -- The answer of a limiter of a method, with the limiters after it.
  unfoldable pub take_override : String → String → L → Lims L → Option Bool × Lims L
  unfolding insert
  take_override xff method l ls =
      let (answer, l') = lim.take (instant ls.calls) xff l in
      (
        answer,
        record ls { override_lims = insert method l' ls.override_lims; calls = ls.calls + 1 },
      )

  unfoldable pub take_main : String → L → Lims L → Option Bool × Lims L
  take_main xff l ls =
      let (answer, l') = lim.take (instant ls.calls) xff l in
      (answer, record ls { main_lim = some l'; calls = ls.calls + 1 })

  unfoldable pub take_sender : String → L → Lims L → Option Bool × Lims L
  take_sender key l ls =
      let (answer, l') = lim.take (instant ls.calls) key l in
      (answer, record ls { sender_lim = some l'; calls = ls.calls + 1 })

  -- An error of `Take` limits too.
  abbrev pub limits : Option Bool × Lims L → Bool × Lims L
  limits (none, ls) = (true, ls)
  limits (some ok, ls) = (not ok, ls)

  -- `isLimited`: whether the call is exempt, its address and the method.
  unfoldable pub is_limited : Server L → Bool → String → String → Lims L → Bool × Lims L
  unfolding is_global_limit take_main take_override lookup
  is_limited s exempt xff method ls =
      if not (is_global_limit s.globally_limited_methods method) && exempt
      then (false, ls)
      else if str_eq method ""
      then elim ls.main_lim [ none ↦ (false, ls) | some l ↦ limits (take_main xff l ls) ]
      else elim (lookup method ls.override_lims) [
        | none ↦ (false, ls)
        | some l ↦ limits (take_override xff method l ls)
      ]

  -- The end of `rateLimitSender`: an error of `Take`, or its answer.
  abbrev pub after_take : Option Bool × Lims L → Option RpcErr × Lims L
  after_take (none, ls) = (some err_internal, ls)
  after_take (some true, ls) = (none, ls)
  after_take (some false, ls) = (some err_over_sender_rate_limit, ls)

  unfoldable pub take_checked : Checked → L → Lims L → Option RpcErr × Lims L
  unfolding take_sender
  take_checked (rejected e) l ls = (some e, ls)
  take_checked (keyed key) l ls = after_take (take_sender key l ls)

  -- Only if there is a limiter for senders.
  unfoldable pub ask_sender : Option L → Checked → Lims L → Option RpcErr × Lims L
  unfolding take_checked
  ask_sender none c ls = (none, ls)
  ask_sender (some l) c ls = take_checked c l ls

  -- `rateLimitSender`, and the test before it is called.
  unfoldable pub rate_limit_sender :
      {T : Type 0} → Txs T → Server L → RpcReq → Lims L → Option RpcErr × Lims L
  unfolding check_sender ask_sender
  rate_limit_sender txs s req ls =
      ask_sender ls.sender_lim (check_sender txs s.allowed_chain_ids req) ls
