-- ===== src/Server/Intake.antt =====
-- proxyd/server.go: the first loop of `handleBatchRPC`, which answers requests itself or puts them
-- into batches.
use infra.Base.{
  ℕ, ◌+◌, Bool, false, ◌&&◌, Option, none, some, String, str_eq, List, [], ◌∷◌, ◌++◌, ◌==◌,
  if◌then◌else◌,
}
use infra.Json.{Json, nil}
use infra.Rpc.{
  RpcReq, RpcRes, RpcErr, Bytes, err_parse_err, err_method_not_whitelisted, err_over_rate_limit,
  validate_rpc_req, new_rpc_error_res, new_rpc_res,
}
use infra.Forward.Sorting.{bytes_eq}
use infra.Server.{Outside, Elem, BatchGroup, Batches}

-- What the loop makes of one request: a response, a place in a batch for a backend group, or the
-- response to the whole call.
pub data Verdict : Type 0 where
  answered : RpcRes → Verdict
  queued : RpcReq → String → Verdict
  healthy : RpcRes → Verdict

-- `ids[id]`, and `ids[id]++`.
unfoldable pub count_id : Bytes → List (Bytes × ℕ) → ℕ
count_id id [] = 0
count_id id ((k, n) ∷ ids) = if bytes_eq k id then n else count_id id ids

unfoldable pub bump_id : Bytes → List (Bytes × ℕ) → List (Bytes × ℕ)
bump_id id [] = (id, 1) ∷ []
bump_id id ((k, n) ∷ ids) = if bytes_eq k id then (k, n + 1) ∷ ids else (k, n) ∷ bump_id id ids

abbrev pub same_group : BatchGroup → BatchGroup → Bool
same_group a b = a.group_id == b.group_id && str_eq a.backend_group b.backend_group

-- `batches[group] = append(batches[group], elem)`
unfoldable pub append_elem : BatchGroup → Elem → Batches → Batches
append_elem g e [] = (g, e ∷ []) ∷ []
append_elem g e ((h, es) ∷ batches) =
    if same_group h g then (h, es ++ e ∷ []) ∷ batches else (h, es) ∷ append_elem g e batches

-- The end of the loop: the slots of the responses and the batches, or the response to a health
-- check.
pub data Taken (S : Type 0) : Type 0 where
  early : RpcRes → Taken S
  taken : List (Option RpcRes) → Batches → S → Taken S

abbrev pub with_slot : {S : Type 0} → Option RpcRes → Taken S → Taken S
with_slot slot (early r) = early r
with_slot slot (taken slots batches s) = taken (slot ∷ slots) batches s

module _ {S : Type 0} (o : Outside S) where
  -- After the limit of the sender.
  abbrev pub sent_by : RpcReq → String → Option RpcErr × S → Verdict × S
  sent_by req group (some e, s) = (answered (new_rpc_error_res req.id e), s)
  sent_by req group (none, s) = (queued req group, s)

  -- The limit of the method, if it has one.
  abbrev pub limited_method : RpcReq → S → Bool × S
  limited_method req s = if o.has_override req.method then o.is_limited req.method s else (false, s)

  -- From the rate limits on.
  unfoldable pub limit : RpcReq → String → S → Verdict × S
  limit req group s =
      let (main_limited, s₁) = o.is_limited "" s in
      if main_limited
      then (answered (new_rpc_error_res req.id err_over_rate_limit), s₁)
      else let (method_limited, s₂) = limited_method req s₁ in
        if method_limited
        then (answered (new_rpc_error_res req.id err_over_rate_limit), s₂)
        else sent_by req group (
            if str_eq req.method "eth_sendRawTransaction"
            then o.rate_limit_sender req s₂
            else (none, s₂))

  -- From the validation on.
  unfoldable pub screen : RpcReq → S → Verdict × S
  unfolding limit
  screen req s = elim (validate_rpc_req req) [
    | some e ↦ (answered (new_rpc_error_res [] e), s)
    | none ↦
        let group = o.group_of_method req.method in
        if str_eq req.method "eth_accounts"
        then (answered (new_rpc_res req.id (Json.arr nil)), s)
        else if str_eq group ""
        then (answered (new_rpc_error_res req.id err_method_not_whitelisted), s)
        else limit req group s
  ]

  -- One pass of the loop, in a call of `n` requests.
  unfoldable pub admit : ℕ → Option RpcReq → S → Verdict × S
  unfolding screen
  admit n none s = (answered (new_rpc_error_res [] err_parse_err), s)
  admit n (some req) s =
      if n == 1 && str_eq req.method "proxyd_healthz"
      then (healthy (new_rpc_res req.id (Json.text "OK")), s)
      else screen req s

  -- The loop from request `i` on.
  unfoldable pub intake : ℕ → ℕ → List (Option RpcReq) → Batches → List (Bytes × ℕ) → S → Taken S
  unfolding admit count_id bump_id append_elem
  intake n i [] batches ids s = taken [] batches s
  intake n i (q ∷ qs) batches ids s =
      let (verdict, s') = admit n q s in
      elim verdict [
        | answered r ↦ with_slot (some r) (intake n (i + 1) qs batches ids s')
        | queued req group ↦
            let g : BatchGroup = record {
              group_id = count_id req.id ids + 1;
              backend_group = group;
            } in
            let e : Elem = record { req = req; index = i } in
            with_slot none (intake n (i + 1) qs (append_elem g e batches) (bump_id req.id ids) s')
        | healthy r ↦ early r
      ]
