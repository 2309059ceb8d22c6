-- ===== src/Forward/InOrder.antt =====
-- proxyd/backend.go: a backend that answers with the IDs of the requests, in any order, makes
-- `doForward` answer in the order of the requests.
use mathlib.Core.List.{Perm}
use infra.Base.{
  ℕ, ◌≡◌, inl, inr, refl, sym, subst, ap, ◌∙◌, Bool, true, false, not, ◌&&◌, Option, some, String,
  str_eq, List, [], ◌∷◌, length, map, ◌==◌, if◌then◌else◌, Bool-cases, Option-cases, arith,
}
use infra.Base.Call.{done, done-injective, >>=-eq-done, Call-cases}
use infra.Hex.{Hex}
use infra.EthRpc.{EthRpc, BlockText}
use infra.Rpc.{RpcReq, RpcRes, Bytes, req_ids, res_ids}
use infra.Forward.Sorting.{sort_batch_rpc_response}
use infra.Forward.SortOrder.{Distinct, sort_batch-restores}
use infra.Forward.Counts.{receive-reqs}
use infra.Forward.Receipts.{dereference_done}
use infra.Forward.Send.{
  ForwardErr, Body, over_limit, unreadable, read, Exchange, no_response, response, set_http_code,
  dereference, enrich, decode_body, settle_responses, receive_body, receive, translate,
  translate_params, has_receipts, consensus_get_receipts, do_forward,
}
use infra.Forward.Attempts.{Target}

-- The responses in what has come are for the requests.
abbrev pub AreFor : List RpcReq → Exchange → Type 0
AreFor reqs exchange =
    (status : ℕ) (single : Option RpcRes) (batch : Option (List (Option RpcRes)))
    (sent : List RpcRes)
    → exchange ≡ response status (read single batch)
    → decode_body (length reqs == 1) single batch ≡ done (map some sent)
    → Perm (res_ids sent) (req_ids reqs)

-- A backend whose responses always are.
abbrev pub IsHonest : Target → Type 0
IsHonest b = (i : ℕ) (reqs : List RpcReq) → AreFor reqs (b.exchange i reqs)

res_ids-enrich :
    (target : String) (ids : List Bytes) (rs : List RpcRes)
    → res_ids (enrich target ids rs) ≡ res_ids rs
unfolding enrich
res_ids-enrich target ids [] = refl
res_ids-enrich target ids (r ∷ rs) = ground (arith, res_ids-enrich target ids rs)

res_ids-set_http_code :
    (code : ℕ) (rs : List RpcRes) {out : List RpcRes}
    → set_http_code code rs ≡ done out
    → res_ids out ≡ res_ids rs
unfolding set_http_code
res_ids-set_http_code code [] e = rw (← done-injective e) refl
res_ids-set_http_code code (r ∷ rs) {out} e = elim (Option-cases r.error) [
  | inl n ↦ cc (rw (n, set_http_code) at e)
  | inr (err, q) ↦
      let (rest, q', e') = >>=-eq-done (set_http_code code rs) _ (rw (q, set_http_code) at e) in
      ap res_ids (sym (done-injective e')) ∙ ap (λ l. r.id ∷ l) (res_ids-set_http_code code rs q')
]

sort_batch_in_order :
    (reqs : List RpcReq) (rs : List RpcRes) {out : List RpcRes}
    → Distinct (req_ids reqs)
    → Perm (res_ids rs) (req_ids reqs)
    → sort_batch_rpc_response {E = ForwardErr} reqs rs ≡ done out
    → res_ids out ≡ req_ids reqs
sort_batch_in_order reqs rs d p e =
    let (sorted, q, _, ids) = sort_batch-restores reqs rs d p in
    ap res_ids (done-injective (sym e ∙ q)) ∙ ids

settle_responses_in_order :
    (target : String) (ids : List Bytes) (reqs : List RpcReq) (status : ℕ)
    (rs : List (Option RpcRes)) {out : List RpcRes}
    → Distinct (req_ids reqs)
    → ((sent : List RpcRes) → rs ≡ map some sent → Perm (res_ids sent) (req_ids reqs))
    → (settle_responses target ids reqs status rs).result ≡ done out
    → res_ids out ≡ req_ids reqs
unfolding settle_responses
settle_responses_in_order target ids reqs status rs {out} d honest e =
    elim (Bool-cases (length reqs == length rs)) [
      | inr n ↦ cc (rw (n, settle_responses) at e)
      | inl y ↦
          let (all, q, e') = >>=-eq-done (dereference rs) _ (rw (y, settle_responses) at e) in
          let (coded, q', e'') =
            >>=-eq-done (if status == 200 then done all else set_http_code status all) _ e' in
          let kept : res_ids coded ≡ res_ids all = elim (Bool-cases (status == 200)) [
            | inl ok ↦ let same : all ≡ coded = cc (rw ok at q') in ap res_ids (sym same)
            | inr bad ↦ res_ids-set_http_code status all (rw bad at q')
          ] in
          sort_batch_in_order reqs (enrich target ids coded) d
            (subst (λ l. Perm l (req_ids reqs)) (sym (res_ids-enrich target ids coded ∙ kept))
              (honest all (dereference_done rs q)))
            e''
    ]

receive_body_in_order :
    (target : String) (ids : List Bytes) (reqs : List RpcReq) (status : ℕ) (body : Body)
    {out : List RpcRes}
    → Distinct (req_ids reqs)
    → AreFor reqs (response status body)
    → (receive_body target ids reqs status body).result ≡ done out
    → res_ids out ≡ req_ids reqs
unfolding receive_body
receive_body_in_order target ids reqs status over_limit d honest e = cc
receive_body_in_order target ids reqs status unreadable d honest e = cc
receive_body_in_order target ids reqs status (read single batch) d honest e =
    elim (Call-cases (decode_body (length reqs == 1) single batch)) [
      | inl (all, q) ↦
          settle_responses_in_order target ids reqs status all d
            (λ sent same. honest status single batch sent refl (q ∙ ap done same))
            (rw (q, receive_body) at e)
      | inr (inl ((er, counted), q)) ↦ cc (rw (q, receive_body) at e)
      | inr (inr q) ↦ cc (rw (q, receive_body) at e)
    ]

receive_in_order :
    (target : String) (ids : List Bytes) (reqs : List RpcReq) (exchange : Exchange)
    {out : List RpcRes}
    → Distinct (req_ids reqs)
    → AreFor reqs exchange
    → (receive target ids reqs exchange).result ≡ done out
    → res_ids out ≡ req_ids reqs
unfolding receive
receive_in_order target ids reqs no_response d honest e = cc
receive_in_order target ids [] (response status body) d honest e = cc
receive_in_order target ids (r ∷ reqs) (response status body) d honest e =
    elim (Bool-cases (not (status == 200) && not (status == 400))) [
      | inl y ↦ cc (rw (y, receive) at e)
      | inr n ↦
          receive_body_in_order target ids (r ∷ reqs) status body d honest (rw (n, receive) at e)
    ]

module _ (hex : Hex) (rpc : EthRpc hex) (texts : BlockText) where
  req_ids-translate :
      (target : String) (reqs : List RpcReq)
      → req_ids (translate hex rpc texts target reqs).0 ≡ req_ids reqs
  unfolding translate
  req_ids-translate target [] = refl
  req_ids-translate target (r ∷ reqs) =
      let kept = ap (λ l. r.id ∷ l) (req_ids-translate target reqs) in
      elim (Bool-cases (str_eq r.method consensus_get_receipts)) [
        | inr n ↦ rw (n, translate) kept
        | inl y ↦ elim (Call-cases (translate_params hex rpc texts target r.params)) [
          | inl (p, q) ↦ rw (y, q, translate) kept
          | inr (inl (er, q)) ↦ rw (y, q, translate) refl
          | inr (inr q) ↦ rw (y, q, translate) refl
        ]
      ]

  -- The requests are changed in place, and keep their IDs.
  pub req_ids-do_forward :
      (target : String) (is_batch : Bool) (exchange : List RpcReq → Exchange) (reqs : List RpcReq)
      → req_ids (do_forward hex rpc texts target is_batch exchange reqs).reqs ≡ req_ids reqs
  unfolding do_forward
  req_ids-do_forward target true exchange reqs =
      elim (Bool-cases (has_receipts hex rpc texts reqs)) [
        | inl y ↦ rw y refl
        | inr n ↦ rw n (ap req_ids (receive-reqs hex rpc texts target [] reqs (exchange reqs)))
      ]
  req_ids-do_forward target false exchange reqs =
      let (reqs', translated) = translate hex rpc texts target reqs in
      let kept : req_ids reqs' ≡ req_ids reqs = req_ids-translate target reqs in
      elim (Call-cases translated) [
        | inl (ids, q) ↦
            rw (q, do_forward)
              (ap req_ids (receive-reqs hex rpc texts target ids reqs' (exchange reqs')) ∙ kept)
        | inr (inl (e, q)) ↦ rw (q, do_forward) kept
        | inr (inr q) ↦ rw (q, do_forward) kept
      ]

  pub do_forward_in_order :
      (target : String) (is_batch : Bool) (exchange : List RpcReq → Exchange) (reqs : List RpcReq)
      {rs : List RpcRes}
      → Distinct (req_ids reqs)
      → ((qs : List RpcReq) → AreFor qs (exchange qs))
      → (do_forward hex rpc texts target is_batch exchange reqs).result ≡ done rs
      → res_ids rs ≡ req_ids reqs
  unfolding do_forward
  do_forward_in_order target true exchange reqs d honest e =
      elim (Bool-cases (has_receipts hex rpc texts reqs)) [
        | inl y ↦ cc (rw (y, do_forward) at e)
        | inr n ↦
            receive_in_order target [] reqs (exchange reqs) d (honest reqs)
              (rw (n, do_forward) at e)
      ]
  do_forward_in_order target false exchange reqs d honest e =
      let (reqs', translated) = translate hex rpc texts target reqs in
      let kept : req_ids reqs' ≡ req_ids reqs = req_ids-translate target reqs in
      elim (Call-cases translated) [
        | inl (ids, q) ↦
            receive_in_order target ids reqs' (exchange reqs') (subst Distinct (sym kept) d)
              (honest reqs') (rw (q, do_forward) at e)
            ∙ kept
        | inr (inl (er, q)) ↦ cc (rw (q, do_forward) at e)
        | inr (inr q) ↦ cc (rw (q, do_forward) at e)
      ]
