-- ===== src/Forward/Counts.antt =====
-- proxyd/backend.go: what a call of `doForward` that succeeds has gone through: how many responses
-- it returns, and what it counts on the backend's windows.
use infra.Base.{
  ℕ, suc, ◌≡◌, inl, inr, refl, sym, ap, ◌∙◌, Bool, true, false, not, ◌&&◌, Option, none, some,
  String, List, [], ◌∷◌, length, ◌==◌, ==_iff, if◌then◌else◌, Bool-cases, Option-cases, arith,
}
use infra.Base.Call.{done, >>=-eq-done, Call-cases, done-injective}
use infra.Hex.{Hex}
use infra.EthRpc.{EthRpc, BlockText}
use infra.Rpc.{RpcReq, RpcRes, Bytes}
use infra.Forward.Sorting.{insert_by, sort_by, positions, position, sort_batch_rpc_response}
use infra.Forward.Send.{
  ForwardErr, Body, over_limit, unreadable, read, Exchange, no_response, response, Sent,
  set_http_code, dereference, enrich, decode_body, settle_responses, receive_body, receive,
  translate, has_receipts, do_forward,
}

length-insert_by :
    (key : RpcRes → ℕ) (r : RpcRes) (rs : List RpcRes)
    → length (insert_by key r rs) ≡ suc (length rs)
unfolding insert_by
length-insert_by key r [] = refl
length-insert_by key r (x ∷ xs) = ground (arith, length-insert_by key r xs)

length-sort_by : (key : RpcRes → ℕ) (rs : List RpcRes) → length (sort_by key rs) ≡ length rs
unfolding sort_by
length-sort_by key [] = refl
length-sort_by key (r ∷ rs) =
    length-insert_by key r (sort_by key rs) ∙ ap suc (length-sort_by key rs)

length-sort_batch :
    (reqs : List RpcReq) (rs : List RpcRes) {out : List RpcRes}
    → sort_batch_rpc_response {E = ForwardErr} reqs rs ≡ done out
    → length out ≡ length rs
unfolding sort_batch_rpc_response
length-sort_batch reqs rs {out} e = elim (Option-cases (positions 0 reqs [])) [
  | inl n ↦ cc (rw (n, sort_batch_rpc_response) at e)
  | inr (pos, q) ↦
      let sorted = sort_by (λ (r : RpcRes). position pos r.id) rs in
      let same : sorted ≡ out = done-injective (rw (q, sort_batch_rpc_response) at e) in
      rw (← same) (length-sort_by (λ (r : RpcRes). position pos r.id) rs)
]

length-enrich :
    (target : String) (ids : List Bytes) (rs : List RpcRes)
    → length (enrich target ids rs) ≡ length rs
unfolding enrich
length-enrich target ids [] = refl
length-enrich target ids (r ∷ rs) = ap suc (length-enrich target ids rs)

length-set_http_code :
    (code : ℕ) (rs : List RpcRes) {out : List RpcRes}
    → set_http_code code rs ≡ done out
    → length out ≡ length rs
unfolding set_http_code
length-set_http_code code [] e = rw (← done-injective e) refl
length-set_http_code code (r ∷ rs) {out} e = elim (Option-cases r.error) [
  | inl n ↦ cc (rw (n, set_http_code) at e)
  | inr (err, q) ↦
      let (rest, q', e') = >>=-eq-done (set_http_code code rs) _ (rw (q, set_http_code) at e) in
      ap length (sym (done-injective e')) ∙ ap suc (length-set_http_code code rs q')
]

length-dereference :
    (rs : List (Option RpcRes)) {out : List RpcRes}
    → dereference rs ≡ done out
    → length out ≡ length rs
unfolding dereference
length-dereference [] e = rw (← done-injective e) refl
length-dereference (none ∷ rs) e = cc
length-dereference (some r ∷ rs) {out} e =
    let (rest, q, e') = >>=-eq-done (dereference rs) _ e in
    rw (← done-injective e') (ap suc (length-dereference rs q))

-- A call succeeded: one response for each request, a latency, and no error.
pub record Succeeded (s : Sent) (rs : List RpcRes) : Type 0 where
  pub each : length rs ≡ length s.reqs
  pub counted : s.requests ≡ 1
  pub no_error : s.errors ≡ 0
  pub timed : s.latencies ≡ 1

settle_responses-Succeeded :
    (target : String) (ids : List Bytes) (reqs : List RpcReq) (status : ℕ)
    (rs : List (Option RpcRes)) {out : List RpcRes}
    → (settle_responses target ids reqs status rs).result ≡ done out
    → Succeeded (settle_responses target ids reqs status rs) out
unfolding settle_responses
settle_responses-Succeeded target ids reqs status rs {out} e =
    elim (Bool-cases (length reqs == length rs)) [
      | inr n ↦ cc (rw (n, settle_responses) at e)
      | inl y ↦
          let (all, q, e') = >>=-eq-done (dereference rs) _ (rw (y, settle_responses) at e) in
          let (coded, q', e'') =
            >>=-eq-done (if status == 200 then done all else set_http_code status all) _ e' in
          let kept : length coded ≡ length all = elim (Bool-cases (status == 200)) [
            | inl ok ↦ let same : all ≡ coded = cc (rw ok at q') in rw same refl
            | inr bad ↦ length-set_http_code status all (rw bad at q')
          ] in
          let count : length out ≡ length reqs =
            length-sort_batch reqs (enrich target ids coded) e''
            ∙ length-enrich target ids coded
            ∙ kept
            ∙ length-dereference rs q
            ∙ sym ((==_iff (length reqs) (length rs)).0 y) in
          rw y (record { each = count; counted = refl; no_error = refl; timed = refl })
    ]

receive_body-Succeeded :
    (target : String) (ids : List Bytes) (reqs : List RpcReq) (status : ℕ) (body : Body)
    {out : List RpcRes}
    → (receive_body target ids reqs status body).result ≡ done out
    → Succeeded (receive_body target ids reqs status body) out
unfolding receive_body
receive_body-Succeeded target ids reqs status over_limit e = cc
receive_body-Succeeded target ids reqs status unreadable e = cc
receive_body-Succeeded target ids reqs status (read single batch) e =
    elim (Call-cases (decode_body (length reqs == 1) single batch)) [
      | inl (rs, q) ↦
          rw (q, receive_body)
            (settle_responses-Succeeded target ids reqs status rs (rw (q, receive_body) at e))
      | inr (inl ((er, counted), q)) ↦ cc (rw (q, receive_body) at e)
      | inr (inr q) ↦ cc (rw (q, receive_body) at e)
    ]

receive-Succeeded :
    (target : String) (ids : List Bytes) (reqs : List RpcReq) (exchange : Exchange)
    {out : List RpcRes}
    → (receive target ids reqs exchange).result ≡ done out
    → Succeeded (receive target ids reqs exchange) out
unfolding receive
receive-Succeeded target ids reqs no_response e = cc
receive-Succeeded target ids [] (response status body) e = cc
receive-Succeeded target ids (r ∷ reqs) (response status body) e =
    elim (Bool-cases (not (status == 200) && not (status == 400))) [
      | inl y ↦ cc (rw (y, receive) at e)
      | inr n ↦
          rw (n, receive)
            (receive_body-Succeeded target ids (r ∷ reqs) status body (rw (n, receive) at e))
    ]

module _ (hex : Hex) (rpc : EthRpc hex) (texts : BlockText) where
  length-translate :
      (target : String) (reqs : List RpcReq)
      → length (translate hex rpc texts target reqs).0 ≡ length reqs
  unfolding translate
  length-translate target [] = refl
  length-translate target (r ∷ reqs) = ground (arith, length-translate target reqs)

  pub receive-reqs :
      (target : String) (ids : List Bytes) (reqs : List RpcReq) (exchange : Exchange)
      → (receive target ids reqs exchange).reqs ≡ reqs
  unfolding receive receive_body settle_responses
  receive-reqs target ids reqs no_response = refl
  receive-reqs target ids [] (response status body) = refl
  receive-reqs target ids (r ∷ reqs) (response status over_limit) = ground arith
  receive-reqs target ids (r ∷ reqs) (response status unreadable) = ground arith
  receive-reqs target ids (r ∷ reqs) (response status (read single batch)) = ground arith

  -- The requests are changed in place: none is lost or added.
  pub length-do_forward :
      (target : String) (is_batch : Bool) (exchange : List RpcReq → Exchange) (reqs : List RpcReq)
      → length (do_forward hex rpc texts target is_batch exchange reqs).reqs ≡ length reqs
  unfolding do_forward
  length-do_forward target true exchange reqs =
      elim (Bool-cases (has_receipts hex rpc texts reqs)) [
        | inl y ↦ rw y refl
        | inr n ↦ rw n (ap length (receive-reqs target [] reqs (exchange reqs)))
      ]
  length-do_forward target false exchange reqs =
      let (reqs', translated) = translate hex rpc texts target reqs in
      let kept : length reqs' ≡ length reqs = length-translate target reqs in
      elim (Call-cases translated) [
        | inl (ids, q) ↦
            rw (q, do_forward) (ap length (receive-reqs target ids reqs' (exchange reqs')) ∙ kept)
        | inr (inl (e, q)) ↦ rw (q, do_forward) kept
        | inr (inr q) ↦ rw (q, do_forward) kept
      ]

  do_forward-Succeeded' :
      (target : String) (is_batch : Bool) (exchange : List RpcReq → Exchange) (reqs : List RpcReq)
      {rs : List RpcRes}
      → (do_forward hex rpc texts target is_batch exchange reqs).result ≡ done rs
      → Succeeded (do_forward hex rpc texts target is_batch exchange reqs) rs
  unfolding do_forward
  do_forward-Succeeded' target true exchange reqs e =
      elim (Bool-cases (has_receipts hex rpc texts reqs)) [
        | inl y ↦ cc (rw (y, do_forward) at e)
        | inr n ↦
            rw (n, do_forward)
              (receive-Succeeded target [] reqs (exchange reqs) (rw (n, do_forward) at e))
      ]
  do_forward-Succeeded' target false exchange reqs e =
      let (reqs', translated) = translate hex rpc texts target reqs in
      elim (Call-cases translated) [
        | inl (ids, q) ↦
            rw (q, do_forward)
              (receive-Succeeded target ids reqs' (exchange reqs') (rw (q, do_forward) at e))
        | inr (inl (er, q)) ↦ cc (rw (q, do_forward) at e)
        | inr (inr q) ↦ cc (rw (q, do_forward) at e)
      ]

  -- A call of `doForward` that succeeds returns one response for each request. It has counted one
  -- request, one latency and no intermittent error.
  pub do_forward-Succeeded :
      (target : String) (is_batch : Bool) (exchange : List RpcReq → Exchange) (reqs : List RpcReq)
      {rs : List RpcRes}
      → (do_forward hex rpc texts target is_batch exchange reqs).result ≡ done rs
      → (length rs ≡ length reqs)
        × Succeeded (do_forward hex rpc texts target is_batch exchange reqs) rs
  do_forward-Succeeded target is_batch exchange reqs e =
      let ok = do_forward-Succeeded' target is_batch exchange reqs e in
      (ok.each ∙ length-do_forward target is_batch exchange reqs, ok)
