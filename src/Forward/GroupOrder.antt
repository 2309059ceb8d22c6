-- ===== src/Forward/GroupOrder.antt =====
-- proxyd/backend.go: backends that answer with the IDs of the requests, in any order, make a group
-- answer in the order of the requests. `handleBatchRPC` relies on that.
use infra.Base.{
  ℕ, zero, suc, ◌+◌, ◌≡◌, inl, inr, refl, sym, subst, ◌∙◌, Bool, none, some, String, List, [], ◌∷◌,
  All, Bool-cases,
}
use infra.Base.Call.{done, Call-cases}
use infra.Hex.{Hex}
use infra.EthRpc.{EthRpc, BlockText}
use infra.Rpc.{RpcReq, RpcRes, req_ids, res_ids}
use infra.Forward.SortOrder.{Distinct}
use infra.Forward.Send.{Sent, no_backends}
use infra.Forward.Failover.{AnswersAfter, backend_forward-AnswersAfter}
use infra.Forward.Attempts.{
  Target, GroupResponse, refusal, answer_of, is_final, attempts, send, backend_forward, ends,
  forward_request_to_backend_group,
}
use infra.Forward.InOrder.{IsHonest, req_ids-do_forward, do_forward_in_order}

-- Attempts that keep the IDs of requests, and answer requests with distinct IDs in their order.
attempts-keep :
    (f : ℕ → List RpcReq → Sent)
    → ((i : ℕ) (reqs : List RpcReq) → req_ids (f i reqs).reqs ≡ req_ids reqs)
    → (retries i : ℕ) (reqs : List RpcReq) → req_ids (attempts f retries i reqs).reqs ≡ req_ids reqs
unfolding attempts
attempts-keep f keep zero i reqs = elim (Call-cases (f i reqs).result) [
  | inl (rs, q) ↦ rw (q, attempts) (keep i reqs)
  | inr (inl (er, q)) ↦ elim (Bool-cases (is_final er)) [
    | inl y ↦ rw (q, y, attempts) (keep i reqs)
    | inr n ↦ rw (q, n, attempts) (keep i reqs)
  ]
  | inr (inr q) ↦ rw (q, attempts) (keep i reqs)
]
attempts-keep f keep (suc retries) i reqs =
    let later = attempts-keep f keep retries (i + 1) (f i reqs).reqs ∙ keep i reqs in
    elim (Call-cases (f i reqs).result) [
      | inl (rs, q) ↦ rw (q, attempts) (keep i reqs)
      | inr (inl (er, q)) ↦ elim (Bool-cases (is_final er)) [
        | inl y ↦ rw (q, y, attempts) (keep i reqs)
        | inr n ↦ rw (q, n, attempts) later
      ]
      | inr (inr q) ↦ rw (q, attempts) (keep i reqs)
    ]

attempts_in_order :
    (f : ℕ → List RpcReq → Sent)
    → ((i : ℕ) (reqs : List RpcReq) → req_ids (f i reqs).reqs ≡ req_ids reqs)
    → ((i : ℕ) (reqs : List RpcReq) (rs : List RpcRes)
        → Distinct (req_ids reqs)
        → (f i reqs).result ≡ done rs
        → res_ids rs ≡ req_ids reqs)
    → (k i : ℕ) (reqs : List RpcReq) (rs : List RpcRes) → Distinct (req_ids reqs)
    → AnswersAfter f k i reqs rs
    → res_ids rs ≡ req_ids reqs
unfolding AnswersAfter
attempts_in_order f keep answers zero i reqs rs d e = answers i reqs rs d e
attempts_in_order f keep answers (suc k) i reqs rs d (_, later) =
    attempts_in_order f keep answers k (i + 1) (f i reqs).reqs rs
      (subst Distinct (sym (keep i reqs)) d) later
    ∙ keep i reqs

module _ (hex : Hex) (rpc : EthRpc hex) (texts : BlockText) (is_batch : Bool) where
  send-keeps :
      (b : Target) (i : ℕ) (reqs : List RpcReq)
      → req_ids (send hex rpc texts is_batch b i reqs).reqs ≡ req_ids reqs
  send-keeps b i reqs =
      req_ids-do_forward hex rpc texts b.receipts_target is_batch (b.exchange i) reqs

  backend_forward-keeps :
      (b : Target) (req : RpcReq) (reqs : List RpcReq)
      → req_ids (backend_forward hex rpc texts is_batch b (req ∷ reqs)).reqs ≡ req_ids (req ∷ reqs)
  unfolding backend_forward
  backend_forward-keeps b req reqs =
      attempts-keep (send hex rpc texts is_batch b) (send-keeps b) b.max_retries 0 (req ∷ reqs)

  backend_forward_in_order :
      (b : Target) (req : RpcReq) (reqs : List RpcReq) (rs : List RpcRes)
      → IsHonest b
      → Distinct (req_ids (req ∷ reqs))
      → (backend_forward hex rpc texts is_batch b (req ∷ reqs)).result ≡ done rs
      → res_ids rs ≡ req_ids (req ∷ reqs)
  backend_forward_in_order b req reqs rs honest d e =
      let (k, _, later) = (backend_forward-AnswersAfter hex rpc texts is_batch b req reqs rs).0 e in
      attempts_in_order (send hex rpc texts is_batch b) (send-keeps b)
        (λ i qs out d' q.
          do_forward_in_order hex rpc texts b.receipts_target is_batch (b.exchange i) qs d'
            (honest i) q)
        k 0 (req ∷ reqs) rs d later

  -- What a group makes of requests: they keep their IDs, and without an error there is one response
  -- for each of them, with its ID, in their order.
  abbrev pub InOrder : List RpcReq → List RpcReq × GroupResponse → Type 0
  InOrder reqs (out, r) =
      (req_ids out ≡ req_ids reqs) × ((r.error ≡ none) → res_ids r.res ≡ req_ids reqs)

  -- Where each backend of a group answers with the IDs of the requests that it gets, in any order, the
  -- group leaves the IDs of requests with distinct IDs, and if it answers them without an error, gives
  -- the responses in their order.
  pub group-InOrder :
      (group : String) (reqs : List RpcReq) (bs : List Target) (out : List RpcReq × GroupResponse)
      → All IsHonest bs
      → Distinct (req_ids reqs)
      → forward_request_to_backend_group hex rpc texts is_batch group reqs bs ≡ some out
      → InOrder reqs out
  unfolding forward_request_to_backend_group
  group-InOrder group reqs [] out honest d e =
      let same : (reqs, refusal no_backends) ≡ out = cc e in
      subst (InOrder reqs) same (refl, (λ n. cc))
  group-InOrder group [] (b ∷ bs) out honest d e =
      let same : ([], answer_of group b []) ≡ out = cc e in
      subst (InOrder []) same (refl, (λ n. refl))
  group-InOrder group (req ∷ reqs) (b ∷ bs) out honest d e =
      let now = backend_forward hex rpc texts is_batch b (req ∷ reqs) in
      let kept = backend_forward-keeps b req reqs in
      elim (Call-cases now.result) [
        | inl (rs, q) ↦
            let whole : some (now.reqs, answer_of group b rs) ≡ some out =
              rw (q, forward_request_to_backend_group) at e in
            let same : (now.reqs, answer_of group b rs) ≡ out = cc whole in
            subst (InOrder (req ∷ reqs)) same
              (kept, (λ n. backend_forward_in_order b req reqs rs honest.0 d q))
        | inr (inl (er, q)) ↦ elim (Bool-cases (ends er)) [
          | inl y ↦
              let whole : some (now.reqs, refusal er) ≡ some out =
                rw (q, y, forward_request_to_backend_group) at e in
              let same : (now.reqs, refusal er) ≡ out = cc whole in
              subst (InOrder (req ∷ reqs)) same (kept, (λ n. cc))
          | inr y ↦
              let (ids, order) =
                group-InOrder group now.reqs bs out honest.1 (subst Distinct (sym kept) d)
                  (rw (q, y, forward_request_to_backend_group) at e) in
              (ids ∙ kept, (λ n. order n ∙ kept))
        ]
        | inr (inr q) ↦ cc (rw (q, forward_request_to_backend_group) at e)
      ]
