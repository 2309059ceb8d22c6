-- ===== src/Forward/Failover.antt =====
-- proxyd/backend.go: which attempt, which backend and which response of a multicall a client's
-- response comes from.
use Prim.Native.String.{◌++◌ as concat}
use infra.Base.{
  there, here, ◌≢◌, ◌↔◌, ℕ, zero, suc, ◌+◌, ◌≤◌, ◌<◌, ◌≡◌, refl, Bool, true, false, Option, none,
  some, String, List, [], ◌∷◌, ◌++◌, All, In, ap, sym, ◌∙◌, inl, inr, length, Option-cases,
  Bool-cases, arith,
}
use infra.Base.Call.{done, failed, Call-cases}
use infra.Hex.{Hex}
use infra.EthRpc.{EthRpc, BlockText}
use infra.Rpc.{RpcReq, RpcRes}
use infra.Forward.Send.{ForwardErr, no_backends, Sent}
use infra.Forward.Counts.{length-do_forward}
use infra.Forward.Attempts.{
  refusal, answer_of, is_final, attempts, send, backend_forward, Target, GroupResponse, ends,
  forward_request_to_backend_group, settles, process_multicall_responses,
}

-- Of the attempts from `i` on, each with the requests as the one before it left them, the first `k`
-- failed with errors that are retried, and the next one answered.
unfoldable pub AnswersAfter : (ℕ → List RpcReq → Sent) → ℕ → ℕ → List RpcReq → List RpcRes → Type 0
AnswersAfter do_forward zero i reqs rs = (do_forward i reqs).result ≡ done rs
AnswersAfter do_forward (suc k) i reqs rs =
    ((e : ForwardErr) × ((do_forward i reqs).result ≡ failed e) × (is_final e ≡ false))
    × AnswersAfter do_forward k (i + 1) (do_forward i reqs).reqs rs

attempts-AnswersAfter :
    (f : ℕ → List RpcReq → Sent) (retries i : ℕ) (reqs : List RpcReq) {rs : List RpcRes}
    → (attempts f retries i reqs).result ≡ done rs
    → (k : ℕ) × (k ≤ retries) × AnswersAfter f k i reqs rs
unfolding attempts AnswersAfter
attempts-AnswersAfter f zero i reqs e = elim (Call-cases (f i reqs).result) [
  | inl (rs', q) ↦ (0, omega arith, rw (q, attempts) at e)
  | inr (inl (er, q)) ↦ elim (Bool-cases (is_final er)) [
    | inl y ↦ cc (rw (q, y, attempts) at e)
    | inr y ↦ cc (rw (q, y, attempts) at e)
  ]
  | inr (inr q) ↦ cc (rw (q, attempts) at e)
]
attempts-AnswersAfter f (suc retries) i reqs e = elim (Call-cases (f i reqs).result) [
  | inl (rs', q) ↦ (0, omega arith, rw (q, attempts) at e)
  | inr (inl (er, q)) ↦ elim (Bool-cases (is_final er)) [
    | inl y ↦ cc (rw (q, y, attempts) at e)
    | inr y ↦
        let (k, le, later) =
          attempts-AnswersAfter f retries (i + 1) (f i reqs).reqs (rw (q, y, attempts) at e) in
        (suc k, omega arith, ((er, q, y), later))
  ]
  | inr (inr q) ↦ cc (rw (q, attempts) at e)
]

AnswersAfter-attempts :
    (f : ℕ → List RpcReq → Sent) (retries i k : ℕ) (reqs : List RpcReq) {rs : List RpcRes}
    → k ≤ retries
    → AnswersAfter f k i reqs rs
    → (attempts f retries i reqs).result ≡ done rs
unfolding attempts AnswersAfter
AnswersAfter-attempts f zero i zero reqs le now = rw (now, attempts) now
AnswersAfter-attempts f (suc retries) i zero reqs le now = rw (now, attempts) now
AnswersAfter-attempts f zero i (suc k) reqs le later = absurd (omega arith)
AnswersAfter-attempts f (suc retries) i (suc k) reqs le ((e, q, y), later) =
    rw (q, y, attempts)
      (AnswersAfter-attempts f retries (i + 1) k (f i reqs).reqs (omega arith) later)

module _ (hex : Hex) (rpc : EthRpc hex) (texts : BlockText) (is_batch : Bool) where
  -- `Backend.Forward` of at least one request returns responses exactly where, within `maxRetries`
  -- retries, an attempt answers with them after attempts that only failed with errors that are
  -- retried, each attempt with the requests as the one before it left them.
  pub backend_forward-AnswersAfter :
      (b : Target) (req : RpcReq) (reqs : List RpcReq) (rs : List RpcRes)
      → ((backend_forward hex rpc texts is_batch b (req ∷ reqs)).result ≡ done rs) ↔ (
          (k : ℕ) × (k ≤ b.max_retries)
          × AnswersAfter (send hex rpc texts is_batch b) k 0 (req ∷ reqs) rs)
  unfolding backend_forward
  backend_forward-AnswersAfter b req reqs rs = (
    attempts-AnswersAfter (send hex rpc texts is_batch b) b.max_retries 0 (req ∷ reqs),
    λ (k, le, later).
        AnswersAfter-attempts (send hex rpc texts is_batch b) b.max_retries 0 k (req ∷ reqs) le
          later,
  )

  length-attempts :
      (b : Target) (retries i : ℕ) (reqs : List RpcReq)
      → length (attempts (send hex rpc texts is_batch b) retries i reqs).reqs ≡ length reqs
  unfolding attempts
  length-attempts b zero i reqs =
      ground (arith, length-do_forward hex rpc texts b.receipts_target is_batch (b.exchange i) reqs)
  length-attempts b (suc retries) i reqs = ground (
    arith,
    length-do_forward hex rpc texts b.receipts_target is_batch (b.exchange i) reqs,
    length-attempts b retries (i + 1) (send hex rpc texts is_batch b i reqs).reqs,
  )

  -- The backends fail one after the other with errors after which the next one is tried, each with
  -- the requests as the one before it left them; the last one leaves the second requests.
  pub Passes : List RpcReq → List Target → List RpcReq → Type 0
  Passes reqs [] last = reqs ≡ last
  Passes reqs (b ∷ bs) last =
      ((e : ForwardErr) × ((backend_forward hex rpc texts is_batch b reqs).result ≡ failed e)
        × (ends e ≡ false))
      × Passes (backend_forward hex rpc texts is_batch b reqs).reqs bs last

  length-backend_forward :
      (b : Target) (reqs : List RpcReq)
      → length (backend_forward hex rpc texts is_batch b reqs).reqs ≡ length reqs
  unfolding backend_forward
  length-backend_forward b [] = refl
  length-backend_forward b (req ∷ reqs) = length-attempts b b.max_retries 0 (req ∷ reqs)

  -- A group's response to at least one request that has no error comes from a backend that gave
  -- these responses and that the response names; the backends before it in the order failed with
  -- errors after which the next one is tried, and it was sent the requests as they left them.
  pub group-served :
      (group : String) (reqs : List RpcReq) (bs : List Target) {out : List RpcReq}
      {r : GroupResponse}
      → 0 < length reqs
      → forward_request_to_backend_group hex rpc texts is_batch group reqs bs ≡ some (out, r)
      → r.error ≡ none
      → (before : List Target) × (b : Target) × (rest : List Target) × (last : List RpcReq) × (bs
          ≡ before ++ b ∷ rest)
        × Passes reqs before last
        × ((backend_forward hex rpc texts is_batch b last).result ≡ done r.res)
        × (r.served_by ≡ concat group (concat "/" b.name))
  unfolding forward_request_to_backend_group Passes
  group-served group reqs [] {out} {r} some_req e n =
      let whole : refusal no_backends ≡ r = cc e in
      let error : some no_backends ≡ r.error = ap (λ (g : GroupResponse). g.error) whole in cc
  group-served group [] (b ∷ bs) {out} {r} some_req e n = absurd (omega arith)
  group-served group (req ∷ reqs) (b ∷ bs) {out} {r} some_req e n =
      let now = backend_forward hex rpc texts is_batch b (req ∷ reqs) in
      elim (Call-cases now.result) [
        | inl (rs, q) ↦
            let whole : some (now.reqs, answer_of group b rs) ≡ some (out, r) =
              rw (q, forward_request_to_backend_group) at e in
            let same : answer_of group b rs ≡ r = cc whole in
            (
              [],
              b,
              bs,
              req ∷ reqs,
              refl,
              refl,
              q ∙ ap (λ (g : GroupResponse). done g.res) same,
              sym (ap (λ (g : GroupResponse). g.served_by) same),
            )
        | inr (inl (er, q)) ↦ elim (Bool-cases (ends er)) [
          | inl y ↦
              let whole : some (now.reqs, refusal er) ≡ some (out, r) =
                rw (q, y, forward_request_to_backend_group) at e in
              let same : refusal er ≡ r = cc whole in
              let error : some er ≡ r.error = ap (λ (g : GroupResponse). g.error) same in cc
          | inr y ↦
              let (before, c, rest, last, same, passed, served, name) =
                group-served group now.reqs bs
                  (omega (arith, length-backend_forward b (req ∷ reqs)))
                  (rw (q, y, forward_request_to_backend_group) at e) n in
              (
                b ∷ before,
                c,
                rest,
                last,
                ap (λ xs. b ∷ xs) same,
                ((er, q, y), passed),
                served,
                name,
              )
        ]
        | inr (inr q) ↦ cc (rw (q, forward_request_to_backend_group) at e)
      ]

-- If no response of a multicall makes the process panic, and one of them settles it, then the
-- client gets one that settles it and is one of those that came, whatever came before.
pub multicall-settles :
    (error_check : Bool) (last : Option GroupResponse) (resps : List GroupResponse)
    {r : GroupResponse}
    → All (λ resp. settles error_check resp ≢ none) resps
    → In r resps
    → settles error_check r ≡ some true
    → (out : GroupResponse) × (process_multicall_responses error_check last resps ≡ some out)
      × (settles error_check out ≡ some true)
      × In out resps
unfolding process_multicall_responses
multicall-settles check last [] safe m y = elim m [ ]
multicall-settles check last (resp ∷ resps) safe (here _) y =
    (resp, rw (y, process_multicall_responses) refl, y, here resps)
multicall-settles check last (resp ∷ resps) (safe, rest) (there _ _ m) y =
    elim (Option-cases (settles check resp)) [
      | inl n ↦ absurd (safe n)
      | inr (true, q) ↦ (resp, rw (q, process_multicall_responses) refl, q, here resps)
      | inr (false, q) ↦
          let (out, e, s, k) = multicall-settles check (some resp) resps rest m y in
          (out, rw (q, process_multicall_responses) e, s, there resp resps k)
    ]
