-- ===== src/Forward/Order.antt =====
-- proxyd/backend.go: a client gets one response for each request, in the order of the requests,
-- whatever was overridden.
use mathlib.Core.Option
use mathlib.Core.List.{append_assoc}
use infra.Base.{
  inr, inl, true, length-append, ℕ, suc, ◌+◌, ◌≡◌, refl, Option, none, some, List, [], ◌∷◌, ◌++◌,
  length, arith, take, drop, leb, ltb, Option-cases, sym, ap, ◌∙◌,
}
use infra.Hex.{Hex}
use infra.EthRpc.{EthRpc}
use infra.Rewrite.{
  override_request, override_response, override_error, RewriteContext, RewriteResult, rewrite_tags,
}
use infra.Rpc.{RpcReq, RpcRes, Bytes, req_ids, res_ids}
use infra.Forward.Overrides.{
  IndexedRes, Fate, forwarded, overridden, insert_at, override_responses, overwrite, collect,
  overwrite_consensus_responses,
}

-- The parts of a list of fates, as the loop collects them from index `i` on.
requests_of : List Fate → List RpcReq
requests_of [] = []
requests_of (forwarded req ∷ fs) = req ∷ requests_of fs
requests_of (overridden res ∷ fs) = requests_of fs

overrides_of : ℕ → List Fate → List IndexedRes
overrides_of i [] = []
overrides_of i (forwarded req ∷ fs) = overrides_of (i + 1) fs
overrides_of i (overridden res ∷ fs) = record { index = i; res = res } ∷ overrides_of (i + 1) fs

-- The responses in the order of the requests: each request that was forwarded takes the next of
-- the backend's.
abbrev pub weave : List Fate → List RpcRes → List RpcRes
weave [] rs = []
weave (forwarded req ∷ fs) [] = []
weave (forwarded req ∷ fs) (r ∷ rs) = r ∷ weave fs rs
weave (overridden res ∷ fs) rs = res ∷ weave fs rs

take-append : (xs ys : List RpcRes) → take (length xs) (xs ++ ys) ≡ xs
take-append [] ys = refl
take-append (x ∷ xs) ys = rw (take-append xs ys)

drop-append : (xs ys : List RpcRes) → drop (length xs) (xs ++ ys) ≡ ys
drop-append [] ys = refl
drop-append (x ∷ xs) ys = drop-append xs ys

snoc-append :
    (xs : List RpcRes) (x : RpcRes) (ys : List RpcRes) → (xs ++ x ∷ []) ++ ys ≡ xs ++ x ∷ ys
snoc-append xs x ys = append_assoc xs (x ∷ []) ys

length-snoc : (xs : List RpcRes) (x : RpcRes) → length (xs ++ x ∷ []) ≡ length xs + 1
length-snoc xs x = length-append xs (x ∷ [])

insert_at-length :
    (xs ys : List RpcRes) (r : RpcRes)
    → insert_at (length xs) r (xs ++ ys) ≡ some ((xs ++ r ∷ []) ++ ys)
unfolding insert_at
insert_at-length xs ys r =
    let within : leb (length xs) (length (xs ++ ys)) ≡ true = ground (arith, length-append xs ys) in
    rw (within, take-append, drop-append, snoc-append) refl

override_step :
    (done rs : List RpcRes) (res : RpcRes) (ovs : List IndexedRes)
    → override_responses (done ++ rs) (record { index = length done; res = res } ∷ ovs)
      ≡ override_responses ((done ++ res ∷ []) ++ rs) ovs
unfolding override_responses
override_step [] [] res ovs = refl
override_step [] (r ∷ rs) res ovs =
    let some-response : ltb 0 (length (r ∷ rs)) ≡ true = ground arith in
    rw (some-response, insert_at-length [] (r ∷ rs) res) refl
override_step (d ∷ ds) rs res ovs =
    let some-response : ltb 0 (length (d ∷ ds ++ rs)) ≡ true = ground arith in
    rw (some-response, insert_at-length (d ∷ ds) rs res) refl

override_responses-weave :
    (fs : List Fate) (done rs : List RpcRes)
    → length rs ≡ length (requests_of fs)
    → override_responses (done ++ rs) (overrides_of (length done) fs) ≡ some (done ++ weave fs rs)
unfolding requests_of overrides_of
override_responses-weave [] done [] e = unfold override_responses in refl
override_responses-weave [] done (r ∷ rs) e = absurd (omega arith)
override_responses-weave (forwarded req ∷ fs) done [] e = absurd (omega arith)
override_responses-weave (forwarded req ∷ fs) done (r ∷ rs) e =
    simp (snoc-append, length-snoc) at
      (override_responses-weave fs (done ++ r ∷ []) rs (omega arith))
override_responses-weave (overridden res ∷ fs) done rs e =
    override_step done rs res (overrides_of (length done + 1) fs)
    ∙ (rw (← length-snoc done res) (override_responses-weave fs (done ++ res ∷ []) rs e)
        ∙ ap some (snoc-append done res (weave fs rs)))

collect-parts :
    (i : ℕ) (f : Fate) (fs : List Fate)
    → collect i f (requests_of fs) (overrides_of (i + 1) fs)
      ≡ some (requests_of (f ∷ fs), overrides_of i (f ∷ fs))
unfolding requests_of overrides_of
collect-parts i (forwarded req) fs = refl
collect-parts i (overridden res) fs = refl

-- The fates of the requests.
pub fates : (hex : Hex) (rpc : EthRpc hex) → RewriteContext → List RpcReq → Option (List Fate)
fates hex rpc rctx [] = some []
fates hex rpc rctx (req ∷ reqs) = elim (rewrite_tags hex rpc rctx req.method req.params) [
  | none ↦ none
  | some r ↦ Option.map (λ fs. overwrite hex rpc rctx req r ∷ fs) (fates hex rpc rctx reqs)
]

module _ (hex : Hex) (rpc : EthRpc hex) (rctx : RewriteContext) where
  overwrite-fates :
      (i : ℕ) (reqs : List RpcReq) {rewritten : List RpcReq} {ovs : List IndexedRes}
      → overwrite_consensus_responses hex rpc rctx i reqs ≡ some (rewritten, ovs)
      → (fs : List Fate) × (fates hex rpc rctx reqs ≡ some fs)
        × (rewritten ≡ requests_of fs)
        × (ovs ≡ overrides_of i fs)
  unfolding overwrite_consensus_responses fates requests_of overrides_of
  overwrite-fates i [] e = ([], refl, cc, cc)
  overwrite-fates i (req ∷ reqs) {rewritten} {ovs} e =
      elim (Option-cases (rewrite_tags hex rpc rctx req.method req.params)) [
        | inl n ↦ cc (rw (n, overwrite_consensus_responses) at e)
        | inr (r, q) ↦
            elim (Option-cases (overwrite_consensus_responses hex rpc rctx (i + 1) reqs)) [
              | inl n ↦ cc (rw (q, n, overwrite_consensus_responses) at e)
              | inr ((rewritten', ovs'), p) ↦
                  let (fs, fp, rp, op) = overwrite-fates (i + 1) reqs p in
                  let f = overwrite hex rpc rctx req r in
                  let parts : collect i f rewritten' ovs' ≡ some (rewritten, ovs) =
                    rw (q, p, overwrite_consensus_responses) at e in
                  let whole = collect-parts i f fs in
                  let same : some (rewritten, ovs)
                      ≡ some (requests_of (f ∷ fs), overrides_of i (f ∷ fs)) =
                    sym parts ∙ rw (rp, op) whole in
                  (f ∷ fs, rw (q, fp, fates) refl, cc same, cc same)
            ]
      ]

fate_ids : List Fate → List Bytes
fate_ids [] = []
fate_ids (forwarded req ∷ fs) = req.id ∷ fate_ids fs
fate_ids (overridden res ∷ fs) = res.id ∷ fate_ids fs

length-res_ids :
    (rs : List RpcRes) (reqs : List RpcReq) → res_ids rs ≡ req_ids reqs → length rs ≡ length reqs
length-res_ids [] [] e = refl
length-res_ids [] (req ∷ reqs) e = cc
length-res_ids (r ∷ rs) [] e = cc
length-res_ids (r ∷ rs) (req ∷ reqs) e = ap suc (length-res_ids rs reqs (cc e))

weave-ids :
    (fs : List Fate) (rs : List RpcRes)
    → res_ids rs ≡ req_ids (requests_of fs)
    → res_ids (weave fs rs) ≡ fate_ids fs
unfolding fate_ids requests_of
weave-ids [] rs e = refl
weave-ids (forwarded req ∷ fs) [] e = cc
weave-ids (forwarded req ∷ fs) (r ∷ rs) e =
    let rest = weave-ids fs rs (cc e) in let first : r.id ≡ req.id = cc e in rw (rest, first) refl
weave-ids (overridden res ∷ fs) rs e = rw (weave-ids fs rs e) refl

module _ (hex : Hex) (rpc : EthRpc hex) (rctx : RewriteContext) where
  -- A fate has the ID of its request.
  overwrite-ids :
      (req : RpcReq) (r : RewriteResult) (fs : List Fate)
      → fate_ids (overwrite hex rpc rctx req r ∷ fs) ≡ req.id ∷ fate_ids fs
  unfolding overwrite fate_ids
  overwrite-ids req (override_error e) fs = refl
  overwrite-ids req (override_response v) fs = refl
  overwrite-ids req (override_request p) fs = refl
  overwrite-ids req infra.Rewrite.rewrite_none fs = refl

  fates-ids :
      (reqs : List RpcReq) {fs : List Fate}
      → fates hex rpc rctx reqs ≡ some fs
      → fate_ids fs ≡ req_ids reqs
  unfolding fates fate_ids
  fates-ids [] {fs} e = let none-left : fs ≡ [] = cc e in rw (none-left) refl
  fates-ids (req ∷ reqs) {fs} e =
      elim (Option-cases (rewrite_tags hex rpc rctx req.method req.params)) [
        | inl n ↦ cc (rw (n, fates) at e)
        | inr (r, q) ↦ elim (Option-cases (fates hex rpc rctx reqs)) [
          | inl n ↦ cc (rw (q, n, fates) at e)
          | inr (fs', p) ↦
              let same : some (overwrite hex rpc rctx req r ∷ fs') ≡ some fs =
                rw (q, p, fates) at e in
              let whole : fs ≡ overwrite hex rpc rctx req r ∷ fs' = cc same in
              rw (whole, overwrite-ids req r fs', fates-ids reqs p) refl
        ]
      ]

  -- Whatever `OverwriteConsensusResponses` overrides of a list of requests: when the backend
  -- answers the requests that it forwards, in their order, `OverrideResponses` does not panic, and
  -- gives one response for each of the requests, in the order of the requests: its own for a
  -- request that it answers itself, and the backend's next one for each other request.
  pub override_responses-restores :
      (reqs rewritten : List RpcReq) (ovs : List IndexedRes) (rs : List RpcRes)
      → overwrite_consensus_responses hex rpc rctx 0 reqs ≡ some (rewritten, ovs)
      → res_ids rs ≡ req_ids rewritten
      → (fs : List Fate) × (fates hex rpc rctx reqs ≡ some fs)
        × (override_responses rs ovs ≡ some (weave fs rs))
        × (res_ids (weave fs rs) ≡ req_ids reqs)
  override_responses-restores reqs rewritten ovs rs e ids =
      let (fs, fp, rp, op) = overwrite-fates hex rpc rctx 0 reqs e in
      let ids' : res_ids rs ≡ req_ids (requests_of fs) = rw (← rp) ids in
      (
        fs,
        fp,
        rw (op) (override_responses-weave fs [] rs (length-res_ids rs (requests_of fs) ids')),
        weave-ids fs rs ids' ∙ fates-ids reqs fp,
      )
