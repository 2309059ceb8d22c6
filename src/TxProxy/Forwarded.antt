-- ===== src/TxProxy/Forwarded.antt =====
-- op-txproxy/conditional_txs.go: what is sent on to the backend has passed all the checks.
use infra.Base.{
  ◌+◌, ◌≤◌, ap, ◌∙◌, ◌≡◌, ◌⊎◌, inl, inr, refl, Bool, true, Option, none, some, String, List, ◌∷◌,
  ltb, if◌then◌else◌, Bool-cases, Option-cases, arith,
}
use infra.Rpc.{Bytes}
use infra.TxProxy.{
  Chain, TxError, Service, is_entrypoint, broadcast, send_checked, send_cond_tx, counted,
  send_raw_transaction_conditional,
}

module _ {C T L : Type 0} (chain : Chain C T L) (enabled : Bool) (addresses : List String) where
  -- The transaction goes to an entry point, the condition is valid, its cost
  -- is not above the maximum, and the limiter lets it pass.
  unfoldable pub IsAdmitted : Bytes → C → L → Type 0
  IsAdmitted bytes cond l =
      (tx : T) × (chain.unmarshal bytes ≡ some tx)
      × (is_entrypoint addresses (chain.to tx) ≡ true)
      × (chain.is_valid cond ≡ true)
      × (chain.cost cond ≤ chain.max_cost)
      × ((chain.wait (chain.cost cond) l).0 ≡ true)

  -- Nothing is sent, or just this transaction, which is admitted.
  unfoldable pub Sends : Bytes → C → Service C L → Service C L → Type 0
  Sends bytes cond s s' =
      (s'.sent ≡ s.sent) ⊎ ((s'.sent ≡ (bytes, cond) ∷ s.sent) × IsAdmitted bytes cond s.limiter)

  send_checked-Sends :
      (bytes : Bytes) (tx : T) (cond : C) (s : Service C L)
      → chain.unmarshal bytes ≡ some tx
      → Sends bytes cond s (send_checked chain enabled addresses bytes tx cond s).1
  unfolding Sends IsAdmitted send_checked broadcast
  send_checked-Sends bytes tx cond s h = elim (Bool-cases (is_entrypoint addresses (chain.to tx))) [
    | inr n ↦ rw (send_checked, n) (inl refl)
    | inl y ↦ elim (Bool-cases (chain.is_valid cond)) [
      | inr n ↦ rw (send_checked, y, n) (inl refl)
      | inl z ↦ elim (Bool-cases (ltb chain.max_cost (chain.cost cond))) [
        | inl n ↦ rw (send_checked, y, z, n) (inl refl)
        | inr w ↦ elim (Bool-cases (chain.wait (chain.cost cond) s.limiter).0) [
          | inr n ↦ rw (send_checked, y, z, w, broadcast, n) (inl refl)
          | inl v ↦
              let cheap : chain.cost cond ≤ chain.max_cost = ground (arith, w) in
              rw (send_checked, y, z, w, broadcast, v) (inr (refl, (tx, h, y, refl, cheap, refl)))
        ]
      ]
    ]
  ]

  counted_sent :
      (x : Option TxError × Service C L) → (counted chain enabled addresses x).1.sent ≡ x.1.sent
  unfolding counted
  counted_sent (none, s) = refl
  counted_sent (some e, s) = refl

  send_cond_tx-Sends :
      (bytes : Bytes) (cond : C) (s : Service C L)
      → Sends bytes cond s (send_cond_tx chain enabled addresses bytes cond s).1
  unfolding send_cond_tx Sends
  send_cond_tx-Sends bytes cond s = elim (Option-cases (chain.unmarshal bytes)) [
    | inl e ↦ rw (send_cond_tx, e) (inl refl)
    | inr (tx, e) ↦ rw (send_cond_tx, e) (send_checked-Sends bytes tx cond s e)
  ]

  unless_disabled :
      (bytes : Bytes) (cond : C) (s : Service C L)
      → enabled ≡ true
      → (send_raw_transaction_conditional chain enabled addresses bytes cond s).1.sent
        ≡ (send_cond_tx chain enabled addresses bytes cond
            (record s { requests = s.requests + 1 })).1.sent
  unfolding send_raw_transaction_conditional
  unless_disabled bytes cond s y =
      ap
        (λ b.
          (if b
            then counted chain enabled addresses (
                send_cond_tx chain enabled addresses bytes cond
                  (record s { requests = s.requests + 1 }))
            else counted chain enabled addresses
                (some TxError.endpoint_disabled, record s { requests = s.requests + 1 })).1.sent)
        y
      ∙ counted_sent
          (send_cond_tx chain enabled addresses bytes cond (record s { requests = s.requests + 1 }))

  -- `SendRawTransactionConditional` sends nothing to the backend, or once just this transaction. It
  -- sends it only if the endpoint is enabled, the bytes are a transaction to one of the entry points,
  -- the condition is valid, its cost is not above the maximum, and the limiter lets the cost pass.
  pub send_raw-Sends :
      (bytes : Bytes) (cond : C) (s : Service C L)
      → ((send_raw_transaction_conditional chain enabled addresses bytes cond s).1.sent ≡ s.sent)
        ⊎ (((send_raw_transaction_conditional chain enabled addresses bytes cond s).1.sent
              ≡ (bytes, cond) ∷ s.sent)
            × (enabled ≡ true)
            × IsAdmitted bytes cond s.limiter)
  unfolding send_raw_transaction_conditional Sends
  send_raw-Sends bytes cond s = elim (Bool-cases enabled) [
    | inr n ↦ inl (rw (send_raw_transaction_conditional, n) refl)
    | inl y ↦
        let s' : Service C L = record s { requests = s.requests + 1 } in
        let out = send_cond_tx chain enabled addresses bytes cond s' in
        let same : (send_raw_transaction_conditional chain enabled addresses bytes cond s).1.sent
            ≡ out.1.sent =
          unless_disabled bytes cond s y in
        elim (send_cond_tx-Sends bytes cond s') [
          | inl e ↦ inl (same ∙ e)
          | inr (e, admitted) ↦ inr (same ∙ e, y, admitted)
        ]
  ]
