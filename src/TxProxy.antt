-- ===== src/TxProxy.antt =====
-- op-txproxy/conditional_txs.go: which conditional transactions are sent on to the backend.
--
-- go-ethereum, the limiter of golang.org/x/time/rate (over a state `L`) and the backend are an
-- interface. The state counts the metrics of the service. Logs and the summary of costs are left out.
pub mod Forwarded
mod Tests
use infra.Base.{
  ℕ, ◌+◌, Bool, true, false, not, Option, none, some, String, str_eq, List, [], ◌∷◌, ltb,
  if◌then◌else◌,
}
use infra.Base.Dict.{elem}
use infra.Rpc.{Bytes}

-- `C` are conditions, `T` transactions.
pub record Chain (C T L : Type 0) : Type 0 where
  -- `UnmarshalBinary`: `none` is an error.
  pub unmarshal : Bytes → Option T
  -- The target, which a creation of a contract does not have.
  pub to : T → Option String
  pub hash : T → String
  pub cost : C → ℕ
  pub is_valid : C → Bool
  pub max_cost : ℕ
  -- `WaitN`: does it return without an error?
  pub wait : ℕ → L → Bool × L
  -- `CallContext`: does it?
  pub call : Bytes → C → Bool

-- The errors, in the order of the checks.
pub data TxError : Type 0 where
  endpoint_disabled : TxError
  unmarshal_failed : TxError
  entrypoint_support : TxError
  failed_validation : TxError
  max_cost_exceeded : TxError
  rate_limited : TxError
  backend_failed : TxError

-- The limiter, the metrics, and what was sent to the backend, the last first.
pub record Service (C L : Type 0) : Type 0 where
  pub limiter : L
  pub requests : ℕ
  pub failures : List TxError
  pub sent : List (Bytes × C)

-- `tx.To() == nil || !s.entrypointAddresses[*tx.To()]`, negated.
unfoldable pub is_entrypoint : List String → Option String → Bool
unfolding elem
is_entrypoint addresses none = false
is_entrypoint addresses (some to) = elem to addresses

module _ {C T L : Type 0} (chain : Chain C T L) (enabled : Bool) (addresses : List String) where
  -- The end of `sendCondTx`, after the limiter.
  unfoldable pub broadcast : Bytes → C → Bool → Service C L → Option TxError × Service C L
  broadcast bytes cond ok s = if not ok then (some rate_limited, s) else (
    (if chain.call bytes cond then none else some backend_failed),
    record s { sent = (bytes, cond) ∷ s.sent },
  )

  -- `sendCondTx` from the checks on.
  unfoldable pub send_checked : Bytes → T → C → Service C L → Option TxError × Service C L
  unfolding is_entrypoint broadcast
  send_checked bytes tx cond s =
      if not (is_entrypoint addresses (chain.to tx))
      then (some entrypoint_support, s)
      else if not (chain.is_valid cond)
      then (some failed_validation, s)
      else if ltb chain.max_cost (chain.cost cond)
      then (some max_cost_exceeded, s)
      else let (ok, l) = chain.wait (chain.cost cond) s.limiter in
        broadcast bytes cond ok (record s { limiter = l })

  -- `sendCondTx`: the error, if there is one.
  unfoldable pub send_cond_tx : Bytes → C → Service C L → Option TxError × Service C L
  unfolding send_checked
  send_cond_tx bytes cond s = elim (chain.unmarshal bytes) [
    | none ↦ (some unmarshal_failed, s)
    | some tx ↦ send_checked bytes tx cond s
  ]

  -- A failure is counted.
  unfoldable pub counted : Option TxError × Service C L → Option TxError × Service C L
  counted (none, s) = (none, s)
  counted (some e, s) = (some e, record s { failures = e ∷ s.failures })

  -- `SendRawTransactionConditional`
  unfoldable pub send_raw_transaction_conditional :
      Bytes → C → Service C L → Option TxError × Service C L
  unfolding send_cond_tx counted
  send_raw_transaction_conditional bytes cond s =
      let s' : Service C L = record s { requests = s.requests + 1 } in
      if enabled then counted (send_cond_tx bytes cond s') else counted (some endpoint_disabled, s')
