-- ===== src/Forward/Receipts.antt =====
-- proxyd/backend.go: `consensus_getReceipts` is translated in place, so a second attempt finds the
-- request translated, and does not wrap the response any more.
use mathlib.Core.List.{Perm}
use mathlib.Core.List.Perm
use infra.Base.{ℕ, ◌≡◌, refl, ap, Option, none, some, String, List, [], ◌∷◌, length, map, ◌==◌}
use infra.Base.Call.{Call, done, failed, panicked, done-injective, >>=-eq-done}
use infra.Json.{Json}
use infra.Hex.{Hex}
use infra.EthRpc.{EthRpc, BlockText}
use infra.Rpc.{RpcReq, RpcRes, Bytes}
use infra.Forward.Send.{
  ForwardErr, read, Exchange, response, Sent, sent, dereference, decode_body, receive,
}

abbrev results : List RpcRes → List Json
results rs = map (λ (r : RpcRes). r.result) rs

-- The responses have the results of those that a backend has sent.
abbrev pub Came : List RpcReq → Exchange → List RpcRes → Type 0
Came reqs exchange rs =
    (status : ℕ) × (single : Option RpcRes) × (batch : Option (List (Option RpcRes))) × (sent : List
      RpcRes)
    × (exchange ≡ response status (read single batch))
    × (decode_body (length reqs == 1) single batch ≡ done (map some sent))
    × Perm (map (λ (r : RpcRes). r.result) rs) (map (λ (r : RpcRes). r.result) sent)

pub dereference_done :
    (rs : List (Option RpcRes)) {out : List RpcRes} → dereference rs ≡ done out → rs ≡ map some out
unfolding dereference
dereference_done [] e = rw (← done-injective e) refl
dereference_done (none ∷ rs) e = cc
dereference_done (some r ∷ rs) {out} e =
    let (rest, q, e') = >>=-eq-done (dereference rs) _ e in
    rw (← done-injective e') (ap (λ l. some r ∷ l) (dereference_done rs q))

module _ (hex : Hex) (rpc : EthRpc hex) (texts : BlockText) where
  -- What `doForward` makes of the translation.
  abbrev deliver :
      String → (List RpcReq → Exchange) → List RpcReq × Call ForwardErr (List Bytes) → Sent
  deliver target exchange t = elim t.1 [
    | done ids ↦ receive target ids t.0 (exchange t.0)
    | failed e ↦ sent t.0 (failed e) 0 0
    | panicked ↦ sent t.0 panicked 0 0
  ]
