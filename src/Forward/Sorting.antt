-- ===== src/Forward/Sorting.antt =====
-- proxyd/backend.go: the responses of a batch are put in the order of its requests
-- (`sortBatchRPCResponse`). `sort.Slice` is an insertion sort here; which of two responses with the
-- same position comes first is not promised by the source's.
use infra.Base.{
  ℕ, ◌+◌, Bool, true, false, ◌&&◌, Option, none, some, List, [], ◌∷◌, leb, ◌==◌, if◌then◌else◌,
}
use infra.Base.Call.{Call, done, panicked}
use infra.Rpc.{RpcReq, RpcRes, Bytes}

unfoldable pub bytes_eq : Bytes → Bytes → Bool
bytes_eq [] [] = true
bytes_eq [] (b ∷ bs) = false
bytes_eq (a ∷ as') [] = false
bytes_eq (a ∷ as') (b ∷ bs) = a == b && bytes_eq as' bs

-- The map from an ID to a position.
abbrev pub Positions : Type 0
Positions = List (Bytes × ℕ)

unfoldable pub find : Bytes → Positions → Option ℕ
unfolding bytes_eq
find id [] = none
find id ((k, i) ∷ pos) = if bytes_eq k id then some i else find id pos

-- The first loop: `none` is the panic on a duplicate.
unfoldable pub positions : ℕ → List RpcReq → Positions → Option Positions
unfolding find
positions i [] pos = some pos
positions i (req ∷ reqs) pos = elim (find req.id pos) [
  | some _ ↦ none
  | none ↦ positions (i + 1) reqs ((req.id, i) ∷ pos)
]

-- `pos[id]`, which is 0 where the key is missing.
unfoldable pub position : Positions → Bytes → ℕ
unfolding find
position pos id = elim (find id pos) [ none ↦ 0 | some i ↦ i ]

-- `sort.Slice` by a key.
unfoldable pub insert_by : (RpcRes → ℕ) → RpcRes → List RpcRes → List RpcRes
insert_by key r [] = r ∷ []
insert_by key r (x ∷ xs) =
    let rest = insert_by key r xs in if leb (key r) (key x) then r ∷ x ∷ xs else x ∷ rest

unfoldable pub sort_by : (RpcRes → ℕ) → List RpcRes → List RpcRes
unfolding insert_by
sort_by key [] = []
sort_by key (r ∷ rs) = insert_by key r (sort_by key rs)

-- `sortBatchRPCResponse`
unfoldable pub sort_batch_rpc_response {ℓ} :
    {E : Type ℓ} → List RpcReq → List RpcRes → Call E (List RpcRes)
unfolding positions position sort_by
sort_batch_rpc_response req res = elim (positions 0 req []) [
  | none ↦ panicked
  | some pos ↦ done (sort_by (λ r. position pos r.id) res)
]
