-- ===== src/Server.antt =====
-- proxyd/server.go: what becomes of the requests of one HTTP call (`handleBatchRPC`).
--
-- What the server reaches is an interface: its rate limiters, its cache, its backend groups and the
-- deadline of the call, over one state that they share. `json.Unmarshal` of each request has been
-- done: `none` is a text that is no request. Logs, metrics and the text of the served-by header are
-- left out.
pub mod Intake
pub mod Batch
pub mod Slots
pub mod Waiting
pub mod Taken
pub mod Distinct
pub mod Minibatch
pub mod Ready
pub mod Loops
pub mod Answers
pub mod Backends
pub mod Echo
mod Tests
use infra.Base.{
  ℕ, ◌+◌, Bool, true, false, Option, none, some, String, List, [], ◌∷◌, ◌==◌, if◌then◌else◌,
}
use infra.Rpc.{RpcReq, RpcRes, RpcErr}

-- An error of `BackendGroup.Forward`: is it one of the two that end the call, and the error that
-- `NewRPCErrorRes` shows for it.
pub record Failure : Type 0 where
  pub ends_call : Bool
  pub shown : RpcErr

-- An answer of `BackendGroup.Forward`, with the requests as it leaves them.
pub record Reply : Type 0 where
  pub reqs : List RpcReq
  pub res : List RpcRes
  pub served_by : String
  pub error : Option Failure

pub record Outside (S : Type 0) : Type 0 where
  -- `isLimited`, on "" or on a method.
  pub is_limited : String → S → Bool × S
  -- Has the method a limiter of its own?
  pub has_override : String → Bool
  -- `rateLimitSender`, if there is a limiter for senders: the error shown.
  pub rate_limit_sender : RpcReq → S → Option RpcErr × S
  -- `rpcMethodMappings`, which is "" for a method that it does not have.
  pub group_of_method : String → String
  pub get_rpc : RpcReq → S → Option RpcRes × S
  pub put_rpc : RpcReq → RpcRes → S → S
  -- `none` is a panic.
  pub forward : String → Bool → List RpcReq → S → Option Reply × S
  -- Has the deadline passed?
  pub expired : S → Bool

-- A `batchElem`
pub record Elem : Type 0 where
  pub req : RpcReq
  pub index : ℕ

-- A `batchGroup`
pub record BatchGroup : Type 0 where
  pub group_id : ℕ
  pub backend_group : String

abbrev pub Batches : Type 0
Batches = List (BatchGroup × List Elem)
