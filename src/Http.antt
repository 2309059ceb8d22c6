-- ===== src/Http.antt =====
-- proxyd/server.go: what becomes of an HTTP call around `handleBatchRPC`: its context, its rate
-- limits, its body and the response that is written.
--
-- The router, CORS, TLS, logs, metrics and request IDs are left out. Reading the body has been done.
pub mod Settings
pub mod Context
pub mod Limit
pub mod Handle
pub mod Senders
pub mod Sizes
pub mod Replies
mod Tests
use infra.Base.{ℕ, Option, String, List}
use infra.Rpc.{RpcRes, Bytes}

-- What reading the body through `LimitReader` gives.
pub data BodyRead : Type 0 where
  over_limit : BodyRead
  unreadable : BodyRead
  whole : Bytes → BodyRead

-- A header that is not there is "". `forwarded_for` is the one that `rateLimitHeader` names.
pub record HttpRequest : Type 0 where
  pub origin : String
  pub user_agent : String
  pub forwarded_for : String
  pub op_tx_proxy_auth : String
  pub remote_addr : String
  pub authorization : String
  pub body : BodyRead

-- What is written: nothing but the status, one response, or those of a batch.
pub data Content : Type 0 where
  empty : Content
  single : RpcRes → Content
  batch : List (Option RpcRes) → Content

pub record Written : Type 0 where
  pub status : ℕ
  -- "x-served-by": the backends, if it is set.
  pub served_by : Option (List String)
  -- The status of the cache, if it is set.
  pub cache_status : Option String
  pub content : Content
