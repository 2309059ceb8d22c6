-- ===== src/WebSocket.antt =====
-- proxyd/backend.go (`WSProxier`), proxyd/string_set.go: a WebSocket connection of a client that is
-- joined to one of a backend by two pumps.
--
-- The connections of gorilla/websocket and `json.Unmarshal` are arguments: what a read returns, and
-- whether a write succeeds. Deadlines, logs and metrics are left out.
pub mod Pumps
pub mod Screened
mod Tests
use infra.Base.{ℕ, Bool, true, Option, String, List, []}
use infra.Rpc.{Bytes, RpcReq, RpcRes}

-- The type of a message.
pub data Kind : Type 0 where
  text : Kind
  binary : Kind
  close : Kind
  other : ℕ → Kind

pub record Message : Type 0 where
  pub kind : Kind
  pub body : Bytes

-- An error, with the code and the text of a `CloseError`.
pub record WsErr : Type 0 where
  pub message : String
  pub close_error : Option (ℕ × String)

-- What `ReadMessage` returns: a type and a body, also with an error.
pub record Read : Type 0 where
  pub kind : Kind
  pub body : Bytes
  pub error : Option WsErr

-- JSON, and `websocket.FormatCloseMessage`.
pub record Codec : Type 0 where
  pub parse_req : Bytes → Option RpcReq
  pub parse_res : Bytes → Option RpcRes
  pub marshal : RpcRes → Bytes
  pub format_close : ℕ → String → Bytes

-- What has been given to each connection to write, the last first, and which pumps run.
pub record Proxy : Type 0 where
  pub to_client : List Message
  pub to_backend : List Message
  pub client_runs : Bool
  pub backend_runs : Bool

-- As `Proxy` starts it.
abbrev pub opened : Proxy
opened = record { to_client = []; to_backend = []; client_runs = true; backend_runs = true }
