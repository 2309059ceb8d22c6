-- ===== src/WebSocket/Pumps.antt =====
-- proxyd/backend.go: the passes of `clientPump` and `backendPump`, and `Proxy` as their interleaving.
use infra.Base.{
  ◌≡◌, Bool, true, false, not, ◌||◌, Option, none, some, String, str_eq, List, [], ◌∷◌, ◌==◌,
  if◌then◌else◌,
}
use infra.Json.{Json, nil}
use infra.Rpc.{
  Bytes, RpcReq, RpcErr, new_rpc_error_res, new_rpc_res, err_parse_err, err_method_not_whitelisted,
  err_backend_bad_response,
}
use infra.WebSocket.{Kind, text, binary, close, other, WsErr, Read, Codec, Proxy, opened}

-- `StringSet.Has`, on the strings of a set.
unfoldable pub has : List String → String → Bool
has [] test = false
has (s ∷ set) test = str_eq s test || has set test

unfoldable pub is_data : Kind → Bool
is_data text = true
is_data binary = true
is_data close = false
is_data (other n) = false

-- What `prepareClientMsg` returns: an error, with the request if it could be parsed, or the request.
pub data Prepared : Type 0 where
  rejected : Option RpcReq → RpcErr → Prepared
  prepared : RpcReq → Prepared

-- `id`, for the response to a request that is rejected.
unfoldable pub id_of : Option RpcReq → Bytes
id_of none = []
id_of (some req) = req.id

module _ (codec : Codec) (whitelist : List String) where
  -- `formatWSError`
  unfoldable pub format_ws_error : WsErr → Bytes
  format_ws_error e = elim e.close_error [
    | none ↦ codec.format_close 1000 e.message
    | some (code, reason) ↦
        if code == 1005 then codec.format_close 1000 e.message else codec.format_close code reason
  ]

  -- `prepareClientMsg`
  unfoldable pub prepare_client_msg : Bytes → Prepared
  unfolding has
  prepare_client_msg msg = elim (codec.parse_req msg) [
    | none ↦ rejected none err_parse_err
    | some req ↦
        if not (has whitelist req.method)
        then rejected (some req) err_method_not_whitelisted
        else prepared req
  ]

  -- A write of the client's pump, which stops if it fails.
  unfoldable pub client_to_backend : Kind → Bytes → Bool → Proxy → Proxy
  client_to_backend kind body ok p = record p {
    to_backend = record { kind = kind; body = body } ∷ p.to_backend;
    client_runs = ok;
  }

  unfoldable pub client_to_client : Kind → Bytes → Bool → Proxy → Proxy
  client_to_client kind body ok p = record p {
    to_client = record { kind = kind; body = body } ∷ p.to_client;
    client_runs = ok;
  }

  -- The end of a pass of `clientPump`, for a request.
  unfoldable pub client_request : Kind → Bytes → Bool → Prepared → Proxy → Proxy
  unfolding id_of client_to_backend client_to_client
  client_request kind body ok (rejected req e) p =
      client_to_client kind (codec.marshal (new_rpc_error_res (id_of req) e)) ok p
  client_request kind body ok (prepared req) p =
      if str_eq req.method "eth_accounts"
      then client_to_client kind (codec.marshal (new_rpc_res req.id (Json.arr nil))) ok p
      else client_to_backend kind body ok p

  -- A pass from the message on.
  unfoldable pub client_message : Kind → Bytes → Bool → Proxy → Proxy
  unfolding is_data prepare_client_msg client_request
  client_message kind body ok p =
      if is_data kind
      then client_request kind body ok (prepare_client_msg body) p
      else client_to_backend kind body ok p

  -- A pass of `clientPump`: what it reads, and whether the writes of a close message and of the
  -- message succeed. After an error of the read, and a close message that is written, the pass goes
  -- on with what was read.
  unfoldable pub client_pass : Read → Bool → Bool → Proxy → Proxy
  unfolding format_ws_error client_message
  client_pass r close_ok ok p = elim r.error [
    | none ↦ client_message r.kind r.body ok p
    | some e ↦
        let p' = client_to_backend close (format_ws_error e) close_ok p in
        if close_ok then client_message r.kind r.body ok p' else p'
  ]

  -- The same, of `backendPump`.
  unfoldable pub backend_to_client : Kind → Bytes → Bool → Proxy → Proxy
  backend_to_client kind body ok p = record p {
    to_client = record { kind = kind; body = body } ∷ p.to_client;
    backend_runs = ok;
  }

  -- `parseBackendMsg`, and the message that goes to the client.
  unfoldable pub relayed : Bytes → Bytes
  relayed body = elim (codec.parse_res body) [
    | none ↦ codec.marshal (new_rpc_error_res [] err_backend_bad_response)
    | some res ↦ body
  ]

  unfoldable pub backend_message : Kind → Bytes → Bool → Proxy → Proxy
  unfolding is_data relayed backend_to_client
  backend_message kind body ok p =
      backend_to_client kind (if is_data kind then relayed body else body) ok p

  -- A pass of `backendPump`
  unfoldable pub backend_pass : Read → Bool → Bool → Proxy → Proxy
  unfolding format_ws_error backend_message
  backend_pass r close_ok ok p = elim r.error [
    | none ↦ backend_message r.kind r.body ok p
    | some e ↦
        let p' = backend_to_client close (format_ws_error e) close_ok p in
        if close_ok then backend_message r.kind r.body ok p' else p'
  ]

  -- `Proxy`: the passes of the two pumps in any order, while they run.
  pub data Reach : Proxy → Type 0 where
    start : Reach opened
    of_client :
        (r : Read) (close_ok ok : Bool) (p : Proxy)
        → p.client_runs ≡ true
        → Reach p
        → Reach (client_pass r close_ok ok p)
    of_backend :
        (r : Read) (close_ok ok : Bool) (p : Proxy)
        → p.backend_runs ≡ true
        → Reach p
        → Reach (backend_pass r close_ok ok p)
