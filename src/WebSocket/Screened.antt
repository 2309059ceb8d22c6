-- ===== src/WebSocket/Screened.antt =====
-- proxyd/backend.go: what goes over the two connections of a WebSocket, whatever the order of the pumps.
use infra.Base.{
  ◌≡◌, ◌⊎◌, inl, inr, refl, ap, ◌∙◌, subst, Bool, true, false, some, String, str_eq, List, [], All,
  Bool-cases, Option-cases,
}
use infra.Json.{Json, nil}
use infra.Rpc.{Bytes, RpcReq, RpcRes, new_rpc_error_res, new_rpc_res, err_backend_bad_response}
use infra.WebSocket.{Kind, close, Message, Read, Codec, Proxy}
use infra.WebSocket.Pumps.{
  has, is_data, Prepared, rejected, prepared, id_of, format_ws_error, prepare_client_msg,
  client_to_backend, client_request, client_message, client_pass, backend_to_client, relayed,
  backend_message, backend_pass, Reach, start, of_client, of_backend,
}

module _ (codec : Codec) (whitelist : List String) where
  -- Data for the backend is a request for a method of the whitelist.
  abbrev pub IsScreened : Message → Type 0
  IsScreened m =
      (is_data m.kind ≡ false)
      ⊎ ((req : RpcReq) × (codec.parse_req m.body ≡ some req)
          × (has whitelist req.method ≡ true)
          × (str_eq req.method "eth_accounts" ≡ false))

  -- Data for the client is a response, as it came or made here.
  abbrev pub IsResponse : Message → Type 0
  IsResponse m =
      (is_data m.kind ≡ false)
      ⊎ ((res : RpcRes) × ((codec.parse_res m.body ≡ some res) ⊎ (m.body ≡ codec.marshal res)))

  unfoldable pub IsSound : Proxy → Type 0
  IsSound p = All IsScreened p.to_backend × All IsResponse p.to_client

  -- A close message is no data.
  send_close-IsSound :
      (body : Bytes) (ok : Bool) (p : Proxy)
      → IsSound p
      → IsSound (client_to_backend codec whitelist close body ok p)
  unfolding IsSound client_to_backend is_data
  send_close-IsSound body ok p (b, c) = ((inl refl, b), c)

  close_client-IsSound :
      (body : Bytes) (ok : Bool) (p : Proxy)
      → IsSound p
      → IsSound (backend_to_client codec whitelist close body ok p)
  unfolding IsSound backend_to_client is_data
  close_client-IsSound body ok p (b, c) = (b, (inl refl, c))

  prepared_lem :
      (body : Bytes) (req : RpcReq)
      → prepare_client_msg codec whitelist body ≡ prepared req
      → (codec.parse_req body ≡ some req) × (has whitelist req.method ≡ true)
  unfolding prepare_client_msg
  prepared_lem body req h = elim (Option-cases (codec.parse_req body)) [
    | inl e ↦ cc (rw (prepare_client_msg, e) at h)
    | inr (q, e) ↦ elim (Bool-cases (has whitelist q.method)) [
      | inr n ↦ cc (rw (prepare_client_msg, e, n) at h)
      | inl y ↦
          let k : prepared q ≡ prepared req = rw (prepare_client_msg, e, y) at h in
          let same : q ≡ req = cc k in
          (e ∙ ap some same, subst (λ (z : RpcReq). has whitelist z.method ≡ true) same y)
    ]
  ]

  client_request-IsSound :
      (kind : Kind) (body : Bytes) (ok : Bool) (x : Prepared) (p : Proxy)
      → prepare_client_msg codec whitelist body ≡ x
      → IsSound p
      → IsSound (client_request codec whitelist kind body ok x p)
  unfolding IsSound client_request
  client_request-IsSound kind body ok (rejected req e) p h (b, c) =
      (b, (inr (new_rpc_error_res (id_of req) e, inr refl), c))
  client_request-IsSound kind body ok (prepared req) p h (b, c) =
      elim (Bool-cases (str_eq req.method "eth_accounts")) [
        | inl y ↦ rw (client_request, y) (b, (inr (new_rpc_res req.id (Json.arr nil), inr refl), c))
        | inr n ↦
            let (parsed, listed) = prepared_lem body req h in
            rw (client_request, n) ((inr (req, parsed, listed, n), b), c)
      ]

  client_message-IsSound :
      (kind : Kind) (body : Bytes) (ok : Bool) (p : Proxy)
      → IsSound p
      → IsSound (client_message codec whitelist kind body ok p)
  unfolding IsSound client_message client_to_backend
  client_message-IsSound kind body ok p sound = elim (Bool-cases (is_data kind)) [
    | inl y ↦ rw (client_message, y) (client_request-IsSound kind body ok _ p refl sound)
    | inr n ↦ rw (client_message, n) ((inl n, sound.0), sound.1)
  ]

  client_pass-IsSound :
      (r : Read) (close_ok ok : Bool) (p : Proxy)
      → IsSound p
      → IsSound (client_pass codec whitelist r close_ok ok p)
  unfolding client_pass
  client_pass-IsSound r close_ok ok p sound = elim (Option-cases r.error) [
    | inl e ↦ rw (client_pass, e) (client_message-IsSound r.kind r.body ok p sound)
    | inr (e, f) ↦
        let closed = send_close-IsSound (format_ws_error codec whitelist e) close_ok p sound in
        elim (Bool-cases close_ok) [
          | inl y ↦
              rw (client_pass, f, y) (client_message-IsSound r.kind r.body ok _ (rw y at closed))
          | inr n ↦ rw (client_pass, f, n) (rw n at closed)
        ]
  ]

  relayed_lem :
      (body : Bytes)
      → (res : RpcRes) × ((codec.parse_res (relayed codec whitelist body) ≡ some res)
          ⊎ (relayed codec whitelist body ≡ codec.marshal res))
  unfolding relayed
  relayed_lem body = elim (Option-cases (codec.parse_res body)) [
    | inl e ↦ (new_rpc_error_res [] err_backend_bad_response, inr (rw (relayed, e) refl))
    | inr (res, e) ↦ (res, inl (rw (relayed, e) e))
  ]

  backend_message-IsSound :
      (kind : Kind) (body : Bytes) (ok : Bool) (p : Proxy)
      → IsSound p
      → IsSound (backend_message codec whitelist kind body ok p)
  unfolding IsSound backend_message backend_to_client
  backend_message-IsSound kind body ok p (b, c) = elim (Bool-cases (is_data kind)) [
    | inl y ↦ rw (backend_message, y) (b, (inr (relayed_lem body), c))
    | inr n ↦ rw (backend_message, n) (b, (inl refl, c))
  ]

  backend_pass-IsSound :
      (r : Read) (close_ok ok : Bool) (p : Proxy)
      → IsSound p
      → IsSound (backend_pass codec whitelist r close_ok ok p)
  unfolding backend_pass
  backend_pass-IsSound r close_ok ok p sound = elim (Option-cases r.error) [
    | inl e ↦ rw (backend_pass, e) (backend_message-IsSound r.kind r.body ok p sound)
    | inr (e, f) ↦
        let closed = close_client-IsSound (format_ws_error codec whitelist e) close_ok p sound in
        elim (Bool-cases close_ok) [
          | inl y ↦
              rw (backend_pass, f, y) (backend_message-IsSound r.kind r.body ok _ (rw y at closed))
          | inr n ↦ rw (backend_pass, f, n) (rw n at closed)
        ]
  ]

  -- In whatever order the pumps of a connection run, whatever they read, and whichever writes fail:
  -- each text or binary message that goes to the backend parses as a request for a method of the
  -- whitelist other than `eth_accounts`, and each one that goes to the client parses as a response or
  -- is one that the proxy has made.
  pub Reach-IsSound : (p : Proxy) → Reach codec whitelist p → IsSound p
  unfolding IsSound
  Reach-IsSound p start = (tt, tt)
  Reach-IsSound p (of_client r close_ok ok q runs way) =
      client_pass-IsSound r close_ok ok q (Reach-IsSound q way)
  Reach-IsSound p (of_backend r close_ok ok q runs way) =
      backend_pass-IsSound r close_ok ok q (Reach-IsSound q way)
