-- ===== src/Signer.antt =====
-- op-signer/service: which client may have what signed, with which key (`config.go`, `auth.go`,
-- `service.go`).
--
-- go-ethereum, the arguments of op-service and the key management are an interface. An address is its
-- normal text. Logs and metrics are left out.
pub mod Service
pub mod Authorized
pub mod Payload
pub mod Config
mod Tests
use infra.Base.{ℕ, Bool, Option, String, List}

abbrev pub Bytes : Type 0
Bytes = List ℕ

-- A value, or the text of an error.
pub data Answer (A : Type 0) : Type 0 where
  failed : String → Answer A
  ok : A → Answer A

pub record AuthConfig : Type 0 where
  pub client_name : String
  pub key_name : String
  pub chain_id : ℕ
  pub from_address : String
  pub to_addresses : List String
  pub max_value : String

-- `A` are the arguments of a transaction and `T` transactions, `B` the arguments of a block payload.
pub record Sdk (A T B : Type 0) : Type 0 where
  -- `strings.EqualFold`
  pub equal_fold : String → String → Bool
  -- `hexutil.Decode` and `hexutil.DecodeBig`: `none` is an error.
  pub decode : String → Option Bytes
  pub decode_big : String → Option ℕ
  -- `TransactionArgs`: a nil address or value is `none`.
  pub check : A → Option String
  pub to_address : A → Option String
  pub from_address : A → Option String
  pub value : A → Option ℕ
  pub to_transaction : A → Answer T
  -- `types.Signer` and `types.Transaction`
  pub hash : T → Bytes
  pub with_signature : T → Bytes → Answer T
  pub sender : T → Answer String
  pub marshal : T → Answer Bytes
  -- `BlockPayloadArgs`, whose addresses and chain may be nil.
  pub check_payload : B → Option String
  pub sender_address : B → Option String
  pub payload_chain_id : B → Option ℕ
  pub to_signing_hash : B → Answer Bytes

-- `SignatureProvider.SignDigest`, of a key and a digest.
abbrev pub Provider : Type 0
Provider = String → Bytes → Answer Bytes
