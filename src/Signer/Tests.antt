-- ===== src/Signer/Tests.antt =====
-- A client that may send to one address and up to ten, and one whose maximum is no number.
use infra.Base.{ℕ, ◌≡◌, refl, none, some, String, str_eq, List, [], ◌∷◌, if◌then◌else◌}
use infra.Signer.{Bytes, Answer, ok, AuthConfig, Sdk, Provider}
use infra.Signer.Service.{
  get_auth_config_for_client, panic, sign_transaction, sign_block_payload, read_config,
}
use infra.Signer.Authorized.{IsEntry, MaySendTo, MaySpend, sign_transaction-MaySpend}
use infra.Signer.Payload.{IsFor, sign_block_payload-IsFor}
use infra.Signer.Config.{sign_transaction-panic}

-- A transaction is its value, to one address; a payload is for chain 10.
abbrev sdk : Sdk ℕ ℕ ℕ
sdk = record {
  equal_fold = str_eq;
  decode = λ t. some [];
  decode_big = λ t. if str_eq t "0xa" then some 10 else none;
  check = λ a. none;
  to_address = λ a. some "0xto";
  from_address = λ a. none;
  value = λ a. some a;
  to_transaction = λ a. ok a;
  hash = λ t. t ∷ [];
  with_signature = λ t sig. ok t;
  sender = λ t. ok "0xfrom";
  marshal = λ t. ok (t ∷ []);
  check_payload = λ b. none;
  sender_address = λ b. some "0xfrom";
  payload_chain_id = λ b. some 10;
  to_signing_hash = λ b. ok (b ∷ []);
}

abbrev entry : List String → String → AuthConfig
entry addresses max = record {
  client_name = "client";
  key_name = "key";
  chain_id = 10;
  from_address = "0xfrom";
  to_addresses = addresses;
  max_value = max;
}

abbrev auth : List AuthConfig
auth = entry ("0xto" ∷ []) "0xa" ∷ []

abbrev provider : Provider
provider key digest = ok digest

asked_lem : (sign_transaction sdk auth provider "client" 7).asked ≡ some ("key", 7 ∷ [])
unfolding sign_transaction
asked_lem = refl

refused_lem : (sign_transaction sdk auth provider "client" 11).asked ≡ none
unfolding sign_transaction
refused_lem = refl

sign_transaction-MaySpend_example :
    (ac : AuthConfig) × IsEntry auth "client" ac
    × (ac.key_name ≡ "key")
    × MaySendTo sdk ac 7
    × MaySpend sdk ac 7
    × (tx : ℕ) × (◌≡◌ {A = Answer ℕ} (ok 7) (ok tx))
    × (◌≡◌ {A = Bytes} (tx ∷ []) (7 ∷ []))
sign_transaction-MaySpend_example =
    sign_transaction-MaySpend sdk auth provider "client" 7 "key" (7 ∷ []) asked_lem

asked_payload_lem : (sign_block_payload sdk auth provider "client" 5).asked ≡ some ("key", 5 ∷ [])
unfolding sign_block_payload
asked_payload_lem = refl

sign_block_payload-IsFor_example :
    (ac : AuthConfig) × IsEntry auth "client" ac
    × (ac.key_name ≡ "key")
    × IsFor sdk ac (some "0xfrom") (some 10)
    × (◌≡◌ {A = Answer Bytes} (ok (5 ∷ [])) (ok (5 ∷ [])))
sign_block_payload-IsFor_example =
    sign_block_payload-IsFor sdk auth provider "client" 5 "key" (5 ∷ []) asked_payload_lem

abbrev careless : AuthConfig
careless = entry [] "ten"

careless_entry : get_auth_config_for_client (careless ∷ []) "client" none ≡ some careless
unfolding get_auth_config_for_client
careless_entry = refl

sign_transaction-panic_example :
    (read_config sdk (careless ∷ []) ≡ read_config sdk [])
    × ((sign_transaction sdk (careless ∷ []) provider "client" 7).outcome ≡ panic)
sign_transaction-panic_example =
    sign_transaction-panic sdk (careless ∷ []) [] provider "client" careless 7 careless_entry refl
      refl refl refl refl
