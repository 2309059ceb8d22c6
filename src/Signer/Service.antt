-- ===== src/Signer/Service.antt =====
-- op-signer/service: `GetAuthConfigForClient`, `ReadConfig` after the parsing of the file, the client
-- of a call, `SignTransaction` and `SignBlockPayload`.
use infra.Base.{
  ℕ, Bool, true, false, not, ◌&&◌, ◌||◌, Option, none, some, String, str_eq, List, [], ◌∷◌, ◌%◌,
  u64, ltb, ◌==◌, if◌then◌else◌,
}
use infra.Signer.{Bytes, Answer, failed, ok, AuthConfig, Sdk, Provider}

-- The name that `NewAuthMiddleware` finds in a certificate: `none` is a call without one, or an
-- answer 401.
unfoldable pub client_of : Option (List String) → Option String
client_of none = none
client_of (some []) = none
client_of (some (name ∷ names)) = some name

-- A nil address fits every entry.
unfoldable pub fits_address : Option String → AuthConfig → Bool
fits_address none ac = true
fits_address (some a) ac = str_eq a ac.from_address

-- The loop of `GetAuthConfigForClient`.
unfoldable pub find_auth : List AuthConfig → String → Option String → Option AuthConfig
unfolding fits_address
find_auth [] client from = none
find_auth (ac ∷ acs) client from =
    let rest = find_auth acs client from in
    if str_eq ac.client_name client && fits_address from ac then some ac else rest

-- `GetAuthConfigForClient`
unfoldable pub get_auth_config_for_client :
    List AuthConfig → String → Option String → Option AuthConfig
unfolding find_auth
get_auth_config_for_client auth client from =
    if str_eq client "" then none else find_auth auth client from

-- What a call comes to, and the digest that it has had signed, with the key, if it got so far.
pub data Outcome : Type 0 where
  panic : Outcome
  forbidden : Outcome
  invalid : String → Outcome
  unauthorized : String → Outcome
  signed : Bytes → Outcome

pub record Signing : Type 0 where
  pub outcome : Outcome
  pub asked : Option (String × Bytes)

abbrev pub stop : Outcome → Signing
stop o = record { outcome = o; asked = none }

abbrev pub after : {A : Type 0} → Answer A → (A → Outcome) → Outcome
after (failed e) k = invalid e
after (ok a) k = k a

module _ {A T B : Type 0} (sdk : Sdk A T B) where
  -- `containsNormalized`
  unfoldable pub contains_normalized : List String → String → Bool
  contains_normalized [] e = false
  contains_normalized (a ∷ s) e = sdk.equal_fold a e || contains_normalized s e

  -- The loops of `ReadConfig`: does it accept the entries?
  unfoldable pub accepts_addresses : String → List String → Bool
  accepts_addresses max_value [] = true
  accepts_addresses max_value (a ∷ addresses) =
      let rest = accepts_addresses max_value addresses in
      elim (sdk.decode a) [
        | none ↦ false
        | some _ ↦
            if str_eq max_value ""
            then rest
            else elim (sdk.decode_big max_value) [ none ↦ false | some _ ↦ rest ]
      ]

  unfoldable pub read_config : List AuthConfig → Bool
  unfolding accepts_addresses
  read_config [] = true
  read_config (ac ∷ acs) = accepts_addresses ac.max_value ac.to_addresses && read_config acs

  -- May the client send to the address? `args.To.Hex()` panics on nil.
  unfoldable pub check_to : AuthConfig → A → Option Bool
  unfolding contains_normalized
  check_to ac args = elim ac.to_addresses [
    | [] ↦ some true
    | a ∷ as' ↦ elim (sdk.to_address args) [
      | none ↦ none
      | some to ↦ some (contains_normalized (a ∷ as') to)
    ]
  ]

  -- May it send the value? `MustDecodeBig` panics on a text that is no number, and
  -- the comparison on nil.
  unfoldable pub check_value : AuthConfig → A → Option Bool
  check_value ac args = if str_eq ac.max_value "" then some true else elim (sdk.value args) [
    | none ↦ none
    | some v ↦ elim (sdk.decode_big ac.max_value) [
      | none ↦ none
      | some max ↦ some (not (ltb max v))
    ]
  ]

  -- The sender is the one that was asked for, if one was.
  unfoldable pub fits_sender : A → String → Bool
  fits_sender args sender = elim (sdk.from_address args) [
    | none ↦ true
    | some from ↦ str_eq from sender
  ]

  -- What is made of a signature.
  unfoldable pub conclude : A → T → Bytes → Outcome
  unfolding fits_sender
  conclude args tx signature = after (sdk.with_signature tx signature) (λ signed_tx.
      after (sdk.sender signed_tx) (λ sender.
        if fits_sender args sender
        then after (sdk.marshal signed_tx) signed
        else invalid "unexpected from address"))

  -- From the transaction on.
  unfoldable pub sign : Provider → String → A → Answer T → Signing
  unfolding conclude
  sign provider key args (failed e) = stop (invalid e)
  sign provider key args (ok tx) = record {
    outcome = after (provider key (sdk.hash tx)) (conclude args tx);
    asked = some (key, sdk.hash tx);
  }

  -- From the checks of the client on.
  unfoldable pub permit : Provider → String → A → Option Bool → Option Bool → Signing
  unfolding sign
  permit provider key args none value = stop panic
  permit provider key args (some false) value = stop (unauthorized "to address not authorized")
  permit provider key args (some true) none = stop panic
  permit provider key args (some true) (some false) = stop (unauthorized "value exceeds maximum")
  permit provider key args (some true) (some true) =
      sign provider key args (sdk.to_transaction args)

  -- `SignTransaction`
  unfoldable pub sign_transaction : List AuthConfig → Provider → String → A → Signing
  unfolding get_auth_config_for_client check_to check_value permit
  sign_transaction auth provider client args = elim (get_auth_config_for_client auth client none) [
    | none ↦ stop forbidden
    | some ac ↦ elim (sdk.check args) [
      | some e ↦ stop (invalid e)
      | none ↦ permit provider ac.key_name args (check_to ac args) (check_value ac args)
    ]
  ]

  -- The end of `SignBlockPayload`.
  unfoldable pub sign_payload : Provider → String → Answer Bytes → Signing
  sign_payload provider key (failed e) = stop (invalid e)
  sign_payload provider key (ok digest) = record {
    outcome = after (provider key digest) signed;
    asked = some (key, digest);
  }

  -- From the check of the arguments on: a nil pointer panics. `Uint64` keeps 64 bits of a chain ID.
  unfoldable pub permit_payload : Provider → AuthConfig → B → Option String → Option ℕ → Signing
  unfolding sign_payload
  permit_payload provider ac args none chain = stop panic
  permit_payload provider ac args (some sender) chain =
      if not (str_eq sender ac.from_address)
      then stop (unauthorized "unexpected from address")
      else elim chain [
        | none ↦ stop panic
        | some id ↦
            if id % u64 == ac.chain_id
            then sign_payload provider ac.key_name (sdk.to_signing_hash args)
            else stop (unauthorized "unexpected chainId")
      ]

  -- `SignBlockPayload`
  unfoldable pub sign_block_payload : List AuthConfig → Provider → String → B → Signing
  unfolding get_auth_config_for_client permit_payload
  sign_block_payload auth provider client args =
      elim (get_auth_config_for_client auth client (sdk.sender_address args)) [
        | none ↦ stop forbidden
        | some ac ↦ elim (sdk.check_payload args) [
          | some e ↦ stop (invalid e)
          | none ↦
              permit_payload provider ac args (sdk.sender_address args) (sdk.payload_chain_id args)
        ]
      ]
