-- ===== src/Signer/Config.antt =====
-- op-signer/service: a maximum that is no number, in an entry without addresses.
use infra.Base.{ℕ, ◌≡◌, refl, false, none, some, String, str_eq, List, [], ◌∷◌}
use infra.Signer.{AuthConfig, Sdk, Provider}
use infra.Signer.Service.{
  get_auth_config_for_client, panic, accepts_addresses, read_config, check_to, check_value, permit,
  sign_transaction,
}

-- `ReadConfig` checks a maximum only along with addresses: an entry without addresses does not change
-- what it accepts, and where its maximum is a text that is no number, `SignTransaction` panics on
-- every transaction with a value that a client whose entry it is sends and that passes the check of
-- its arguments.
pub sign_transaction-panic :
    {A T B : Type 0} (sdk : Sdk A T B) (auth others : List AuthConfig) (provider : Provider)
    (client : String) (ac : AuthConfig) (args : A) {v : ℕ}
    → get_auth_config_for_client auth client none ≡ some ac
    → ac.to_addresses ≡ []
    → str_eq ac.max_value "" ≡ false
    → sdk.decode_big ac.max_value ≡ none
    → sdk.check args ≡ none
    → sdk.value args ≡ some v
    → (read_config sdk (ac ∷ others) ≡ read_config sdk others)
      × ((sign_transaction sdk auth provider client args).outcome ≡ panic)
unfolding read_config accepts_addresses sign_transaction check_to check_value permit
sign_transaction-panic sdk auth others provider client ac args entry open_to set_max no_number
      passes valued =
    (
      rw (read_config, open_to, accepts_addresses) refl,
      rw
          (
            sign_transaction, entry, passes, check_to, open_to, check_value, set_max, valued,
            no_number, permit,
          )
          refl,
    )
