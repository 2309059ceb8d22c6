-- ===== src/Signer/Payload.antt =====
-- op-signer/service: a block payload is signed only for the client, the sender and the chain of an entry.
use infra.Base.{
  ℕ, ◌%◌, u64, ◌≡◌, inl, inr, refl, sym, ap, ◌∙◌, Option, none, some, String, str_eq, eq_iff, List,
  ◌==◌, ==_iff, Bool-cases, Option-cases,
}
use infra.Signer.{Bytes, Answer, failed, ok, AuthConfig, Sdk, Provider}
use infra.Signer.Service.{
  get_auth_config_for_client, sign_payload, permit_payload, sign_block_payload,
}
use infra.Signer.Authorized.{IsEntry, get_auth_config_for_client-IsEntry}

module _ {A T B : Type 0} (sdk : Sdk A T B) where
  sign_payload-asked :
      (provider : Provider) (key : String) (t : Answer Bytes) (asked : String × Bytes)
      → (sign_payload sdk provider key t).asked ≡ some asked
      → (digest : Bytes) × (t ≡ ok digest) × (asked ≡ (key, digest))
  unfolding sign_payload
  sign_payload-asked provider key (failed e) asked h = cc h
  sign_payload-asked provider key (ok digest) asked h = (digest, refl, cc h)

  -- The payload is for this sender and chain.
  abbrev pub IsFor : AuthConfig → Option String → Option ℕ → Type 0
  IsFor ac sender chain =
      (sender ≡ some ac.from_address) × (id : ℕ) × (chain ≡ some id) × (id % u64 ≡ ac.chain_id)

  permit_payload-asked :
      (provider : Provider) (ac : AuthConfig) (args : B) (sender : Option String) (chain : Option ℕ)
      (asked : String × Bytes)
      → (permit_payload sdk provider ac args sender chain).asked ≡ some asked
      → IsFor ac sender chain
        × (digest : Bytes) × (sdk.to_signing_hash args ≡ ok digest)
        × (asked ≡ (ac.key_name, digest))
  unfolding permit_payload
  permit_payload-asked provider ac args none chain asked h = cc h
  permit_payload-asked provider ac args (some sender) chain asked h =
      elim (Bool-cases (str_eq sender ac.from_address)) [
        | inr n ↦ let k : none ≡ some asked = rw (permit_payload, n) at h in cc k
        | inl y ↦ elim (Option-cases chain) [
          | inl e ↦ let k : none ≡ some asked = rw (permit_payload, y, e) at h in cc k
          | inr (id, e) ↦ elim (Bool-cases (id % u64 == ac.chain_id)) [
            | inr n ↦ let k : none ≡ some asked = rw (permit_payload, y, e, n) at h in cc k
            | inl z ↦
                let (digest, made, same) =
                  sign_payload-asked provider ac.key_name (sdk.to_signing_hash args) asked
                    (rw (permit_payload, y, e, z) at h) in
                (
                  (
                    ap some ((eq_iff sender ac.from_address).0 y),
                    id,
                    e,
                    (==_iff (id % u64) ac.chain_id).0 z,
                  ),
                  digest,
                  made,
                  same,
                )
          ]
        ]
      ]

  -- Where `SignBlockPayload` has a digest signed with a key, the client has a name, and the
  -- configuration has an entry for the client with this key, the payload's sender is the address of
  -- this entry and its chain ID, in its last 64 bits, that of the entry; and the digest is that of the
  -- payload.
  pub sign_block_payload-IsFor :
      (auth : List AuthConfig) (provider : Provider) (client : String) (args : B) (key : String)
      (digest : Bytes)
      → (sign_block_payload sdk auth provider client args).asked ≡ some (key, digest)
      → (ac : AuthConfig) × IsEntry auth client ac
        × (ac.key_name ≡ key)
        × IsFor ac (sdk.sender_address args) (sdk.payload_chain_id args)
        × (sdk.to_signing_hash args ≡ ok digest)
  unfolding sign_block_payload
  sign_block_payload-IsFor auth provider client args key digest h =
      elim (Option-cases (get_auth_config_for_client auth client (sdk.sender_address args))) [
        | inl e ↦ let k : none ≡ some (key, digest) = rw (sign_block_payload, e) at h in cc k
        | inr (ac, e) ↦ elim (Option-cases (sdk.check_payload args)) [
          | inr (m, f) ↦
              let k : none ≡ some (key, digest) = rw (sign_block_payload, e, f) at h in cc k
          | inl f ↦
              let (for_it, d, made, same) =
                permit_payload-asked provider ac args (sdk.sender_address args)
                  (sdk.payload_chain_id args) (key, digest) (rw (sign_block_payload, e, f) at h) in
              let (entry, _) =
                get_auth_config_for_client-IsEntry auth client (sdk.sender_address args) ac e in
              (
                ac,
                entry,
                ap (λ (x : String × Bytes). x.0) (sym same),
                for_it,
                made ∙ ap ok (ap (λ (x : String × Bytes). x.1) (sym same)),
              )
        ]
      ]
